-- ===== src/Worker/MarcoLibre.antt =====
-- worker/src/memoria.c: the frame that asignarMarco gives.
use trabajo_practico_de_sist.Comun.{
  bind-some, some_inj, ℕ, ◌≡◌, refl, ap, sym, subst, ◌∙◌, inl, inr, some, false, arith, ◌>>=◌,
  get_elem?, Bool-cases, Option-cases, get_elem?-lt, get_elem?-set_self,
}
use trabajo_practico_de_sist.Worker.Estado.{
  Pagina, PaginaGlobal, Nodo, Entorno, cambiar_pagina, encontrar_tabla_con_file_tag,
}
use trabajo_practico_de_sist.Worker.Marcos.{realizar_escritura_de_bloque}
use trabajo_practico_de_sist.Worker.Victimas.{
  elegir_victima, encontrar_numero_de_pagina, no_tiene_pags_presentes, limpiar_bit, primer_libre,
  escribir_si_modificada, liberar_victima, liberar_marco, asignar_marco,
}
use trabajo_practico_de_sist.Worker.Volcado.{escritura-memoria}
use trabajo_practico_de_sist.Worker.Marcado.{marco_en, Marcado, MismosMarcos, cambiar-MismosMarcos}
use trabajo_practico_de_sist.Worker.Eleccion.{MismosMarcos-refl, elegir_victima-Quitada}
use trabajo_practico_de_sist.Worker.Libres.{
  Libre, Libre-mismos, Quitada-Libre, limpiar_bit-Libre, destruir-mismos, primer_libre_lem,
  sin_bit-Libre,
}

module _ {S : Type 0} (ent : Entorno S) where
  escribir-mismos :
      (v : PaginaGlobal) (num id : ℕ) (p q : Pagina) (s s2 : Nodo S)
      → get_elem? s.memoria.paginas v.pagina ≡ some q
      → p.marco ≡ q.marco
      → escribir_si_modificada ent v num id p s ≡ some s2
      → MismosMarcos s.memoria s2.memoria
  unfolding escribir_si_modificada
  escribir-mismos v num id p q s s2 e m h = elim (Bool-cases p.modificada) [
    | inl si ↦
        let a =
          bind-some (realizar_escritura_de_bloque ent v.file_tag num p.marco id s) _ (rw si at h) in
        let igual = escritura-memoria ent id v.file_tag num p.marco s a.0.0 a.0.1 a.1 in
        let limpia = record p { precencia = false; modificada = false } in
        let t =
          cambiar-MismosMarcos a.0.0.memoria v.pagina q limpia
            (ap (λ x. get_elem? x.paginas v.pagina) igual ∙ e) m in
        subst (λ x. MismosMarcos s.memoria x.memoria) (some_inj a.2)
          (subst (λ x. MismosMarcos x (cambiar_pagina v.pagina limpia a.0.0.memoria)) igual t)
    | inr no' ↦
        subst (λ x. MismosMarcos s.memoria x.memoria) (some_inj (rw no' at h))
          (MismosMarcos-refl s.memoria)
  ]

  liberar_victima-Libre :
      (v : PaginaGlobal) (id k : ℕ) (s s2 : Nodo S)
      → Libre s.memoria k
      → marco_en s.memoria.paginas v ≡ some k
      → liberar_victima ent v id s ≡ some s2
      → Libre s2.memoria k
  unfolding liberar_victima cambiar_pagina limpiar_bit
  liberar_victima-Libre v id k s s2 l e h =
      let t = bind-some (encontrar_tabla_con_file_tag v.file_tag s.memoria) _ h in
      let p = bind-some (get_elem? s.memoria.paginas v.pagina) _ t.2 in
      let n = bind-some (encontrar_numero_de_pagina t.0 p.0 s.memoria) _ p.2 in
      let ausente = record (p.0) { precencia = false } in
      let m1 = cambiar_pagina v.pagina ausente s.memoria in
      let m2 = limpiar_bit p.0.marco m1 in
      let w =
        bind-some (escribir_si_modificada ent v n.0 id p.0 (record s { memoria = m2 })) _ n.2 in
      let z = bind-some (no_tiene_pags_presentes w.0.memoria.paginas t.0.paginas) _ w.2 in
      let suyo : p.0.marco ≡ k = some_inj (sym (ap (λ o. o >>= (λ x. some x.marco)) p.1) ∙ e) in
      let l1 =
        Libre-mismos s.memoria m1 k (cambiar-MismosMarcos s.memoria v.pagina p.0 ausente p.1 refl)
          l in
      let l2 : Libre m2 k =
        subst (Libre m2) suyo (limpiar_bit-Libre m1 p.0.marco (subst (Libre m1) (sym suyo) l1)) in
      let l3 =
        Libre-mismos m2 w.0.memoria k
          (escribir-mismos v n.0 id p.0 ausente (record s { memoria = m2 }) w.0
            (get_elem?-set_self s.memoria.paginas v.pagina ausente
              (get_elem?-lt s.memoria.paginas v.pagina p.1))
            refl w.1)
          l2 in
      elim (Bool-cases z.0) [
        | inl si ↦
            subst (λ x. Libre x.memoria k) (some_inj (rw si at z.2))
              (Libre-mismos w.0.memoria _ k (destruir-mismos t.0.direccion w.0.memoria) l3)
        | inr no' ↦ subst (λ x. Libre x.memoria k) (some_inj (rw no' at z.2)) l3
      ]

  liberar_marco-Libre :
      (id k : ℕ) (s s2 : Nodo S)
      → Marcado s.memoria
      → liberar_marco ent id s ≡ some (k, s2)
      → Libre s2.memoria k
  unfolding liberar_marco
  liberar_marco-Libre id k s s2 h e =
      let a = bind-some (elegir_victima s.memoria.algoritmo s.memoria) _ e in
      let p = bind-some (get_elem? a.0.1.paginas a.0.0.pagina) _ a.2 in
      let f = bind-some (get_elem? (ent.partir a.0.0.file_tag 58) 0) _ p.2 in
      let g = bind-some (get_elem? (ent.partir a.0.0.file_tag 58) 1) _ f.2 in
      let t = bind-some (encontrar_tabla_con_file_tag a.0.0.file_tag a.0.1) _ g.2 in
      let n = bind-some (encontrar_numero_de_pagina t.0 p.0 a.0.1) _ t.2 in
      let w = bind-some (liberar_victima ent a.0.0 id (record s { memoria = a.0.1 })) _ n.2 in
      let suyo = ap (λ o. o >>= (λ x. some x.marco)) p.1 in
      let q =
        Quitada-Libre s.memoria a.0.1 a.0.0 p.0.marco h
          (elegir_victima-Quitada s.memoria.algoritmo s.memoria a.0.1 a.0.0 a.1) suyo in
      subst (λ x. Libre x.1.memoria x.0) (some_inj w.2)
        (liberar_victima-Libre a.0.0 id p.0.marco (record s { memoria = a.0.1 }) w.0 q suyo w.1)

  -- When the frames of the pages in tablaPagGlobal are set in the bitmap, below cantMarcos, and
  -- different, a frame that asignarMarco returns, a free one or that of the victim of LRU or CLOCK-M,
  -- is below cantMarcos and no page that is left in tablaPagGlobal has it, and the frames are marked
  -- as before.
  pub asignar_marco-Libre :
      (id marco : ℕ) (s s' : Nodo S)
      → Marcado s.memoria
      → asignar_marco ent id s ≡ some (marco, s')
      → Libre s'.memoria marco
  unfolding asignar_marco
  asignar_marco-Libre id marco s s' h e =
      elim (Option-cases (primer_libre s.memoria.cant_marcos 0 s.memoria.bitmap)) [
        | inl n ↦ liberar_marco-Libre id marco s s' h (rw (n, asignar_marco) at e)
        | inr (j, hay) ↦
            let l = primer_libre_lem s.memoria.cant_marcos 0 s.memoria.bitmap j hay in
            let igual : l.0 ≡ j = omega (arith, l.1) in
            subst (λ x. Libre x.1.memoria x.0) (some_inj (rw (hay, asignar_marco) at e))
              (sin_bit-Libre s.memoria j h (omega (arith, l.2, igual))
                (ap (get_elem? s.memoria.bitmap) (sym igual) ∙ l.3))
      ]
