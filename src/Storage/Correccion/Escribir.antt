-- ===== src/Storage/Correccion/Escribir.antt =====
-- operaciones.c, writeBlock.
use trabajo_practico_de_sist.Comun.{
  ℕ, ◌<◌, ◌≤◌, ◌≡◌, ◌⊎◌, refl, sym, ◌∙◌, List, Option, none, some, true, false, length, length-take,
  take, set, get_elem?, get_elem?-total, arith, inl, inr, ◌==◌, Bool-cases, subst,
}
use trabajo_practico_de_sist.Utils.Estructuras.{Instruccion, error_insuficiente}
use trabajo_practico_de_sist.Storage.Estado.{Externos, Superblock, work_in_progress, Fs}
use trabajo_practico_de_sist.Storage.Estado.Laws.{poner-same}
use trabajo_practico_de_sist.Storage.Enlaces.{refs, nlink}
use trabajo_practico_de_sist.Storage.Enlaces.Laws.{destino-get_elem?}
use trabajo_practico_de_sist.Storage.Bloques.{con_bloque, tiene_enlaces, buscar_bloque_libre}
use trabajo_practico_de_sist.Storage.Bloques.Laws.{
  EsPrimero, buscar_bloque_libre-EsPrimero, escribir_bloque-eq,
}
use trabajo_practico_de_sist.Storage.Meta.Laws.{obtener_bloques_meta-eq}
use trabajo_practico_de_sist.Storage.Verificar.{file_de, tag_de}
use trabajo_practico_de_sist.Storage.Operaciones.Base.{enviar_respuesta_a_worker}
use trabajo_practico_de_sist.Storage.Operaciones.Contenido.{
  texto_insuficiente, escribir_en_libre, escribir_en, write_block,
}
use trabajo_practico_de_sist.Storage.Invariante.Enlace.{refs-destino}
use trabajo_practico_de_sist.Storage.Invariante.Escritura.{Nucleo-escribir, escribir_en_libre-Sigue}
use trabajo_practico_de_sist.Storage.Invariante.Duplicado.{set-same}
use trabajo_practico_de_sist.Storage.Invariante.Bien.{Bien, Encontrado}
use trabajo_practico_de_sist.Storage.Invariante.Casos.{write_block-Caso}
use trabajo_practico_de_sist.Storage.Correccion.Vista.{exito, Resultado, rechazado}
use trabajo_practico_de_sist.Storage.Correccion.Leer.{bloque-Guardado}
use trabajo_practico_de_sist.Storage.Correccion.Escritura.{
  bloque_de, SinHash, Escrito, SinEspacio, terminar,
}

module _ {B : Type 0} (ext : Externos B) (sb : Superblock) where
  en_el_lugar :
      (ins : Instruccion) (s : Fs B) (e : Encontrado s (file_de ins) (tag_de ins)) (b : ℕ)
      → Bien ext sb s
      → e.meta.estado ≡ work_in_progress
      → get_elem? e.meta.bloques ins.nro_bloque ≡ some b
      → sb.tam_bloque ≤ length ins.contenido
      → refs b s.tags ≡ 1
      → ((h : List ℕ) → s.indice h ≡ some b → ⊥)
      → let s' = record s { fisicos = con_bloque b (take sb.tam_bloque ins.contenido) s.fisicos } in
        Bien ext sb s' × Escrito ext sb ins s s' (exito sb)
  en_el_lugar ins s e b w wip hb hc uno sin =
      terminar ext sb ins s (record s { fisicos = con_bloque b c s.fisicos }) e b b e.dir
        e.meta.bloques w wip hb (sym (set-same e.meta.bloques ins.nro_bloque hb))
        (rw (← e.tiene, ← e.enlaces) refl)
        (Nucleo-escribir ext sb s b c (length-take sb.tam_bloque ins.contenido hc) sin w.nucleo)
        (sym (poner-same (file_de ins) (tag_de ins) s.tags {d = e.dir} e.hay)) refl refl
        (ground (arith, uno))
    where
      c : List ℕ
      c = take sb.tam_bloque ins.contenido

  en_libre :
      (ins : Instruccion) (s : Fs B) (e : Encontrado s (file_de ins) (tag_de ins)) (b libre : ℕ)
      → Bien ext sb s
      → e.meta.estado ≡ work_in_progress
      → get_elem? e.meta.bloques ins.nro_bloque ≡ some b
      → sb.tam_bloque ≤ length ins.contenido
      → libre < ext.max_bit s.bitmap
      → ext.test s.bitmap libre ≡ false
      → (s' : Fs B) × (escribir_en_libre ext sb libre ins e.meta.bloques b s ≡ some s')
        × Bien ext sb s'
        × Escrito ext sb ins s s' (exito sb)
  en_libre ins s e b libre w wip hb hc lt free =
      let (s', eq, g) =
        escribir_en_libre-Sigue ext sb s ins libre b e.dir e.meta w.nucleo e.hay e.tiene e.enlaces
          hb hc lt free in
      let (bien, hecho) =
        terminar ext sb ins s s' e b libre _ (set e.meta.bloques ins.nro_bloque libre) w wip hb refl
          refl g.nucleo g.tags g.dirs g.fisicos
          (ground (
            arith,
            w.nucleo.ocupados libre lt,
            free,
            refs-destino ext sb (file_de ins) (tag_de ins) ins.nro_bloque b s.tags e.dir e.hay
                (rw (e.enlaces) (destino-get_elem? ins.nro_bloque e.meta.bloques ∙ hb)),
          )) in
      (s', eq, bien, hecho)

  buscar :
      (ins : Instruccion) (s : Fs B) (e : Encontrado s (file_de ins) (tag_de ins)) (b : ℕ)
      (cb : List ℕ)
      → Bien ext sb s
      → e.meta.estado ≡ work_in_progress
      → get_elem? e.meta.bloques ins.nro_bloque ≡ some b
      → sb.tam_bloque ≤ length ins.contenido
      → s.fisicos b ≡ some cb
      → nlink b s.tags == 2 ≡ false
      → (libre : Option ℕ) → buscar_bloque_libre ext s ≡ libre
      → Resultado ext sb ins s
          (escribir_en ext sb b ins e.meta.bloques s)
          (λ s' r. Escrito ext sb ins s s' r ⊎ SinEspacio ext sb ins s s' r)
  unfolding escribir_en tiene_enlaces enviar_respuesta_a_worker
  buscar ins s e b cb w wip hb hc fb dos none q =
      let p =
        subst (EsPrimero ext s.bitmap 0 (ext.max_bit s.bitmap)) q
          (buscar_bloque_libre-EsPrimero ext s) in
      (
        s,
        enviar_respuesta_a_worker sb error_insuficiente none (texto_insuficiente ext sb ins),
        rw (tiene_enlaces, fb, dos, q) refl,
        w,
        inr (inr (refl, refl, λ j lt. p j (omega arith) lt)),
      )
  buscar ins s e b cb w wip hb hc fb dos (some libre) q =
      let p =
        subst (EsPrimero ext s.bitmap 0 (ext.max_bit s.bitmap)) q
          (buscar_bloque_libre-EsPrimero ext s) in
      let (s', eq, bien, hecho) = en_libre ins s e b libre w wip hb hc p.1 p.2 in
      (s', exito sb, rw (tiene_enlaces, fb, dos, q, eq) refl, bien, inr (inl hecho))

  escribir :
      (ins : Instruccion) (s : Fs B) (e : Encontrado s (file_de ins) (tag_de ins)) (b : ℕ)
      → Bien ext sb s
      → e.meta.estado ≡ work_in_progress
      → get_elem? e.meta.bloques ins.nro_bloque ≡ some b
      → sb.tam_bloque ≤ length ins.contenido
      → SinHash ins s
      → Resultado ext sb ins s
          (escribir_en ext sb b ins e.meta.bloques s)
          (λ s' r. Escrito ext sb ins s s' r ⊎ SinEspacio ext sb ins s s' r)
  unfolding escribir_en nlink tiene_enlaces enviar_respuesta_a_worker
  escribir ins s e b w wip hb hc sin =
      let (cb, fb, _) =
        bloque-Guardado ext sb s (file_de ins) (tag_de ins) e ins.nro_bloque b w hb in
      elim (Bool-cases (refs b s.tags == 1)) [
        | inl uno ↦
            let u : refs b s.tags ≡ 1 = ground arith in
            let dos : nlink b s.tags == 2 ≡ true = ground arith in
            let mio : bloque_de ins s ≡ some b = rw (e.hay, e.tiene) hb in
            let (bien, hecho) = en_el_lugar ins s e b w wip hb hc u (λ h. sin h b mio u) in
            (
              _,
              exito sb,
              rw (tiene_enlaces, fb, dos, escribir_bloque-eq ext sb ins b s hc) refl,
              bien,
              inr (inl hecho),
            )
        | inr mas ↦
            let dos : nlink b s.tags == 2 ≡ false = ground arith in
            buscar ins s e b cb w wip hb hc fb dos (buscar_bloque_libre ext s) refl
      ]

  -- WRITE of a whole block always ends and keeps the invariant, if no hash is kept for a block that
  -- it writes in place. Unless it is rejected, which changes nothing, either the tag was in progress
  -- and has the new contents in this block, the others being as they were, and so is every other
  -- file:tag, those that shared the block too; or all the bits of the bitmap are set, the reply
  -- says that there is no space, and nothing changed.
  pub write_block-Escrito :
      (ins : Instruccion) (s : Fs B)
      → Bien ext sb s
      → sb.tam_bloque ≤ length ins.contenido
      → SinHash ins s
      → Resultado ext sb ins s
          (write_block ext sb ins s)
          (λ s' r. Escrito ext sb ins s s' r ⊎ SinEspacio ext sb ins s s' r)
  unfolding write_block
  write_block-Escrito ins s w hc sin = elim (write_block-Caso ext sb s ins w) [
    | inr (falta, e) ↦ rechazado ext sb ins s _ _ _ falta w e
    | inl (va, (e, wip, lt)) ↦
        let (b, hb) = get_elem?-total e.meta.bloques ins.nro_bloque lt in
        rw (va, obtener_bloques_meta-eq (file_de ins) (tag_de ins) s e.hay e.tiene, hb)
          (escribir ins s e b w wip hb hc sin)
  ]
