-- ===== src/Worker/Libres.antt =====
-- worker/src/memoria.c: frames that no entry of tablaPagGlobal has.
use trabajo_practico_de_sist.Comun.{
  some_inj, ℕ, zero, suc, ◌+◌, ◌<◌, ◌≡◌, ◌≢◌, refl, ap, sym, subst, ◌∙◌, List, [], ◌∷◌, some, Bool,
  true, false, arith, get_elem?, set, All, get_elem?-set_ne,
}
use trabajo_practico_de_sist.Utils.Separados.{All-map}
use trabajo_practico_de_sist.Worker.Estado.{
  PaginaGlobal, Memoria, quitar, destruir_tabla_de_paginas,
}
use trabajo_practico_de_sist.Worker.Victimas.{limpiar_bit, primer_libre}
use trabajo_practico_de_sist.Worker.Marcado.{
  marco_en, Distintos, Ocupado, Marcado, MismosMarcos, Marcado-mismos, All-quitar, Distintos-quitar,
  All-get, quitado-Ajeno,
}
use trabajo_practico_de_sist.Worker.Eleccion.{Quitada}

-- The frames are marked, and `marco` is one that no entry of tablaPagGlobal has.
pub record Libre (m : Memoria) (marco : ℕ) : Type 0 where
  pub marcado : Marcado m
  pub entra : marco < m.cant_marcos
  pub de_nadie : All (λ g. marco_en m.paginas g ≢ some marco) m.tabla_global

pub Libre-mismos : (m m' : Memoria) (k : ℕ) → MismosMarcos m m' → Libre m k → Libre m' k
Libre-mismos m m' k s l = record {
  marcado = Marcado-mismos m m' s l.marcado;
  entra = omega (arith, l.entra, s.cant);
  de_nadie =
      subst (All (λ g. marco_en m'.paginas g ≢ some k)) (sym s.lista)
        (All-map m.tabla_global (λ g n i. n (sym (s.marcos g) ∙ i)) l.de_nadie);
}

-- The victim's frame is nobody's once the victim is out of the list.
pub Quitada-Libre :
    (m m' : Memoria) (v : PaginaGlobal) (k : ℕ)
    → Marcado m
    → Quitada m m' v
    → marco_en m'.paginas v ≡ some k
    → Libre m' k
Quitada-Libre m m' v k h q e =
    let a = Marcado-mismos m q.antes q.mismos h in
    let quedan = quitar q.antes.tabla_global q.indice in
    let ajenos =
      quitado-Ajeno q.antes.paginas q.antes.tabla_global q.indice v a.distintos q.estaba in
    let suyo = All-get (Ocupado q.antes) q.antes.tabla_global q.indice a.ocupados q.estaba in
    let k' : suyo.0 ≡ k = some_inj (sym suyo.1 ∙ ap (λ hp. marco_en hp v) (sym q.heap) ∙ e) in
    record {
      marcado = record {
        ocupados = subst (All (Ocupado m')) (sym q.lista) (
            All-map quedan
              (λ g o. (
                o.0,
                ap (λ hp. marco_en hp g) q.heap ∙ o.1,
                omega (arith, o.2, q.cant),
                ap (λ b. get_elem? b o.0) q.bitmap ∙ o.3,
              ))
              (All-quitar (Ocupado q.antes) q.antes.tabla_global q.indice a.ocupados));
        distintos = subst (Distintos m'.paginas) (sym q.lista) (
            subst (λ hp. Distintos hp quedan) (sym q.heap)
              (Distintos-quitar q.antes.paginas q.antes.tabla_global q.indice a.distintos));
      };
      entra = omega (arith, suyo.2, k', q.cant);
      de_nadie = subst (All (λ g. marco_en m'.paginas g ≢ some k)) (sym q.lista) (
          All-map quedan
            (λ g n i. n (ap (λ hp. marco_en hp g) (sym q.heap) ∙ i ∙ ap some (sym k') ∙ sym suyo.1))
            ajenos);
    }

-- The bit of a frame that is nobody's is cleared.
pub limpiar_bit-Libre : (m : Memoria) (k : ℕ) → Libre m k → Libre (limpiar_bit k m) k
unfolding limpiar_bit
limpiar_bit-Libre m k l = record {
  marcado = record {
    ocupados = todos m.tabla_global l.de_nadie l.marcado.ocupados;
    distintos = l.marcado.distintos;
  };
  entra = l.entra;
  de_nadie = l.de_nadie;
}
  where
    todos :
        (gs : List PaginaGlobal)
        → All (λ g. marco_en m.paginas g ≢ some k) gs
        → All (Ocupado m) gs
        → All (Ocupado (record m { bitmap = set m.bitmap k false })) gs
    todos [] n o = tt
    todos (g ∷ gs) n o = (
      (
        o.0.0,
        o.0.1,
        o.0.2,
        get_elem?-set_ne m.bitmap false (λ i. n.0 (o.0.1 ∙ ap some (sym i))) ∙ o.0.3,
      ),
      todos gs n.1 o.1,
    )

pub destruir-mismos : (d : ℕ) (m : Memoria) → MismosMarcos m (destruir_tabla_de_paginas d m)
unfolding destruir_tabla_de_paginas
destruir-mismos d m = record { cant = refl; bitmap = refl; lista = refl; marcos = λ g. refl }

pub primer_libre_lem :
    (n i : ℕ) (bits : List Bool) (j : ℕ)
    → primer_libre n i bits ≡ some j
    → (d : ℕ) × (j ≡ i + d) × (d < n) × (get_elem? bits d ≡ some false)
unfolding primer_libre
primer_libre_lem zero i bits j h = absurd (cc h)
primer_libre_lem (suc n) i [] j h = absurd (cc h)
primer_libre_lem (suc n) i (false ∷ bits) j h = (0, omega (arith, some_inj h), omega arith, refl)
primer_libre_lem (suc n) i (true ∷ bits) j h =
    let r = primer_libre_lem n (i + 1) bits j h in
    (suc r.0, omega (arith, r.1), omega (arith, r.2), r.3)

-- A frame whose bit is clear is nobody's.
pub sin_bit-Libre :
    (m : Memoria) (k : ℕ)
    → Marcado m
    → k < m.cant_marcos
    → get_elem? m.bitmap k ≡ some false
    → Libre m k
sin_bit-Libre m k h lt e = record {
  marcado = h;
  entra = lt;
  de_nadie =
      All-map m.tabla_global
        (λ g o i. absurd (cc (e, o.3, ap (get_elem? m.bitmap) (some_inj (sym o.1 ∙ i)))))
        h.ocupados;
}
