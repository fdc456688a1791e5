-- ===== src/Worker/Reloj.antt =====
-- worker/src/memoria.c: the search of CLOCK-M (elegirVictimaClockM) ends.
use trabajo_practico_de_sist.Comun.{
  ℕ, zero, suc, ◌+◌, ◌≤◌, ◌<◌, ◌≡◌, refl, ap, sym, subst, ◌∙◌, inl, inr, ◌⊎◌, some, none, Bool,
  true, false, arith, length, get_elem?, set, if◌then◌else◌, Bool-cases, ◌==◌, get_elem?-total,
  get_elem?-lt, get_elem?-set_self, get_elem?-set_ne, length-set,
}
use trabajo_practico_de_sist.Worker.Estado.{Memoria, Pagina, PaginaGlobal, cambiar_pagina, quitar}
use trabajo_practico_de_sist.Worker.Victimas.{
  aumentar_puntero_clock, elegible, no_elegida, vuelta_clock,
}

-- The list that the clock goes round: as many entries as frames, each with a page of the heap.
pub record Redonda (m : Memoria) : Type 0 where
  pub hay : 0 < m.cant_marcos
  pub entradas : length m.tabla_global ≡ m.cant_marcos
  pub puntero : m.puntero_clock < m.cant_marcos
  pub con_pagina :
      (i : ℕ) (g : PaginaGlobal) → get_elem? m.tabla_global i ≡ some g → g.pagina < length m.paginas

-- What a round does in `k` steps that take nothing: pages only lose their mark of use.
pub record Pasa (k : ℕ) (m m' : Memoria) : Type 0 where
  pub misma_lista : m'.tabla_global ≡ m.tabla_global
  pub mismos_marcos : m'.cant_marcos ≡ m.cant_marcos
  pub mismo_heap : length m'.paginas ≡ length m.paginas
  pub puntero : m'.puntero_clock < m'.cant_marcos
  pub avanza :
      (m'.puntero_clock ≡ m.puntero_clock + k)
      ⊎ (m'.puntero_clock + m.cant_marcos ≡ m.puntero_clock + k)
  pub conserva :
      (a : ℕ) (p : Pagina)
      → get_elem? m.paginas a ≡ some p
      → (p' : Pagina) × (get_elem? m'.paginas a ≡ some p')
        × (p'.modificada ≡ p.modificada)
        × (p.uso ≡ false → p'.uso ≡ false)

pub Redonda-Pasa : (k : ℕ) (m m' : Memoria) → Redonda m → Pasa k m m' → Redonda m'
Redonda-Pasa k m m' r s = record {
  hay = omega (arith, r.hay, s.mismos_marcos);
  entradas = ap length s.misma_lista ∙ r.entradas ∙ sym s.mismos_marcos;
  puntero = s.puntero;
  con_pagina = λ i g e.
      omega
        (arith, r.con_pagina i g (ap (λ l. get_elem? l i) (sym s.misma_lista) ∙ e), s.mismo_heap);
}

Pasa-nada : (m : Memoria) → Redonda m → Pasa 0 m m
Pasa-nada m r = record {
  misma_lista = refl;
  mismos_marcos = refl;
  mismo_heap = refl;
  puntero = r.puntero;
  avanza = inl (omega arith);
  conserva = λ a p e. (p, e, refl, λ u. u);
}

pub Pasa-trans :
    (j k : ℕ) (m m1 m2 : Memoria)
    → Redonda m
    → j + k ≤ m.cant_marcos
    → Pasa j m m1
    → Pasa k m1 m2
    → Pasa (j + k) m m2
Pasa-trans j k m m1 m2 r le s t = record {
  misma_lista = t.misma_lista ∙ s.misma_lista;
  mismos_marcos = t.mismos_marcos ∙ s.mismos_marcos;
  mismo_heap = t.mismo_heap ∙ s.mismo_heap;
  puntero = t.puntero;
  avanza = elim s.avanza [
    | inl a ↦ elim t.avanza [
      | inl b ↦ inl (omega (arith, a, b))
      | inr b ↦ inr (omega (arith, a, b, s.mismos_marcos))
    ]
    | inr a ↦ elim t.avanza [
      | inl b ↦ inr (omega (arith, a, b, s.mismos_marcos))
      | inr b ↦ absurd (omega (arith, a, b, s.mismos_marcos, r.puntero, le))
    ]
  ];
  conserva = λ a p e.
      let c = s.conserva a p e in
      let d = t.conserva a c.0 c.1 in (d.0, d.1, d.2 ∙ c.2, λ u. d.3 (c.3 u));
}

-- A page that a round does not take is left as it was, or without its mark of use.
pub no_elegida-Pasa :
    (primera : Bool) (m : Memoria) (dir : ℕ) (p : Pagina)
    → Redonda m
    → get_elem? m.paginas dir ≡ some p
    → Pasa 1 m (aumentar_puntero_clock (no_elegida primera dir p m))
unfolding aumentar_puntero_clock no_elegida cambiar_pagina
no_elegida-Pasa true m dir p r e = record {
  misma_lista = refl;
  mismos_marcos = refl;
  mismo_heap = refl;
  puntero = ground (arith, r.puntero, r.hay);
  avanza = ground (arith, r.puntero);
  conserva = λ a q f. (q, f, refl, λ u. u);
}
no_elegida-Pasa false m dir p r e = record {
  misma_lista = refl;
  mismos_marcos = refl;
  mismo_heap = length-set m.paginas dir (record p { uso = false });
  puntero = ground (arith, r.puntero, r.hay);
  avanza = ground (arith, r.puntero);
  conserva = λ a q f. elim (Bool-cases (a == dir)) [
    | inl si ↦
        let d : a ≡ dir = ground arith in
        (
          record p { uso = false },
          ap (get_elem? (set m.paginas dir (record p { uso = false }))) d
              ∙ get_elem?-set_self m.paginas dir (record p { uso = false })
                  (get_elem?-lt m.paginas dir e),
          ap (λ o. elim o [ none ↦ false | some x ↦ x.modificada ])
              (sym e ∙ ap (get_elem? m.paginas) (sym d) ∙ f),
          λ u. refl,
        )
    | inr no' ↦ (
      q,
      get_elem?-set_ne m.paginas (record p { uso = false }) (λ i. ground (arith, no', i)) ∙ f,
      refl,
      λ u. u,
    )
  ];
}

-- A victim that a round takes: its page is in the heap and its mark of use is off.
pub record Tomada (v : PaginaGlobal) (m : Memoria) : Type 0 where
  pub pagina : Pagina
  pub en_heap : get_elem? m.paginas v.pagina ≡ some pagina
  pub sin_uso : pagina.uso ≡ false

-- How a round of `k` steps ends: with a victim (Elige), or after all its steps.
abbrev pub Elige : Bool → ℕ → Memoria → Type 0
Elige primera k m =
    (v : PaginaGlobal) × (m' : Memoria) × (vuelta_clock primera k m ≡ some (some v, m'))
    × Tomada v m'

abbrev pub Termina : Bool → ℕ → Memoria → Type 0
Termina primera k m =
    Elige primera k m
    ⊎ ((m' : Memoria) × (vuelta_clock primera k m ≡ some (none, m')) × Pasa k m m')

elegible-uso : (primera : Bool) (p : Pagina) → elegible primera p ≡ true → p.uso ≡ false
unfolding elegible
elegible-uso true p e = ground (arith, e)
elegible-uso false p e = ground (arith, e)

-- The entry under the clock's hand and its page.
pub bajo_puntero :
    (m : Memoria)
    → Redonda m
    → (g : PaginaGlobal) × (p : Pagina) × (get_elem? m.tabla_global m.puntero_clock ≡ some g)
      × (get_elem? m.paginas g.pagina ≡ some p)
bajo_puntero m r =
    let g = get_elem?-total m.tabla_global m.puntero_clock (omega (arith, r.puntero, r.entradas)) in
    let p = get_elem?-total m.paginas g.0.pagina (r.con_pagina m.puntero_clock g.0 g.1) in
    (g.0, p.0, g.1, p.1)

-- A step of a round, given what is under the hand.
pub vuelta-paso :
    (primera : Bool) (k : ℕ) (m : Memoria) (g : PaginaGlobal) (p : Pagina)
    → get_elem? m.tabla_global m.puntero_clock ≡ some g
    → get_elem? m.paginas g.pagina ≡ some p
    → vuelta_clock primera (suc k) m ≡ (
        if elegible primera p
        then some (
          some g,
          aumentar_puntero_clock
              (record m { tabla_global = quitar m.tabla_global m.puntero_clock }),
        )
        else vuelta_clock primera k (aumentar_puntero_clock (no_elegida primera g.pagina p m)))
unfolding vuelta_clock
vuelta-paso primera k m g p e f = rw (e, f) refl

pub tomar :
    (primera : Bool) (k : ℕ) (m : Memoria) (g : PaginaGlobal) (p : Pagina)
    → get_elem? m.tabla_global m.puntero_clock ≡ some g
    → get_elem? m.paginas g.pagina ≡ some p
    → elegible primera p ≡ true
    → Elige primera (suc k) m
unfolding aumentar_puntero_clock
tomar primera k m g p e f si = (
  g,
  aumentar_puntero_clock (record m { tabla_global = quitar m.tabla_global m.puntero_clock }),
  vuelta-paso primera k m g p e f ∙ rw si refl,
  record { pagina = p; en_heap = f; sin_uso = elegible-uso primera p si },
)

-- A round whose number of steps is at most that of the frames takes a victim or does all its steps.
pub vuelta_clock_lem :
    (primera : Bool) (k : ℕ) (m : Memoria) → Redonda m → k ≤ m.cant_marcos → Termina primera k m
unfolding vuelta_clock
vuelta_clock_lem primera zero m r h = inr (m, refl, Pasa-nada m r)
vuelta_clock_lem primera (suc k) m r h =
    let b = bajo_puntero m r in
    let m1 = aumentar_puntero_clock (no_elegida primera b.0.pagina b.1 m) in
    let paso = no_elegida-Pasa primera m b.0.pagina b.1 r b.3 in
    elim (Bool-cases (elegible primera b.1)) [
      | inl si ↦ inl (tomar primera k m b.0 b.1 b.2 b.3 si)
      | inr no' ↦
          let e : vuelta_clock primera (suc k) m ≡ vuelta_clock primera k m1 =
            vuelta-paso primera k m b.0 b.1 b.2 b.3 ∙ rw no' refl in
          elim (vuelta_clock_lem primera k m1 (Redonda-Pasa 1 m m1 r paso)
            (omega (arith, h, paso.mismos_marcos))) [
              | inl t ↦ inl (t.0, t.1, e ∙ t.2, t.3)
              | inr t ↦ inr (
                t.0,
                e ∙ t.1,
                subst (λ j. Pasa j m t.0) (omega arith)
                    (Pasa-trans 1 k m m1 t.0 r (omega (arith, h)) paso t.2),
              )
            ]
    ]
