-- ===== src/Worker/Victima.antt =====
-- worker/src/memoria.c: the page that elegirVictimaClockM takes, in four rounds of the clock at most.
use trabajo_practico_de_sist.Comun.{
  ℕ, zero, suc, ◌+◌, ◌-◌, ◌≡◌, refl, ap, sym, ◌∙◌, inl, inr, ◌⊎◌, some, none, Bool, true, false,
  not, arith, length, get_elem?, Bool-cases, Option-cases, get_elem?-lt, get_elem?-set_self,
}
use trabajo_practico_de_sist.Worker.Estado.{Memoria, Pagina, PaginaGlobal, cambiar_pagina}
use trabajo_practico_de_sist.Worker.Victimas.{
  aumentar_puntero_clock, elegible, no_elegida, vuelta_clock, vueltas_clock, elegir_victima_clock_m,
}
use trabajo_practico_de_sist.Worker.Reloj.{
  Redonda, Pasa, Tomada, Elige, Redonda-Pasa, Pasa-trans, no_elegida-Pasa, vuelta-paso, tomar,
  vuelta_clock_lem, bajo_puntero,
}

-- The entry `g` and its page `p` are under the clock's hand.
record Bajo (m : Memoria) (g : PaginaGlobal) (p : Pagina) : Type 0 where
  entrada : get_elem? m.tabla_global m.puntero_clock ≡ some g
  pagina : get_elem? m.paginas g.pagina ≡ some p

-- A whole round that took nothing: the hand is where it was, over a page that could not be taken.
record Vuelta (primera : Bool) (m m' : Memoria) (g : PaginaGlobal) (p : Pagina) : Type 0 where
  redonda : Redonda m'
  no_era : elegible primera p ≡ false
  despues : Pagina
  bajo : Bajo m' g despues
  modificada : despues.modificada ≡ p.modificada
  queda_sin_uso : p.uso ≡ false → despues.uso ≡ false
  pierde_uso : primera ≡ false → despues.uso ≡ false

abbrev SinVictima : Bool → Memoria → PaginaGlobal → Pagina → Type 0
SinVictima primera m g p =
    (m' : Memoria) × (vuelta_clock primera (length m.tabla_global) m ≡ some (none, m'))
    × Vuelta primera m m' g p

-- What the first step leaves of the page under the hand.
primer_paso :
    (primera : Bool) (m : Memoria) (g : PaginaGlobal) (p : Pagina)
    → Redonda m
    → Bajo m g p
    → (q : Pagina) × (get_elem?
          (aumentar_puntero_clock (no_elegida primera g.pagina p m)).paginas
          g.pagina
        ≡ some q)
      × (q.modificada ≡ p.modificada)
      × (p.uso ≡ false → q.uso ≡ false)
      × (primera ≡ false → q.uso ≡ false)
unfolding aumentar_puntero_clock no_elegida cambiar_pagina
primer_paso true m g p r b = (p, b.pagina, refl, λ u. u, λ e. absurd (cc))
primer_paso false m g p r b = (
  record p { uso = false },
  get_elem?-set_self m.paginas g.pagina (record p { uso = false })
      (get_elem?-lt m.paginas g.pagina b.pagina),
  refl,
  λ u. refl,
  λ u. refl,
)

-- As many steps as frames bring the hand back.
vuelve :
    (k : ℕ) (m m' : Memoria) → k ≡ m.cant_marcos → Pasa k m m' → m'.puntero_clock ≡ m.puntero_clock
vuelve k m m' h s = elim s.avanza [
  | inl a ↦ absurd (omega (arith, a, h, s.puntero, s.mismos_marcos))
  | inr a ↦ omega (arith, a, h)
]

ronda :
    (primera : Bool) (m : Memoria) (g : PaginaGlobal) (p : Pagina)
    → Redonda m
    → Bajo m g p
    → Elige primera (length m.tabla_global) m ⊎ SinVictima primera m g p
ronda primera m g p r b =
    let k = m.cant_marcos - 1 in
    let n : length m.tabla_global ≡ suc k = omega (arith, r.entradas, r.hay) in
    let ida = ap (λ j. vuelta_clock primera j m) n in
    let m1 = aumentar_puntero_clock (no_elegida primera g.pagina p m) in
    let paso = no_elegida-Pasa primera m g.pagina p r b.pagina in
    elim (Bool-cases (elegible primera p)) [
      | inl si ↦
          let t = tomar primera k m g p b.entrada b.pagina si in inl (t.0, t.1, ida ∙ t.2, t.3)
      | inr no' ↦
          let e : vuelta_clock primera (suc k) m ≡ vuelta_clock primera k m1 =
            vuelta-paso primera k m g p b.entrada b.pagina ∙ rw no' refl in
          elim (vuelta_clock_lem primera k m1 (Redonda-Pasa 1 m m1 r paso)
            (omega (arith, r.hay, paso.mismos_marcos))) [
              | inl t ↦ inl (t.0, t.1, ida ∙ e ∙ t.2, t.3)
              | inr t ↦
                  let todo = Pasa-trans 1 k m m1 t.0 r (omega (arith, r.hay)) paso t.2 in
                  let q = primer_paso primera m g p r b in
                  let q' = (t.2).conserva g.pagina q.0 q.1 in
                  inr (
                    t.0,
                    ida ∙ e ∙ t.1,
                    record {
                      redonda = Redonda-Pasa (1 + k) m t.0 r todo;
                      no_era = no';
                      despues = q'.0;
                      bajo = record {
                        entrada =
                            ap (λ l. get_elem? l t.0.puntero_clock) todo.misma_lista
                            ∙ ap (get_elem? m.tabla_global)
                                (vuelve (1 + k) m t.0 (omega (arith, r.hay)) todo)
                            ∙ b.entrada;
                        pagina = q'.1;
                      };
                      modificada = q'.2 ∙ q.2;
                      queda_sin_uso = λ u. q'.3 (q.3 u);
                      pierde_uso = λ u. q'.3 (q.4 u);
                    },
                  )
            ]
    ]

vueltas-toma :
    (quedan : ℕ) (primera : Bool) (m : Memoria) (v : PaginaGlobal) (m' : Memoria)
    → vuelta_clock primera (length m.tabla_global) m ≡ some (some v, m')
    → vueltas_clock (suc quedan) primera m ≡ some (v, m')
unfolding vueltas_clock
vueltas-toma quedan primera m v m' e = rw e refl

-- What `quedan` rounds do, given how the first of them ends.
vueltas_lem :
    (quedan : ℕ) (primera : Bool) (m : Memoria)
    → Elige primera (length m.tabla_global) m
    → (v : PaginaGlobal) × (m' : Memoria) × (vueltas_clock (suc quedan) primera m ≡ some (v, m'))
      × Tomada v m'
vueltas_lem quedan primera m t = (t.0, t.1, vueltas-toma quedan primera m t.0 t.1 t.2, t.3)

vueltas-otra :
    (quedan : ℕ) (primera : Bool) (m m' : Memoria)
    → vuelta_clock primera (length m.tabla_global) m ≡ some (none, m')
    → vueltas_clock (suc quedan) primera m ≡ vueltas_clock quedan (not primera) m'
unfolding vueltas_clock
vueltas-otra quedan primera m m' e = rw e refl

abbrev Hallada : ℕ → Bool → Memoria → Type 0
Hallada quedan primera m =
    (v : PaginaGlobal) × (m' : Memoria) × (vueltas_clock quedan primera m ≡ some (v, m'))
    × Tomada v m'

otra_ronda :
    (quedan : ℕ) (primera : Bool) (m : Memoria) (g : PaginaGlobal) (p : Pagina)
    → Redonda m
    → Bajo m g p
    → ((m' : Memoria) (s : Vuelta primera m m' g p) → Hallada quedan (not primera) m')
    → Hallada (suc quedan) primera m
otra_ronda quedan primera m g p r b sigue = elim (ronda primera m g p r b) [
  | inl t ↦ vueltas_lem quedan primera m t
  | inr t ↦ let h = sigue t.0 t.2 in (h.0, h.1, vueltas-otra quedan primera m t.0 t.1 ∙ h.2, h.3)
]

-- A page out of use that the first kind of round refuses is taken by the second.
modificada_de : (p : Pagina) → p.uso ≡ false → elegible true p ≡ false → p.modificada ≡ true
unfolding elegible
modificada_de p u e = ground (arith, u, e)

elegible_de : (p : Pagina) → p.uso ≡ false → p.modificada ≡ true → elegible false p ≡ true
unfolding elegible
elegible_de p u e = rw (u, e) refl

cuarta_vuelta :
    (quedan : ℕ) (m : Memoria) (g : PaginaGlobal) (p : Pagina)
    → Redonda m
    → Bajo m g p
    → p.uso ≡ false
    → p.modificada ≡ true
    → Hallada (suc quedan) false m
cuarta_vuelta quedan m g p r b u e =
    otra_ronda quedan false m g p r b (λ m' s. absurd (cc (s.no_era, elegible_de p u e)))

-- More rounds than those that find a victim find the same one.
vueltas-mas :
    (quedan mas : ℕ) (primera : Bool) (m : Memoria) (r : PaginaGlobal × Memoria)
    → vueltas_clock quedan primera m ≡ some r
    → vueltas_clock (quedan + mas) primera m ≡ some r
unfolding vueltas_clock
vueltas-mas zero mas primera m r e = absurd (cc e)
vueltas-mas (suc quedan) mas primera m r e =
    let n : suc quedan + mas ≡ suc (quedan + mas) = omega arith in
    ap (λ k. vueltas_clock k primera m) n
    ∙ elim (Option-cases (vuelta_clock primera (length m.tabla_global) m)) [
      | inl c ↦ absurd (cc (e, c))
      | inr ((none, m1), c) ↦
          rw c (
            vueltas-mas quedan mas (not primera) m1 r
              (sym (vueltas-otra quedan primera m m1 c) ∙ e))
      | inr ((some v, m1), c) ↦ rw c (sym (vueltas-toma quedan primera m v m1 c) ∙ e)
    ]

hallar : (m : Memoria) (g : PaginaGlobal) (p : Pagina) → Redonda m → Bajo m g p → Hallada 4 true m
hallar m g p r b = otra_ronda 3 true m g p r b (λ m1 s1.
    otra_ronda 2 false m1 g s1.despues s1.redonda s1.bajo (λ m2 s2.
      otra_ronda 1 true m2 g s2.despues s2.redonda s2.bajo (λ m3 s3.
        cuarta_vuelta 0 m3 g s3.despues s3.redonda s3.bajo (s3.queda_sin_uso (s2.pierde_uso refl))
          (s3.modificada ∙ modificada_de s2.despues (s2.pierde_uso refl) s3.no_era))))

-- When the list of CLOCK-M has one entry for each frame, each with a page, and the hand is below the
-- number of frames, then elegirVictimaClockM takes an entry within its first four rounds, its page
-- is not in use, and any larger number of rounds gives the same.
pub elegir_victima_clock_m-Tomada :
    (m : Memoria) (mas : ℕ)
    → Redonda m
    → (v : PaginaGlobal) × (m' : Memoria) × (elegir_victima_clock_m m ≡ some (v, m'))
      × (vueltas_clock (4 + mas) true m ≡ some (v, m'))
      × Tomada v m'
unfolding elegir_victima_clock_m
elegir_victima_clock_m-Tomada m mas r =
    let b = bajo_puntero m r in
    let h = hallar m b.0 b.1 r (record { entrada = b.2; pagina = b.3 }) in
    (h.0, h.1, h.2, vueltas-mas 4 mas true m (h.0, h.1) h.2, h.3)
