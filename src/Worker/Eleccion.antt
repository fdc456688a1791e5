-- ===== src/Worker/Eleccion.antt =====
-- worker/src/memoria.c: what the choice of a victim does to tablaPagGlobal.
use trabajo_practico_de_sist.Comun.{
  bind-some, some_inj, ℕ, zero, suc, ◌≡◌, refl, subst, inl, inr, Option, some, none, Bool, true,
  false, not, get_elem?, Bool-cases, Option-cases, length,
}
use trabajo_practico_de_sist.Worker.Estado.{
  Algoritmo, lru, clock_m, otro, Pagina, PaginaGlobal, Memoria, quitar, cambiar_pagina,
}
use trabajo_practico_de_sist.Worker.Victimas.{
  aumentar_puntero_clock, elegir_victima_lru, elegible, no_elegida, vuelta_clock, vueltas_clock,
  elegir_victima_clock_m, elegir_victima,
}
use trabajo_practico_de_sist.Worker.Marcado.{MismosMarcos, MismosMarcos-trans, cambiar-MismosMarcos}

-- The victim is taken out of tablaPagGlobal; before that, no frame changes.
pub record Quitada (m m' : Memoria) (v : PaginaGlobal) : Type 0 where
  pub antes : Memoria
  pub mismos : MismosMarcos m antes
  pub indice : ℕ
  pub estaba : get_elem? antes.tabla_global indice ≡ some v
  pub cant : m'.cant_marcos ≡ antes.cant_marcos
  pub bitmap : m'.bitmap ≡ antes.bitmap
  pub heap : m'.paginas ≡ antes.paginas
  pub lista : m'.tabla_global ≡ quitar antes.tabla_global indice

pub MismosMarcos-refl : (m : Memoria) → MismosMarcos m m
MismosMarcos-refl m = record { cant = refl; bitmap = refl; lista = refl; marcos = λ g. refl }

Quitada-trans :
    (a b c : Memoria) (v : PaginaGlobal) → MismosMarcos a b → Quitada b c v → Quitada a c v
Quitada-trans a b c v h q = record {
  antes = q.antes;
  mismos = MismosMarcos-trans a b q.antes h q.mismos;
  indice = q.indice;
  estaba = q.estaba;
  cant = q.cant;
  bitmap = q.bitmap;
  heap = q.heap;
  lista = q.lista;
}

no_elegida-mismos :
    (primera : Bool) (m : Memoria) (d : ℕ) (p : Pagina)
    → get_elem? m.paginas d ≡ some p
    → MismosMarcos m (aumentar_puntero_clock (no_elegida primera d p m))
unfolding aumentar_puntero_clock no_elegida cambiar_pagina
no_elegida-mismos true m d p e = record {
  cant = refl;
  bitmap = refl;
  lista = refl;
  marcos = λ g. refl;
}
no_elegida-mismos false m d p e =
    let s = cambiar-MismosMarcos m d p (record p { uso = false }) e refl in
    record { cant = s.cant; bitmap = s.bitmap; lista = s.lista; marcos = s.marcos }

Vuelta : Memoria → Option PaginaGlobal → Memoria → Type 0
Vuelta m none m' = MismosMarcos m m'
Vuelta m (some v) m' = Quitada m m' v

Vuelta-trans :
    (a b c : Memoria) (r : Option PaginaGlobal) → MismosMarcos a b → Vuelta b r c → Vuelta a r c
unfolding Vuelta
Vuelta-trans a b c none h v = MismosMarcos-trans a b c h v
Vuelta-trans a b c (some g) h v = Quitada-trans a b c g h v

vuelta_clock-Vuelta :
    (primera : Bool) (k : ℕ) (m m' : Memoria) (r : Option PaginaGlobal)
    → vuelta_clock primera k m ≡ some (r, m')
    → Vuelta m r m'
unfolding vuelta_clock aumentar_puntero_clock Vuelta
vuelta_clock-Vuelta primera zero m m' r h =
    subst (λ x. Vuelta m x.0 x.1) (some_inj h) (MismosMarcos-refl m)
vuelta_clock-Vuelta primera (suc k) m m' r h =
    let a = bind-some (get_elem? m.tabla_global m.puntero_clock) _ h in
    let b = bind-some (get_elem? m.paginas a.0.pagina) _ a.2 in
    let m1 = aumentar_puntero_clock (no_elegida primera a.0.pagina b.0 m) in
    elim (Bool-cases (elegible primera b.0)) [
      | inl si ↦
          subst (λ x. Vuelta m x.0 x.1) (some_inj (rw si at b.2))
            (record {
              antes = m;
              mismos = MismosMarcos-refl m;
              indice = m.puntero_clock;
              estaba = a.1;
              cant = refl;
              bitmap = refl;
              heap = refl;
              lista = refl;
            })
      | inr no' ↦
          Vuelta-trans m m1 m' r (no_elegida-mismos primera m a.0.pagina b.0 b.1)
            (vuelta_clock-Vuelta primera k m1 m' r (rw no' at b.2))
    ]

vueltas_clock-Quitada :
    (quedan : ℕ) (primera : Bool) (m m' : Memoria) (v : PaginaGlobal)
    → vueltas_clock quedan primera m ≡ some (v, m')
    → Quitada m m' v
unfolding vueltas_clock Vuelta
vueltas_clock-Quitada zero primera m m' v h = absurd (cc h)
vueltas_clock-Quitada (suc quedan) primera m m' v h =
    let a = bind-some (vuelta_clock primera (length m.tabla_global) m) _ h in
    let w = vuelta_clock-Vuelta primera (length m.tabla_global) m a.0.1 a.0.0 a.1 in
    elim (Option-cases a.0.0) [
      | inl n ↦
          Quitada-trans m a.0.1 m' v (subst (λ x. Vuelta m x a.0.1) n w)
            (vueltas_clock-Quitada quedan (not primera) a.0.1 m' v (rw n at a.2))
      | inr (g, n) ↦
          subst (λ x. Quitada m x.1 x.0) (some_inj (rw n at a.2))
            (subst (λ x. Vuelta m x a.0.1) n w)
    ]

pub elegir_victima-Quitada :
    (algoritmo : Algoritmo) (m m' : Memoria) (v : PaginaGlobal)
    → elegir_victima algoritmo m ≡ some (v, m')
    → Quitada m m' v
unfolding elegir_victima elegir_victima_lru elegir_victima_clock_m
elegir_victima-Quitada lru m m' v h =
    let a = bind-some (get_elem? m.tabla_global 0) _ h in
    subst (λ x. Quitada m x.1 x.0) (some_inj a.2)
      (record {
        antes = m;
        mismos = MismosMarcos-refl m;
        indice = 0;
        estaba = a.1;
        cant = refl;
        bitmap = refl;
        heap = refl;
        lista = refl;
      })
elegir_victima-Quitada clock_m m m' v h = vueltas_clock-Quitada 4 true m m' v h
elegir_victima-Quitada otro m m' v h = absurd (cc h)
