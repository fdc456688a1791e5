-- ===== src/Worker/MarcoTomado.antt =====
-- worker/src/memoria.c: agregarATablaGlobal keeps the frames of tablaPagGlobal marked and different.
use trabajo_practico_de_sist.Comun.{
  ◌≤◌, refl, take, drop, bind-some, some_inj, ℕ, zero, suc, ◌<◌, ◌≡◌, ◌≢◌, ap, sym, subst, ◌∙◌, inl,
  inr, List, [], ◌∷◌, ◌++◌, some, true, arith, ◌>>=◌, ◌==◌, get_elem?, set, length, Bool-cases, All,
  get_elem?-set_self, get_elem?-set_ne,
}
use trabajo_practico_de_sist.Utils.Separados.{All-map, All-append}
use trabajo_practico_de_sist.Worker.Estado.{
  Algoritmo, lru, clock_m, otro, Pagina, PaginaGlobal, Memoria, insertar, crear_pagina_global,
}
use trabajo_practico_de_sist.Worker.Paginas.{
  sacar_marco, agregar_lru, agregar_clock_m, agregar_segun, agregar_a_tabla_global,
}
use trabajo_practico_de_sist.Worker.Marcado.{marco_en, Ajeno, Distintos, Ocupado, Marcado}
use trabajo_practico_de_sist.Worker.Libres.{Libre}

-- A list of entries all marked, with different frames, none of them `k`.
abbrev Buena : Memoria → ℕ → List PaginaGlobal → Type 0
Buena m k gs =
    All (Ocupado m) gs × Distintos m.paginas gs × All (λ g. marco_en m.paginas g ≢ some k) gs

Buena-sacar :
    (m : Memoria) (k : ℕ) (gs gs' : List PaginaGlobal)
    → Buena m k gs
    → sacar_marco m.paginas k gs ≡ some gs'
    → gs ≡ gs'
unfolding sacar_marco
Buena-sacar m k [] gs' b h = some_inj h
Buena-sacar m k (g ∷ gs) gs' b h =
    let p = bind-some (get_elem? m.paginas g.pagina) _ h in
    elim (Bool-cases (p.0.marco == k)) [
      | inl si ↦
          let i : p.0.marco ≡ k = ground (arith, si) in
          absurd (b.2.0 (ap (λ o. o >>= (λ x. some x.marco)) p.1 ∙ ap some i))
      | inr no' ↦
          let r = bind-some (sacar_marco m.paginas k gs) _ (rw no' at p.2) in
          ap (◌∷◌ g) (Buena-sacar m k gs r.0 (b.0.1, b.1.1, b.2.1) r.1) ∙ some_inj r.2
    ]

Distintos-final :
    (heap : List Pagina) (gs : List PaginaGlobal) (g : PaginaGlobal)
    → Distintos heap gs
    → All (λ x. marco_en heap x ≢ marco_en heap g) gs
    → Distintos heap (gs ++ g ∷ [])
Distintos-final heap [] g d a = (tt, tt)
Distintos-final heap (x ∷ gs) g d a = (
  All-append (Ajeno heap (marco_en heap x)) gs (g ∷ []) d.0 ((λ e. a.0 (sym e)), tt),
  Distintos-final heap gs g d.1 a.1,
)

All-insertar :
    (P : PaginaGlobal → Type 0) (gs : List PaginaGlobal) (i : ℕ) (g : PaginaGlobal)
    → All P gs
    → P g
    → All P (insertar gs i g)
All-insertar P gs zero g h p = (p, h)
All-insertar P [] (suc i) g h p = tt
All-insertar P (x ∷ gs) (suc i) g h p = (h.0, All-insertar P gs i g h.1 p)

Distintos-insertar :
    (heap : List Pagina) (gs : List PaginaGlobal) (i : ℕ) (g : PaginaGlobal)
    → Distintos heap gs
    → All (λ x. marco_en heap x ≢ marco_en heap g) gs
    → Distintos heap (insertar gs i g)
Distintos-insertar heap gs zero g d a = (a, d)
Distintos-insertar heap [] (suc i) g d a = tt
Distintos-insertar heap (x ∷ gs) (suc i) g d a = (
  All-insertar (Ajeno heap (marco_en heap x)) gs i g d.0 (λ e. a.0 (sym e)),
  Distintos-insertar heap gs i g d.1 a.1,
)

segun-Marcado :
    (algoritmo : Algoritmo) (g : PaginaGlobal) (m m' : Memoria) (k : ℕ)
    → Buena m k m.tabla_global
    → Ocupado m g
    → marco_en m.paginas g ≡ some k
    → agregar_segun algoritmo g m ≡ some m'
    → Marcado m'
unfolding agregar_segun agregar_lru agregar_clock_m
segun-Marcado lru g m m' k b o e h =
    let p = bind-some (get_elem? m.paginas g.pagina) _ h in
    let suyo = some_inj (sym (ap (λ y. y >>= (λ x. some x.marco)) p.1) ∙ e) in
    let r = bind-some (sacar_marco m.paginas p.0.marco m.tabla_global) _ p.2 in
    let igual =
      Buena-sacar m k m.tabla_global r.0 b
        (ap (λ j. sacar_marco m.paginas j m.tabla_global) (sym suyo) ∙ r.1) in
    let ajenos = All-map m.tabla_global (λ x n i. n (i ∙ e)) b.2 in
    subst Marcado (some_inj r.2) (record {
      ocupados =
          subst (λ l. All (Ocupado m) (l ++ g ∷ [])) igual
            (All-append (Ocupado m) m.tabla_global (g ∷ []) b.0 (o, tt));
      distintos =
          subst (λ l. Distintos m.paginas (l ++ g ∷ [])) igual
            (Distintos-final m.paginas m.tabla_global g b.1 ajenos);
    })
segun-Marcado clock_m g m m' k b o e h =
    let p = bind-some (get_elem? m.paginas g.pagina) _ h in
    let ajenos = All-map m.tabla_global (λ x n i. n (i ∙ e)) b.2 in
    subst Marcado (some_inj p.2) (record {
      ocupados = All-insertar (Ocupado m) m.tabla_global p.0.marco g b.0 o;
      distintos = Distintos-insertar m.paginas m.tabla_global p.0.marco g b.1 ajenos;
    })
segun-Marcado otro g m m' k b o e h =
    subst Marcado (some_inj h) (record { ocupados = b.0; distintos = b.1 })

-- Where the entry of a page goes: at the end for LRU, at the number of its frame for CLOCK-M.
abbrev pub lugar : Algoritmo → (marco largo : ℕ) → ℕ
lugar lru marco largo = largo
lugar clock_m marco largo = marco
lugar otro marco largo = largo

-- A list with an element put between its first `i` and the rest.
abbrev pub con_entrada : List PaginaGlobal → ℕ → PaginaGlobal → List PaginaGlobal
con_entrada gs i g = take i gs ++ (g ∷ drop i gs)

insertar-con_entrada :
    (gs : List PaginaGlobal) (i : ℕ) (g : PaginaGlobal)
    → i ≤ length gs
    → insertar gs i g ≡ con_entrada gs i g
insertar-con_entrada gs zero g h = refl
insertar-con_entrada [] (suc i) g h = absurd (omega (arith, h))
insertar-con_entrada (x ∷ gs) (suc i) g h =
    ap (◌∷◌ x) (insertar-con_entrada gs i g (omega (arith, h)))

agregar-con_entrada :
    (gs : List PaginaGlobal) (g : PaginaGlobal) → gs ++ g ∷ [] ≡ con_entrada gs (length gs) g
agregar-con_entrada [] g = refl
agregar-con_entrada (x ∷ gs) g = ap (◌∷◌ x) (agregar-con_entrada gs g)

segun-con_entrada :
    (algoritmo : Algoritmo) (g : PaginaGlobal) (m m' : Memoria) (k : ℕ)
    → Buena m k m.tabla_global
    → marco_en m.paginas g ≡ some k
    → algoritmo ≢ otro
    → lugar algoritmo k (length m.tabla_global) ≤ length m.tabla_global
    → agregar_segun algoritmo g m ≡ some m'
    → (m'.tabla_global ≡ con_entrada m.tabla_global (lugar algoritmo k (length m.tabla_global)) g)
      × (m'.bitmap ≡ m.bitmap)
unfolding agregar_segun agregar_lru agregar_clock_m
segun-con_entrada lru g m m' k b e no_otro entra h =
    let p = bind-some (get_elem? m.paginas g.pagina) _ h in
    let suyo = some_inj (sym (ap (λ y. y >>= (λ x. some x.marco)) p.1) ∙ e) in
    let r = bind-some (sacar_marco m.paginas p.0.marco m.tabla_global) _ p.2 in
    let igual =
      Buena-sacar m k m.tabla_global r.0 b
        (ap (λ j. sacar_marco m.paginas j m.tabla_global) (sym suyo) ∙ r.1) in
    (
      sym (ap (λ x. x.tabla_global) (some_inj r.2))
          ∙ ap (λ l. l ++ g ∷ []) (sym igual)
          ∙ agregar-con_entrada m.tabla_global g,
      sym (ap (λ x. x.bitmap) (some_inj r.2)),
    )
segun-con_entrada clock_m g m m' k b e no_otro entra h =
    let p = bind-some (get_elem? m.paginas g.pagina) _ h in
    let suyo = some_inj (sym (ap (λ y. y >>= (λ x. some x.marco)) p.1) ∙ e) in
    (
      sym (ap (λ x. x.tabla_global) (some_inj p.2))
          ∙ ap (λ j. insertar m.tabla_global j g) suyo
          ∙ insertar-con_entrada m.tabla_global k g entra,
      sym (ap (λ x. x.bitmap) (some_inj p.2)),
    )
segun-con_entrada otro g m m' k b e no_otro entra h = absurd (no_otro refl)

-- A page whose frame no entry of tablaPagGlobal has, as asignarMarco gives it, enters tablaPagGlobal
-- under LRU or CLOCK-M, at its end or at the number of its frame, where that is not past the end. The
-- other entries stay in their order, the bit of its frame is the one that is set in the bitmap, and
-- all the entries have their frames set, no two the same one.
pub agregar_a_tabla_global-Marcado :
    (direccion : ℕ) (file_tag : List ℕ) (p : Pagina) (m m' : Memoria)
    → Libre m p.marco
    → get_elem? m.paginas direccion ≡ some p
    → p.marco < length m.bitmap
    → m.algoritmo ≢ otro
    → lugar m.algoritmo p.marco (length m.tabla_global) ≤ length m.tabla_global
    → agregar_a_tabla_global direccion file_tag m ≡ some m'
    → (m'.tabla_global
        ≡ con_entrada m.tabla_global
            (lugar m.algoritmo p.marco (length m.tabla_global))
            (record { file_tag = file_tag; pagina = direccion }))
      × (m'.bitmap ≡ set m.bitmap p.marco true)
      × (get_elem? m'.bitmap p.marco ≡ some true)
      × Marcado m'
unfolding agregar_a_tabla_global crear_pagina_global
agregar_a_tabla_global-Marcado direccion file_tag p m m' l e lt no_otro entra h =
    let q = bind-some (get_elem? m.paginas direccion) _ h in
    let suyo : q.0.marco ≡ p.marco = ap (λ x. x.marco) (some_inj (sym q.1 ∙ e)) in
    let marcada = record m { bitmap = set m.bitmap p.marco true } in
    let g : PaginaGlobal = record { file_tag = file_tag; pagina = direccion } in
    let en = ap (λ o. o >>= (λ x. some x.marco)) e in
    let puesto = get_elem?-set_self m.bitmap p.marco true lt in
    let buena : Buena marcada p.marco m.tabla_global =
      (todos m.tabla_global l.de_nadie l.marcado.ocupados, l.marcado.distintos, l.de_nadie) in
    let agrega : agregar_segun m.algoritmo g marcada ≡ some m' =
      ap (λ k. agregar_segun m.algoritmo g (record m { bitmap = set m.bitmap k true })) (sym suyo)
      ∙ q.2 in
    let c = segun-con_entrada m.algoritmo g marcada m' p.marco buena en no_otro entra agrega in
    (
      c.0,
      c.1,
      ap (λ b. get_elem? b p.marco) c.1 ∙ puesto,
      segun-Marcado m.algoritmo g marcada m' p.marco buena (p.marco, en, l.entra, puesto) en agrega,
    )
  where
    todos :
        (gs : List PaginaGlobal)
        → All (λ x. marco_en m.paginas x ≢ some p.marco) gs
        → All (Ocupado m) gs
        → All (Ocupado (record m { bitmap = set m.bitmap p.marco true })) gs
    todos [] n o = tt
    todos (x ∷ gs) n o = (
      (
        o.0.0,
        o.0.1,
        o.0.2,
        get_elem?-set_ne m.bitmap true (λ i. n.0 (o.0.1 ∙ ap some (sym i))) ∙ o.0.3,
      ),
      todos gs n.1 o.1,
    )
