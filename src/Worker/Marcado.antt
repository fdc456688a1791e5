-- ===== src/Worker/Marcado.antt =====
-- worker/src/memoria.c: the frames of the pages in tablaPagGlobal and the bitmap.
use trabajo_practico_de_sist.Comun.{
  some_inj, ℕ, zero, suc, ◌<◌, ◌≡◌, ◌≢◌, refl, ap, sym, subst, ◌∙◌, inl, inr, List, [], ◌∷◌, Option,
  some, true, arith, ◌>>=◌, ◌==◌, get_elem?, set, All, Bool-cases, get_elem?-lt, get_elem?-set_self,
  get_elem?-set_ne,
}
use trabajo_practico_de_sist.Worker.Estado.{Pagina, PaginaGlobal, Memoria, quitar, cambiar_pagina}
use trabajo_practico_de_sist.Utils.Separados.{All-map}

-- The frame of the page of an entry of tablaPagGlobal.
abbrev pub marco_en : List Pagina → PaginaGlobal → Option ℕ
marco_en heap g = get_elem? heap g.pagina >>= (λ p. some p.marco)

abbrev pub Ajeno : List Pagina → Option ℕ → PaginaGlobal → Type 0
Ajeno heap marco g = marco_en heap g ≢ marco

abbrev pub Distintos : List Pagina → List PaginaGlobal → Type 0
Distintos heap [] = Unit
Distintos heap (g ∷ gs) = All (Ajeno heap (marco_en heap g)) gs × Distintos heap gs

-- An entry has a page with a frame of the memory, whose bit is set.
abbrev pub Ocupado : Memoria → PaginaGlobal → Type 0
Ocupado m g =
    (k : ℕ) × (marco_en m.paginas g ≡ some k)
    × (k < m.cant_marcos)
    × (get_elem? m.bitmap k ≡ some true)

-- The entries of tablaPagGlobal have their frames set in the bitmap, and no two have the same frame.
pub record Marcado (m : Memoria) : Type 0 where
  pub ocupados : All (Ocupado m) m.tabla_global
  pub distintos : Distintos m.paginas m.tabla_global

-- The frames of the pages, the bitmap, their number and tablaPagGlobal are the same.
pub record MismosMarcos (m m' : Memoria) : Type 0 where
  pub cant : m'.cant_marcos ≡ m.cant_marcos
  pub bitmap : m'.bitmap ≡ m.bitmap
  pub lista : m'.tabla_global ≡ m.tabla_global
  pub marcos : (g : PaginaGlobal) → marco_en m'.paginas g ≡ marco_en m.paginas g

pub MismosMarcos-trans : (a b c : Memoria) → MismosMarcos a b → MismosMarcos b c → MismosMarcos a c
MismosMarcos-trans a b c h k = record {
  cant = k.cant ∙ h.cant;
  bitmap = k.bitmap ∙ h.bitmap;
  lista = k.lista ∙ h.lista;
  marcos = λ g. k.marcos g ∙ h.marcos g;
}

-- A page that is written over with the same frame.
pub cambiar-MismosMarcos :
    (m : Memoria) (d : ℕ) (p q : Pagina)
    → get_elem? m.paginas d ≡ some p
    → q.marco ≡ p.marco
    → MismosMarcos m (cambiar_pagina d q m)
unfolding cambiar_pagina
cambiar-MismosMarcos m d p q e h = record {
  cant = refl;
  bitmap = refl;
  lista = refl;
  marcos = λ g. elim (Bool-cases (d == g.pagina)) [
    | inl si ↦
        let i : d ≡ g.pagina = ground arith in
        ap (λ o. o >>= (λ p. some p.marco))
          (ap (get_elem? (set m.paginas d q)) (sym i)
            ∙ get_elem?-set_self m.paginas d q (get_elem?-lt m.paginas d e))
        ∙ ap some h
        ∙ sym (ap (λ o. o >>= (λ p. some p.marco)) (ap (get_elem? m.paginas) (sym i) ∙ e))
    | inr no' ↦
        ap (λ o. o >>= (λ p. some p.marco))
          (get_elem?-set_ne m.paginas q (λ i. ground (arith, no', i)))
  ];
}

Distintos-mismos :
    (h h' : List Pagina) (gs : List PaginaGlobal)
    → ((g : PaginaGlobal) → marco_en h' g ≡ marco_en h g)
    → Distintos h gs
    → Distintos h' gs
Distintos-mismos h h' [] e d = tt
Distintos-mismos h h' (g ∷ gs) e d =
    (All-map gs (λ x n i. n (sym (e x) ∙ i ∙ e g)) d.0, Distintos-mismos h h' gs e d.1)

pub Ocupado-mismos :
    (m m' : Memoria) (g : PaginaGlobal) → MismosMarcos m m' → Ocupado m g → Ocupado m' g
Ocupado-mismos m m' g s o =
    (o.0, s.marcos g ∙ o.1, omega (arith, o.2, s.cant), ap (λ b. get_elem? b o.0) s.bitmap ∙ o.3)

pub Marcado-mismos : (m m' : Memoria) → MismosMarcos m m' → Marcado m → Marcado m'
Marcado-mismos m m' s h = record {
  ocupados =
      subst (All (Ocupado m')) (sym s.lista)
        (All-map m.tabla_global (λ g o. Ocupado-mismos m m' g s o) h.ocupados);
  distintos =
      subst (Distintos m'.paginas) (sym s.lista)
        (Distintos-mismos m.paginas m'.paginas m.tabla_global s.marcos h.distintos);
}

pub All-quitar :
    (P : PaginaGlobal → Type 0) (gs : List PaginaGlobal) (i : ℕ) → All P gs → All P (quitar gs i)
All-quitar P [] i h = tt
All-quitar P (g ∷ gs) zero h = h.1
All-quitar P (g ∷ gs) (suc i) h = (h.0, All-quitar P gs i h.1)

pub Distintos-quitar :
    (heap : List Pagina) (gs : List PaginaGlobal) (i : ℕ)
    → Distintos heap gs
    → Distintos heap (quitar gs i)
Distintos-quitar heap [] i d = tt
Distintos-quitar heap (g ∷ gs) zero d = d.1
Distintos-quitar heap (g ∷ gs) (suc i) d =
    (All-quitar (Ajeno heap (marco_en heap g)) gs i d.0, Distintos-quitar heap gs i d.1)

-- An element and a property of all.
pub All-get :
    (P : PaginaGlobal → Type 0) (gs : List PaginaGlobal) (i : ℕ) {g : PaginaGlobal}
    → All P gs
    → get_elem? gs i ≡ some g
    → P g
All-get P [] i h e = absurd (cc e)
All-get P (x ∷ gs) zero h e = subst P (some_inj e) h.0
All-get P (x ∷ gs) (suc i) h e = All-get P gs i h.1 e

-- The entry that is taken out was the only one with its frame.
pub quitado-Ajeno :
    (heap : List Pagina) (gs : List PaginaGlobal) (i : ℕ) (g : PaginaGlobal)
    → Distintos heap gs
    → get_elem? gs i ≡ some g
    → All (Ajeno heap (marco_en heap g)) (quitar gs i)
quitado-Ajeno heap [] i g d e = tt
quitado-Ajeno heap (x ∷ gs) zero g d e =
    subst (λ y. All (Ajeno heap (marco_en heap y)) gs) (some_inj e) d.0
quitado-Ajeno heap (x ∷ gs) (suc i) g d e = (
  (λ n. All-get (Ajeno heap (marco_en heap x)) gs i d.0 e (sym n)),
  quitado-Ajeno heap gs i g d.1 e,
)
