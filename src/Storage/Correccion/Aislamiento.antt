-- ===== src/Storage/Correccion/Aislamiento.antt =====
-- A write to one physical block, seen from the file:tags that have links to it and from those that
-- have none.
use trabajo_practico_de_sist.Comun.{
  ℕ, zero, suc, ◌+◌, ◌<◌, ◌≤◌, ◌≡◌, refl, ap, ◌∙◌, List, [], ◌∷◌, Option, some, true, set,
  get_elem?, arith, inl, inr, ◌==◌, if◌then◌else◌, Bool-cases, Option-cases,
}
use trabajo_practico_de_sist.Storage.Estado.{Externos, Superblock, DirTag, Fs, buscar_tag, es_tag}
use trabajo_practico_de_sist.Storage.Estado.Laws.{
  poner, buscar_tag-es_tag, buscar_tag-poner_other, refs-poner, refs-buscar_tag,
}
use trabajo_practico_de_sist.Storage.Enlaces.{cuenta, refs}
use trabajo_practico_de_sist.Storage.Enlaces.Laws.{enum}
use trabajo_practico_de_sist.Storage.Bloques.{con_bloque}
use trabajo_practico_de_sist.Storage.Invariante.Bucles.{con_logicos}
use trabajo_practico_de_sist.Storage.Invariante.Bien.{Bien, encontrar}
use trabajo_practico_de_sist.Storage.Correccion.Vista.{vista, leer_todos, OtroTag, OtrosIguales}

-- A block that no entry is a link to.
leer_todos-sin :
    (φ : ℕ → Option (List ℕ)) (p k : ℕ) (c bs : List ℕ)
    → cuenta p (enum k bs) ≡ 0
    → leer_todos (con_bloque p c φ) bs ≡ leer_todos φ bs
unfolding cuenta
leer_todos-sin φ p k c [] h = refl
leer_todos-sin φ p k c (b ∷ bs) h = elim (Bool-cases (p == b)) [
  | inl si ↦ absurd (ground (arith, si))
  | inr no' ↦ rw no' (ap (◌∷◌ (φ b)) (leer_todos-sin φ p (suc k) c bs (ground arith)))
]

cuenta-get_elem? :
    (p k : ℕ) (bs : List ℕ) (j : ℕ) → get_elem? bs j ≡ some p → 0 < cuenta p (enum k bs)
unfolding cuenta
cuenta-get_elem? p k [] j h = cc
cuenta-get_elem? p k (b ∷ bs) zero h = ground arith
cuenta-get_elem? p k (b ∷ bs) (suc j) h = ground (arith, cuenta-get_elem? p (suc k) bs j h)

-- The block of entry `i` becomes `x`, a block that the other entries are no links to, or not to
-- before the write.
pub leer_todos-set :
    (φ : ℕ → Option (List ℕ)) (p i k : ℕ) (c bs : List ℕ)
    → (b : ℕ) → get_elem? bs i ≡ some b
    → cuenta p (enum k bs) ≡ (if p == b then 1 else 0)
    → leer_todos (con_bloque p c φ) (set bs i p) ≡ set (leer_todos φ bs) i (some c)
unfolding cuenta
leer_todos-set φ p i k c [] b h e = cc
leer_todos-set φ p zero k c (x ∷ bs) b h e = ground (arith, leer_todos-sin φ p (suc k) c bs)
leer_todos-set φ p (suc i) k c (x ∷ bs) b h e =
    let mas = cuenta-get_elem? b (suc k) bs i h in
    let resto = leer_todos-set φ p i (suc k) c bs b h in ground (arith, mas, resto)

-- Two tags count their links apart.
pub refs-dos :
    (x : ℕ) (f t f' t' : List ℕ) (ds : List DirTag) (d d' : DirTag)
    → buscar_tag f t ds ≡ some d
    → buscar_tag f' t' ds ≡ some d'
    → OtroTag f t f' t'
    → cuenta x d.logicos + cuenta x d'.logicos ≤ refs x ds
unfolding cuenta
refs-dos x f t f' t' ds d d' hd hd' n =
    let d0 = con_logicos [] d in
    let k = buscar_tag-es_tag f t ds {d = d} hd in
    let hay = buscar_tag-poner_other f t f' t' d0 ds n k ∙ hd' in
    omega (
      arith,
      refs-poner f t x d0 ds {d = d} hd,
      refs-buscar_tag f' t' x (poner f t d0 ds) {d = d'} hay,
    )

module _ {B : Type 0} (ext : Externos B) (sb : Superblock) where
  -- A tag that changed, and a block written that the other tags have no links to.
  pub otros-escribir :
      (f t : List ℕ) (s s' : Fs B) (d' : DirTag) (p : ℕ) (c : List ℕ)
      → Bien ext sb s
      → es_tag f t d' ≡ true
      → s'.tags ≡ poner f t d' s.tags
      → s'.fisicos ≡ con_bloque p c s.fisicos
      → ((f' t' : List ℕ) (x : DirTag)
          → OtroTag f t f' t'
          → buscar_tag f' t' s.tags ≡ some x
          → cuenta p x.logicos ≡ 0)
      → OtrosIguales f t s s'
  unfolding vista
  otros-escribir f t s s' d' p c w k et ef sin f' t' n =
      elim (Option-cases (buscar_tag f' t' s.tags)) [
        | inl nada ↦ rw (et, buscar_tag-poner_other f t f' t' d' s.tags n k, nada) refl
        | inr (x, hay) ↦
            let e = encontrar ext sb s f' t' x w hay in
            let cero = rw (e.enlaces) at (sin f' t' e.dir n e.hay) in
            rw
              (
                et,
                ef,
                buscar_tag-poner_other f t f' t' d' s.tags n k,
                e.hay,
                e.tiene,
                leer_todos-sin s.fisicos p 0 c e.meta.bloques cero,
              )
              refl
      ]
