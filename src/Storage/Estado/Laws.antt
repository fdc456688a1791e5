-- ===== src/Storage/Estado/Laws.antt =====
-- The directories of tags as a map from file and tag: what a change of one does to the others and
-- to the number of links.
use trabajo_practico_de_sist.Comun.{
  ℕ, ◌+◌, ◌≡◌, refl, ◌∙◌, inl, inr, List, [], ◌∷◌, none, some, true, false, ◌&&◌, All, eq_bytes,
  eq_bytes_sound, arith, subst, Bool-cases,
}
use trabajo_practico_de_sist.Storage.Estado.{DirTag, es_tag, buscar_tag, modificar_tag, quitar_tag}
use trabajo_practico_de_sist.Storage.Enlaces.{cuenta, refs}

abbrev pub poner : List ℕ → List ℕ → DirTag → List DirTag → List DirTag
poner f t d = modificar_tag f t (λ _. d)

-- Each directory has its own name.
abbrev pub Unicos : List DirTag → Type 0
Unicos [] = Unit {0}
Unicos (d ∷ ds) = (buscar_tag d.file d.nombre ds ≡ none) × Unicos ds

module _ (f t : List ℕ) where
  pub buscar_tag-es_tag :
      (ds : List DirTag) {d : DirTag} → buscar_tag f t ds ≡ some d → es_tag f t d ≡ true
  unfolding buscar_tag
  buscar_tag-es_tag [] h = cc
  buscar_tag-es_tag (x ∷ ds) {d} h = ground (arith, buscar_tag-es_tag ds {d = d})

  -- On the directory that is there, only the change of that one matters.
  pub modificar_tag-poner :
      (g : DirTag → DirTag) (ds : List DirTag) {d : DirTag}
      → buscar_tag f t ds ≡ some d
      → modificar_tag f t g ds ≡ poner f t (g d) ds
  unfolding buscar_tag modificar_tag
  modificar_tag-poner g [] h = cc
  modificar_tag-poner g (x ∷ ds) {d} h = ground (arith, modificar_tag-poner g ds {d = d})

  pub poner-same :
      (ds : List DirTag) {d : DirTag} → buscar_tag f t ds ≡ some d → poner f t d ds ≡ ds
  unfolding buscar_tag modificar_tag
  poner-same [] h = refl
  poner-same (x ∷ ds) {d} h = ground (arith, poner-same ds {d = d})

  pub buscar_tag-poner :
      (d' : DirTag) (ds : List DirTag) {d : DirTag}
      → buscar_tag f t ds ≡ some d
      → es_tag f t d' ≡ true
      → buscar_tag f t (poner f t d' ds) ≡ some d'
  unfolding buscar_tag modificar_tag
  buscar_tag-poner d' [] h k = cc
  buscar_tag-poner d' (x ∷ ds) {d} h k = ground (arith, buscar_tag-poner d' ds {d = d})

  pub poner-poner :
      (d' d'' : DirTag) (ds : List DirTag)
      → es_tag f t d' ≡ true
      → poner f t d'' (poner f t d' ds) ≡ poner f t d'' ds
  unfolding modificar_tag
  poner-poner d' d'' [] k = refl
  poner-poner d' d'' (x ∷ ds) k = ground (arith, poner-poner d' d'' ds)

  pub refs-poner :
      (x : ℕ) (d' : DirTag) (ds : List DirTag) {d : DirTag}
      → buscar_tag f t ds ≡ some d
      → refs x (poner f t d' ds) + cuenta x d.logicos ≡ refs x ds + cuenta x d'.logicos
  unfolding buscar_tag modificar_tag refs
  refs-poner x d' [] h = cc
  refs-poner x d' (y ∷ ds) {d} h = ground (arith, refs-poner x d' ds {d = d})

  pub refs-buscar_tag :
      (x : ℕ) (ds : List DirTag) {d : DirTag}
      → buscar_tag f t ds ≡ some d
      → cuenta x d.logicos + refs x (quitar_tag f t ds) ≡ refs x ds
  unfolding buscar_tag quitar_tag refs
  refs-buscar_tag x [] h = cc
  refs-buscar_tag x (y ∷ ds) {d} h = ground (arith, refs-buscar_tag x ds {d = d})

  module _ (P : DirTag → Type 0) where
    pub All-poner : (d' : DirTag) (ds : List DirTag) → All P ds → P d' → All P (poner f t d' ds)
    unfolding modificar_tag
    All-poner d' [] h p = tt
    All-poner d' (x ∷ ds) h p = elim (Bool-cases (es_tag f t x)) [
      | inl e ↦ rw e (p, h.1)
      | inr e ↦ rw e (h.0, All-poner d' ds h.1 p)
    ]

    pub All-quitar_tag : (ds : List DirTag) → All P ds → All P (quitar_tag f t ds)
    unfolding quitar_tag
    All-quitar_tag [] h = tt
    All-quitar_tag (x ∷ ds) h = elim (Bool-cases (es_tag f t x)) [
      | inl e ↦ rw e h.1
      | inr e ↦ rw e (h.0, All-quitar_tag ds h.1)
    ]

    pub All-buscar_tag :
        (ds : List DirTag) {d : DirTag} → All P ds → buscar_tag f t ds ≡ some d → P d
    unfolding buscar_tag
    All-buscar_tag [] h e = cc
    All-buscar_tag (x ∷ ds) {d} h e = elim (Bool-cases (es_tag f t x)) [
      | inl k ↦ let same : x ≡ d = ground arith in subst P same h.0
      | inr k ↦ All-buscar_tag ds {d = d} h.1 (ground arith)
    ]

es_tag-eq : (f t : List ℕ) (d : DirTag) → es_tag f t d ≡ true → (f ≡ d.file) × (t ≡ d.nombre)
es_tag-eq f t d h = ground (arith, eq_bytes_sound f d.file, eq_bytes_sound t d.nombre)

-- Two names are told apart by `es_tag` as by equality.
pub es_tag-other :
    (f t f' t' : List ℕ) (d : DirTag)
    → es_tag f t d ≡ true
    → (eq_bytes f' f && eq_bytes t' t) ≡ false
    → es_tag f' t' d ≡ false
es_tag-other f t f' t' d h n = rw (← (es_tag-eq f t d h).0, ← (es_tag-eq f t d h).1) n

-- Changing one directory leaves the others as they are.
pub buscar_tag-poner_other :
    (f t f' t' : List ℕ) (d' : DirTag) (ds : List DirTag)
    → (eq_bytes f' f && eq_bytes t' t) ≡ false
    → es_tag f t d' ≡ true
    → buscar_tag f' t' (poner f t d' ds) ≡ buscar_tag f' t' ds
unfolding buscar_tag modificar_tag
buscar_tag-poner_other f t f' t' d' [] n k = refl
buscar_tag-poner_other f t f' t' d' (x ∷ ds) n k = ground (
  arith,
  es_tag-other f t f' t' d' k n,
  es_tag-other f t f' t' x,
  buscar_tag-poner_other f t f' t' d' ds n k,
)

pub buscar_tag-quitar_tag_other :
    (f t f' t' : List ℕ) (ds : List DirTag)
    → (eq_bytes f' f && eq_bytes t' t) ≡ false
    → buscar_tag f' t' (quitar_tag f t ds) ≡ buscar_tag f' t' ds
unfolding buscar_tag quitar_tag
buscar_tag-quitar_tag_other f t f' t' [] n = refl
buscar_tag-quitar_tag_other f t f' t' (x ∷ ds) n =
    ground (arith, es_tag-other f t f' t' x, buscar_tag-quitar_tag_other f t f' t' ds n)

poner-none :
    (f t : List ℕ) (d' : DirTag) (ds : List DirTag)
    → buscar_tag f t ds ≡ none
    → poner f t d' ds ≡ ds
unfolding buscar_tag modificar_tag
poner-none f t d' [] n = refl
poner-none f t d' (x ∷ ds) n = ground (arith, poner-none f t d' ds)

none-poner :
    (f t f' t' : List ℕ) (d' : DirTag) (ds : List DirTag)
    → es_tag f t d' ≡ true
    → buscar_tag f' t' ds ≡ none
    → buscar_tag f' t' (poner f t d' ds) ≡ none
none-poner f t f' t' d' ds k n = elim (Bool-cases (eq_bytes f' f && eq_bytes t' t)) [
  | inl same ↦ ground (arith, eq_bytes_sound f' f, eq_bytes_sound t' t, poner-none f t d' ds)
  | inr other ↦ buscar_tag-poner_other f t f' t' d' ds other k ∙ n
]

pub Unicos-poner :
    (f t : List ℕ) (d' : DirTag) (ds : List DirTag)
    → es_tag f t d' ≡ true
    → Unicos ds
    → Unicos (poner f t d' ds)
unfolding modificar_tag
Unicos-poner f t d' [] k u = tt
Unicos-poner f t d' (x ∷ ds) k u = elim (Bool-cases (es_tag f t x)) [
  | inl e ↦ rw e (ground (arith, es_tag-eq f t x e, es_tag-eq f t d' k), u.1)
  | inr e ↦ rw e (none-poner f t x.file x.nombre d' ds k u.0, Unicos-poner f t d' ds k u.1)
]

none-quitar_tag :
    (f t f' t' : List ℕ) (ds : List DirTag)
    → buscar_tag f' t' ds ≡ none
    → buscar_tag f' t' (quitar_tag f t ds) ≡ none
unfolding buscar_tag quitar_tag
none-quitar_tag f t f' t' [] n = refl
none-quitar_tag f t f' t' (x ∷ ds) n = ground (arith, none-quitar_tag f t f' t' ds)

-- After the removal the name is free.
pub buscar_tag-quitar_tag :
    (f t : List ℕ) (ds : List DirTag) → Unicos ds → buscar_tag f t (quitar_tag f t ds) ≡ none
unfolding buscar_tag quitar_tag
buscar_tag-quitar_tag f t [] u = refl
buscar_tag-quitar_tag f t (x ∷ ds) u =
    ground (arith, es_tag-eq f t x, buscar_tag-quitar_tag f t ds u.1)

pub Unicos-quitar_tag : (f t : List ℕ) (ds : List DirTag) → Unicos ds → Unicos (quitar_tag f t ds)
unfolding quitar_tag
Unicos-quitar_tag f t [] u = tt
Unicos-quitar_tag f t (x ∷ ds) u = elim (Bool-cases (es_tag f t x)) [
  | inl e ↦ rw e u.1
  | inr e ↦ rw e (none-quitar_tag f t x.file x.nombre ds u.0, Unicos-quitar_tag f t ds u.1)
]
