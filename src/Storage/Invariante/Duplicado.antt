-- ===== src/Storage/Invariante/Duplicado.antt =====
-- storage.c, deduplicacionBloque: a link moves to the block of the index with the same hash.
use trabajo_practico_de_sist.Comun.{
  ℕ, zero, suc, ◌+◌, ◌<◌, ◌≡◌, refl, ap, ◌∙◌, List, [], ◌∷◌, ◌++◌, Option, some, true, false,
  length, take, set, get_elem?, ◌==◌, if◌then◌else◌, arith, inl, inr, Bool-cases,
}
use trabajo_practico_de_sist.Storage.Estado.{
  Externos, Superblock, DirTag, Fs, buscar_tag, es_tag, modificar_tag,
}
use trabajo_practico_de_sist.Storage.Estado.Laws.{
  poner, modificar_tag-poner, buscar_tag-poner, buscar_tag-es_tag, poner-poner,
}
use trabajo_practico_de_sist.Storage.Enlaces.{refs, nlink}
use trabajo_practico_de_sist.Storage.Enlaces.Laws.{uno_si}
use trabajo_practico_de_sist.Storage.Bloques.{
  enlazar, desenlazar, tiene_enlaces, liberar_bloque, agregar_hard_link, deduplicacion_bloque,
}
use trabajo_practico_de_sist.Storage.Bloques.Laws.{agregar_hard_link-eq}
use trabajo_practico_de_sist.Storage.Invariante.{Nucleo}

pub set-same : (bs : List ℕ) (i : ℕ) {b : ℕ} → get_elem? bs i ≡ some b → set bs i b ≡ bs
set-same [] i h = refl
set-same (x ∷ bs) zero h = ground arith
set-same (x ∷ bs) (suc i) {b} h = ap (◌∷◌ x) (set-same bs i {b = b} h)

pub elemento :
    (pre : List ℕ) (b : ℕ) (bs : List ℕ) → get_elem? (pre ++ b ∷ bs) (length pre) ≡ some b
elemento [] b bs = refl
elemento (x ∷ pre) b bs = elemento pre b bs

pub set-medio :
    (pre : List ℕ) (b b' : ℕ) (bs : List ℕ) → set (pre ++ b ∷ bs) (length pre) b' ≡ pre ++ b' ∷ bs
set-medio [] b b' bs = refl
set-medio (x ∷ pre) b b' bs = ap (◌∷◌ x) (set-medio pre b b' bs)

module _ {B : Type 0} (ext : Externos B) (sb : Superblock) where
  -- Both blocks are there, with the same hash.
  abbrev pub MismoHash : (ℕ → Option (List ℕ)) → ℕ → ℕ → Type 0
  MismoHash fisicos b b' =
      (c : List ℕ) × (c' : List ℕ) × (fisicos b ≡ some c)
      × (fisicos b' ≡ some c')
      × (ext.md5 (take sb.tam_bloque c) ≡ ext.md5 (take sb.tam_bloque c'))

  abbrev pub MismosHashes : (ℕ → Option (List ℕ)) → List ℕ → List ℕ → Type 0
  MismosHashes fisicos [] [] = Unit {0}
  MismosHashes fisicos (b ∷ bs) (b' ∷ bs') = MismoHash fisicos b b' × MismosHashes fisicos bs bs'
  MismosHashes fisicos _ _ = ⊥

  -- One link less to `b` and one more to `nuevo`, which is in the index with the hash of `b`.
  pub Nucleo-deduplicar :
      (s : Fs B) (ts : List DirTag) (b nuevo : ℕ) (c : List ℕ)
      → ((x : ℕ) → refs x ts + uno_si x b ≡ refs x s.tags + uno_si x nuevo)
      → s.fisicos b ≡ some c
      → s.indice (ext.md5 (take sb.tam_bloque c)) ≡ some nuevo
      → nuevo == b ≡ false
      → Nucleo ext sb s
      → Nucleo ext sb (
          if refs b ts == 0
          then record s { tags = ts; bitmap = ext.clean_bit s.bitmap b }
          else record s { tags = ts })
  Nucleo-deduplicar s ts b nuevo c e hc hi ne n = elim (Bool-cases (refs b ts == 0)) [
    | inl cero ↦ rw cero (record {
      ocupados = λ x h. ground (
        arith,
        e x,
        e b,
        n.ocupados x,
        n.enlazados b,
        hay,
        ext.test-clean_bit s.bitmap b x,
        ext.max_bit-clean_bit s.bitmap b,
      );
      enlazados =
          λ x h. rw (ext.max_bit-clean_bit s.bitmap b) (n.enlazados x (ground (arith, e x, hay)));
      indice = λ k x q. (vivo k x q, (n.indice k x q).1);
    })
    | inr mas ↦ rw mas (record {
      ocupados = λ x h. ground (arith, e x, e b, n.ocupados x, hay);
      enlazados = λ x h. n.enlazados x (ground (arith, e x, hay));
      indice = λ k x q. (vivo k x q, (n.indice k x q).1);
    })
  ]
    where
      hay : 0 < refs nuevo s.tags
      hay = (n.indice (ext.md5 (take sb.tam_bloque c)) nuevo hi).0

      vivo : (k : List ℕ) (x : ℕ) → s.indice k ≡ some x → 0 < refs x ts
      vivo k x q =
          let (cx, fx, hx) = (n.indice k x q).1 in
          elim (Bool-cases (x == b)) [
            | inl si ↦
                let x≡b : x ≡ b = ground arith in
                let cs : cx ≡ c = ground (arith, fx, hc, x≡b) in
                let hk : ext.md5 (take sb.tam_bloque c) ≡ k = rw cs at hx in
                absurd (ground (arith, hk, hi, q, x≡b, ne))
            | inr no' ↦ ground (arith, e x, (n.indice k x q).0)
          ]

  pub deduplicacion-eq :
      (s : Fs B) (f t : List ℕ) (i b nuevo : ℕ) (d : DirTag) {c c' : List ℕ}
      → buscar_tag f t s.tags ≡ some d
      → s.fisicos b ≡ some c
      → s.fisicos nuevo ≡ some c'
      → let ts = poner f t (enlazar i nuevo (desenlazar i d)) s.tags in
        deduplicacion_bloque ext sb b nuevo f t i s ≡ (
          if refs b ts == 0
          then record s { tags = ts; bitmap = ext.clean_bit s.bitmap b }
          else record s { tags = ts })
  unfolding deduplicacion_bloque liberar_bloque nlink
  deduplicacion-eq s f t i b nuevo d hd hc hn =
      ap (λ z. if tiene_enlaces ext 1 b z then liberar_bloque ext b z else z) enlazado ∙ fin
    where
      k : es_tag f t d ≡ true
      k = buscar_tag-es_tag f t s.tags {d = d} hd

      ts : List DirTag
      ts = poner f t (enlazar i nuevo (desenlazar i d)) s.tags

      enlazado :
          agregar_hard_link ext nuevo f t i
            (record s { tags = modificar_tag f t (desenlazar i) s.tags })
          ≡ record s { tags = ts }
      enlazado =
          ap (λ u. agregar_hard_link ext nuevo f t i (record s { tags = u }))
            (modificar_tag-poner f t (desenlazar i) s.tags {d = d} hd)
          ∙ (agregar_hard_link-eq ext (record s { tags = poner f t (desenlazar i d) s.tags }) f t i
                nuevo (buscar_tag-poner f t (desenlazar i d) s.tags {d = d} hd k) hn
              ∙ ap (λ u. record s { tags = u })
                  (poner-poner f t (desenlazar i d) (enlazar i nuevo (desenlazar i d)) s.tags k))

      fin :
          (if tiene_enlaces ext 1 b (record s { tags = ts })
            then liberar_bloque ext b (record s { tags = ts })
            else record s { tags = ts })
          ≡ (if refs b ts == 0
              then record s { tags = ts; bitmap = ext.clean_bit s.bitmap b }
              else record s { tags = ts })
      fin = rw (tiene_enlaces, hc) (ground arith)
