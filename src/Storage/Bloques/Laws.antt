-- ===== src/Storage/Bloques/Laws.antt =====
-- The search of a free block, and links to blocks that have their files.
use trabajo_practico_de_sist.Comun.{
  ℕ, zero, suc, ◌+◌, ◌<◌, ◌≤◌, ◌≡◌, inl, inr, List, Option, none, some, true, false, length, take,
  le→leb, arith, Bool-cases,
}
use trabajo_practico_de_sist.Utils.Estructuras.{Instruccion}
use trabajo_practico_de_sist.Storage.Estado.{Externos, Superblock, DirTag, Fs, buscar_tag}
use trabajo_practico_de_sist.Storage.Estado.Laws.{poner, modificar_tag-poner}
use trabajo_practico_de_sist.Storage.Bloques.{
  buscar_desde, buscar_bloque_libre, agregar_hard_link, enlazar, escribir_bloque, con_bloque,
}

module _ {B : Type 0} (ext : Externos B) where
  -- `some b`: the first clear bit of those from `i` to `fin`; `none`: they are all set.
  abbrev pub EsPrimero : B → ℕ → ℕ → Option ℕ → Type 0
  EsPrimero m i fin (some b) =
      (i ≤ b) × (b < fin) × (ext.test m b ≡ false) × ((j : ℕ) → i ≤ j → j < b → ext.test m j ≡ true)
  EsPrimero m i fin none = (j : ℕ) → i ≤ j → j < fin → ext.test m j ≡ true

  ensanchar :
      (m : B) (i fin : ℕ) (r : Option ℕ)
      → ext.test m i ≡ true
      → i < fin
      → EsPrimero m (i + 1) fin r
      → EsPrimero m i fin r
  ensanchar m i fin none h lt p = λ j lo hi. ground (arith, p j)
  ensanchar m i fin (some b) h lt p = (omega arith, p.1, p.2, λ j lo hi. ground (arith, p.3 j))

  buscar_desde-EsPrimero :
      (n i fin : ℕ) (m : B) → i + n ≡ fin → EsPrimero m i fin (buscar_desde ext n i m)
  unfolding buscar_desde
  buscar_desde-EsPrimero zero i fin m e = λ j lo hi. absurd (omega arith)
  buscar_desde-EsPrimero (suc n) i fin m e = elim (Bool-cases (ext.test m i)) [
    | inl ocupado ↦ rw ocupado (
        ensanchar m i fin _ ocupado (omega arith)
          (buscar_desde-EsPrimero n (i + 1) fin m (omega arith)))
    | inr libre ↦ rw libre (omega arith, omega arith, libre, λ j lo hi. absurd (omega arith))
  ]

  -- buscarBloqueLibre gives the lowest clear bit of the bitmap; where it gives none, all are set.
  pub buscar_bloque_libre-EsPrimero :
      (s : Fs B) → EsPrimero s.bitmap 0 (ext.max_bit s.bitmap) (buscar_bloque_libre ext s)
  unfolding buscar_bloque_libre
  buscar_bloque_libre-EsPrimero s =
      buscar_desde-EsPrimero (ext.max_bit s.bitmap) 0 (ext.max_bit s.bitmap) s.bitmap (omega arith)

  pub agregar_hard_link-eq :
      (s : Fs B) (f t : List ℕ) (i b : ℕ) {d : DirTag} {c : List ℕ}
      → buscar_tag f t s.tags ≡ some d
      → s.fisicos b ≡ some c
      → agregar_hard_link ext b f t i s ≡ record s { tags = poner f t (enlazar i b d) s.tags }
  unfolding agregar_hard_link
  agregar_hard_link-eq s f t i b hd hc =
      rw (agregar_hard_link, hc, modificar_tag-poner f t (enlazar i b) s.tags hd)

  pub escribir_bloque-eq :
      (sb : Superblock) (ins : Instruccion) (b : ℕ) (s : Fs B)
      → sb.tam_bloque ≤ length ins.contenido
      → escribir_bloque ext sb ins b s
        ≡ some (record s { fisicos = con_bloque b (take sb.tam_bloque ins.contenido) s.fisicos })
  unfolding escribir_bloque
  escribir_bloque-eq sb ins b s h = rw (le→leb sb.tam_bloque (length ins.contenido) h)
