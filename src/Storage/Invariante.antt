-- ===== src/Storage/Invariante.antt =====
-- The invariant of the file system: bitmap, links, hash index and metadata agree.
pub mod Enlace
pub mod Escritura
pub mod Bucles
pub mod Deduplicacion
pub mod Duplicado
pub mod Casos
pub mod Bien
use trabajo_practico_de_sist.Comun.{
  ℕ, ◌<◌, ◌≤◌, ◌≡◌, ◌≢◌, List, [], ◌∷◌, Option, none, some, Bool, true, length, take, replicate,
  All, ltb,
}
use trabajo_practico_de_sist.Storage.Estado.{
  Externos, Superblock, Metadata, commited, DirTag, Fs, buscar_tag, contiene,
}
use trabajo_practico_de_sist.Storage.Estado.Laws.{Unicos}
use trabajo_practico_de_sist.Storage.Enlaces.{refs}
use trabajo_practico_de_sist.Storage.Enlaces.Laws.{enum}
use trabajo_practico_de_sist.Storage.Inicio.{initial_file, base}

-- The physical block has a file of the size of a block.
abbrev pub Guardado : {B : Type 0} → Superblock → Fs B → ℕ → Type 0
Guardado sb s b = (c : List ℕ) × (s.fisicos b ≡ some c) × (length c ≡ sb.tam_bloque)

-- The bits say which blocks are linked, linked blocks have their files, and the index names
-- linked blocks by the hash of what they hold.
pub record Nucleo {B : Type 0} (ext : Externos B) (sb : Superblock) (s : Fs B) : Type 0 where
  pub ocupados : (b : ℕ) → b < ext.max_bit s.bitmap → ext.test s.bitmap b ≡ ltb 0 (refs b s.tags)
  pub enlazados : (b : ℕ) → 0 < refs b s.tags → (b < ext.max_bit s.bitmap) × Guardado sb s b
  pub indice :
      (h : List ℕ) (b : ℕ)
      → s.indice h ≡ some b
      → (0 < refs b s.tags)
        × ((c : List ℕ) × (s.fisicos b ≡ some c) × (ext.md5 (take sb.tam_bloque c) ≡ h))

-- The links of a tag are the blocks of its metadata.
pub record IsTag (d : DirTag) : Type 0 where
  pub meta : Metadata
  pub tiene : d.metadata ≡ some meta
  pub enlaces : d.logicos ≡ enum 0 meta.bloques
