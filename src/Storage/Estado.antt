-- ===== src/Storage/Estado.antt =====
-- The state of the Storage process: the superblock and the bitmap of storage.c, and the
-- directories and files under the mount point that storage.c, operaciones.c and metadata.c use.
pub mod Laws
use trabajo_practico_de_sist.Comun.{
  ℕ, ◌*◌, ◌<◌, ◌≡◌, List, [], ◌∷◌, Option, none, some, Bool, true, false, ◌&&◌, ◌==◌, if◌then◌else◌,
  eq_bytes,
}

-- The libraries that storage.c calls: the bitarray of commons over the mapped file, and its md5.
-- The laws are what their documentation says of them.
pub record Externos (B : Type 0) : Type 0 where
  pub crear : ℕ → B
  pub max_bit : B → ℕ
  pub test : B → ℕ → Bool
  pub set_bit : B → ℕ → B
  pub clean_bit : B → ℕ → B
  pub md5 : List ℕ → List ℕ
  pub max_bit-crear : (bytes : ℕ) → max_bit (crear bytes) ≡ 8 * bytes
  pub max_bit-set_bit : (m : B) (i : ℕ) → max_bit (set_bit m i) ≡ max_bit m
  pub max_bit-clean_bit : (m : B) (i : ℕ) → max_bit (clean_bit m i) ≡ max_bit m
  pub test-set_bit :
      (m : B) (i j : ℕ) → i < max_bit m → test (set_bit m i) j ≡ (if i == j then true else test m j)
  pub test-clean_bit :
      (m : B) (i j : ℕ)
      → i < max_bit m
      → test (clean_bit m i) j ≡ (if i == j then false else test m j)

-- superblock_config
pub record Superblock : Type 0 where
  pub tam_bloque : ℕ
  pub tam_fs : ℕ
  pub cantidad_bloques : ℕ

-- ESTADO in a metadata.config
pub data Estado : Type 0 where
  work_in_progress commited : Estado

-- A metadata.config. TAMAÑO is an int32_t pattern.
pub record Metadata : Type 0 where
  pub tamanio : ℕ
  pub bloques : List ℕ
  pub estado : Estado

-- The directory of a tag. `logicos` are the entries of logical_blocks, by their number: the hard
-- link that has this name, and the physical block that it is a link to.
pub record DirTag : Type 0 where
  pub file : List ℕ
  pub nombre : List ℕ
  pub metadata : Option Metadata
  pub logicos : List (ℕ × ℕ)

-- `dirs` are the directories under files/, `tags` the directories in them. `fisicos` are the files
-- of physical_blocks, and `indice` is blocks_hash_index.config, with the number n for "BLOCKn".
pub record Fs (B : Type 0) : Type 0 where
  pub bitmap : B
  pub indice : List ℕ → Option ℕ
  pub fisicos : ℕ → Option (List ℕ)
  pub dirs : List (List ℕ)
  pub tags : List DirTag

abbrev pub es_tag : List ℕ → List ℕ → DirTag → Bool
es_tag f t d = eq_bytes f d.file && eq_bytes t d.nombre

unfoldable pub buscar_tag : List ℕ → List ℕ → List DirTag → Option DirTag
buscar_tag f t [] = none
buscar_tag f t (d ∷ ds) = if es_tag f t d then some d else buscar_tag f t ds

-- The directory of the tag, changed by `g`.
unfoldable pub modificar_tag : List ℕ → List ℕ → (DirTag → DirTag) → List DirTag → List DirTag
modificar_tag f t g [] = []
modificar_tag f t g (d ∷ ds) = if es_tag f t d then g d ∷ ds else d ∷ modificar_tag f t g ds

unfoldable pub quitar_tag : List ℕ → List ℕ → List DirTag → List DirTag
quitar_tag f t [] = []
quitar_tag f t (d ∷ ds) = if es_tag f t d then ds else d ∷ quitar_tag f t ds

unfoldable pub contiene : List ℕ → List (List ℕ) → Bool
contiene x [] = false
contiene x (y ∷ ys) = if eq_bytes x y then true else contiene x ys
