-- ===== src/Storage/Inicio.antt =====
-- storage/src/storage.c: the superblock, and the file system that a fresh start makes.
use trabajo_practico_de_sist.Comun.{
  ℕ, zero, suc, ◌+◌, ◌/◌, List, [], ◌∷◌, Option, none, some, replicate, codes,
}
use trabajo_practico_de_sist.Storage.Estado.{Externos, Superblock, Fs, commited}
use trabajo_practico_de_sist.Storage.Bloques.{
  con_bloque, agregar_hard_link, marcar_bloque_ocupado, guardar_hash_bloque,
}

unfoldable pub iniciar_superblock : ℕ → ℕ → Superblock
iniciar_superblock block_size fs_size = record {
  tam_bloque = block_size;
  tam_fs = fs_size;
  cantidad_bloques = fs_size / block_size;
}

abbrev pub initial_file : List ℕ
initial_file = codes "initial_file"

abbrev pub base : List ℕ
base = codes "BASE"

-- The blocks 0 to n - 1, of zeros.
unfoldable pub crear_physical_blocks : ℕ → ℕ → ℕ → Option (List ℕ)
crear_physical_blocks tam zero = λ b. none
crear_physical_blocks tam (suc n) = con_bloque n (replicate tam 0) (crear_physical_blocks tam n)

module _ {B : Type 0} (ext : Externos B) (sb : Superblock) where
  -- The loop that cleans `n` bits, from bit `i` on.
  unfoldable pub limpiar : ℕ → ℕ → B → B
  limpiar zero i m = m
  limpiar (suc n) i m = limpiar n (i + 1) (ext.clean_bit m i)

  unfoldable pub crear_bitmap : B
  unfolding limpiar
  crear_bitmap = let m = ext.crear ((sb.cantidad_bloques + 7) / 8) in limpiar (ext.max_bit m) 0 m

  unfoldable pub vacio : Fs B
  unfolding crear_bitmap crear_physical_blocks
  vacio = record {
    bitmap = crear_bitmap;
    indice = λ h. none;
    fisicos = crear_physical_blocks sb.tam_bloque sb.cantidad_bloques;
    dirs = [];
    tags = [];
  }

  unfoldable pub crear_archivo_inicial : Fs B → Option (Fs B)
  unfolding agregar_hard_link marcar_bloque_ocupado guardar_hash_bloque
  crear_archivo_inicial s =
      let s1 = record s {
        dirs = initial_file ∷ s.dirs;
        tags =
            record {
              file = initial_file;
              nombre = base;
              metadata =
                  some (record { tamanio = sb.tam_bloque; bloques = 0 ∷ []; estado = commited });
              logicos = [];
            }
            ∷ s.tags;
      } in
      let s2 = agregar_hard_link ext 0 initial_file base 0 s1 in
      guardar_hash_bloque ext sb 0 (marcar_bloque_ocupado ext 0 s2)

  -- iniciarFileSystem with FRESH_START.
  unfoldable pub iniciar_file_system : Option (Fs B)
  unfolding vacio crear_archivo_inicial
  iniciar_file_system = crear_archivo_inicial vacio
