-- ===== src/Storage/Bloques.antt =====
-- storage/src/storage.c: blocks, bitmap, hard links and the hash index. `none` is a crash: a NULL
-- FILE* that is read or written, or an access outside an allocation.
pub mod Laws
use mathlib.Core.Option
use trabajo_practico_de_sist.Comun.{
  ℕ, zero, suc, ◌+◌, List, Option, none, some, Bool, false, length, take, leb, ◌==◌, if◌then◌else◌,
  ◌>>=◌, eq_bytes,
}
use trabajo_practico_de_sist.Utils.Estructuras.{Instruccion}
use trabajo_practico_de_sist.Storage.Estado.{Externos, Superblock, DirTag, Fs, modificar_tag}
use trabajo_practico_de_sist.Storage.Enlaces.{insertar, borrar, nlink}

abbrev pub con_indice : List ℕ → Option ℕ → (List ℕ → Option ℕ) → List ℕ → Option ℕ
con_indice h v indice k = if eq_bytes h k then v else indice k

abbrev pub con_bloque : ℕ → List ℕ → (ℕ → Option (List ℕ)) → ℕ → Option (List ℕ)
con_bloque b contenido fisicos c = if b == c then some contenido else fisicos c

abbrev pub enlazar : ℕ → ℕ → DirTag → DirTag
enlazar i b d = record d { logicos = insertar i b d.logicos }

abbrev pub desenlazar : ℕ → DirTag → DirTag
desenlazar i d = record d { logicos = borrar i d.logicos }

module _ {B : Type 0} (ext : Externos B) where
  -- The loop over the bits, from `i` on, with `n` bits left; `none` for -1.
  unfoldable pub buscar_desde : ℕ → ℕ → B → Option ℕ
  buscar_desde zero i bitmap = none
  buscar_desde (suc n) i bitmap =
      let resto = buscar_desde n (i + 1) bitmap in if ext.test bitmap i then resto else some i

  unfoldable pub buscar_bloque_libre : Fs B → Option ℕ
  buscar_bloque_libre s = buscar_desde (ext.max_bit s.bitmap) 0 s.bitmap

  unfoldable pub marcar_bloque_ocupado : ℕ → Fs B → Fs B
  marcar_bloque_ocupado b s = record s { bitmap = ext.set_bit s.bitmap b }

  unfoldable pub liberar_bloque : ℕ → Fs B → Fs B
  liberar_bloque b s = record s { bitmap = ext.clean_bit s.bitmap b }

  -- link() fails where the physical block has no file.
  unfoldable pub agregar_hard_link : ℕ → List ℕ → List ℕ → ℕ → Fs B → Fs B
  agregar_hard_link b f t i s = elim (s.fisicos b) [
    | none ↦ s
    | some _ ↦ record s { tags = modificar_tag f t (enlazar i b) s.tags }
  ]

  -- stat() succeeds and st_nlink is `n`.
  unfoldable pub tiene_enlaces : ℕ → ℕ → Fs B → Bool
  tiene_enlaces n b s = elim (s.fisicos b) [ none ↦ false | some _ ↦ nlink b s.tags == n ]

  module _ (sb : Superblock) where
    unfoldable pub calcular_hash : ℕ → Fs B → Option (List ℕ)
    calcular_hash b s = Option.map (λ c. ext.md5 (take sb.tam_bloque c)) (s.fisicos b)

    unfoldable pub guardar_hash_bloque : ℕ → Fs B → Option (Fs B)
    unfolding calcular_hash
    guardar_hash_bloque b s = do
      h ← calcular_hash b s
      some (record s { indice = con_indice h (some b) s.indice })

    unfoldable pub eliminar_hash_bloque : ℕ → Fs B → Option (Fs B)
    unfolding calcular_hash
    eliminar_hash_bloque b s = do
      h ← calcular_hash b s
      some (record s { indice = con_indice h none s.indice })

    -- The inner `none` is -1: the hash is not in the index.
    unfoldable pub buscar_bloque_por_hash : ℕ → Fs B → Option (Option ℕ)
    unfolding calcular_hash
    buscar_bloque_por_hash b s = do h ← calcular_hash b s; some (s.indice h)

    unfoldable pub eliminar_hard_link : ℕ → List ℕ → List ℕ → ℕ → Fs B → Option (Fs B)
    unfolding tiene_enlaces liberar_bloque eliminar_hash_bloque
    eliminar_hard_link b f t i s =
        let s1 = record s { tags = modificar_tag f t (desenlazar i) s.tags } in
        if tiene_enlaces 1 b s1 then eliminar_hash_bloque b (liberar_bloque b s1) else some s1

    unfoldable pub deduplicacion_bloque : ℕ → ℕ → List ℕ → List ℕ → ℕ → Fs B → Fs B
    unfolding tiene_enlaces liberar_bloque agregar_hard_link
    deduplicacion_bloque anterior nuevo f t i s =
        let s1 = record s { tags = modificar_tag f t (desenlazar i) s.tags } in
        let s2 = agregar_hard_link nuevo f t i s1 in
        if tiene_enlaces 1 anterior s2 then liberar_bloque anterior s2 else s2

    -- fwrite reads tam_bloque bytes of `contenido`; fopen creates the file where it is missing.
    unfoldable pub escribir_bloque : Instruccion → ℕ → Fs B → Option (Fs B)
    escribir_bloque ins b s =
        if leb sb.tam_bloque (length ins.contenido)
        then some (record s { fisicos = con_bloque b (take sb.tam_bloque ins.contenido) s.fisicos })
        else none

    unfoldable pub leer_bloque : ℕ → Fs B → Option (List ℕ)
    leer_bloque b s = Option.map (λ c. take sb.tam_bloque c) (s.fisicos b)
