-- ===== src/Storage/Operaciones/Commit.antt =====
-- operaciones.c: COMMIT.
use trabajo_practico_de_sist.Comun.{
  ℕ, ◌+◌, List, [], ◌∷◌, Option, none, some, ◌==◌, if◌then◌else◌, ◌>>=◌,
}
use trabajo_practico_de_sist.Utils.Estructuras.{Instruccion, commit, correcto}
use trabajo_practico_de_sist.Storage.Estado.{Externos, Superblock, Fs}
use trabajo_practico_de_sist.Storage.Bloques.{
  guardar_hash_bloque, buscar_bloque_por_hash, deduplicacion_bloque,
}
use trabajo_practico_de_sist.Storage.Meta.{
  obtener_bloques_meta, modificar_bloques_meta, pasar_estado_commited_meta,
}
use trabajo_practico_de_sist.Storage.Verificar.{file_de, tag_de, verificar_operaciones_base}
use trabajo_practico_de_sist.Storage.Operaciones.Base.{Salida, responder, si_valida}

module _ {B : Type 0} (ext : Externos B) (sb : Superblock) where
  -- One round of the loop of COMMIT, for block `i`, which is physical block `b`.
  unfoldable pub commit_bloque : ℕ → ℕ → List ℕ → List ℕ → Fs B → Option (ℕ × Fs B)
  commit_bloque i b f t s = do
    duplicado ← buscar_bloque_por_hash ext sb b s
    elim duplicado [
      | none ↦ guardar_hash_bloque ext sb b s >>= λ s1. some (b, s1)
      | some d ↦ if d == b then some (b, s) else some (d, deduplicacion_bloque ext sb b d f t i s)
    ]

  unfoldable pub commit_bloques : ℕ → List ℕ → List ℕ → List ℕ → Fs B → Option (List ℕ × Fs B)
  unfolding commit_bloque
  commit_bloques i f t [] s = some ([], s)
  commit_bloques i f t (b ∷ bs) s = do
    (b', s1) ← commit_bloque i b f t s
    (bs', s2) ← commit_bloques (i + 1) f t bs s1
    some (b' ∷ bs', s2)

  unfoldable pub commit_de : List ℕ → List ℕ → Fs B → Salida B
  unfolding commit_bloques
  commit_de f t s = do
    bloques ← obtener_bloques_meta f t s
    (bloques', s2) ← commit_bloques 0 f t bloques s
    s3 ← modificar_bloques_meta f t bloques' s2
    responder sb correcto none [] s3

  unfoldable pub commit_file : Instruccion → Fs B → Salida B
  unfolding commit_de
  commit_file ins s = si_valida sb (verificar_operaciones_base commit ins s) s (
      let f = file_de ins in
      let t = tag_de ins in
      do
        (pasado, s1) ← pasar_estado_commited_meta f t s
        if pasado then commit_de f t s1 else responder sb correcto none [] s1)
