-- ===== src/Storage/Meta.antt =====
-- storage/src/metadata.c. `none` is the abort() of iniciar_config on a file that is not there.
pub mod Laws
use trabajo_practico_de_sist.Comun.{ℕ, List, [], Option, some, Bool, true, false, ◌>>=◌}
use trabajo_practico_de_sist.Storage.Estado.{
  Metadata, Estado, work_in_progress, commited, DirTag, Fs, buscar_tag, modificar_tag,
}

abbrev pub con_metadata : Metadata → DirTag → DirTag
con_metadata m d = record d { metadata = some m }

abbrev pub es_commited : Estado → Bool
es_commited work_in_progress = false
es_commited commited = true

module _ {B : Type 0} where
  -- The metadata.config of the tag.
  unfoldable pub iniciar_config : List ℕ → List ℕ → Fs B → Option Metadata
  iniciar_config f t s = do d ← buscar_tag f t s.tags; d.metadata

  -- config_save
  unfoldable pub guardar_config : List ℕ → List ℕ → Metadata → Fs B → Fs B
  guardar_config f t m s = record s { tags = modificar_tag f t (con_metadata m) s.tags }

  unfoldable pub crear_meta : List ℕ → List ℕ → ℕ → Fs B → Fs B
  unfolding guardar_config
  crear_meta f t tamanio s =
      guardar_config f t (record { tamanio = tamanio; bloques = []; estado = work_in_progress }) s

  unfoldable pub obtener_bloques_meta : List ℕ → List ℕ → Fs B → Option (List ℕ)
  unfolding iniciar_config
  obtener_bloques_meta f t s = do m ← iniciar_config f t s; some m.bloques

  unfoldable pub modificar_bloques_meta : List ℕ → List ℕ → List ℕ → Fs B → Option (Fs B)
  unfolding iniciar_config guardar_config
  modificar_bloques_meta f t bloques s = do
    m ← iniciar_config f t s
    some (guardar_config f t (record m { bloques = bloques }) s)

  unfoldable pub cambiar_tamanio_meta : List ℕ → List ℕ → ℕ → Fs B → Option (Fs B)
  unfolding iniciar_config guardar_config
  cambiar_tamanio_meta f t tamanio s = do
    m ← iniciar_config f t s
    some (guardar_config f t (record m { tamanio = tamanio }) s)

  -- The Boolean: whether the tag was in progress, and is commited by this call.
  unfoldable pub pasar_estado_commited_meta : List ℕ → List ℕ → Fs B → Option (Bool × Fs B)
  unfolding iniciar_config guardar_config
  pasar_estado_commited_meta f t s = do
    m ← iniciar_config f t s
    elim m.estado [
      | work_in_progress ↦ some (true, guardar_config f t (record m { estado = commited }) s)
      | commited ↦ some (false, s)
    ]

  unfoldable pub verificar_estado_commited : List ℕ → List ℕ → Fs B → Option Bool
  unfolding iniciar_config
  verificar_estado_commited f t s = do m ← iniciar_config f t s; some (es_commited m.estado)
