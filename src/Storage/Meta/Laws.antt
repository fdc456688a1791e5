-- ===== src/Storage/Meta/Laws.antt =====
-- metadata.c on a tag whose metadata.config is there.
use trabajo_practico_de_sist.Comun.{ℕ, ◌≡◌, List, some, true, false}
use trabajo_practico_de_sist.Storage.Estado.{
  Metadata, work_in_progress, commited, DirTag, Fs, buscar_tag,
}
use trabajo_practico_de_sist.Storage.Estado.Laws.{poner, modificar_tag-poner}
use trabajo_practico_de_sist.Storage.Meta.{
  con_metadata, es_commited, iniciar_config, guardar_config, obtener_bloques_meta,
  modificar_bloques_meta, cambiar_tamanio_meta, pasar_estado_commited_meta,
  verificar_estado_commited,
}

module _ {B : Type 0} (f t : List ℕ) (s : Fs B) {d : DirTag} {m : Metadata}
    (hd : buscar_tag f t s.tags ≡ some d) (hm : d.metadata ≡ some m) where
  iniciar_config-eq : iniciar_config f t s ≡ some m
  unfolding iniciar_config
  iniciar_config-eq = rw (hd) hm

  guardar_config-eq :
      (m' : Metadata)
      → guardar_config f t m' s ≡ record s { tags = poner f t (con_metadata m' d) s.tags }
  unfolding guardar_config
  guardar_config-eq m' = rw (modificar_tag-poner f t (con_metadata m') s.tags hd)

  pub obtener_bloques_meta-eq : obtener_bloques_meta f t s ≡ some m.bloques
  unfolding obtener_bloques_meta
  obtener_bloques_meta-eq = rw (hd, hm)

  pub modificar_bloques_meta-eq :
      (bs : List ℕ)
      → modificar_bloques_meta f t bs s
        ≡ some (record s { tags = poner f t (con_metadata (record m { bloques = bs }) d) s.tags })
  unfolding modificar_bloques_meta
  modificar_bloques_meta-eq bs =
      rw (hd, hm, modificar_tag-poner f t (con_metadata (record m { bloques = bs })) s.tags hd)

  pub cambiar_tamanio_meta-eq :
      (n : ℕ)
      → cambiar_tamanio_meta f t n s
        ≡ some (record s { tags = poner f t (con_metadata (record m { tamanio = n }) d) s.tags })
  unfolding cambiar_tamanio_meta
  cambiar_tamanio_meta-eq n =
      rw (hd, hm, modificar_tag-poner f t (con_metadata (record m { tamanio = n })) s.tags hd)

  pub verificar_estado_commited-eq : verificar_estado_commited f t s ≡ some (es_commited m.estado)
  unfolding verificar_estado_commited
  verificar_estado_commited-eq = rw (hd, hm)

  pub pasar_estado-wip :
      m.estado ≡ work_in_progress
      → pasar_estado_commited_meta f t s
        ≡ some (
          true,
          record s { tags = poner f t (con_metadata (record m { estado = commited }) d) s.tags },
        )
  unfolding pasar_estado_commited_meta
  pasar_estado-wip e =
      rw (
        hd,
        hm,
        e,
        modificar_tag-poner f t (con_metadata (record m { estado = commited })) s.tags hd,
      )

  pub pasar_estado-commited :
      m.estado ≡ commited → pasar_estado_commited_meta f t s ≡ some (false, s)
  unfolding pasar_estado_commited_meta
  pasar_estado-commited e = rw (hd, hm, e)
