-- ===== src/Storage/Invariante/Casos.antt =====
-- What the checks before each operation decide, in a file system that keeps the invariant.
use trabajo_practico_de_sist.Comun.{
  ◌<◌, ◌≡◌, ◌⊎◌, refl, Option, none, some, true, false, ◌&&◌, length, ltb, ◌^◌, arith, inl, inr,
  Bool-cases, Option-cases,
}
use trabajo_practico_de_sist.Utils.Estructuras.{
  Instruccion, CodigoInstruccion, create, truncate, tag, commit, delete,
}
use trabajo_practico_de_sist.Storage.Estado.{
  Externos, Superblock, Estado, work_in_progress, commited, Fs, buscar_tag, contiene,
}
use trabajo_practico_de_sist.Storage.Meta.Laws.{
  obtener_bloques_meta-eq, verificar_estado_commited-eq,
}
use trabajo_practico_de_sist.Storage.Verificar.{
  Falta, file_preexistente, file_inexistente, tag_inexistente, destino_inexistente,
  tag_preexistente, comiteado, fuera_de_limite, Veredicto, seguir, file_de, tag_de, destino_de,
  tag_destino_de, error_por, verificar_file, verificar_tag, verificar_dentro_file_tag,
  si_no_comiteado, si_dentro, si_existe, si_destino, si_no_file, verificar_operaciones_base,
}
use trabajo_practico_de_sist.Storage.Invariante.Bien.{Bien, Encontrado, encontrar}

-- The check lets the operation go on, where `P` holds, or rejects it.
abbrev pub Caso : Instruccion → Option Veredicto → Type 0 → Type 0
Caso ins v P = ((v ≡ some seguir) × P) ⊎ ((falta : Falta) × (v ≡ some (error_por falta ins)))

pub estado-cases : (e : Estado) → (e ≡ work_in_progress) ⊎ (e ≡ commited)
estado-cases work_in_progress = inl refl
estado-cases commited = inr refl

module _ {B : Type 0} (ext : Externos B) (sb : Superblock) (s : Fs B) (ins : Instruccion)
    (w : Bien ext sb s) where
  si_existe-Caso :
      (resto : Option Veredicto) (P : Type 0)
      → (Encontrado s (file_de ins) (tag_de ins) → Caso ins resto P)
      → Caso ins (si_existe ins s resto) P
  unfolding si_existe verificar_file verificar_tag
  si_existe-Caso resto P k = elim (Bool-cases (contiene (file_de ins) s.dirs)) [
    | inr no' ↦ rw no' (inr (file_inexistente, refl))
    | inl si ↦ rw si (elim (Option-cases (buscar_tag (file_de ins) (tag_de ins) s.tags)) [
      | inl falta ↦ rw (verificar_tag, falta) (inr (tag_inexistente, refl))
      | inr (d, hay) ↦
          rw (verificar_tag, hay) (k (encontrar ext sb s (file_de ins) (tag_de ins) d w hay))
    ])
  ]

  si_no_comiteado-Caso :
      (resto : Option Veredicto) (P : Type 0) (e : Encontrado s (file_de ins) (tag_de ins))
      → (e.meta.estado ≡ work_in_progress → Caso ins resto P)
      → Caso ins (si_no_comiteado ins s resto) P
  unfolding si_no_comiteado
  si_no_comiteado-Caso resto P e k =
      rw (verificar_estado_commited-eq (file_de ins) (tag_de ins) s e.hay e.tiene)
        (elim (estado-cases e.meta.estado) [
          | inl wip ↦ rw wip (k wip)
          | inr fin ↦ rw fin (inr (comiteado, refl))
        ])

  si_dentro-Caso :
      (e : Encontrado s (file_de ins) (tag_de ins))
      → Caso ins (si_dentro ins s) (ins.nro_bloque < length e.meta.bloques)
  unfolding si_dentro verificar_dentro_file_tag
  si_dentro-Caso e =
      rw (obtener_bloques_meta-eq (file_de ins) (tag_de ins) s e.hay e.tiene)
        (elim (Bool-cases
          (ltb ins.nro_bloque (2 ^ 31) && ltb ins.nro_bloque (length e.meta.bloques))) [
            | inl si ↦ rw si (inl (refl, ground arith))
            | inr no' ↦ rw no' (inr (fuera_de_limite, refl))
          ])

  pub create-Caso :
      Caso ins (verificar_operaciones_base create ins s) (contiene (file_de ins) s.dirs ≡ false)
  unfolding verificar_operaciones_base si_no_file verificar_file
  create-Caso = elim (Bool-cases (contiene (file_de ins) s.dirs)) [
    | inl si ↦ rw si (inr (file_preexistente, refl))
    | inr no' ↦ rw no' (inl (refl, refl))
  ]

  pub truncate-Caso :
      Caso ins
        (verificar_operaciones_base truncate ins s)
        ((e : Encontrado s (file_de ins) (tag_de ins)) × (e.meta.estado ≡ work_in_progress))
  unfolding verificar_operaciones_base
  truncate-Caso = si_existe-Caso _ _ (λ e. si_no_comiteado-Caso _ _ e (λ wip. inl (refl, (e, wip))))

  pub tag-Caso : Caso ins (verificar_operaciones_base tag ins s) (
      Encontrado s (file_de ins) (tag_de ins)
      × (contiene (destino_de ins) s.dirs ≡ true)
      × (buscar_tag (destino_de ins) (tag_destino_de ins) s.tags ≡ none))
  unfolding verificar_operaciones_base si_destino verificar_file verificar_tag
  tag-Caso = si_existe-Caso _ _ (λ e. elim (Bool-cases (contiene (destino_de ins) s.dirs)) [
    | inr no' ↦ rw no' (inr (destino_inexistente, refl))
    | inl si ↦
        rw si (elim (Option-cases (buscar_tag (destino_de ins) (tag_destino_de ins) s.tags)) [
          | inl falta ↦ rw (verificar_tag, falta) (inl (refl, (e, refl, refl)))
          | inr (d, hay) ↦ rw (verificar_tag, hay) (inr (tag_preexistente, refl))
        ])
  ])

  pub commit-Caso :
      Caso ins (verificar_operaciones_base commit ins s) (Encontrado s (file_de ins) (tag_de ins))
  unfolding verificar_operaciones_base
  commit-Caso = si_existe-Caso _ _ (λ e. inl (refl, e))

  pub delete-Caso :
      Caso ins (verificar_operaciones_base delete ins s) (Encontrado s (file_de ins) (tag_de ins))
  unfolding verificar_operaciones_base
  delete-Caso = si_existe-Caso _ _ (λ e. inl (refl, e))

  dentro_y :
      (e : Encontrado s (file_de ins) (tag_de ins)) (P : Type 0)
      → (ins.nro_bloque < length e.meta.bloques → P)
      → Caso ins (si_dentro ins s) P
  dentro_y e P k = elim (si_dentro-Caso e) [ inl (si, lt) ↦ inl (si, k lt) | inr x ↦ inr x ]

  pub write_block-Caso : Caso ins (verificar_operaciones_base CodigoInstruccion.write_block ins s) (
      (e : Encontrado s (file_de ins) (tag_de ins)) × (e.meta.estado ≡ work_in_progress)
      × (ins.nro_bloque < length e.meta.bloques))
  unfolding verificar_operaciones_base
  write_block-Caso =
      si_existe-Caso _ _
        (λ e. si_no_comiteado-Caso _ _ e (λ wip. dentro_y e _ (λ lt. (e, wip, lt))))

  pub read_block-Caso :
      Caso ins
        (verificar_operaciones_base CodigoInstruccion.read_block ins s)
        ((e : Encontrado s (file_de ins) (tag_de ins)) × (ins.nro_bloque < length e.meta.bloques))
  unfolding verificar_operaciones_base
  read_block-Caso = si_existe-Caso _ _ (λ e. dentro_y e _ (λ lt. (e, lt)))
