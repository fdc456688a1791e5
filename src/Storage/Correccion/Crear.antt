-- ===== src/Storage/Correccion/Crear.antt =====
-- operaciones.c, createFile.
use trabajo_practico_de_sist.Comun.{
  ℕ, ◌≡◌, refl, ◌∙◌, List, [], ◌∷◌, none, some, true, false, All, arith, inl, inr, Bool-cases,
  Option-cases, eq_bytes_refl, eq_bytes_sound,
}
use trabajo_practico_de_sist.Utils.Estructuras.{Instruccion, create, RespuestaStorage}
use trabajo_practico_de_sist.Storage.Estado.{
  Externos, Superblock, Metadata, work_in_progress, DirTag, Fs, buscar_tag, es_tag, modificar_tag,
  contiene,
}
use trabajo_practico_de_sist.Storage.Estado.Laws.{buscar_tag-es_tag, All-buscar_tag}
use trabajo_practico_de_sist.Storage.Enlaces.{cuenta, refs}
use trabajo_practico_de_sist.Storage.Meta.{con_metadata, guardar_config, crear_meta}
use trabajo_practico_de_sist.Storage.Inicio.{initial_file, base}
use trabajo_practico_de_sist.Storage.Verificar.{seguir, file_de, tag_de, verificar_operaciones_base}
use trabajo_practico_de_sist.Storage.Operaciones.Archivos.{con_tag, crear_directorios, create_file}
use trabajo_practico_de_sist.Storage.Invariante.{Nucleo, IsTag}
use trabajo_practico_de_sist.Storage.Invariante.Enlace.{Nucleo-tags}
use trabajo_practico_de_sist.Storage.Invariante.Bien.{Bien, es_inicial}
use trabajo_practico_de_sist.Storage.Invariante.Casos.{create-Caso}
use trabajo_practico_de_sist.Storage.Correccion.Vista.{
  vista, exito, Resultado, rechazado, OtrosIguales, vista-eq,
}

abbrev pub dir_de : List ℕ → List ℕ → Metadata → List (ℕ × ℕ) → DirTag
dir_de f t m l = record { file = f; nombre = t; metadata = some m; logicos = l }

contiene-cons : (f : List ℕ) (dirs : List (List ℕ)) → contiene f (f ∷ dirs) ≡ true
unfolding contiene
contiene-cons f dirs = rw (eq_bytes_refl f) refl

-- The directories of a new tag.
abbrev pub dir_nuevo : List ℕ → List ℕ → DirTag
dir_nuevo f t = record { file = f; nombre = t; metadata = none; logicos = [] }

pub es_tag-nuevo : (f t : List ℕ) → es_tag f t (dir_nuevo f t) ≡ true
es_tag-nuevo f t = rw (eq_bytes_refl f, eq_bytes_refl t) refl

pub con_tag-nuevo :
    (f t : List ℕ) (ds : List DirTag)
    → buscar_tag f t ds ≡ none
    → con_tag f t ds ≡ dir_nuevo f t ∷ ds
con_tag-nuevo f t ds h = rw (con_tag, h) refl

module _ {B : Type 0} (ext : Externos B) (sb : Superblock) where
  -- crear_meta of a tag that has just got its directories.
  pub crear_meta-nuevo :
      (f t : List ℕ) (n : ℕ) (s : Fs B) (ds : List DirTag)
      → s.tags ≡ dir_nuevo f t ∷ ds
      → crear_meta f t n s ≡ record s {
        tags =
            con_metadata
              (record { tamanio = n; bloques = []; estado = work_in_progress })
              (dir_nuevo f t)
            ∷ ds;
      }
  unfolding crear_meta guardar_config modificar_tag
  crear_meta-nuevo f t n s ds e = rw (e, modificar_tag, es_tag-nuevo f t) refl

  -- A new tag in the directory of a file.
  pub agregar-Bien :
      (s s' : Fs B) (f t : List ℕ) (m : Metadata) (l : List (ℕ × ℕ))
      → (let d = dir_de f t m l in
          Bien ext sb s
          → buscar_tag f t s.tags ≡ none
          → IsTag d
          → Nucleo ext sb s'
          → s'.tags ≡ d ∷ s.tags
          → contiene f s'.dirs ≡ true
          → All (λ x. contiene x.file s'.dirs ≡ true) s.tags
          → s'.fisicos 0 ≡ s.fisicos 0
          → Bien ext sb s')
  unfolding buscar_tag
  agregar-Bien s s' f t m l w nada it n et hf viejos ef = record {
    nucleo = n;
    tags = rw et (it, w.tags);
    unicos = rw et (nada, w.unicos);
    archivos = rw et (hf, viejos);
    inicial = rw (et, otro) w.inicial;
    ceros = ef ∙ w.ceros;
  }
    where
      otro : es_inicial f t ≡ false
      otro = elim (Bool-cases (es_inicial f t)) [
        | inr no' ↦ no'
        | inl si ↦
            let f≡ = eq_bytes_sound initial_file f (ground arith) in
            let t≡ = eq_bytes_sound base t (ground arith) in
            let h = rw (← f≡, ← t≡) at nada in absurd (ground (arith, h, w.inicial))
      ]

  pub otros-agregar :
      (s s' : Fs B) (f t : List ℕ) (m : Metadata) (l : List (ℕ × ℕ))
      → s'.tags ≡ dir_de f t m l ∷ s.tags
      → s'.fisicos ≡ s.fisicos
      → OtrosIguales f t s s'
  unfolding vista buscar_tag
  otros-agregar s s' f t m l et ef f' t' n = rw (et, ef, n) refl

  pub buscar-agregar :
      (s' : Fs B) (f t : List ℕ) (m : Metadata) (l : List (ℕ × ℕ)) (ds : List DirTag)
      → (let d = dir_de f t m l in s'.tags ≡ d ∷ ds → buscar_tag f t s'.tags ≡ some d)
  unfolding buscar_tag
  buscar-agregar s' f t m l ds et = rw (et, eq_bytes_refl f, eq_bytes_refl t) refl

  mas_dirs :
      (f : List ℕ) (dirs : List (List ℕ)) (ds : List DirTag)
      → All (λ x. contiene x.file dirs ≡ true) ds
      → All (λ x. contiene x.file (f ∷ dirs) ≡ true) ds
  unfolding contiene
  mas_dirs f dirs [] h = tt
  mas_dirs f dirs (d ∷ ds) h = (ground (arith, h.0), mas_dirs f dirs ds h.1)

  -- What CREATE leaves.
  abbrev pub Creado : Instruccion → Fs B → Fs B → RespuestaStorage → Type 0
  Creado ins s s' r =
      let f = file_de ins in
      let t = tag_de ins in
      (r ≡ exito sb)
      × (contiene f s.dirs ≡ false)
      × (contiene f s'.dirs ≡ true)
      × (vista f t s ≡ none)
      × (vista f t s' ≡ some (record { estado = work_in_progress; tamanio = 0; bloques = [] }))
      × OtrosIguales f t s s'

  crear :
      (ins : Instruccion) (s : Fs B)
      → Bien ext sb s
      → verificar_operaciones_base create ins s ≡ some seguir
      → contiene (file_de ins) s.dirs ≡ false
      → (s' : Fs B) × (create_file ext sb ins s ≡ some (s', exito sb))
        × Bien ext sb s'
        × Creado ins s s' (exito sb)
  unfolding create_file crear_directorios vista refs cuenta modificar_tag
  crear ins s w va no' = (
    s',
    rw (va, no', con_tag-nuevo f t s.tags nada, modificar_tag, es_tag-nuevo f t) refl,
    agregar-Bien s s' f t m [] w nada (record { meta = m; tiene = refl; enlaces = refl })
        (Nucleo-tags ext sb (record s { dirs = f ∷ s.dirs }) s'.tags mismos
          (record {
            ocupados = w.nucleo.ocupados;
            enlazados = w.nucleo.enlazados;
            indice = w.nucleo.indice;
          }))
        refl esta (mas_dirs f s.dirs s.tags w.archivos) refl,
    (
      refl,
      no',
      esta,
      rw nada refl,
      vista-eq f t s' (buscar-agregar s' f t m [] s.tags refl) refl,
      otros-agregar s s' f t m [] refl refl,
    ),
  )
    where
      f : List ℕ
      f = file_de ins

      t : List ℕ
      t = tag_de ins

      m : Metadata
      m = record { tamanio = 0; bloques = []; estado = work_in_progress }

      s' : Fs B
      s' = record s { dirs = f ∷ s.dirs; tags = con_metadata m (dir_nuevo f t) ∷ s.tags }

      nada : buscar_tag f t s.tags ≡ none
      nada = elim (Option-cases (buscar_tag f t s.tags)) [
        | inl h ↦ h
        | inr (d, h) ↦
            let esta =
              All-buscar_tag f t (λ x. contiene x.file s.dirs ≡ true) s.tags {d = d} w.archivos h in
            let f≡ =
              eq_bytes_sound f d.file (ground (arith, buscar_tag-es_tag f t s.tags {d = d} h)) in
            absurd (ground (arith, no', rw (← f≡) at esta))
      ]

      esta : contiene f (f ∷ s.dirs) ≡ true
      esta = contiene-cons f s.dirs

      mismos : (x : ℕ) → refs x (con_metadata m (dir_nuevo f t) ∷ s.tags) ≡ refs x s.tags
      mismos x = omega arith

  -- CREATE always ends and keeps the invariant. Unless it is rejected, which changes nothing, there
  -- was no file of this name, now there is one, its tag is there, empty, of size 0 and in progress,
  -- and every other file:tag is as it was.
  pub create_file-Creado :
      (ins : Instruccion) (s : Fs B)
      → Bien ext sb s
      → Resultado ext sb ins s (create_file ext sb ins s) (Creado ins s)
  unfolding create_file
  create_file-Creado ins s w = elim (create-Caso ext sb s ins w) [
    | inr (falta, e) ↦ rechazado ext sb ins s _ _ _ falta w e
    | inl (e, nuevo) ↦
        let (s', eq, bien, hecho) = crear ins s w e nuevo in (s', exito sb, eq, bien, inr hecho)
  ]
