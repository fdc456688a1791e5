-- ===== src/Storage/Operaciones/Archivos.antt =====
-- operaciones.c: CREATE, TRUNCATE, TAG and DELETE. An operation runs under the lock of its
-- file:tag and is one step here.
use trabajo_practico_de_sist.Comun.{
  ℕ, zero, suc, ◌+◌, ◌-◌, ◌*◌, ◌/◌, ◌%◌, ◌^◌, List, [], ◌∷◌, ◌++◌, Option, none, some, length,
  get_elem?, ltb, ◌==◌, if◌then◌else◌, ◌>>=◌,
}
use trabajo_practico_de_sist.Utils.Estructuras.{
  Instruccion, create, truncate, tag, delete, correcto,
}
use trabajo_practico_de_sist.Storage.Estado.{
  Externos, Superblock, DirTag, Fs, buscar_tag, quitar_tag, modificar_tag, contiene,
}
use trabajo_practico_de_sist.Storage.Bloques.{agregar_hard_link, eliminar_hard_link}
use trabajo_practico_de_sist.Storage.Meta.{
  crear_meta, obtener_bloques_meta, modificar_bloques_meta, cambiar_tamanio_meta,
}
use trabajo_practico_de_sist.Storage.Verificar.{
  file_de, tag_de, destino_de, tag_destino_de, verificar_operaciones_base,
}
use trabajo_practico_de_sist.Storage.Operaciones.Base.{Salida, responder, si_valida}

-- list_remove
unfoldable pub quitar : ℕ → List ℕ → List ℕ
quitar i [] = []
quitar zero (b ∷ bs) = bs
quitar (suc i) (b ∷ bs) = b ∷ quitar i bs

-- mkdir of a file's directory: it fails where there is one.
abbrev pub con_dir : List ℕ → List (List ℕ) → List (List ℕ)
con_dir f dirs = if contiene f dirs then dirs else f ∷ dirs

-- mkdir of a tag's directory and of its logical_blocks.
abbrev pub con_tag : List ℕ → List ℕ → List DirTag → List DirTag
con_tag f t ds = elim (buscar_tag f t ds) [
  | none ↦ record { file = f; nombre = t; metadata = none; logicos = [] } ∷ ds
  | some _ ↦ ds
]

-- instruccion->tamanio / tam_bloque as ints: a size below 0 gives 0, or a count below 0, which
-- makes the loop of TRUNCATE take an element at -1 out of the list (`none`).
unfoldable pub bloques_nuevos : ℕ → ℕ → Option ℕ
bloques_nuevos tamanio tam_bloque =
    if ltb tamanio (2 ^ 31)
    then some (tamanio / tam_bloque)
    else if (2 ^ 32 - tamanio) / tam_bloque == 0
    then some 0
    else none

abbrev pub sin_metadata : DirTag → DirTag
sin_metadata d = record d { metadata = none }

module _ {B : Type 0} (ext : Externos B) (sb : Superblock) where
  unfoldable pub crear_directorios : List ℕ → List ℕ → Fs B → Fs B
  crear_directorios f t s = record s { dirs = con_dir f s.dirs; tags = con_tag f t s.tags }

  unfoldable pub create_file : Instruccion → Fs B → Salida B
  unfolding crear_directorios crear_meta
  create_file ins s = si_valida sb (verificar_operaciones_base create ins s) s (
      let s1 = crear_directorios (file_de ins) (tag_de ins) s in
      responder sb correcto none [] (crear_meta (file_de ins) (tag_de ins) 0 s1))

  -- `n` rounds of the loop that grows a tag, from block `i` on.
  unfoldable pub crecer : ℕ → ℕ → List ℕ → List ℕ → List ℕ → Fs B → List ℕ × Fs B
  crecer zero i f t bloques s = (bloques, s)
  crecer (suc n) i f t bloques s =
      crecer n (i + 1) f t (bloques ++ 0 ∷ []) (agregar_hard_link ext 0 f t i s)

  -- `n` rounds of the loop that shrinks a tag to `hasta` blocks: from block hasta + n - 1 down.
  unfoldable pub achicar : ℕ → ℕ → List ℕ → List ℕ → List ℕ → Fs B → Option (List ℕ × Fs B)
  achicar zero hasta f t bloques s = some (bloques, s)
  achicar (suc n) hasta f t bloques s = do
    b ← get_elem? bloques (hasta + n)
    s1 ← eliminar_hard_link ext sb b f t (hasta + n) s
    achicar n hasta f t (quitar (hasta + n) bloques) s1

  unfoldable pub redimensionar : ℕ → List ℕ → List ℕ → List ℕ → Fs B → Option (List ℕ × Fs B)
  unfolding crecer achicar
  redimensionar nuevos f t bloques s =
      if ltb (length bloques) nuevos
      then some (crecer (nuevos - length bloques) (length bloques) f t bloques s)
      else achicar (length bloques - nuevos) nuevos f t bloques s

  unfoldable pub truncate_file : Instruccion → Fs B → Salida B
  unfolding redimensionar bloques_nuevos
  truncate_file ins s = si_valida sb (verificar_operaciones_base truncate ins s) s (
      let f = file_de ins in
      let t = tag_de ins in
      do
        bloques ← obtener_bloques_meta f t s
        nuevos ← bloques_nuevos ins.tamanio sb.tam_bloque
        (bloques', s1) ← redimensionar nuevos f t bloques s
        s2 ← cambiar_tamanio_meta f t ins.tamanio s1
        s3 ← modificar_bloques_meta f t bloques' s2
        responder sb correcto none [] s3)

  -- The loop that links the blocks of the source, from block `i` on.
  unfoldable pub enlazar_todos : ℕ → List ℕ → List ℕ → List ℕ → Fs B → Fs B
  enlazar_todos i f t [] s = s
  enlazar_todos i f t (b ∷ bs) s = enlazar_todos (i + 1) f t bs (agregar_hard_link ext b f t i s)

  -- The size is computed as an int.
  unfoldable pub tag_file : Instruccion → Fs B → Salida B
  unfolding enlazar_todos crear_meta
  tag_file ins s = si_valida sb (verificar_operaciones_base tag ins s) s (
      let f = destino_de ins in
      let t = tag_destino_de ins in
      do
        bloques ← obtener_bloques_meta (file_de ins) (tag_de ins) s
        let s1 = record s { tags = con_tag f t s.tags }
        let s2 = crear_meta f t (length bloques * sb.tam_bloque % 2 ^ 32) s1
        s3 ← modificar_bloques_meta f t bloques (enlazar_todos 0 f t bloques s2)
        responder sb correcto none [] s3)

  -- The loop that unlinks the blocks of a tag, from block `i` on.
  unfoldable pub desenlazar_todos : ℕ → List ℕ → List ℕ → List ℕ → Fs B → Option (Fs B)
  desenlazar_todos i f t [] s = some s
  desenlazar_todos i f t (b ∷ bs) s = do
    s1 ← eliminar_hard_link ext sb b f t i s
    desenlazar_todos (i + 1) f t bs s1

  -- remove of the metadata, and rmdir of the two directories, which fails where a link is left.
  unfoldable pub eliminar_directorios : List ℕ → List ℕ → Fs B → Fs B
  eliminar_directorios f t s = elim (buscar_tag f t s.tags) [
    | none ↦ s
    | some d ↦ elim d.logicos [
      | [] ↦ record s { tags = quitar_tag f t s.tags }
      | _ ↦ record s { tags = modificar_tag f t sin_metadata s.tags }
    ]
  ]

  unfoldable pub delete_tag : Instruccion → Fs B → Salida B
  unfolding desenlazar_todos eliminar_directorios
  delete_tag ins s = si_valida sb (verificar_operaciones_base delete ins s) s (
      let f = file_de ins in
      let t = tag_de ins in
      do
        bloques ← obtener_bloques_meta f t s
        s1 ← desenlazar_todos 0 f t bloques s
        responder sb correcto none [] (eliminar_directorios f t s1))
