-- ===== src/Storage/Correccion/Borrar.antt =====
-- operaciones.c, deleteTag.
use trabajo_practico_de_sist.Comun.{
  ℕ, ◌≡◌, refl, ap, ◌∙◌, List, [], ◌∷◌, none, some, true, false, arith, inl, inr,
}
use trabajo_practico_de_sist.Utils.Estructuras.{Instruccion, delete, RespuestaStorage}
use trabajo_practico_de_sist.Storage.Estado.{
  Externos, Superblock, DirTag, Fs, es_tag, modificar_tag, quitar_tag, contiene,
}
use trabajo_practico_de_sist.Storage.Estado.Laws.{
  poner, buscar_tag-es_tag, buscar_tag-quitar_tag, buscar_tag-quitar_tag_other, refs-buscar_tag,
  All-quitar_tag, Unicos-quitar_tag,
}
use trabajo_practico_de_sist.Storage.Enlaces.{cuenta}
use trabajo_practico_de_sist.Storage.Meta.Laws.{obtener_bloques_meta-eq}
use trabajo_practico_de_sist.Storage.Inicio.{initial_file, base}
use trabajo_practico_de_sist.Storage.Verificar.{seguir, file_de, tag_de, verificar_operaciones_base}
use trabajo_practico_de_sist.Storage.Operaciones.Archivos.{eliminar_directorios, delete_tag}
use trabajo_practico_de_sist.Storage.Invariante.{IsTag}
use trabajo_practico_de_sist.Storage.Invariante.Enlace.{Nucleo-tags}
use trabajo_practico_de_sist.Storage.Invariante.Bucles.{
  con_logicos, buscar-Sigue, desenlazar_todos-Sigue,
}
use trabajo_practico_de_sist.Storage.Invariante.Bien.{Bien, Encontrado, es_inicial}
use trabajo_practico_de_sist.Storage.Invariante.Casos.{delete-Caso}
use trabajo_practico_de_sist.Storage.Correccion.Vista.{
  Contenido, vista, ver, exito, Resultado, rechazado, OtrosIguales, vista-eq,
}

quitar-poner :
    (f t : List ℕ) (d : DirTag) (ds : List DirTag)
    → es_tag f t d ≡ true
    → quitar_tag f t (poner f t d ds) ≡ quitar_tag f t ds
unfolding quitar_tag modificar_tag
quitar-poner f t d [] k = refl
quitar-poner f t d (x ∷ ds) k = ground (arith, quitar-poner f t d ds k)

module _ {B : Type 0} (ext : Externos B) (sb : Superblock) where
  -- What DELETE leaves.
  abbrev pub Borrado : Instruccion → Fs B → Fs B → RespuestaStorage → Type 0
  Borrado ins s s' r =
      let f = file_de ins in
      let t = tag_de ins in
      (antes : Contenido) × (r ≡ exito sb)
      × (vista f t s ≡ some antes)
      × (vista f t s' ≡ none)
      × OtrosIguales f t s s'

  borrar :
      (ins : Instruccion) (s : Fs B) (e : Encontrado s (file_de ins) (tag_de ins))
      → Bien ext sb s
      → es_inicial (file_de ins) (tag_de ins) ≡ false
      → verificar_operaciones_base delete ins s ≡ some seguir
      → (s' : Fs B) × (delete_tag ext sb ins s ≡ some (s', exito sb))
        × Bien ext sb s'
        × Borrado ins s s' (exito sb)
  unfolding delete_tag vista eliminar_directorios cuenta
  borrar ins s e w ni va =
      let (s1, eq, g) =
        desenlazar_todos-Sigue ext sb 0 f t e.meta.bloques s e.dir w.nucleo e.hay e.enlaces in
      let hay1 = buscar-Sigue ext sb s s1 f t e.dir d1 e.hay k g in
      let s2 = record s1 { tags = quitar_tag f t s1.tags } in
      let tags2 : s2.tags ≡ quitar_tag f t s.tags =
        ap (quitar_tag f t) g.tags ∙ quitar-poner f t d1 s.tags k in
      (
        s2,
        rw (va, obtener_bloques_meta-eq f t s e.hay e.tiene, eq, eliminar_directorios, hay1) refl,
        record {
          nucleo =
              Nucleo-tags ext sb s1 (quitar_tag f t s1.tags)
                (λ x. omega (arith, refs-buscar_tag f t x s1.tags {d = d1} hay1)) g.nucleo;
          tags = rw tags2 (All-quitar_tag f t IsTag s.tags w.tags);
          unicos = rw tags2 (Unicos-quitar_tag f t s.tags w.unicos);
          archivos =
              rw (tags2, g.dirs)
                (All-quitar_tag f t (λ x. contiene x.file s.dirs ≡ true) s.tags w.archivos);
          inicial =
              rw (tags2, buscar_tag-quitar_tag_other f t initial_file base s.tags ni) w.inicial;
          ceros = ap (λ φ. φ 0) g.fisicos ∙ w.ceros;
        },
        (
          ver s.fisicos e.meta,
          refl,
          vista-eq f t s {d = e.dir} e.hay e.tiene,
          rw (tags2, buscar_tag-quitar_tag f t s.tags w.unicos) refl,
          λ f' t' n. rw (tags2, g.fisicos, buscar_tag-quitar_tag_other f t f' t' s.tags n) refl,
        ),
      )
    where
      f : List ℕ
      f = file_de ins

      t : List ℕ
      t = tag_de ins

      d1 : DirTag
      d1 = con_logicos [] e.dir

      k : es_tag f t e.dir ≡ true
      k = buscar_tag-es_tag f t s.tags {d = e.dir} e.hay

  -- DELETE of a tag other than initial_file:BASE always ends and keeps the invariant. Unless it is
  -- rejected, which changes nothing, the tag was there, it is no more, and every other file:tag is
  -- as it was.
  pub delete_tag-Borrado :
      (ins : Instruccion) (s : Fs B)
      → Bien ext sb s
      → es_inicial (file_de ins) (tag_de ins) ≡ false
      → Resultado ext sb ins s (delete_tag ext sb ins s) (Borrado ins s)
  unfolding delete_tag
  delete_tag-Borrado ins s w ni = elim (delete-Caso ext sb s ins w) [
    | inr (falta, e) ↦ rechazado ext sb ins s _ _ _ falta w e
    | inl (e, enc) ↦
        let (s', eq, bien, hecho) = borrar ins s enc w ni e in (s', exito sb, eq, bien, inr hecho)
  ]
