-- ===== src/Storage/Correccion/Copiar.antt =====
-- operaciones.c, tagFile.
use trabajo_practico_de_sist.Comun.{
  ℕ, suc, ◌*◌, ◌%◌, ◌^◌, ◌<◌, ◌≡◌, refl, ap, ◌∙◌, List, [], ◌∷◌, none, some, true, length, All,
  get_elem?, arith, inl, inr,
}
use trabajo_practico_de_sist.Utils.Estructuras.{Instruccion, tag, RespuestaStorage}
use trabajo_practico_de_sist.Storage.Estado.{
  Externos, Superblock, Metadata, work_in_progress, DirTag, Fs, buscar_tag, es_tag, modificar_tag,
  contiene,
}
use trabajo_practico_de_sist.Storage.Estado.Laws.{poner}
use trabajo_practico_de_sist.Storage.Enlaces.{cuenta, refs}
use trabajo_practico_de_sist.Storage.Enlaces.Laws.{enum, destino-get_elem?}
use trabajo_practico_de_sist.Storage.Meta.{con_metadata}
use trabajo_practico_de_sist.Storage.Meta.Laws.{obtener_bloques_meta-eq, modificar_bloques_meta-eq}
use trabajo_practico_de_sist.Storage.Verificar.{
  seguir, file_de, tag_de, destino_de, tag_destino_de, verificar_operaciones_base,
}
use trabajo_practico_de_sist.Storage.Operaciones.Archivos.{enlazar_todos, tag_file}
use trabajo_practico_de_sist.Storage.Invariante.{Nucleo}
use trabajo_practico_de_sist.Storage.Invariante.Enlace.{Sigue, Nucleo-tags, refs-destino}
use trabajo_practico_de_sist.Storage.Invariante.Bucles.{
  con_logicos, buscar-Sigue, enlazar_todos-Sigue,
}
use trabajo_practico_de_sist.Storage.Invariante.Bien.{Bien, Encontrado, metadata-Sigue}
use trabajo_practico_de_sist.Storage.Invariante.Casos.{tag-Caso}
use trabajo_practico_de_sist.Storage.Correccion.Vista.{
  Contenido, vista, ver, exito, Resultado, rechazado, OtrosIguales, vista-eq, length-leer_todos,
}
use trabajo_practico_de_sist.Storage.Correccion.Crear.{
  dir_de, dir_nuevo, con_tag-nuevo, es_tag-nuevo, crear_meta-nuevo, agregar-Bien, otros-agregar,
  buscar-agregar,
}

todos : (P : ℕ → Type 0) (bs : List ℕ) (h : (i b : ℕ) → get_elem? bs i ≡ some b → P b) → All P bs
todos P [] h = tt
todos P (b ∷ bs) h = (h 0 b refl, todos P bs (λ i c e. h (suc i) c e))

poner-cons :
    (f t : List ℕ) (d x : DirTag) (ds : List DirTag)
    → es_tag f t x ≡ true
    → poner f t d (x ∷ ds) ≡ d ∷ ds
unfolding modificar_tag
poner-cons f t d x ds h = rw h refl

module _ {B : Type 0} (ext : Externos B) (sb : Superblock) where
  -- What TAG leaves.
  abbrev pub Copiado : Instruccion → Fs B → Fs B → RespuestaStorage → Type 0
  Copiado ins s s' r =
      let f = destino_de ins in
      let t = tag_destino_de ins in
      (origen : Contenido) × (r ≡ exito sb)
      × (vista (file_de ins) (tag_de ins) s ≡ some origen)
      × (vista f t s ≡ none)
      × (vista f t s'
          ≡ some (record {
            estado = work_in_progress;
            tamanio = length origen.bloques * sb.tam_bloque % 2 ^ 32;
            bloques = origen.bloques;
          }))
      × OtrosIguales f t s s'
      × (s'.fisicos ≡ s.fisicos)

  copiar :
      (ins : Instruccion) (s : Fs B) (e : Encontrado s (file_de ins) (tag_de ins))
      → Bien ext sb s
      → verificar_operaciones_base tag ins s ≡ some seguir
      → contiene (destino_de ins) s.dirs ≡ true
      → buscar_tag (destino_de ins) (tag_destino_de ins) s.tags ≡ none
      → (s' : Fs B) × (tag_file ext sb ins s ≡ some (s', exito sb))
        × Bien ext sb s'
        × Copiado ins s s' (exito sb)
  unfolding tag_file vista refs cuenta
  copiar ins s e w va esta nada = (
    s4,
    rw
        (
          va,
          obtener_bloques_meta-eq f0 t0 s e.hay e.tiene,
          con_tag-nuevo f t s.tags nada,
          crear_meta-nuevo ext sb f t largo (record s { tags = dir_nuevo f t ∷ s.tags }) s.tags
              refl,
          modificar_bloques_meta-eq f t s3 {d = d3} {m = m0} hay3 refl bs,
        )
        refl,
    agregar-Bien ext sb s s4 f t m4 (enum 0 bs) w nada
        (record { meta = m4; tiene = refl; enlaces = refl }) g4.nucleo tags4 (rw (g4.dirs) esta)
        (rw (g4.dirs) w.archivos) (ap (λ φ. φ 0) g4.fisicos),
    (
      ver s.fisicos e.meta,
      refl,
      vista-eq f0 t0 s {d = e.dir} e.hay e.tiene,
      rw nada refl,
      vista-eq f t s4 {d = d4} (buscar-agregar ext sb s4 f t m4 (enum 0 bs) s.tags tags4) refl
          ∙ rw (g4.fisicos, length-leer_todos s.fisicos bs) refl,
      otros-agregar ext sb s s4 f t m4 (enum 0 bs) tags4 g4.fisicos,
      g4.fisicos,
    ),
  )
    where
      f0 : List ℕ
      f0 = file_de ins

      t0 : List ℕ
      t0 = tag_de ins

      f : List ℕ
      f = destino_de ins

      t : List ℕ
      t = tag_destino_de ins

      bs : List ℕ
      bs = e.meta.bloques

      largo : ℕ
      largo = length bs * sb.tam_bloque % 2 ^ 32

      m0 : Metadata
      m0 = record { tamanio = largo; bloques = []; estado = work_in_progress }

      m4 : Metadata
      m4 = record m0 { bloques = bs }

      d2 : DirTag
      d2 = dir_de f t m0 []

      d3 : DirTag
      d3 = con_logicos (enum 0 bs) d2

      d4 : DirTag
      d4 = con_metadata m4 d3

      s2 : Fs B
      s2 = record s { tags = d2 ∷ s.tags }

      s3 : Fs B
      s3 = enlazar_todos ext sb 0 f t bs s2

      s4 : Fs B
      s4 = record s3 { tags = poner f t d4 s3.tags }

      mismos : (x : ℕ) → refs x s2.tags ≡ refs x s.tags
      mismos x = omega arith

      n2 : Nucleo ext sb s2
      n2 = Nucleo-tags ext sb s s2.tags mismos w.nucleo

      hay2 : buscar_tag f t s2.tags ≡ some d2
      hay2 = buscar-agregar ext sb s2 f t m0 [] s.tags refl

      enlazados : All (λ b. 0 < refs b s2.tags) bs
      enlazados =
          todos (λ b. 0 < refs b s2.tags) bs
            (λ i b h. rw (mismos b) (
              refs-destino ext sb f0 t0 i b s.tags e.dir e.hay
                (rw (e.enlaces) (destino-get_elem? i bs ∙ h))))

      k : es_tag f t d2 ≡ true
      k = es_tag-nuevo f t

      g3 : Sigue ext sb s2 s3 (poner f t d3 s2.tags)
      g3 = enlazar_todos-Sigue ext sb f t [] bs s2 d2 n2 hay2 refl enlazados

      hay3 : buscar_tag f t s3.tags ≡ some d3
      hay3 = buscar-Sigue ext sb s2 s3 f t d2 d3 hay2 k g3

      g4 : Sigue ext sb s2 s4 (poner f t d4 s2.tags)
      g4 = metadata-Sigue ext sb s2 s3 f t d2 d3 m4 hay2 k g3

      tags4 : s4.tags ≡ d4 ∷ s.tags
      tags4 = g4.tags ∙ poner-cons f t d4 d2 s.tags k

  -- TAG always ends and keeps the invariant. Unless it is rejected, which changes nothing, the new
  -- tag was not there, and now holds the blocks of its origin, in progress, while every other
  -- file:tag, the origin too, is as it was, and no physical block was written: the blocks are
  -- shared. Its size is that of the blocks, modulo 2^32.
  pub tag_file-Copiado :
      (ins : Instruccion) (s : Fs B)
      → Bien ext sb s
      → Resultado ext sb ins s (tag_file ext sb ins s) (Copiado ins s)
  unfolding tag_file
  tag_file-Copiado ins s w = elim (tag-Caso ext sb s ins w) [
    | inr (falta, e) ↦ rechazado ext sb ins s _ _ _ falta w e
    | inl (e, (enc, esta, nada)) ↦
        let (s', eq, bien, hecho) = copiar ins s enc w e esta nada in
        (s', exito sb, eq, bien, inr hecho)
  ]
