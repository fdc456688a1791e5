-- ===== src/Storage/Correccion/Truncar.antt =====
-- operaciones.c, truncateFile.
use trabajo_practico_de_sist.Comun.{
  ℕ, zero, suc, ◌-◌, ◌/◌, ◌<◌, ◌≡◌, refl, ap, ◌∙◌, List, [], ◌∷◌, ◌++◌, Option, some, true, ◌^◌,
  length, take, replicate, arith, inl, inr, ltb, Bool-cases,
}
use trabajo_practico_de_sist.Utils.Estructuras.{Instruccion, truncate, RespuestaStorage}
use trabajo_practico_de_sist.Storage.Estado.{
  Externos, Superblock, Metadata, work_in_progress, DirTag, Fs, buscar_tag, es_tag,
}
use trabajo_practico_de_sist.Storage.Estado.Laws.{poner, buscar_tag-es_tag, buscar_tag-poner}
use trabajo_practico_de_sist.Storage.Enlaces.{refs}
use trabajo_practico_de_sist.Storage.Enlaces.Laws.{enum}
use trabajo_practico_de_sist.Storage.Meta.{con_metadata}
use trabajo_practico_de_sist.Storage.Meta.Laws.{
  obtener_bloques_meta-eq, cambiar_tamanio_meta-eq, modificar_bloques_meta-eq,
}
use trabajo_practico_de_sist.Storage.Verificar.{seguir, file_de, tag_de, verificar_operaciones_base}
use trabajo_practico_de_sist.Storage.Operaciones.Archivos.{
  bloques_nuevos, redimensionar, truncate_file,
}
use trabajo_practico_de_sist.Storage.Invariante.{Nucleo}
use trabajo_practico_de_sist.Storage.Invariante.Enlace.{Sigue}
use trabajo_practico_de_sist.Storage.Invariante.Bucles.{
  con_logicos, append-nil, buscar-Sigue, crecer-Sigue, achicar-Sigue,
}
use trabajo_practico_de_sist.Storage.Invariante.Bien.{
  Bien, Encontrado, cero-enlazado, no_inicial, cambiar-Bien, metadata-Sigue,
}
use trabajo_practico_de_sist.Storage.Invariante.Casos.{truncate-Caso}
use trabajo_practico_de_sist.Storage.Correccion.Vista.{
  Contenido, vista, ver, leer_todos, exito, Resultado, rechazado, OtrosIguales, vista-eq,
  vista-poner, otros-poner, leer_todos-append, leer_todos-take, leer_todos-replicate,
  length-leer_todos,
}

-- The first `n` of the list, made up to `n` with `relleno`.
abbrev pub ajustar : {A : Type 0} → A → ℕ → List A → List A
ajustar relleno n xs = take n xs ++ replicate (n - length xs) relleno

take-mas : (n : ℕ) (xs : List ℕ) → length xs < n → take n xs ≡ xs
take-mas zero xs h = elim h [ ]
take-mas (suc n) [] h = refl
take-mas (suc n) (x ∷ xs) h = ap (◌∷◌ x) (take-mas n xs (omega arith))

leer_todos-ajustar :
    (φ : ℕ → Option (List ℕ)) (n : ℕ) (xs : List ℕ)
    → leer_todos φ (ajustar 0 n xs) ≡ ajustar (φ 0) n (leer_todos φ xs)
leer_todos-ajustar φ n xs =
    rw
      (
        leer_todos-append φ (take n xs) (replicate (n - length xs) 0),
        leer_todos-take φ n xs,
        leer_todos-replicate φ (n - length xs) 0,
        length-leer_todos φ xs,
      )
      refl

module _ {B : Type 0} (ext : Externos B) (sb : Superblock) where
  redimensionar-Sigue :
      (n : ℕ) (f t bs : List ℕ) (s : Fs B) (d : DirTag)
      → Nucleo ext sb s
      → buscar_tag f t s.tags ≡ some d
      → d.logicos ≡ enum 0 bs
      → 0 < refs 0 s.tags
      → (s' : Fs B) × (redimensionar ext sb n f t bs s ≡ some (ajustar 0 n bs, s'))
        × Sigue ext sb s s' (poner f t (con_logicos (enum 0 (ajustar 0 n bs)) d) s.tags)
  unfolding redimensionar
  redimensionar-Sigue n f t bs s d nu hd hl pos = elim (Bool-cases (ltb (length bs) n)) [
    | inl crece ↦
        let (s', e, g) = crecer-Sigue ext sb (n - length bs) f t bs s d nu hd hl pos in
        rw (crece, take-mas n bs (ground arith), e) (s', refl, g)
    | inr achica ↦
        let cero : n - length bs ≡ 0 = ground arith in
        let (s', e, g) =
          achicar-Sigue ext sb (length bs - n) n f t bs s d nu hd hl (ground arith) in
        rw (achica, cero, append-nil (take n bs), e) (s', refl, g)
  ]

  bloques_nuevos-eq :
      (n : ℕ) → n < 2 ^ 31 → bloques_nuevos n sb.tam_bloque ≡ some (n / sb.tam_bloque)
  unfolding bloques_nuevos
  bloques_nuevos-eq n h = ground arith

  -- What TRUNCATE leaves.
  abbrev pub Truncado : Instruccion → Fs B → Fs B → RespuestaStorage → Type 0
  Truncado ins s s' r =
      let f = file_de ins in
      let t = tag_de ins in
      (antes : Contenido) × (r ≡ exito sb)
      × (vista f t s ≡ some antes)
      × (antes.estado ≡ work_in_progress)
      × (vista f t s'
          ≡ some (record antes {
            tamanio = ins.tamanio;
            bloques =
                ajustar (some (replicate sb.tam_bloque 0)) (ins.tamanio / sb.tam_bloque)
                  antes.bloques;
          }))
      × OtrosIguales f t s s'

  truncar :
      (ins : Instruccion) (s : Fs B) (e : Encontrado s (file_de ins) (tag_de ins))
      → Bien ext sb s
      → ins.tamanio < 2 ^ 31
      → verificar_operaciones_base truncate ins s ≡ some seguir
      → e.meta.estado ≡ work_in_progress
      → (s' : Fs B) × (truncate_file ext sb ins s ≡ some (s', exito sb))
        × Bien ext sb s'
        × Truncado ins s s' (exito sb)
  unfolding truncate_file
  truncar ins s e w lt va wip =
      let (s1, eq, g) =
        redimensionar-Sigue n f t e.meta.bloques s e.dir w.nucleo e.hay e.enlaces
          (cero-enlazado ext sb s w) in
      let g2 = metadata-Sigue ext sb s s1 f t e.dir d1 m1 e.hay k g in
      let hay1 = buscar-Sigue ext sb s s1 f t e.dir d1 e.hay k g in
      let s2 = record s1 { tags = poner f t (con_metadata m1 d1) s1.tags } in
      let g3 = metadata-Sigue ext sb s s2 f t e.dir (con_metadata m1 d1) m2 e.hay k g2 in
      let s3 = record s2 { tags = poner f t d3 s2.tags } in
      (
        s3,
        rw
            (
              va,
              obtener_bloques_meta-eq f t s e.hay e.tiene,
              bloques_nuevos-eq ins.tamanio lt,
              eq,
              cambiar_tamanio_meta-eq f t s1 {m = e.meta} hay1 e.tiene ins.tamanio,
              modificar_bloques_meta-eq f t s2 {d = con_metadata m1 d1} {m = m1}
                  (buscar_tag-poner f t (con_metadata m1 d1) s1.tags {d = d1} hay1 k) refl bs,
            )
            refl,
        cambiar-Bien ext sb s s3 f t e.dir d3 w e.hay (no_inicial ext sb s f t w e wip) k
            (record { meta = m2; tiene = refl; enlaces = refl }) g3.nucleo g3.tags g3.dirs
            (ap (λ φ. φ 0) g3.fisicos),
        (
          ver s.fisicos e.meta,
          refl,
          vista-eq f t s {d = e.dir} e.hay e.tiene,
          wip,
          vista-poner f t s s3 d3 {d = e.dir} {m = m2} e.hay k refl g3.tags g3.fisicos
              ∙ ap
                  (λ x.
                    some (record { estado = e.meta.estado; tamanio = ins.tamanio; bloques = x }))
                  (rw (leer_todos-ajustar s.fisicos n e.meta.bloques, w.ceros) refl),
          otros-poner f t s s3 d3 k g3.tags g3.fisicos,
        ),
      )
    where
      f : List ℕ
      f = file_de ins

      t : List ℕ
      t = tag_de ins

      n : ℕ
      n = ins.tamanio / sb.tam_bloque

      bs : List ℕ
      bs = ajustar 0 n e.meta.bloques

      d1 : DirTag
      d1 = con_logicos (enum 0 bs) e.dir

      m1 : Metadata
      m1 = record (e.meta) { tamanio = ins.tamanio }

      m2 : Metadata
      m2 = record m1 { bloques = bs }

      d3 : DirTag
      d3 = con_metadata m2 d1

      k : es_tag f t e.dir ≡ true
      k = buscar_tag-es_tag f t s.tags {d = e.dir} e.hay

  -- TRUNCATE to a size that is not negative always ends and keeps the invariant. Unless it is
  -- rejected, which changes nothing, the tag was in progress and keeps the contents of its first
  -- size / BLOCK_SIZE blocks, the missing ones are added as zeros, its size is the one asked for,
  -- and every other file:tag is as it was.
  pub truncate_file-Truncado :
      (ins : Instruccion) (s : Fs B)
      → Bien ext sb s
      → ins.tamanio < 2 ^ 31
      → Resultado ext sb ins s (truncate_file ext sb ins s) (Truncado ins s)
  unfolding truncate_file
  truncate_file-Truncado ins s w lt = elim (truncate-Caso ext sb s ins w) [
    | inr (falta, e) ↦ rechazado ext sb ins s _ _ _ falta w e
    | inl (e, (enc, wip)) ↦
        let (s', eq, bien, hecho) = truncar ins s enc w lt e wip in
        (s', exito sb, eq, bien, inr hecho)
  ]
