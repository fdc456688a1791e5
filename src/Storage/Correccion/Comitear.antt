-- ===== src/Storage/Correccion/Comitear.antt =====
-- operaciones.c, commitFile.
use mathlib.Core.Option
use trabajo_practico_de_sist.Comun.{
  ℕ, ◌≡◌, refl, ap, ◌∙◌, List, [], ◌∷◌, Option, some, true, take, inl, inr,
}
use trabajo_practico_de_sist.Utils.Estructuras.{Instruccion, commit, RespuestaStorage}
use trabajo_practico_de_sist.Storage.Estado.{
  Externos, Superblock, Metadata, work_in_progress, commited, DirTag, Fs, es_tag,
}
use trabajo_practico_de_sist.Storage.Estado.Laws.{poner, buscar_tag-es_tag}
use trabajo_practico_de_sist.Storage.Enlaces.Laws.{enum}
use trabajo_practico_de_sist.Storage.Meta.{con_metadata}
use trabajo_practico_de_sist.Storage.Meta.Laws.{
  obtener_bloques_meta-eq, modificar_bloques_meta-eq, pasar_estado-wip, pasar_estado-commited,
}
use trabajo_practico_de_sist.Storage.Verificar.{seguir, file_de, tag_de, verificar_operaciones_base}
use trabajo_practico_de_sist.Storage.Operaciones.Commit.{commit_de, commit_file}
use trabajo_practico_de_sist.Storage.Invariante.Bucles.{
  con_logicos, buscar-Sigue, Sigue-trans, Sigue-refl,
}
use trabajo_practico_de_sist.Storage.Invariante.Duplicado.{MismosHashes}
use trabajo_practico_de_sist.Storage.Invariante.Deduplicacion.{commit_bloques-Sigue}
use trabajo_practico_de_sist.Storage.Invariante.Bien.{
  Bien, Encontrado, no_inicial, cambiar-Bien, metadata-Sigue,
}
use trabajo_practico_de_sist.Storage.Invariante.Casos.{commit-Caso, estado-cases}
use trabajo_practico_de_sist.Storage.Correccion.Vista.{
  Contenido, vista, ver, leer_todos, exito, Resultado, rechazado, OtrosIguales, vista-eq,
  vista-poner, otros-poner,
}

module _ {B : Type 0} (ext : Externos B) (sb : Superblock) where
  -- The hashes of the contents of a tag.
  abbrev pub hashes : List (Option (List ℕ)) → List (Option (List ℕ))
  hashes [] = []
  hashes (c ∷ cs) = Option.map (λ x. ext.md5 (take sb.tam_bloque x)) c ∷ hashes cs

  hashes-Mismos :
      (φ : ℕ → Option (List ℕ)) (bs bs' : List ℕ)
      → MismosHashes ext sb φ bs bs'
      → hashes (leer_todos φ bs') ≡ hashes (leer_todos φ bs)
  hashes-Mismos φ [] [] h = refl
  hashes-Mismos φ [] (b' ∷ bs') h = elim h [ ]
  hashes-Mismos φ (b ∷ bs) [] h = elim h [ ]
  hashes-Mismos φ (b ∷ bs) (b' ∷ bs') ((c, c', hc, hc', e), h) =
      rw (hc, hc', e, hashes-Mismos φ bs bs' h) refl

  -- What COMMIT leaves: the tag is commited, its size is the same, each block has the hash it had,
  -- and no physical block was written.
  abbrev pub Comiteado : Instruccion → Fs B → Fs B → RespuestaStorage → Type 0
  Comiteado ins s s' r =
      let f = file_de ins in
      let t = tag_de ins in
      (antes : Contenido) × (bloques : List (Option (List ℕ))) × (r ≡ exito sb)
      × (vista f t s ≡ some antes)
      × (vista f t s' ≡ some (record antes { estado = commited; bloques = bloques }))
      × (hashes bloques ≡ hashes antes.bloques)
      × OtrosIguales f t s s'
      × (s'.fisicos ≡ s.fisicos)

  comitear :
      (ins : Instruccion) (s : Fs B) (e : Encontrado s (file_de ins) (tag_de ins))
      → Bien ext sb s
      → verificar_operaciones_base commit ins s ≡ some seguir
      → e.meta.estado ≡ work_in_progress
      → (s' : Fs B) × (commit_file ext sb ins s ≡ some (s', exito sb))
        × Bien ext sb s'
        × ((bs' : List ℕ) × MismosHashes ext sb s.fisicos e.meta.bloques bs'
            × (vista (file_de ins) (tag_de ins) s'
                ≡ some (record (ver s.fisicos e.meta) {
                  estado = commited;
                  bloques = leer_todos s.fisicos bs';
                }))
            × OtrosIguales (file_de ins) (tag_de ins) s s'
            × (s'.fisicos ≡ s.fisicos))
  unfolding commit_file commit_de
  comitear ins s e w va wip =
      let g0 = Sigue-refl ext sb s f t e.dir.logicos e.dir w.nucleo e.hay refl in
      let g1 = metadata-Sigue ext sb s s f t e.dir e.dir m1 e.hay k g0 in
      let hay1 = buscar-Sigue ext sb s s1 f t e.dir d1 e.hay k g1 in
      let (bs', s2, eq, g, mismos) =
        commit_bloques-Sigue ext sb f t [] bs s1 d1 g1.nucleo hay1 e.enlaces in
      let d2 = con_logicos (enum 0 bs') d1 in
      let g2 = Sigue-trans ext sb s s1 s2 f t d1 d2 k g1 g in
      let hay2 = buscar-Sigue ext sb s s2 f t e.dir d2 e.hay k g2 in
      let m3 = record m1 { bloques = bs' } in
      let d3 = con_metadata m3 d2 in
      let g3 = metadata-Sigue ext sb s s2 f t e.dir d2 m3 e.hay k g2 in
      let s3 = record s2 { tags = poner f t d3 s2.tags } in
      (
        s3,
        rw
            (
              va,
              pasar_estado-wip f t s e.hay e.tiene wip,
              obtener_bloques_meta-eq f t s1 {d = d1} {m = m1} hay1 refl,
              eq,
              modificar_bloques_meta-eq f t s2 {d = d2} {m = m1} hay2 refl bs',
            )
            refl,
        cambiar-Bien ext sb s s3 f t e.dir d3 w e.hay (no_inicial ext sb s f t w e wip) k
            (record { meta = m3; tiene = refl; enlaces = refl }) g3.nucleo g3.tags g3.dirs
            (ap (λ φ. φ 0) g3.fisicos),
        (
          bs',
          mismos,
          vista-poner f t s s3 d3 {d = e.dir} {m = m3} e.hay k refl g3.tags g3.fisicos,
          otros-poner f t s s3 d3 k g3.tags g3.fisicos,
          g3.fisicos,
        ),
      )
    where
      f : List ℕ
      f = file_de ins

      t : List ℕ
      t = tag_de ins

      bs : List ℕ
      bs = e.meta.bloques

      m1 : Metadata
      m1 = record (e.meta) { estado = commited }

      d1 : DirTag
      d1 = con_metadata m1 e.dir

      s1 : Fs B
      s1 = record s { tags = poner f t d1 s.tags }

      k : es_tag f t e.dir ≡ true
      k = buscar_tag-es_tag f t s.tags {d = e.dir} e.hay

  repetir-Comiteado :
      (ins : Instruccion) (s : Fs B) (e : Encontrado s (file_de ins) (tag_de ins))
      → verificar_operaciones_base commit ins s ≡ some seguir
      → e.meta.estado ≡ commited
      → (commit_file ext sb ins s ≡ some (s, exito sb)) × Comiteado ins s s (exito sb)
  unfolding commit_file
  repetir-Comiteado ins s e va c =
      let f = file_de ins in
      let t = tag_de ins in
      let v = vista-eq f t s {d = e.dir} e.hay e.tiene in
      (
        rw (va, pasar_estado-commited f t s e.hay e.tiene c) refl,
        (
          ver s.fisicos e.meta,
          leer_todos s.fisicos e.meta.bloques,
          refl,
          v,
          v ∙ ap (λ x. some (record (ver s.fisicos e.meta) { estado = x })) c,
          refl,
          λ f' t' n. refl,
          refl,
        ),
      )

  -- COMMIT always ends and keeps the invariant. Unless it is rejected, which changes nothing, the
  -- tag is commited afterwards, with the size it had and with blocks that have, one by one, the
  -- hashes that they had; every other file:tag is as it was, and no physical block was written.
  pub commit_file-Comiteado :
      (ins : Instruccion) (s : Fs B)
      → Bien ext sb s
      → Resultado ext sb ins s (commit_file ext sb ins s) (Comiteado ins s)
  unfolding commit_file
  commit_file-Comiteado ins s w = elim (commit-Caso ext sb s ins w) [
    | inr (falta, e) ↦ rechazado ext sb ins s _ _ _ falta w e
    | inl (va, e) ↦ elim (estado-cases e.meta.estado) [
      | inl wip ↦
          let (s', eq, bien, (bs', mismos, v, otros, fis)) = comitear ins s e w va wip in
          (
            s',
            exito sb,
            eq,
            bien,
            inr (
              ver s.fisicos e.meta,
              leer_todos s.fisicos bs',
              refl,
              vista-eq (file_de ins) (tag_de ins) s {d = e.dir} e.hay e.tiene,
              v,
              hashes-Mismos s.fisicos e.meta.bloques bs' mismos,
              otros,
              fis,
            ),
          )
      | inr c ↦ let (eq, hecho) = repetir-Comiteado ins s e va c in (s, exito sb, eq, w, inr hecho)
    ]
  ]

  -- The hash tells the contents of the stored blocks apart.
  abbrev pub SinColisiones : Fs B → Type 0
  SinColisiones s =
      (b b' : ℕ) (c c' : List ℕ)
      → s.fisicos b ≡ some c
      → s.fisicos b' ≡ some c'
      → ext.md5 (take sb.tam_bloque c) ≡ ext.md5 (take sb.tam_bloque c')
      → c ≡ c'

  mismos-leer :
      (s : Fs B) (bs bs' : List ℕ)
      → SinColisiones s
      → MismosHashes ext sb s.fisicos bs bs'
      → leer_todos s.fisicos bs' ≡ leer_todos s.fisicos bs
  mismos-leer s [] [] z h = refl
  mismos-leer s [] (b' ∷ bs') z h = elim h [ ]
  mismos-leer s (b ∷ bs) [] z h = elim h [ ]
  mismos-leer s (b ∷ bs) (b' ∷ bs') z ((c, c', hc, hc', e), h) =
      rw (hc, hc', z b b' c c' hc hc' e, mismos-leer s bs bs' z h) refl

  -- What COMMIT leaves where the hash has no collisions: the same contents.
  abbrev pub Conservado : Instruccion → Fs B → Fs B → RespuestaStorage → Type 0
  Conservado ins s s' r =
      let f = file_de ins in
      let t = tag_de ins in
      (antes : Contenido) × (vista f t s ≡ some antes)
      × (vista f t s' ≡ some (record antes { estado = commited }))
      × OtrosIguales f t s s'

  -- Where no two stored blocks with different contents have one hash, the deduplication of COMMIT
  -- is not seen: unless it is rejected, the tag has the size and the contents that it had, and is
  -- commited, and every other file:tag is as it was.
  pub commit_file-Conservado :
      (ins : Instruccion) (s : Fs B)
      → Bien ext sb s
      → SinColisiones s
      → Resultado ext sb ins s (commit_file ext sb ins s) (Conservado ins s)
  unfolding commit_file
  commit_file-Conservado ins s w z = elim (commit-Caso ext sb s ins w) [
    | inr (falta, e) ↦ rechazado ext sb ins s _ _ _ falta w e
    | inl (va, e) ↦ elim (estado-cases e.meta.estado) [
      | inl wip ↦
          let (s', eq, bien, (bs', mismos, v, otros, fis)) = comitear ins s e w va wip in
          (
            s',
            exito sb,
            eq,
            bien,
            inr (
              ver s.fisicos e.meta,
              vista-eq (file_de ins) (tag_de ins) s {d = e.dir} e.hay e.tiene,
              rw (mismos-leer s e.meta.bloques bs' z mismos) at v,
              otros,
            ),
          )
      | inr c ↦
          let (eq, (antes, bs, _, v, v', _, otros, _)) = repetir-Comiteado ins s e va c in
          let v0 = vista-eq (file_de ins) (tag_de ins) s {d = e.dir} e.hay e.tiene in
          (
            s,
            exito sb,
            eq,
            w,
            inr (
              ver s.fisicos e.meta,
              v0,
              v0 ∙ ap (λ x. some (record (ver s.fisicos e.meta) { estado = x })) c,
              otros,
            ),
          )
    ]
  ]
