-- ===== src/Storage/Invariante/Deduplicacion.antt =====
-- The loop of COMMIT: blocks get into the hash index, or are replaced by those that are in it.
use trabajo_practico_de_sist.Comun.{
  ℕ, ◌+◌, ◌<◌, ◌≡◌, refl, sym, ◌∙◌, List, [], ◌∷◌, ◌++◌, some, false, length, length-append, take,
  set, get_elem?, get_elem?-lt, ◌==◌, if◌then◌else◌, arith, inl, inr, Bool-cases, Option-cases,
  eq_bytes, eq_bytes_sound,
}
use trabajo_practico_de_sist.Storage.Estado.{Externos, Superblock, DirTag, Fs, buscar_tag}
use trabajo_practico_de_sist.Storage.Estado.Laws.{poner, buscar_tag-es_tag, poner-same, refs-poner}
use trabajo_practico_de_sist.Storage.Enlaces.{refs, borrar, insertar}
use trabajo_practico_de_sist.Storage.Enlaces.Laws.{
  enum, destino, uno_si, cuenta-insertar, destino-get_elem?, destino-borrar, insertar-borrar,
}
use trabajo_practico_de_sist.Storage.Bloques.{
  enlazar, desenlazar, con_indice, calcular_hash, buscar_bloque_por_hash, guardar_hash_bloque,
  deduplicacion_bloque,
}
use trabajo_practico_de_sist.Storage.Operaciones.Commit.{commit_bloque, commit_bloques}
use trabajo_practico_de_sist.Storage.Invariante.{Nucleo}
use trabajo_practico_de_sist.Storage.Invariante.Enlace.{Sigue, refs-destino, refs-desenlazar}
use trabajo_practico_de_sist.Storage.Invariante.Bucles.{
  append-snoc, con_logicos, Sigue-trans, buscar-Sigue,
}
use trabajo_practico_de_sist.Storage.Invariante.Duplicado.{
  set-same, elemento, set-medio, MismoHash, MismosHashes, Nucleo-deduplicar, deduplicacion-eq,
}

module _ {B : Type 0} (ext : Externos B) (sb : Superblock) where
  abbrev pub Paso : Fs B → List ℕ → List ℕ → List ℕ → ℕ → ℕ → DirTag → Type 0
  Paso s f t bs i b d =
      (b' : ℕ) × (s' : Fs B) × (commit_bloque ext sb i b f t s ≡ some (b', s'))
      × Sigue ext sb s s' (poner f t (con_logicos (enum 0 (set bs i b')) d) s.tags)
      × MismoHash ext sb s.fisicos b b'

  sin_cambio :
      (s : Fs B) (f t bs : List ℕ) (i b : ℕ) (d : DirTag)
      → buscar_tag f t s.tags ≡ some d
      → d.logicos ≡ enum 0 bs
      → get_elem? bs i ≡ some b
      → s.tags ≡ poner f t (con_logicos (enum 0 (set bs i b)) d) s.tags
  sin_cambio s f t bs i b d hd hl hb =
      rw (set-same bs i hb, ← hl) (sym (poner-same f t s.tags {d = d} hd))

  guardar-Nucleo :
      (s : Fs B) (b : ℕ) (c : List ℕ)
      → s.fisicos b ≡ some c
      → 0 < refs b s.tags
      → Nucleo ext sb s
      → Nucleo ext sb
          (record s { indice = con_indice (ext.md5 (take sb.tam_bloque c)) (some b) s.indice })
  guardar-Nucleo s b c hc pos n = record {
    ocupados = n.ocupados;
    enlazados = n.enlazados;
    indice = λ k x q. elim (Bool-cases (eq_bytes (ext.md5 (take sb.tam_bloque c)) k)) [
      | inl si ↦
          let b≡x : b ≡ x = ground arith in
          let igual = eq_bytes_sound (ext.md5 (take sb.tam_bloque c)) k si in
          rw (← b≡x) (pos, (c, hc, igual))
      | inr no' ↦ n.indice k x (rw no' at q)
    ];
  }

  deduplicar-Sigue :
      (s : Fs B) (f t bs : List ℕ) (i b nuevo : ℕ) (d : DirTag) (c : List ℕ)
      → Nucleo ext sb s
      → buscar_tag f t s.tags ≡ some d
      → d.logicos ≡ enum 0 bs
      → get_elem? bs i ≡ some b
      → s.fisicos b ≡ some c
      → s.indice (ext.md5 (take sb.tam_bloque c)) ≡ some nuevo
      → nuevo == b ≡ false
      → Sigue ext sb s
          (deduplicacion_bloque ext sb b nuevo f t i s)
          (poner f t (con_logicos (enum 0 (set bs i nuevo)) d) s.tags)
  deduplicar-Sigue s f t bs i b nuevo d c n hd hl hb hc hi ne =
      rw (deduplicacion-eq ext sb s f t i b nuevo d hd hc (n.indice _ nuevo hi).1.1, logicos)
        (elim (Bool-cases (refs b ts == 0)) [
          | inl si ↦
              let n' = rw si at nucleo in
              rw si (record {
                nucleo = n';
                tags = refl;
                fisicos = refl;
                dirs = refl;
                bits = ext.max_bit-clean_bit s.bitmap b;
              })
          | inr no' ↦
              let n' = rw no' at nucleo in
              rw no' (record { nucleo = n'; tags = refl; fisicos = refl; dirs = refl; bits = refl })
        ])
    where
      ts : List DirTag
      ts = poner f t (con_logicos (enum 0 (set bs i nuevo)) d) s.tags

      logicos : insertar i nuevo (borrar i d.logicos) ≡ enum 0 (set bs i nuevo)
      logicos = rw hl (insertar-borrar i nuevo bs (get_elem?-lt bs i hb))

      cuentas : (x : ℕ) → refs x ts + uno_si x b ≡ refs x s.tags + uno_si x nuevo
      cuentas x = ground (
        arith,
        logicos,
        refs-poner f t x (enlazar i nuevo (desenlazar i d)) s.tags {d = d} hd,
        refs-desenlazar ext sb f t i b s.tags d hd (rw hl (destino-get_elem? i bs ∙ hb)) x,
        refs-poner f t x (desenlazar i d) s.tags {d = d} hd,
        cuenta-insertar x i nuevo (borrar i d.logicos) (rw hl (destino-borrar i bs)),
      )

      nucleo : Nucleo ext sb (
          if refs b ts == 0
          then record s { tags = ts; bitmap = ext.clean_bit s.bitmap b }
          else record s { tags = ts })
      nucleo = Nucleo-deduplicar ext sb s ts b nuevo c cuentas hc hi ne n

  -- One round of the loop of COMMIT.
  pub commit_bloque-Sigue :
      (s : Fs B) (f t bs : List ℕ) (i b : ℕ) (d : DirTag)
      → Nucleo ext sb s
      → buscar_tag f t s.tags ≡ some d
      → d.logicos ≡ enum 0 bs
      → get_elem? bs i ≡ some b
      → Paso s f t bs i b d
  unfolding commit_bloque buscar_bloque_por_hash guardar_hash_bloque calcular_hash
  commit_bloque-Sigue s f t bs i b d n hd hl hb =
      let (c, hc, _) = (n.enlazados b (refs-destino ext sb f t i b s.tags d hd hi)).1 in
      elim (Option-cases (s.indice (ext.md5 (take sb.tam_bloque c)))) [
        | inl libre ↦ (
          b,
          record s { indice = con_indice (ext.md5 (take sb.tam_bloque c)) (some b) s.indice },
          rw (hc, libre, guardar_hash_bloque, hc) refl,
          record {
            nucleo = guardar-Nucleo s b c hc (refs-destino ext sb f t i b s.tags d hd hi) n;
            tags = sin_cambio s f t bs i b d hd hl hb;
            fisicos = refl;
            dirs = refl;
            bits = refl;
          },
          (c, c, hc, hc, refl),
        )
        | inr (nuevo, esta) ↦ elim (Bool-cases (nuevo == b)) [
          | inl si ↦ (
            b,
            s,
            rw (hc, esta, si) refl,
            record {
              nucleo = n;
              tags = sin_cambio s f t bs i b d hd hl hb;
              fisicos = refl;
              dirs = refl;
              bits = refl;
            },
            (c, c, hc, hc, refl),
          )
          | inr no' ↦
              let (c', hc', igual) = (n.indice (ext.md5 (take sb.tam_bloque c)) nuevo esta).1 in
              (
                nuevo,
                deduplicacion_bloque ext sb b nuevo f t i s,
                rw (hc, esta, no') refl,
                deduplicar-Sigue s f t bs i b nuevo d c n hd hl hb hc esta no',
                (c, c', hc, hc', sym igual),
              )
        ]
      ]
    where
      hi : destino i d.logicos ≡ some b
      hi = rw hl (destino-get_elem? i bs ∙ hb)

  -- The loop of COMMIT keeps the invariant and, block by block, the hash of the contents.
  pub commit_bloques-Sigue :
      (f t pre bs : List ℕ) (s : Fs B) (d : DirTag)
      → Nucleo ext sb s
      → buscar_tag f t s.tags ≡ some d
      → d.logicos ≡ enum 0 (pre ++ bs)
      → (bs' : List ℕ) × (s' : Fs B) × (commit_bloques ext sb (length pre) f t bs s
          ≡ some (bs', s'))
        × Sigue ext sb s s' (poner f t (con_logicos (enum 0 (pre ++ bs')) d) s.tags)
        × MismosHashes ext sb s.fisicos bs bs'
  unfolding commit_bloques
  commit_bloques-Sigue f t pre [] s d n hd hl = (
    [],
    s,
    refl,
    record {
      nucleo = n;
      tags = rw (← hl) (sym (poner-same f t s.tags {d = d} hd));
      fisicos = refl;
      dirs = refl;
      bits = refl;
    },
    tt,
  )
  commit_bloques-Sigue f t pre (b ∷ bs) s d n hd hl =
      let (b', s1, e1, g1, h1) =
        commit_bloque-Sigue s f t (pre ++ b ∷ bs) (length pre) b d n hd hl (elemento pre b bs) in
      let d1 = con_logicos (enum 0 (set (pre ++ b ∷ bs) (length pre) b')) d in
      let k = buscar_tag-es_tag f t s.tags {d = d} hd in
      let (bs', s2, e2, g2, h2) =
        commit_bloques-Sigue f t (pre ++ b' ∷ []) bs s1 d1 g1.nucleo
          (buscar-Sigue ext sb s s1 f t d d1 hd k g1)
          (rw (set-medio pre b b' bs, append-snoc pre b' bs) refl) in
      (
        b' ∷ bs',
        s2,
        rw (e1, ← length-append pre (b' ∷ []), e2) refl,
        Sigue-trans ext sb s s1 s2 f t d1 (con_logicos (enum 0 (pre ++ b' ∷ bs')) d) k g1
            (rw (append-snoc pre b' bs') at g2),
        (h1, rw (g1.fisicos) at h2),
      )
