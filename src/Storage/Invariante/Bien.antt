-- ===== src/Storage/Invariante/Bien.antt =====
-- The invariant of the whole file system, and how a change of one file:tag keeps it.
use trabajo_practico_de_sist.Comun.{
  ℕ, ◌<◌, ◌≡◌, refl, ◌∙◌, List, [], ◌∷◌, some, Bool, true, false, ◌&&◌, replicate, All, eq_bytes,
  eq_bytes_sound, arith, inl, inr, Bool-cases,
}
use trabajo_practico_de_sist.Storage.Estado.{
  Externos, Superblock, Metadata, work_in_progress, commited, DirTag, Fs, buscar_tag, es_tag,
  contiene,
}
use trabajo_practico_de_sist.Storage.Estado.Laws.{
  poner, Unicos, buscar_tag-es_tag, buscar_tag-poner_other, All-poner, All-buscar_tag, Unicos-poner,
  refs-poner,
}
use trabajo_practico_de_sist.Storage.Enlaces.{refs}
use trabajo_practico_de_sist.Storage.Enlaces.Laws.{enum}
use trabajo_practico_de_sist.Storage.Meta.{con_metadata}
use trabajo_practico_de_sist.Storage.Inicio.{initial_file, base}
use trabajo_practico_de_sist.Storage.Invariante.{Nucleo, IsTag}
use trabajo_practico_de_sist.Storage.Invariante.Enlace.{Sigue, Nucleo-tags, refs-destino}
use trabajo_practico_de_sist.Storage.Invariante.Bucles.{Sigue-trans, buscar-Sigue}

-- initial_file:BASE
abbrev pub dir_base : Superblock → DirTag
dir_base sb = record {
  file = initial_file;
  nombre = base;
  metadata = some (record { tamanio = sb.tam_bloque; bloques = 0 ∷ []; estado = commited });
  logicos = (0, 0) ∷ [];
}

-- Both names are those of initial_file:BASE.
abbrev pub es_inicial : List ℕ → List ℕ → Bool
es_inicial f t = eq_bytes initial_file f && eq_bytes base t

-- The core; each tag with its metadata, in the directory of a file, under its own name; block 0 of
-- initial_file:BASE holds zeros.
pub record Bien {B : Type 0} (ext : Externos B) (sb : Superblock) (s : Fs B) : Type 0 where
  pub nucleo : Nucleo ext sb s
  pub tags : All IsTag s.tags
  pub unicos : Unicos s.tags
  pub archivos : All (λ d. contiene d.file s.dirs ≡ true) s.tags
  pub inicial : buscar_tag initial_file base s.tags ≡ some (dir_base sb)
  pub ceros : s.fisicos 0 ≡ some (replicate sb.tam_bloque 0)

-- The tag is there, and its links are the blocks of its metadata.
pub record Encontrado {B : Type 0} (s : Fs B) (f t : List ℕ) : Type 0 where
  pub dir : DirTag
  pub meta : Metadata
  pub hay : buscar_tag f t s.tags ≡ some dir
  pub tiene : dir.metadata ≡ some meta
  pub enlaces : dir.logicos ≡ enum 0 meta.bloques

module _ {B : Type 0} (ext : Externos B) (sb : Superblock) where
  pub encontrar :
      (s : Fs B) (f t : List ℕ) (d : DirTag)
      → Bien ext sb s
      → buscar_tag f t s.tags ≡ some d
      → Encontrado s f t
  encontrar s f t d w h =
      let b = All-buscar_tag f t IsTag s.tags {d = d} w.tags h in
      record { dir = d; meta = b.meta; hay = h; tiene = b.tiene; enlaces = b.enlaces }

  pub cero-enlazado : (s : Fs B) → Bien ext sb s → 0 < refs 0 s.tags
  cero-enlazado s w = refs-destino ext sb initial_file base 0 0 s.tags (dir_base sb) w.inicial refl

  -- A tag that is not commited is not initial_file:BASE.
  pub no_inicial :
      (s : Fs B) (f t : List ℕ)
      → Bien ext sb s
      → (e : Encontrado s f t) → e.meta.estado ≡ work_in_progress
      → es_inicial f t ≡ false
  no_inicial s f t w e wip = elim (Bool-cases (es_inicial f t)) [
    | inr no' ↦ no'
    | inl si ↦
        let f≡ = eq_bytes_sound initial_file f (ground arith) in
        let t≡ = eq_bytes_sound base t (ground arith) in
        let h = rw (← f≡, ← t≡) at (e.hay) in
        let d≡ : e.dir ≡ dir_base sb = ground (arith, h, w.inicial) in
        let m≡ = rw d≡ at (e.tiene) in absurd (ground (arith, m≡, wip))
  ]

  -- One tag becomes `d'`, and the rest of the file system follows.
  pub cambiar-Bien :
      (s s' : Fs B) (f t : List ℕ) (d d' : DirTag)
      → Bien ext sb s
      → buscar_tag f t s.tags ≡ some d
      → es_inicial f t ≡ false
      → es_tag f t d' ≡ true
      → IsTag d'
      → Nucleo ext sb s'
      → s'.tags ≡ poner f t d' s.tags
      → s'.dirs ≡ s.dirs
      → s'.fisicos 0 ≡ s.fisicos 0
      → Bien ext sb s'
  cambiar-Bien s s' f t d d' w hd ni k it n et ed ef = record {
    nucleo = n;
    tags = rw et (All-poner f t IsTag d' s.tags w.tags it);
    unicos = rw et (Unicos-poner f t d' s.tags k w.unicos);
    archivos =
        rw (et, ed)
          (All-poner f t (λ x. contiene x.file s.dirs ≡ true) d' s.tags w.archivos
            (rw
              (
                ← eq_bytes_sound f d'.file (ground arith),
                eq_bytes_sound f d.file (ground (arith, buscar_tag-es_tag f t s.tags {d = d} hd)),
              )
              (All-buscar_tag f t (λ x. contiene x.file s.dirs ≡ true) s.tags {d = d} w.archivos
                hd)));
    inicial = rw (et, buscar_tag-poner_other f t initial_file base d' s.tags ni k) w.inicial;
    ceros = ef ∙ w.ceros;
  }

  -- New metadata for a tag, after a step that ended with `d1` in its place.
  pub metadata-Sigue :
      (s s1 : Fs B) (f t : List ℕ) (d d1 : DirTag) (m' : Metadata)
      → buscar_tag f t s.tags ≡ some d
      → es_tag f t d1 ≡ true
      → Sigue ext sb s s1 (poner f t d1 s.tags)
      → Sigue ext sb s
          (record s1 { tags = poner f t (con_metadata m' d1) s1.tags })
          (poner f t (con_metadata m' d1) s.tags)
  metadata-Sigue s s1 f t d d1 m' hd k g =
      Sigue-trans ext sb s s1 (record s1 { tags = poner f t (con_metadata m' d1) s1.tags }) f t d1
        (con_metadata m' d1) k g
        (record {
          nucleo = Nucleo-tags ext sb s1 (poner f t (con_metadata m' d1) s1.tags) mismos g.nucleo;
          tags = refl;
          fisicos = refl;
          dirs = refl;
          bits = refl;
        })
    where
      mismos : (x : ℕ) → refs x (poner f t (con_metadata m' d1) s1.tags) ≡ refs x s1.tags
      mismos x = omega (
        arith,
        refs-poner f t x (con_metadata m' d1) s1.tags {d = d1}
            (buscar-Sigue ext sb s s1 f t d d1 hd k g),
      )
