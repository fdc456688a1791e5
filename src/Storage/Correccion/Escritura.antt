-- ===== src/Storage/Correccion/Escritura.antt =====
-- What WRITE leaves, and the end that both kinds of write have.
use trabajo_practico_de_sist.Comun.{
  ℕ, ◌<◌, ◌≡◌, refl, ap, ◌∙◌, List, Option, none, some, true, false, ◌&&◌, take, set, get_elem?,
  arith, ◌>>=◌, ◌==◌, if◌then◌else◌, eq_bytes,
}
use trabajo_practico_de_sist.Utils.Estructuras.{Instruccion, RespuestaStorage, error_insuficiente}
use trabajo_practico_de_sist.Storage.Estado.{
  Externos, Superblock, Metadata, work_in_progress, DirTag, Fs, buscar_tag, es_tag,
}
use trabajo_practico_de_sist.Storage.Estado.Laws.{
  poner, buscar_tag-es_tag, buscar_tag-poner, refs-buscar_tag,
}
use trabajo_practico_de_sist.Storage.Enlaces.{cuenta, refs}
use trabajo_practico_de_sist.Storage.Enlaces.Laws.{enum, destino-get_elem?, cuenta-destino}
use trabajo_practico_de_sist.Storage.Bloques.{con_bloque}
use trabajo_practico_de_sist.Storage.Inicio.{initial_file, base}
use trabajo_practico_de_sist.Storage.Verificar.{file_de, tag_de}
use trabajo_practico_de_sist.Storage.Operaciones.Base.{enviar_respuesta_a_worker}
use trabajo_practico_de_sist.Storage.Operaciones.Contenido.{texto_insuficiente}
use trabajo_practico_de_sist.Storage.Invariante.{Nucleo}
use trabajo_practico_de_sist.Storage.Invariante.Bien.{
  Bien, Encontrado, dir_base, cero-enlazado, no_inicial, cambiar-Bien,
}
use trabajo_practico_de_sist.Storage.Correccion.Vista.{
  Contenido, vista, ver, exito, OtrosIguales, vista-eq,
}
use trabajo_practico_de_sist.Storage.Correccion.Aislamiento.{
  leer_todos-set, refs-dos, otros-escribir,
}

-- The physical block that the request is for.
abbrev pub bloque_de : {B : Type 0} → Instruccion → Fs B → Option ℕ
bloque_de ins s = do
  d ← buscar_tag (file_de ins) (tag_de ins) s.tags
  m ← d.metadata
  get_elem? m.bloques ins.nro_bloque

-- If the block is written in place, which is when it has one link, no hash is kept for it.
abbrev pub SinHash : {B : Type 0} → Instruccion → Fs B → Type 0
SinHash ins s =
    (h : List ℕ) (b : ℕ) → bloque_de ins s ≡ some b → refs b s.tags ≡ 1 → s.indice h ≡ some b → ⊥

module _ {B : Type 0} (ext : Externos B) (sb : Superblock) where
  -- What WRITE leaves.
  abbrev pub Escrito : Instruccion → Fs B → Fs B → RespuestaStorage → Type 0
  Escrito ins s s' r =
      let f = file_de ins in
      let t = tag_de ins in
      (antes : Contenido) × (r ≡ exito sb)
      × (vista f t s ≡ some antes)
      × (antes.estado ≡ work_in_progress)
      × (vista f t s'
          ≡ some (record antes {
            bloques = set antes.bloques ins.nro_bloque (some (take sb.tam_bloque ins.contenido));
          }))
      × OtrosIguales f t s s'

  -- What WRITE leaves where a block is needed and there is none.
  abbrev pub SinEspacio : Instruccion → Fs B → Fs B → RespuestaStorage → Type 0
  SinEspacio ins s s' r =
      (s' ≡ s)
      × (r ≡ enviar_respuesta_a_worker sb error_insuficiente none (texto_insuficiente ext sb ins))
      × ((j : ℕ) → j < ext.max_bit s.bitmap → ext.test s.bitmap j ≡ true)

  -- The end of both kinds of write, `p` being the block written.
  pub terminar :
      (ins : Instruccion) (s s' : Fs B) (e : Encontrado s (file_de ins) (tag_de ins)) (b p : ℕ)
      (d' : DirTag) (bs' : List ℕ)
      → Bien ext sb s
      → e.meta.estado ≡ work_in_progress
      → get_elem? e.meta.bloques ins.nro_bloque ≡ some b
      → bs' ≡ set e.meta.bloques ins.nro_bloque p
      → d' ≡ record (e.dir) {
        metadata = some (record (e.meta) { bloques = bs' });
        logicos = enum 0 bs';
      }
      → Nucleo ext sb s'
      → s'.tags ≡ poner (file_de ins) (tag_de ins) d' s.tags
      → s'.dirs ≡ s.dirs
      → s'.fisicos ≡ con_bloque p (take sb.tam_bloque ins.contenido) s.fisicos
      → refs p s.tags ≡ (if p == b then 1 else 0)
      → Bien ext sb s' × Escrito ins s s' (exito sb)
  unfolding cuenta
  terminar ins s s' e b p d' bs' w wip hb hbs hd' n et ed ef cuentas = (
    cambiar-Bien ext sb s s' f t e.dir d' w e.hay ni k'
        (record { meta = m'; tiene = rw hd' refl; enlaces = rw hd' refl }) n et ed
        (ap (λ φ. φ 0) ef ∙ no_cero),
    (
      ver s.fisicos e.meta,
      refl,
      vista-eq f t s {d = e.dir} e.hay e.tiene,
      wip,
      vista-eq f t s' {d = d'} {m = m'}
            (rw et (buscar_tag-poner f t d' s.tags {d = e.dir} e.hay k')) (rw hd' refl)
          ∙ rw (ef, hbs)
              (ap (λ x. some (record (ver s.fisicos e.meta) { bloques = x }))
                (leer_todos-set s.fisicos p i 0 c bs b hb cuenta_p)),
      otros-escribir ext sb f t s s' d' p c w k' et ef sin,
    ),
  )
    where
      f : List ℕ
      f = file_de ins

      t : List ℕ
      t = tag_de ins

      i : ℕ
      i = ins.nro_bloque

      c : List ℕ
      c = take sb.tam_bloque ins.contenido

      bs : List ℕ
      bs = e.meta.bloques

      m' : Metadata
      m' = record (e.meta) { bloques = bs' }

      k' : es_tag f t d' ≡ true
      k' = rw hd' (buscar_tag-es_tag f t s.tags {d = e.dir} e.hay)

      ni : (eq_bytes initial_file f && eq_bytes base t) ≡ false
      ni = no_inicial ext sb s f t w e wip

      mia : 0 < cuenta b e.dir.logicos
      mia = cuenta-destino i e.dir.logicos {c = b} (rw (e.enlaces) (destino-get_elem? i bs ∙ hb))

      sin :
          (f' t' : List ℕ) (x : DirTag)
          → (eq_bytes f' f && eq_bytes t' t) ≡ false
          → buscar_tag f' t' s.tags ≡ some x
          → cuenta p x.logicos ≡ 0
      sin f' t' x no' hay =
          ground (arith, cuentas, mia, refs-dos p f t f' t' s.tags e.dir x e.hay hay no')

      cuenta_p : cuenta p (enum 0 bs) ≡ (if p == b then 1 else 0)
      cuenta_p =
          rw (← e.enlaces)
            (ground (arith, cuentas, mia, refs-buscar_tag f t p s.tags {d = e.dir} e.hay))

      no_cero : con_bloque p c s.fisicos 0 ≡ s.fisicos 0
      no_cero = ground (
        arith,
        cuentas,
        mia,
        cero-enlazado ext sb s w,
        refs-dos 0 f t initial_file base s.tags e.dir (dir_base sb) e.hay w.inicial ni,
      )
