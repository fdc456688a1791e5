-- ===== src/Storage/Correccion/Leer.antt =====
-- operaciones.c, readBlock.
use trabajo_practico_de_sist.Comun.{
  ℕ, zero, suc, ◌≡◌, refl, ap, ◌∙◌, List, [], ◌∷◌, Option, some, length, take, take-length,
  get_elem?, get_elem?-total, arith, inl, inr, subst,
}
use trabajo_practico_de_sist.Utils.Estructuras.{Instruccion, RespuestaStorage, correcto}
use trabajo_practico_de_sist.Storage.Estado.{Externos, Superblock, Fs}
use trabajo_practico_de_sist.Storage.Enlaces.Laws.{destino-get_elem?}
use trabajo_practico_de_sist.Storage.Meta.Laws.{obtener_bloques_meta-eq}
use trabajo_practico_de_sist.Storage.Bloques.{leer_bloque}
use trabajo_practico_de_sist.Storage.Verificar.{file_de, tag_de}
use trabajo_practico_de_sist.Storage.Operaciones.Base.{enviar_respuesta_a_worker}
use trabajo_practico_de_sist.Storage.Operaciones.Contenido.{read_block}
use trabajo_practico_de_sist.Storage.Invariante.{Guardado}
use trabajo_practico_de_sist.Storage.Invariante.Enlace.{refs-destino}
use trabajo_practico_de_sist.Storage.Invariante.Bien.{Bien, Encontrado}
use trabajo_practico_de_sist.Storage.Invariante.Casos.{read_block-Caso}
use trabajo_practico_de_sist.Storage.Correccion.Vista.{
  Contenido, vista, ver, leer_todos, Resultado, rechazado, vista-eq,
}

pub get_elem?-leer_todos :
    (φ : ℕ → Option (List ℕ)) (bs : List ℕ) (i b : ℕ)
    → get_elem? bs i ≡ some b
    → get_elem? (leer_todos φ bs) i ≡ some (φ b)
get_elem?-leer_todos φ [] i b h = cc
get_elem?-leer_todos φ (x ∷ bs) zero b h = ground arith
get_elem?-leer_todos φ (x ∷ bs) (suc i) b h = get_elem?-leer_todos φ bs i b h

module _ {B : Type 0} (ext : Externos B) (sb : Superblock) where
  -- Each block of a tag has its file.
  pub bloque-Guardado :
      (s : Fs B) (f t : List ℕ) (e : Encontrado s f t) (i b : ℕ)
      → Bien ext sb s
      → get_elem? e.meta.bloques i ≡ some b
      → Guardado sb s b
  bloque-Guardado s f t e i b w h =
      (w.nucleo.enlazados b (
        refs-destino ext sb f t i b s.tags e.dir e.hay
          (rw (e.enlaces) (destino-get_elem? i e.meta.bloques ∙ h)))).1

  -- What READ answers.
  abbrev pub Leido : Instruccion → Fs B → Fs B → RespuestaStorage → Type 0
  Leido ins s s' r =
      (antes : Contenido) × (c : List ℕ) × (s' ≡ s)
      × (vista (file_de ins) (tag_de ins) s ≡ some antes)
      × (get_elem? antes.bloques ins.nro_bloque ≡ some (some c))
      × (length c ≡ sb.tam_bloque)
      × (r ≡ enviar_respuesta_a_worker sb correcto (some c) [])

  -- READ always ends and changes nothing. Unless it is rejected, the reply has the whole block of
  -- the tag with the number asked for.
  pub read_block-Leido :
      (ins : Instruccion) (s : Fs B)
      → Bien ext sb s
      → Resultado ext sb ins s (read_block ext sb ins s) (Leido ins s)
  unfolding read_block leer_bloque
  read_block-Leido ins s w = elim (read_block-Caso ext sb s ins w) [
    | inr (falta, e) ↦ rechazado ext sb ins s _ _ _ falta w e
    | inl (va, (e, lt)) ↦
        let (b, hb) = get_elem?-total e.meta.bloques ins.nro_bloque lt in
        let (c, hc, hl) = bloque-Guardado s (file_de ins) (tag_de ins) e ins.nro_bloque b w hb in
        let toma : take sb.tam_bloque c ≡ c = subst (λ n. take n c ≡ c) hl (take-length c) in
        (
          s,
          enviar_respuesta_a_worker sb correcto (some c) [],
          rw
              (
                va,
                obtener_bloques_meta-eq (file_de ins) (tag_de ins) s e.hay e.tiene,
                hb,
                leer_bloque,
                hc,
                toma,
              )
              refl,
          w,
          inr (
            ver s.fisicos e.meta,
            c,
            refl,
            vista-eq (file_de ins) (tag_de ins) s {d = e.dir} e.hay e.tiene,
            get_elem?-leer_todos s.fisicos e.meta.bloques ins.nro_bloque b hb ∙ ap some hc,
            hl,
            refl,
          ),
        )
  ]
