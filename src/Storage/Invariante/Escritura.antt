-- ===== src/Storage/Invariante/Escritura.antt =====
-- The write of a block: in place, and as a copy in a free block.
use trabajo_practico_de_sist.Comun.{
  ℕ, ◌+◌, ◌<◌, ◌≤◌, ◌≡◌, refl, ◌∙◌, List, none, some, true, false, length, length-take, take,
  get_elem?, set, get_elem?-lt, ◌==◌, ◌>>=◌, arith, inl, inr, Bool-cases,
}
use trabajo_practico_de_sist.Utils.Estructuras.{Instruccion}
use trabajo_practico_de_sist.Storage.Estado.{
  Externos, Superblock, Metadata, DirTag, Fs, buscar_tag, es_tag,
}
use trabajo_practico_de_sist.Storage.Estado.Laws.{
  poner, buscar_tag-poner, buscar_tag-es_tag, poner-poner, refs-poner,
}
use trabajo_practico_de_sist.Storage.Enlaces.{refs}
use trabajo_practico_de_sist.Storage.Enlaces.Laws.{
  enum, destino, uno_si, cuenta-insertar, destino-get_elem?, destino-borrar, insertar-borrar,
}
use trabajo_practico_de_sist.Storage.Bloques.{
  con_bloque, enlazar, desenlazar, agregar_hard_link, eliminar_hard_link, marcar_bloque_ocupado,
}
use trabajo_practico_de_sist.Storage.Bloques.Laws.{agregar_hard_link-eq, escribir_bloque-eq}
use trabajo_practico_de_sist.Storage.Meta.Laws.{modificar_bloques_meta-eq}
use trabajo_practico_de_sist.Storage.Meta.{con_metadata, modificar_bloques_meta}
use trabajo_practico_de_sist.Storage.Verificar.{file_de, tag_de}
use trabajo_practico_de_sist.Storage.Operaciones.Contenido.{escribir_en_libre}
use trabajo_practico_de_sist.Storage.Invariante.{Guardado, Nucleo}
use trabajo_practico_de_sist.Storage.Invariante.Enlace.{Sigue, eliminar_hard_link-Sigue}

module _ {B : Type 0} (ext : Externos B) (sb : Superblock) where
  -- Other contents in a block that no link and no entry of the index names.
  pub Nucleo-escribir :
      (s : Fs B) (b : ℕ) (c : List ℕ)
      → length c ≡ sb.tam_bloque
      → ((h : List ℕ) → s.indice h ≡ some b → ⊥)
      → Nucleo ext sb s
      → Nucleo ext sb (record s { fisicos = con_bloque b c s.fisicos })
  Nucleo-escribir s b c hc sin n = record {
    ocupados = n.ocupados;
    enlazados = λ x h. (
      (n.enlazados x h).0,
      elim (Bool-cases (b == x)) [
        | inl si ↦ rw si (c, refl, hc)
        | inr no' ↦ rw no' (n.enlazados x h).1
      ],
    );
    indice = λ k x q. (
      (n.indice k x q).0,
      elim (Bool-cases (b == x)) [
        | inl si ↦ absurd (sin k (ground arith))
        | inr no' ↦ rw no' (n.indice k x q).1
      ],
    );
  }

  -- A link to a block without links, and its mark in the bitmap.
  Nucleo-ocupar :
      (s : Fs B) (ts : List DirTag) (b : ℕ)
      → ((x : ℕ) → refs x ts ≡ refs x s.tags + uno_si x b)
      → b < ext.max_bit s.bitmap
      → Guardado sb s b
      → Nucleo ext sb s
      → Nucleo ext sb (record s { tags = ts; bitmap = ext.set_bit s.bitmap b })
  Nucleo-ocupar s ts b e lt g n = record {
    ocupados = λ x h.
        ground
          (arith, e x, n.ocupados x, ext.test-set_bit s.bitmap b x, ext.max_bit-set_bit s.bitmap b);
    enlazados = λ x h. rw (ext.max_bit-set_bit s.bitmap b) (elim (Bool-cases (x == b)) [
      | inl si ↦ let x≡b : x ≡ b = ground arith in rw x≡b (lt, g)
      | inr no' ↦ n.enlazados x (ground (arith, e x))
    ]);
    indice = λ k x q. (ground (arith, e x, n.indice k x q), (n.indice k x q).1);
  }

  -- A new link to a free block that has its file, the new list of blocks, and the mark.
  reenlazar :
      (s : Fs B) (f t bs : List ℕ) (i libre : ℕ) (d : DirTag) (m : Metadata)
      → Nucleo ext sb s
      → buscar_tag f t s.tags ≡ some d
      → d.metadata ≡ some m
      → destino i d.logicos ≡ none
      → libre < ext.max_bit s.bitmap
      → Guardado sb s libre
      → (s' : Fs B) × ((modificar_bloques_meta f t bs (agregar_hard_link ext libre f t i s)
            >>= λ s4. some (marcar_bloque_ocupado ext libre s4))
          ≡ some s')
        × Sigue ext sb s s'
            (poner f t (con_metadata (record m { bloques = bs }) (enlazar i libre d)) s.tags)
  unfolding marcar_bloque_ocupado
  reenlazar s f t bs i libre d m n hd hm hi lt (c, hc, largo) =
      let d1 = enlazar i libre d in
      let k = buscar_tag-es_tag f t s.tags hd in
      rw
        (
          agregar_hard_link-eq ext s f t i libre hd hc,
          modificar_bloques_meta-eq f t (record s { tags = poner f t d1 s.tags })
              (buscar_tag-poner f t d1 s.tags hd k) hm bs,
          poner-poner f t d1 (con_metadata (record m { bloques = bs }) d1) s.tags k,
        )
        (
          _,
          refl,
          record {
            nucleo =
                Nucleo-ocupar s _ libre
                  (λ x. ground (
                    arith,
                    refs-poner f t x (con_metadata (record m { bloques = bs }) d1) s.tags hd,
                    cuenta-insertar x i libre d.logicos hi,
                  ))
                  lt (c, hc, largo) n;
            tags = refl;
            fisicos = refl;
            dirs = refl;
            bits = ext.max_bit-set_bit s.bitmap libre;
          },
        )

  -- Writing to the free block `libre`: the tag gets it as its block `i`, nobody else sees it.
  pub escribir_en_libre-Sigue :
      (s : Fs B) (ins : Instruccion) (libre b : ℕ) (d : DirTag) (m : Metadata)
      → Nucleo ext sb s
      → buscar_tag (file_de ins) (tag_de ins) s.tags ≡ some d
      → d.metadata ≡ some m
      → d.logicos ≡ enum 0 m.bloques
      → get_elem? m.bloques ins.nro_bloque ≡ some b
      → sb.tam_bloque ≤ length ins.contenido
      → libre < ext.max_bit s.bitmap
      → ext.test s.bitmap libre ≡ false
      → let c = take sb.tam_bloque ins.contenido in
        let bs = set m.bloques ins.nro_bloque libre in
        (s' : Fs B) × (escribir_en_libre ext sb libre ins m.bloques b s ≡ some s')
        × Sigue ext sb
            (record s { fisicos = con_bloque libre c s.fisicos })
            s'
            (poner
              (file_de ins)
              (tag_de ins)
              (record d { metadata = some (record m { bloques = bs }); logicos = enum 0 bs })
              s.tags)
  unfolding escribir_en_libre
  escribir_en_libre-Sigue s ins libre b d m n hd hm hl hb hc lt free =
      rw (escribir_bloque-eq ext sb ins libre s hc, primero.1)
        (
          segundo.0,
          segundo.1,
          record {
            nucleo = segundo.2.nucleo;
            tags = segundo.2.tags ∙ etiquetas;
            fisicos = segundo.2.fisicos ∙ primero.2.fisicos;
            dirs = segundo.2.dirs ∙ primero.2.dirs;
            bits = segundo.2.bits ∙ primero.2.bits;
          },
        )
    where
      f : List ℕ
      f = file_de ins

      t : List ℕ
      t = tag_de ins

      i : ℕ
      i = ins.nro_bloque

      c : List ℕ
      c = take sb.tam_bloque ins.contenido

      bs : List ℕ
      bs = set m.bloques i libre

      s1 : Fs B
      s1 = record s { fisicos = con_bloque libre c s.fisicos }

      n1 : Nucleo ext sb s1
      n1 =
          Nucleo-escribir s libre c (length-take sb.tam_bloque ins.contenido hc)
            (λ h q. absurd (ground (arith, n.ocupados libre lt, n.indice h libre q))) n

      hi : destino i d.logicos ≡ some b
      hi = rw hl (destino-get_elem? i m.bloques ∙ hb)

      primero :
          (s2 : Fs B) × (eliminar_hard_link ext sb b f t i s1 ≡ some s2)
          × Sigue ext sb s1 s2 (poner f t (desenlazar i d) s.tags)
      primero = eliminar_hard_link-Sigue ext sb s1 f t i b d n1 hd hi

      k : es_tag f t d ≡ true
      k = buscar_tag-es_tag f t s.tags hd

      segundo :
          (s' : Fs B) × ((modificar_bloques_meta f t bs
                (agregar_hard_link ext libre f t i primero.0)
              >>= λ s4. some (marcar_bloque_ocupado ext libre s4))
            ≡ some s')
          × Sigue ext sb primero.0 s' (
              poner f t
                (con_metadata (record m { bloques = bs }) (enlazar i libre (desenlazar i d)))
                primero.0.tags)
      segundo =
          reenlazar primero.0 f t bs i libre (desenlazar i d) m primero.2.nucleo
            (rw primero.2.tags (buscar_tag-poner f t (desenlazar i d) s.tags hd k)) hm
            (rw hl (destino-borrar i m.bloques)) (rw primero.2.bits lt)
            (c, rw primero.2.fisicos (ground arith), length-take sb.tam_bloque ins.contenido hc)

      etiquetas :
          poner f t
            (con_metadata (record m { bloques = bs }) (enlazar i libre (desenlazar i d)))
            primero.0.tags
          ≡ poner f t
              (record d { metadata = some (record m { bloques = bs }); logicos = enum 0 bs })
              s.tags
      etiquetas = rw (
        primero.2.tags,
        poner-poner f t (desenlazar i d)
            (con_metadata (record m { bloques = bs }) (enlazar i libre (desenlazar i d))) s.tags k,
        hl,
        insertar-borrar i libre m.bloques (get_elem?-lt m.bloques i hb),
      )
