-- ===== src/Storage/Invariante/Enlace.antt =====
-- What link, unlink and the marks of the bitmap do to the core of the invariant.
use trabajo_practico_de_sist.Comun.{
  ℕ, ◌+◌, ◌<◌, ◌≡◌, refl, inl, inr, List, none, some, take, ◌==◌, if◌then◌else◌, eq_bytes,
  eq_bytes_refl, arith, Bool-cases,
}
use trabajo_practico_de_sist.Storage.Estado.{Externos, Superblock, DirTag, Fs, buscar_tag}
use trabajo_practico_de_sist.Storage.Estado.Laws.{poner, modificar_tag-poner, refs-poner}
use trabajo_practico_de_sist.Storage.Enlaces.{refs, nlink}
use trabajo_practico_de_sist.Storage.Enlaces.Laws.{
  destino, uno_si, cuenta-destino, cuenta-borrar, cuenta-insertar,
}
use trabajo_practico_de_sist.Storage.Bloques.{
  con_indice, enlazar, desenlazar, agregar_hard_link, tiene_enlaces, eliminar_hard_link,
  calcular_hash,
}
use trabajo_practico_de_sist.Storage.Invariante.{Nucleo}

module _ {B : Type 0} (ext : Externos B) (sb : Superblock) where
  -- `s'` keeps the invariant and the contents, and its tags are `ts`.
  pub record Sigue (s s' : Fs B) (ts : List DirTag) : Type 0 where
    pub nucleo : Nucleo ext sb s'
    pub tags : s'.tags ≡ ts
    pub fisicos : s'.fisicos ≡ s.fisicos
    pub dirs : s'.dirs ≡ s.dirs
    pub bits : ext.max_bit s'.bitmap ≡ ext.max_bit s.bitmap

  -- Other tags with the same number of links to each block.
  pub Nucleo-tags :
      (s : Fs B) (ts : List DirTag)
      → ((x : ℕ) → refs x ts ≡ refs x s.tags)
      → Nucleo ext sb s
      → Nucleo ext sb (record s { tags = ts })
  Nucleo-tags s ts e n = record {
    ocupados = λ b h. rw (e b) (n.ocupados b h);
    enlazados = λ b h. n.enlazados b (rw (e b) at h);
    indice = λ h b p. rw (e b) (n.indice h b p);
  }

  -- One link less to `b`, which keeps others.
  quitar_uno :
      (s : Fs B) (ts : List DirTag) (b : ℕ)
      → ((x : ℕ) → refs x ts + uno_si x b ≡ refs x s.tags)
      → 0 < refs b ts
      → Nucleo ext sb s
      → Nucleo ext sb (record s { tags = ts })
  quitar_uno s ts b e p n = record {
    ocupados = λ x h. ground (arith, e x, n.ocupados x h);
    enlazados = λ x h. n.enlazados x (omega (arith, e x));
    indice = λ k x q. (ground (arith, e x, n.indice k x q), (n.indice k x q).1);
  }

  -- The last link to `b` goes, and with it the bit and the entry of the index.
  quitar_ultimo :
      (s : Fs B) (ts : List DirTag) (b : ℕ) (c : List ℕ)
      → ((x : ℕ) → refs x ts + uno_si x b ≡ refs x s.tags)
      → refs b ts ≡ 0
      → s.fisicos b ≡ some c
      → Nucleo ext sb s
      → Nucleo ext sb (record s {
        tags = ts;
        bitmap = ext.clean_bit s.bitmap b;
        indice = con_indice (ext.md5 (take sb.tam_bloque c)) none s.indice;
      })
  quitar_ultimo s ts b c e z hc n = record {
    ocupados = λ x h. ground (
      arith,
      e x,
      e b,
      n.ocupados x,
      n.enlazados b,
      ext.test-clean_bit s.bitmap b x,
      ext.max_bit-clean_bit s.bitmap b,
    );
    enlazados = λ x h. rw (ext.max_bit-clean_bit s.bitmap b) (n.enlazados x (omega (arith, e x)));
    indice = λ k x q. elim (Bool-cases (eq_bytes (ext.md5 (take sb.tam_bloque c)) k)) [
      | inl si ↦ ground arith
      | inr no' ↦
          let viejo = n.indice k x (rw no' at q) in
          (ground (arith, viejo, e x, eq_bytes_refl k), viejo.1)
    ];
  }

  -- The block that an entry of a directory is a link to is linked.
  pub refs-destino :
      (f t : List ℕ) (i b : ℕ) (ds : List DirTag) (d : DirTag)
      → buscar_tag f t ds ≡ some d
      → destino i d.logicos ≡ some b
      → 0 < refs b ds
  refs-destino f t i b ds d hd hi = ground (
    arith,
    refs-poner f t b (desenlazar i d) ds hd,
    cuenta-borrar b i d.logicos hi,
    cuenta-destino i d.logicos hi,
  )

  -- The links after entry `i` is removed.
  pub refs-desenlazar :
      (f t : List ℕ) (i b : ℕ) (ds : List DirTag) (d : DirTag)
      → buscar_tag f t ds ≡ some d
      → destino i d.logicos ≡ some b
      → (x : ℕ) → refs x (poner f t (desenlazar i d) ds) + uno_si x b ≡ refs x ds
  refs-desenlazar f t i b ds d hd hi x =
      omega (arith, refs-poner f t x (desenlazar i d) ds hd, cuenta-borrar x i d.logicos hi)

  -- The links after entry `i` is added.
  pub refs-enlazar :
      (f t : List ℕ) (i b : ℕ) (ds : List DirTag) (d : DirTag)
      → buscar_tag f t ds ≡ some d
      → destino i d.logicos ≡ none
      → (x : ℕ) → refs x (poner f t (enlazar i b d) ds) ≡ refs x ds + uno_si x b
  refs-enlazar f t i b ds d hd hi x =
      omega (arith, refs-poner f t x (enlazar i b d) ds hd, cuenta-insertar x i b d.logicos hi)

  eliminar_hard_link-eq :
      (s : Fs B) (f t : List ℕ) (i b : ℕ) (d : DirTag) (c : List ℕ)
      → buscar_tag f t s.tags ≡ some d
      → s.fisicos b ≡ some c
      → let ts = poner f t (desenlazar i d) s.tags in
        eliminar_hard_link ext sb b f t i s ≡ (
          if refs b ts == 0
          then some (record s {
            tags = ts;
            bitmap = ext.clean_bit s.bitmap b;
            indice = con_indice (ext.md5 (take sb.tam_bloque c)) none s.indice;
          })
          else some (record s { tags = ts }))
  unfolding eliminar_hard_link nlink calcular_hash
  eliminar_hard_link-eq s f t i b d c hd hc =
      rw (tiene_enlaces, hc) (ground (arith, modificar_tag-poner f t (desenlazar i) s.tags hd))

  -- eliminarHardLink unlinks entry `i`, and frees the block if no other link to it is left.
  pub eliminar_hard_link-Sigue :
      (s : Fs B) (f t : List ℕ) (i b : ℕ) (d : DirTag)
      → Nucleo ext sb s
      → buscar_tag f t s.tags ≡ some d
      → destino i d.logicos ≡ some b
      → (s' : Fs B) × (eliminar_hard_link ext sb b f t i s ≡ some s')
        × Sigue s s' (poner f t (desenlazar i d) s.tags)
  eliminar_hard_link-Sigue s f t i b d n hd hi =
      let ts = poner f t (desenlazar i d) s.tags in
      let cuentas = refs-desenlazar f t i b s.tags d hd hi in
      let (c, hc, _) = (n.enlazados b (refs-destino f t i b s.tags d hd hi)).1 in
      rw (eliminar_hard_link-eq s f t i b d c hd hc) (elim (Bool-cases (refs b ts == 0)) [
        | inl cero ↦ rw cero (
          _,
          refl,
          record {
            nucleo = quitar_ultimo s ts b c cuentas (ground arith) hc n;
            tags = refl;
            fisicos = refl;
            dirs = refl;
            bits = ext.max_bit-clean_bit s.bitmap b;
          },
        )
        | inr mas ↦ rw mas (
          _,
          refl,
          record {
            nucleo = quitar_uno s ts b cuentas (ground arith) n;
            tags = refl;
            fisicos = refl;
            dirs = refl;
            bits = refl;
          },
        )
      ])

  -- A new link to a block that has others.
  pub agregar_hard_link-Sigue :
      (s : Fs B) (f t : List ℕ) (i b : ℕ) (d : DirTag)
      → Nucleo ext sb s
      → buscar_tag f t s.tags ≡ some d
      → destino i d.logicos ≡ none
      → 0 < refs b s.tags
      → Sigue s (agregar_hard_link ext b f t i s) (poner f t (enlazar i b d) s.tags)
  unfolding agregar_hard_link
  agregar_hard_link-Sigue s f t i b d n hd hi pos =
      let ts = poner f t (enlazar i b d) s.tags in
      let cuentas = refs-enlazar f t i b s.tags d hd hi in
      let (c, hc, _) = (n.enlazados b pos).1 in
      rw (agregar_hard_link, hc, modificar_tag-poner f t (enlazar i b) s.tags hd)
        (record {
          nucleo = record {
            ocupados = λ x h. ground (arith, cuentas x, n.ocupados x h);
            enlazados = λ x h. n.enlazados x (ground (arith, cuentas x));
            indice = λ k x q. (ground (arith, cuentas x, n.indice k x q), (n.indice k x q).1);
          };
          tags = refl;
          fisicos = refl;
          dirs = refl;
          bits = refl;
        })
