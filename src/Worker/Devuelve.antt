-- ===== src/Worker/Devuelve.antt =====
-- worker/src/memoria.c: persistirMemoria returns when Storage answers and the frames are inside the
-- memory.
use trabajo_practico_de_sist.Comun.{
  ℕ, ◌+◌, ◌≤◌, ◌≡◌, ◌⊎◌, inl, inr, refl, ap, sym, subst, ◌∙◌, List, [], ◌∷◌, Option, some, Bool,
  true, false, arith, ◌>>=◌, ◌==◌, get_elem?, set, take, drop, length, All, get_elem?-lt,
  get_elem?-set_self, get_elem?-set_ne, Bool-cases,
}
use trabajo_practico_de_sist.Utils.Estructuras.{
  Instruccion, RespuestaStorage, write_block, crear_instruccion, crear_respuesta_storage,
}
use trabajo_practico_de_sist.Utils.Separados.{All-map}
use trabajo_practico_de_sist.Worker.Estado.{
  Pagina, TablaDePaginas, Memoria, Nodo, Entorno, cambiar_pagina, encontrar_tabla_con_file_tag,
}
use trabajo_practico_de_sist.Worker.Marcos.{
  leer_contenido_para_storage, pedir_a_storage, realizar_escritura_de_bloque,
}
use trabajo_practico_de_sist.Worker.Bloques.{es_correcto, respuesta_por_defecto}
use trabajo_practico_de_sist.Worker.Persistencia.{persistir_paginas, persistir_memoria}
use trabajo_practico_de_sist.Worker.Rangos.{leer_rango_lem}
use trabajo_practico_de_sist.Worker.Escrito.{posicion, leer_para_storage_lem}
use trabajo_practico_de_sist.Worker.Volcado.{Limpia, escritura-memoria, persistir_memoria-Limpia}

-- Storage answers every request.
abbrev pub Atiende : {S : Type 0} → Entorno S → Type 0
Atiende {S = S} ent =
    (ins : Instruccion) (a : S) → (x : S × RespuestaStorage) × (ent.pedir ins a ≡ some x)

-- string_split of the file:tag has its file and its tag.
abbrev pub ConNombre : {S : Type 0} → Entorno S → List ℕ → Type 0
ConNombre ent file_tag =
    (file : List ℕ) × (etiqueta : List ℕ) × (resto : List (List ℕ)) × (ent.partir file_tag 58
      ≡ file ∷ etiqueta ∷ resto)

-- A page of the heap whose frame is inside the memory.
abbrev pub Adentro : Memoria → ℕ → Type 0
Adentro m d =
    (p : Pagina) × (get_elem? m.paginas d ≡ some p)
    × (posicion m p.marco 0 + m.tam_bloque ≤ length m.interna)

limpiar-Adentro :
    (m : Memoria) (d d' : ℕ) (p : Pagina)
    → get_elem? m.paginas d ≡ some p
    → posicion m p.marco 0 + m.tam_bloque ≤ length m.interna
    → Adentro m d'
    → Adentro (cambiar_pagina d (record p { modificada = false }) m) d'
unfolding cambiar_pagina
limpiar-Adentro m d d' p e l a = elim (Bool-cases (d == d')) [
  | inl si ↦
      let i : d ≡ d' = ground arith in
      (
        record p { modificada = false },
        ap (get_elem? (set m.paginas d (record p { modificada = false }))) (sym i)
            ∙ get_elem?-set_self m.paginas d (record p { modificada = false })
                (get_elem?-lt m.paginas d e),
        l,
      )
  | inr no' ↦ (
    a.0,
    get_elem?-set_ne m.paginas (record p { modificada = false }) (λ i. ground (arith, no', i))
        ∙ a.1,
    a.2,
  )
]

-- The reply that Storage gave to a WRITE_BLOCK, the last thing that was asked of it.
abbrev pub Contestada : {S : Type 0} → Entorno S → Nodo S → RespuestaStorage → Type 0
Contestada {S = S} ent s' r =
    (ins : Instruccion) × (a : S) × (ent.pedir ins a ≡ some (s'.almacen, r))
    × (ins.codigo_ins ≡ write_block)

-- A reply CORRECTO, or one of Storage that is not.
abbrev pub Concluye : {S : Type 0} → Entorno S → Nodo S → RespuestaStorage → Type 0
Concluye ent s' r =
    (es_correcto r.cod_respuesta ≡ true)
    ⊎ ((es_correcto r.cod_respuesta ≡ false) × Contestada ent s' r)

module _ {S : Type 0} (ent : Entorno S) (id : ℕ) (atiende : Atiende ent) where
  escritura-devuelve :
      (file_tag : List ℕ) (num_pag marco : ℕ) (s : Nodo S)
      → ConNombre ent file_tag
      → posicion s.memoria marco 0 + s.memoria.tam_bloque ≤ length s.memoria.interna
      → (x : Nodo S × RespuestaStorage) × (realizar_escritura_de_bloque ent file_tag num_pag marco
            id s
          ≡ some x)
        × Contestada ent x.0 x.1
  unfolding realizar_escritura_de_bloque pedir_a_storage crear_instruccion
  escritura-devuelve file_tag num_pag marco s n l =
      let tam = s.memoria.tam_bloque in
      let bytes = take tam (drop (posicion s.memoria marco 0) s.memoria.interna) in
      let ins = crear_instruccion id write_block file_tag n.0 n.1 0 0 bytes [] [] num_pag in
      let leido : leer_contenido_para_storage tam marco 0 s.memoria ≡ some (0, bytes) =
        leer_para_storage_lem tam marco 0 s.memoria (omega arith)
        ∙ ap (λ o. o >>= (λ b. some (0, b)))
            (leer_rango_lem s.memoria.interna (posicion s.memoria marco 0) tam l) in
      let r = atiende ins s.almacen in
      (
        (record s { almacen = r.0.0 }, r.0.1),
        rw n.3 (rw leido (rw r.1 refl)),
        (ins, s.almacen, r.1, refl),
      )

  -- What follows the reply for a page that was modified.
  segun_respuesta :
      (file_tag : List ℕ) (num_pag : ℕ) (resto : List ℕ) (r1 : RespuestaStorage) (s2 : Nodo S)
      → Bool
      → Option (Nodo S × RespuestaStorage)
  unfolding persistir_paginas
  segun_respuesta file_tag num_pag resto r1 s2 true =
      persistir_paginas ent id file_tag (num_pag + 1) resto r1 s2
  segun_respuesta file_tag num_pag resto r1 s2 false = some (s2, r1)

  paso_modificada :
      (file_tag : List ℕ) (num_pag pagina : ℕ) (resto : List ℕ) (r r1 : RespuestaStorage)
      (s s1 : Nodo S) (p : Pagina) (b : Bool)
      → get_elem? s.memoria.paginas pagina ≡ some p
      → p.modificada ≡ true
      → realizar_escritura_de_bloque ent file_tag num_pag p.marco id s ≡ some (s1, r1)
      → es_correcto r1.cod_respuesta ≡ b
      → persistir_paginas ent id file_tag num_pag (pagina ∷ resto) r s
        ≡ segun_respuesta file_tag num_pag resto r1
            (record s1 {
              memoria = cambiar_pagina pagina (record p { modificada = false }) s1.memoria;
            })
            b
  unfolding persistir_paginas segun_respuesta
  paso_modificada file_tag num_pag pagina resto r r1 s s1 p b e si w c =
      rw (e, persistir_paginas)
        (rw si (
          rw w (
            ap
              (segun_respuesta file_tag num_pag resto r1 (record s1 {
                memoria = cambiar_pagina pagina (record p { modificada = false }) s1.memoria;
              }))
              c)))

  persistir_paginas-devuelve :
      (file_tag : List ℕ) (num_pag : ℕ) (l : List ℕ) (r : RespuestaStorage) (s : Nodo S)
      → ConNombre ent file_tag
      → All (Adentro s.memoria) l
      → es_correcto r.cod_respuesta ≡ true
      → (x : Nodo S × RespuestaStorage) × (persistir_paginas ent id file_tag num_pag l r s ≡ some x)
        × Concluye ent x.0 x.1
  unfolding persistir_paginas segun_respuesta
  persistir_paginas-devuelve file_tag num_pag [] r s n h ok = ((s, r), refl, inl ok)
  persistir_paginas-devuelve file_tag num_pag (pagina ∷ resto) r s n h ok =
      let p = h.0.0 in
      elim (Bool-cases p.modificada) [
        | inr no' ↦
            let t = persistir_paginas-devuelve file_tag (num_pag + 1) resto r s n h.1 ok in
            (t.0, rw (h.0.1, persistir_paginas) (rw no' t.1), t.2)
        | inl si ↦
            let w = escritura-devuelve file_tag num_pag p.marco s n h.0.2 in
            let igual = escritura-memoria ent id file_tag num_pag p.marco s w.0.0 w.0.1 w.1 in
            let m2 = cambiar_pagina pagina (record p { modificada = false }) w.0.0.memoria in
            let s2 : Nodo S = record (w.0.0) { memoria = m2 } in
            let dentro : All (Adentro m2) resto =
              subst
                (λ m.
                  All (Adentro (cambiar_pagina pagina (record p { modificada = false }) m)) resto)
                (sym igual)
                (All-map resto (λ d a. limpiar-Adentro s.memoria pagina d p h.0.1 h.0.2 a) h.1) in
            elim (Bool-cases (es_correcto w.0.1.cod_respuesta)) [
              | inl bien ↦
                  let t =
                    persistir_paginas-devuelve file_tag (num_pag + 1) resto w.0.1 s2 n dentro
                      bien in
                  (
                    t.0,
                    paso_modificada file_tag num_pag pagina resto r w.0.1 s w.0.0 p true h.0.1 si
                          w.1 bien
                        ∙ t.1,
                    t.2,
                  )
              | inr mal ↦ (
                (s2, w.0.1),
                paso_modificada file_tag num_pag pagina resto r w.0.1 s w.0.0 p false h.0.1 si w.1
                    mal,
                inr (mal, w.2),
              )
            ]
      ]

  -- When Storage answers every request, string_split finds the file and the tag, and the frames of
  -- the pages of the table are inside the memory, persistirMemoria returns a reply: CORRECTO, and
  -- then no page of the table is modified any more, or one that is not CORRECTO, which is what
  -- Storage answered to a WRITE_BLOCK, the last thing that was asked of it.
  pub persistir_memoria-devuelve :
      (file_tag : List ℕ) (s : Nodo S) (tabla : TablaDePaginas)
      → encontrar_tabla_con_file_tag file_tag s.memoria ≡ some tabla
      → ConNombre ent file_tag
      → All (Adentro s.memoria) tabla.paginas
      → (s' : Nodo S) × (r : RespuestaStorage) × (persistir_memoria ent id file_tag s
          ≡ some (s', r))
        × (((es_correcto r.cod_respuesta ≡ true) × All (Limpia s'.memoria) tabla.paginas)
            ⊎ ((es_correcto r.cod_respuesta ≡ false) × Contestada ent s' r))
  unfolding persistir_memoria respuesta_por_defecto crear_respuesta_storage es_correcto
  persistir_memoria-devuelve file_tag s tabla e n h =
      let t =
        persistir_paginas-devuelve file_tag 0 tabla.paginas respuesta_por_defecto s n h refl in
      let fin : persistir_memoria ent id file_tag s ≡ some t.0 = rw (e, persistir_memoria) t.1 in
      (
        t.0.0,
        t.0.1,
        fin,
        elim t.2 [
          | inl bien ↦
              inl
                (bien, (persistir_memoria-Limpia ent id file_tag s t.0.0 t.0.1 tabla e fin bien).0)
          | inr mal ↦ inr mal
        ],
      )
