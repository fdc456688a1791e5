-- ===== src/Worker/Volcado.antt =====
-- worker/src/memoria.c: what persistirMemoria leaves of the pages of a table.
use trabajo_practico_de_sist.Comun.{
  bind-some, some_inj, ℕ, ◌+◌, ◌≡◌, inl, inr, refl, ap, sym, subst, ◌∙◌, List, [], ◌∷◌, some, true,
  false, arith, ◌==◌, get_elem?, All, get_elem?-lt, get_elem?-set_self, get_elem?-set_ne,
  Bool-cases,
}
use trabajo_practico_de_sist.Utils.Estructuras.{RespuestaStorage}
use trabajo_practico_de_sist.Worker.Estado.{
  Pagina, TablaDePaginas, Memoria, Nodo, Entorno, cambiar_pagina, encontrar_tabla_con_file_tag,
}
use trabajo_practico_de_sist.Worker.Marcos.{
  realizar_escritura_de_bloque, pedir_a_storage, leer_contenido_para_storage,
}
use trabajo_practico_de_sist.Worker.Bloques.{es_correcto, respuesta_por_defecto}
use trabajo_practico_de_sist.Worker.Persistencia.{persistir_paginas, persistir_memoria}

-- A page of the heap that is not modified.
pub record Limpia (m : Memoria) (direccion : ℕ) : Type 0 where
  pub pagina : Pagina
  pub en_heap : get_elem? m.paginas direccion ≡ some pagina
  pub sin_cambios : pagina.modificada ≡ false

-- The memory is as it was but for the marks of modified pages, which may be off now.
pub record SoloLimpia (m m' : Memoria) : Type 0 where
  pub interna : m'.interna ≡ m.interna
  pub tablas : m'.tablas ≡ m.tablas
  pub tabla_global : m'.tabla_global ≡ m.tabla_global
  pub bitmap : m'.bitmap ≡ m.bitmap
  pub limpias : (d : ℕ) → Limpia m d → Limpia m' d

pub SoloLimpia-refl : (m : Memoria) → SoloLimpia m m
SoloLimpia-refl m = record {
  interna = refl;
  tablas = refl;
  tabla_global = refl;
  bitmap = refl;
  limpias = λ d l. l;
}

pub SoloLimpia-trans : (a b c : Memoria) → SoloLimpia a b → SoloLimpia b c → SoloLimpia a c
SoloLimpia-trans a b c h k = record {
  interna = k.interna ∙ h.interna;
  tablas = k.tablas ∙ h.tablas;
  tabla_global = k.tabla_global ∙ h.tabla_global;
  bitmap = k.bitmap ∙ h.bitmap;
  limpias = λ d l. k.limpias d (h.limpias d l);
}

-- A page whose mark is taken off.
pub limpiar :
    (m : Memoria) (d : ℕ) (p : Pagina)
    → get_elem? m.paginas d ≡ some p
    → Limpia (cambiar_pagina d (record p { modificada = false }) m) d
unfolding cambiar_pagina
limpiar m d p e = record {
  pagina = record p { modificada = false };
  en_heap =
      get_elem?-set_self m.paginas d (record p { modificada = false }) (get_elem?-lt m.paginas d e);
  sin_cambios = refl;
}

pub limpiar-SoloLimpia :
    (m : Memoria) (d : ℕ) (p : Pagina)
    → get_elem? m.paginas d ≡ some p
    → SoloLimpia m (cambiar_pagina d (record p { modificada = false }) m)
unfolding cambiar_pagina
limpiar-SoloLimpia m d p e = record {
  interna = refl;
  tablas = refl;
  tabla_global = refl;
  bitmap = refl;
  limpias = λ d' l. elim (Bool-cases (d == d')) [
    | inl si ↦
        let i : d ≡ d' = ground arith in
        subst (Limpia (cambiar_pagina d (record p { modificada = false }) m)) i (limpiar m d p e)
    | inr no' ↦ record {
      pagina = l.pagina;
      en_heap =
          get_elem?-set_ne m.paginas (record p { modificada = false }) (λ i. ground (arith, no', i))
          ∙ l.en_heap;
      sin_cambios = l.sin_cambios;
    }
  ];
}

module _ {S : Type 0} (ent : Entorno S) (id : ℕ) where
  -- A request to Storage leaves the memory alone.
  pub escritura-memoria :
      (file_tag : List ℕ) (num_pag marco : ℕ) (s s' : Nodo S) (r : RespuestaStorage)
      → realizar_escritura_de_bloque ent file_tag num_pag marco id s ≡ some (s', r)
      → s'.memoria ≡ s.memoria
  unfolding realizar_escritura_de_bloque pedir_a_storage
  escritura-memoria file_tag num_pag marco s s' r h =
      let a = bind-some (get_elem? (ent.partir file_tag 58) 0) _ h in
      let b = bind-some (get_elem? (ent.partir file_tag 58) 1) _ a.2 in
      let c =
        bind-some (leer_contenido_para_storage s.memoria.tam_bloque marco 0 s.memoria) _ b.2 in
      let d = bind-some (ent.pedir _ s.almacen) _ c.2 in sym (ap (λ x. x.0.memoria) (some_inj d.2))

  pub persistir_paginas-SoloLimpia :
      (file_tag : List ℕ) (num_pag : ℕ) (l : List ℕ) (r r' : RespuestaStorage) (s s' : Nodo S)
      → persistir_paginas ent id file_tag num_pag l r s ≡ some (s', r')
      → SoloLimpia s.memoria s'.memoria
        × (es_correcto r'.cod_respuesta ≡ true → All (Limpia s'.memoria) l)
  unfolding persistir_paginas
  persistir_paginas-SoloLimpia file_tag num_pag [] r r' s s' h = (
    subst (λ x. SoloLimpia s.memoria x.0.memoria) (some_inj h) (SoloLimpia-refl s.memoria),
    λ c. tt,
  )
  persistir_paginas-SoloLimpia file_tag num_pag (pagina ∷ resto) r r' s s' h =
      let a = bind-some (get_elem? s.memoria.paginas pagina) _ h in
      elim (Bool-cases a.0.modificada) [
        | inl si ↦
            let b =
              bind-some (realizar_escritura_de_bloque ent file_tag num_pag a.0.marco id s) _
                (rw si at a.2) in
            let igual = escritura-memoria file_tag num_pag a.0.marco s b.0.0 b.0.1 b.1 in
            let e = ap (λ m. get_elem? m.paginas pagina) igual ∙ a.1 in
            let s2 = record (b.0.0) {
              memoria = cambiar_pagina pagina (record (a.0) { modificada = false }) b.0.0.memoria;
            } in
            let uno =
              subst (λ m. SoloLimpia m s2.memoria) igual
                (limpiar-SoloLimpia b.0.0.memoria pagina a.0 e) in
            elim (Bool-cases (es_correcto b.0.1.cod_respuesta)) [
              | inl bien ↦
                  let c =
                    persistir_paginas-SoloLimpia file_tag (num_pag + 1) resto b.0.1 r' s2 s'
                      (rw bien at b.2) in
                  (
                    SoloLimpia-trans s.memoria s2.memoria s'.memoria uno c.0,
                    λ ok. (c.0.limpias pagina (limpiar b.0.0.memoria pagina a.0 e), c.1 ok),
                  )
              | inr mal ↦
                  let fin = some_inj (rw mal at b.2) in
                  (
                    subst (λ x. SoloLimpia s.memoria x.0.memoria) fin uno,
                    λ ok. absurd (cc (ok, mal, ap (λ x. es_correcto x.1.cod_respuesta) fin)),
                  )
            ]
        | inr no' ↦
            let c =
              persistir_paginas-SoloLimpia file_tag (num_pag + 1) resto r r' s s' (rw no' at a.2) in
            (
              c.0,
              λ ok. (
                c.0.limpias pagina (record { pagina = a.0; en_heap = a.1; sin_cambios = no' }),
                c.1 ok,
              ),
            )
      ]

  -- When persistirMemoria of a file:tag that has a table returns CORRECTO, no page of the table is
  -- modified any more; the frames, the tables, tablaPagGlobal and the bitmap are as they were.
  pub persistir_memoria-Limpia :
      (file_tag : List ℕ) (s s' : Nodo S) (r : RespuestaStorage) (tabla : TablaDePaginas)
      → encontrar_tabla_con_file_tag file_tag s.memoria ≡ some tabla
      → persistir_memoria ent id file_tag s ≡ some (s', r)
      → es_correcto r.cod_respuesta ≡ true
      → All (Limpia s'.memoria) tabla.paginas
        × (s'.memoria.interna ≡ s.memoria.interna)
        × (s'.memoria.tablas ≡ s.memoria.tablas)
        × (s'.memoria.tabla_global ≡ s.memoria.tabla_global)
        × (s'.memoria.bitmap ≡ s.memoria.bitmap)
  unfolding persistir_memoria
  persistir_memoria-Limpia file_tag s s' r tabla e h ok =
      let t =
        persistir_paginas-SoloLimpia file_tag 0 tabla.paginas respuesta_por_defecto r s s'
          (rw (e, persistir_memoria) at h) in
      (t.1 ok, t.0.interna, t.0.tablas, t.0.tabla_global, t.0.bitmap)

  persistir_paginas-limpias :
      (file_tag : List ℕ) (num_pag : ℕ) (l : List ℕ) (r : RespuestaStorage) (s : Nodo S)
      → All (Limpia s.memoria) l
      → persistir_paginas ent id file_tag num_pag l r s ≡ some (s, r)
  unfolding persistir_paginas
  persistir_paginas-limpias file_tag num_pag [] r s h = refl
  persistir_paginas-limpias file_tag num_pag (pagina ∷ resto) r s h =
      rw (h.0.en_heap, persistir_paginas)
        (rw h.0.sin_cambios (persistir_paginas-limpias file_tag (num_pag + 1) resto r s h.1))

  -- With no page of its table modified, persistirMemoria asks nothing of Storage.
  pub persistir_memoria-nada :
      (file_tag : List ℕ) (s : Nodo S) (tabla : TablaDePaginas)
      → encontrar_tabla_con_file_tag file_tag s.memoria ≡ some tabla
      → All (Limpia s.memoria) tabla.paginas
      → persistir_memoria ent id file_tag s ≡ some (s, respuesta_por_defecto)
  unfolding persistir_memoria
  persistir_memoria-nada file_tag s tabla e h =
      rw (e, persistir_memoria)
        (persistir_paginas-limpias file_tag 0 tabla.paginas respuesta_por_defecto s h)
