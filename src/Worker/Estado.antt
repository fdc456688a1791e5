-- ===== src/Worker/Estado.antt =====
-- worker/src/worker.h and the globals of worker/src/main.c that memoria.c uses.
-- A t_pagina is shared by the list of its table and by tablaPagGlobal, so pages live in a heap
-- (`paginas`) and the two hold their addresses. A table has an address too: a pointer to a table that
-- was destroyed finds nothing. Texts are kept without their NUL.
use trabajo_practico_de_sist.Comun.{
  ℕ, suc, zero, ◌+◌, ◌*◌, ◌/◌, List, [], ◌∷◌, Option, none, some, Bool, false, ◌==◌, if◌then◌else◌,
  set, replicate, eq_bytes,
}
use trabajo_practico_de_sist.Utils.Estructuras.{Instruccion, RespuestaStorage}

-- What configuracion->algoritmoRemplazo spells; `otro` is any other text.
pub data Algoritmo : Type 0 where
  lru clock_m otro : Algoritmo

pub record Pagina : Type 0 where
  pub marco : ℕ
  pub precencia : Bool
  pub uso : Bool
  pub modificada : Bool

pub record TablaDePaginas : Type 0 where
  pub direccion : ℕ
  pub file_tag : List ℕ
  pub paginas : List ℕ

pub record PaginaGlobal : Type 0 where
  pub file_tag : List ℕ
  pub pagina : ℕ

pub record Memoria : Type 0 where
  pub tam_bloque : ℕ
  pub cant_marcos : ℕ
  pub algoritmo : Algoritmo
  pub bitmap : List Bool
  pub interna : List ℕ
  pub tablas : List TablaDePaginas
  pub proxima_tabla : ℕ
  pub paginas : List Pagina
  pub tabla_global : List PaginaGlobal
  pub puntero_clock : ℕ

-- The memory and what lies behind the socket with Storage.
pub record Nodo (S : Type 0) : Type 0 where
  pub memoria : Memoria
  pub almacen : S

-- What the Worker calls and does not define: string_split of the commons on a text and a separator,
-- and Storage, which takes an instruction and replies to it, or does not reply.
pub record Entorno (S : Type 0) : Type 0 where
  pub partir : List ℕ → ℕ → List (List ℕ)
  pub pedir : Instruccion → S → Option (S × RespuestaStorage)

-- As many bits as the bytes that hold cantMarcos have.
unfoldable pub crear_bitmap_worker : ℕ → List Bool
crear_bitmap_worker cant_marcos = replicate ((cant_marcos + 7) / 8 * 8) false

unfoldable pub inicializar_memoria_interna : ℕ → List ℕ
inicializar_memoria_interna tam_memoria = replicate tam_memoria 0

-- The globals before the first query.
unfoldable pub iniciar_memoria : (tam_memoria tam_bloque : ℕ) → Algoritmo → Memoria
unfolding crear_bitmap_worker inicializar_memoria_interna
iniciar_memoria tam_memoria tam_bloque algoritmo = record {
  tam_bloque = tam_bloque;
  cant_marcos = tam_memoria / tam_bloque;
  algoritmo = algoritmo;
  bitmap = crear_bitmap_worker (tam_memoria / tam_bloque);
  interna = inicializar_memoria_interna tam_memoria;
  tablas = [];
  proxima_tabla = 0;
  paginas = [];
  tabla_global = [];
  puntero_clock = 0;
}

-- list_remove: the list without its element `i`.
abbrev pub quitar {ℓ} : {A : Type ℓ} → List A → ℕ → List A
quitar [] i = []
quitar (x ∷ xs) zero = xs
quitar (x ∷ xs) (suc i) = x ∷ quitar xs i

-- list_add_in_index: nothing is added at an index past the end.
abbrev pub insertar {ℓ} : {A : Type ℓ} → List A → ℕ → A → List A
insertar xs zero v = v ∷ xs
insertar [] (suc i) v = []
insertar (x ∷ xs) (suc i) v = x ∷ insertar xs i v

unfoldable pub crear_pagina : (marco : ℕ) (modificada uso presencia : Bool) → Pagina
crear_pagina marco flag_m uso presencia = record {
  marco = marco;
  precencia = presencia;
  uso = uso;
  modificada = flag_m;
}

unfoldable pub crear_pagina_global : ℕ → List ℕ → PaginaGlobal
crear_pagina_global pagina file_tag = record { file_tag = file_tag; pagina = pagina }

-- A write through a pointer to a page.
unfoldable pub cambiar_pagina : ℕ → Pagina → Memoria → Memoria
cambiar_pagina direccion pagina m = record m { paginas = set m.paginas direccion pagina }

unfoldable pub buscar_tabla : List ℕ → List TablaDePaginas → Option TablaDePaginas
buscar_tabla file_tag [] = none
buscar_tabla file_tag (t ∷ ts) =
    if eq_bytes t.file_tag file_tag then some t else buscar_tabla file_tag ts

unfoldable pub encontrar_tabla_con_file_tag : List ℕ → Memoria → Option TablaDePaginas
unfolding buscar_tabla
encontrar_tabla_con_file_tag file_tag m = buscar_tabla file_tag m.tablas

-- What a pointer to a table points to, if the table was not destroyed.
unfoldable pub tabla_en : ℕ → List TablaDePaginas → Option TablaDePaginas
tabla_en direccion [] = none
tabla_en direccion (t ∷ ts) = if t.direccion == direccion then some t else tabla_en direccion ts

unfoldable pub cambiar_tabla : TablaDePaginas → List TablaDePaginas → List TablaDePaginas
cambiar_tabla nueva [] = []
cambiar_tabla nueva (t ∷ ts) =
    if t.direccion == nueva.direccion then nueva ∷ ts else t ∷ cambiar_tabla nueva ts

unfoldable pub sacar_tabla : ℕ → List TablaDePaginas → List TablaDePaginas
sacar_tabla direccion [] = []
sacar_tabla direccion (t ∷ ts) =
    if t.direccion == direccion then ts else t ∷ sacar_tabla direccion ts

-- destruirTablaDePaginas takes the table out of `tablas`; its pages are not reached any more.
unfoldable pub destruir_tabla_de_paginas : ℕ → Memoria → Memoria
unfolding sacar_tabla
destruir_tabla_de_paginas direccion m = record m { tablas = sacar_tabla direccion m.tablas }
