-- ===== src/Worker/Paginas.antt =====
-- worker/src/memoria.c: pages entering tablaPagGlobal and a table (agregarATablaGlobal,
-- agregarPagATabla, crearTabla) and a page of a table reached.
use trabajo_practico_de_sist.Comun.{
  ℕ, suc, zero, ◌+◌, ◌-◌, List, [], ◌∷◌, ◌++◌, Option, some, Bool, true, false, ◌==◌, if◌then◌else◌,
  ◌>>=◌, length, get_elem?, set,
}
use trabajo_practico_de_sist.Worker.Estado.{
  Algoritmo, lru, clock_m, otro, Pagina, TablaDePaginas, PaginaGlobal, Memoria, Nodo, Entorno,
  insertar, crear_pagina, crear_pagina_global, tabla_en, cambiar_tabla, cambiar_pagina,
}
use trabajo_practico_de_sist.Worker.Victimas.{asignar_marco}

-- malloc of a page: its address and the heap with it.
unfoldable pub reservar_pagina : Pagina → Memoria → ℕ × Memoria
reservar_pagina p m = (length m.paginas, record m { paginas = m.paginas ++ p ∷ [] })

-- The loop of agregarLRU: the first entry whose page has the frame is removed.
unfoldable pub sacar_marco : List Pagina → ℕ → List PaginaGlobal → Option (List PaginaGlobal)
sacar_marco heap marco [] = some []
sacar_marco heap marco (g ∷ gs) = do
  p ← get_elem? heap g.pagina
  let resto = sacar_marco heap marco gs
  (if p.marco == marco then some gs else (do gs' ← resto; some (g ∷ gs')))

unfoldable pub agregar_lru : PaginaGlobal → Memoria → Option Memoria
unfolding sacar_marco
agregar_lru g m = do
  p ← get_elem? m.paginas g.pagina
  gs ← sacar_marco m.paginas p.marco m.tabla_global
  some (record m { tabla_global = gs ++ g ∷ [] })

unfoldable pub agregar_clock_m : PaginaGlobal → Memoria → Option Memoria
agregar_clock_m g m = do
  p ← get_elem? m.paginas g.pagina
  some (record m { tabla_global = insertar m.tabla_global p.marco g })

unfoldable pub agregar_segun : Algoritmo → PaginaGlobal → Memoria → Option Memoria
unfolding agregar_lru agregar_clock_m
agregar_segun lru g m = agregar_lru g m
agregar_segun clock_m g m = agregar_clock_m g m
agregar_segun otro g m = some m

unfoldable pub agregar_a_tabla_global :
    (direccion : ℕ) (file_tag : List ℕ) → Memoria → Option Memoria
unfolding crear_pagina_global agregar_segun
agregar_a_tabla_global direccion file_tag m = do
  p ← get_elem? m.paginas direccion
  agregar_segun m.algoritmo (crear_pagina_global direccion file_tag)
      (record m { bitmap = set m.bitmap p.marco true })

-- `faltan` absent pages at the end of the list of a table.
unfoldable pub agregar_paginas_ausentes : (faltan : ℕ) → List ℕ → Memoria → List ℕ × Memoria
unfolding crear_pagina reservar_pagina
agregar_paginas_ausentes zero paginas m = (paginas, m)
agregar_paginas_ausentes (suc faltan) paginas m =
    let nueva = reservar_pagina (crear_pagina 0 false true false) m in
    agregar_paginas_ausentes faltan (paginas ++ nueva.0 ∷ []) nueva.1

unfoldable pub agregar_pag_a_tabla :
    TablaDePaginas
    → (num_pag marco : ℕ) (flag_m presencia : Bool) → Memoria
    → Option (TablaDePaginas × Memoria)
unfolding crear_pagina reservar_pagina agregar_a_tabla_global agregar_paginas_ausentes
agregar_pag_a_tabla tabla num_pag marco flag_m presencia m =
    let nueva = reservar_pagina (crear_pagina marco flag_m true presencia) m in
    do
      m1 ← if presencia then agregar_a_tabla_global nueva.0 tabla.file_tag nueva.1 else some nueva.1
      let ausentes = agregar_paginas_ausentes (num_pag - length tabla.paginas) tabla.paginas m1
      some (record tabla { paginas = ausentes.0 ++ nueva.0 ∷ [] }, ausentes.1)

module _ {S : Type 0} (ent : Entorno S) where
  -- The tokens of the file:tag are logged, so both must be there. The pointer to the new table.
  unfoldable pub crear_tabla :
      (file_tag : List ℕ) (num_pag : ℕ) (flag_m : Bool) (id_query : ℕ)
      → Nodo S
      → Option (ℕ × Nodo S)
  unfolding asignar_marco agregar_pag_a_tabla
  crear_tabla file_tag num_pag flag_m id_query s = do
    (marco, s1) ← asignar_marco ent id_query s
    file ← get_elem? (ent.partir file_tag 58) 0
    etiqueta ← get_elem? (ent.partir file_tag 58) 1
    let direccion = s1.memoria.proxima_tabla
    (tabla, m2) ←
        agregar_pag_a_tabla (record { direccion = direccion; file_tag = file_tag; paginas = [] })
          num_pag marco flag_m true s1.memoria
    some (
      direccion,
      record s1 {
        memoria = record m2 { tablas = m2.tablas ++ tabla ∷ []; proxima_tabla = direccion + 1 };
      },
    )

  -- The case CORRECTO of a page past the end of the list of its table.
  unfoldable pub cargar_pagina_nueva :
      (direccion : ℕ) (file_tag : List ℕ) (num_pag : ℕ) (flag_m : Bool) (id_query : ℕ)
      → Nodo S
      → Option (ℕ × Nodo S)
  unfolding asignar_marco agregar_pag_a_tabla tabla_en cambiar_tabla
  cargar_pagina_nueva direccion file_tag num_pag flag_m id_query s = do
    (marco, s1) ← asignar_marco ent id_query s
    file ← get_elem? (ent.partir file_tag 58) 0
    etiqueta ← get_elem? (ent.partir file_tag 58) 1
    tabla ← tabla_en direccion s1.memoria.tablas
    (tabla', m2) ← agregar_pag_a_tabla tabla num_pag marco flag_m true s1.memoria
    some (marco, record s1 { memoria = record m2 { tablas = cambiar_tabla tabla' m2.tablas } })

  -- The marks of an absent page and its new frame, in the case CORRECTO of an absent page. The marks
  -- are written before asignarMarco, the frame after it.
  unfoldable pub ubicar_ausente :
      (pagina : ℕ) (file_tag : List ℕ) (flag_m : Bool) (id_query : ℕ) → Nodo S → Option (ℕ × Nodo S)
  unfolding asignar_marco cambiar_pagina
  ubicar_ausente pagina file_tag flag_m id_query s = do
    p ← get_elem? s.memoria.paginas pagina
    (marco, s1) ← asignar_marco ent id_query (record s {
      memoria =
          cambiar_pagina pagina (record p { precencia = true; modificada = flag_m; uso = true })
            s.memoria;
    })
    p1 ← get_elem? s1.memoria.paginas pagina
    file ← get_elem? (ent.partir file_tag 58) 0
    etiqueta ← get_elem? (ent.partir file_tag 58) 1
    some (
      marco,
      record s1 { memoria = cambiar_pagina pagina (record p1 { marco = marco }) s1.memoria },
    )
