-- ===== src/Worker/Victimas.antt =====
-- worker/src/memoria.c: the choice of a victim (elegirVictimaLRU, elegirVictimaClockM), its frame
-- freed (liberarVictima, liberarMarco) and the frame of a page (asignarMarco).
use trabajo_practico_de_sist.Comun.{
  ℕ, suc, zero, ◌+◌, List, [], ◌∷◌, Option, none, some, Bool, true, false, not, ◌&&◌, ◌==◌,
  if◌then◌else◌, ◌>>=◌, length, get_elem?, set,
}
use trabajo_practico_de_sist.Utils.Estructuras.{menos_uno}
use trabajo_practico_de_sist.Worker.Estado.{
  Algoritmo, lru, clock_m, otro, Pagina, TablaDePaginas, PaginaGlobal, Memoria, Nodo, Entorno,
  quitar, cambiar_pagina, encontrar_tabla_con_file_tag, destruir_tabla_de_paginas,
}
use trabajo_practico_de_sist.Worker.Marcos.{realizar_escritura_de_bloque}

unfoldable pub aumentar_puntero_clock : Memoria → Memoria
aumentar_puntero_clock m = record m {
  puntero_clock = if m.puntero_clock + 1 == m.cant_marcos then 0 else m.puntero_clock + 1;
}

-- list_remove(tablaPagGlobal, 0); of an empty list it is NULL, which the caller dereferences.
unfoldable pub elegir_victima_lru : Memoria → Option (PaginaGlobal × Memoria)
elegir_victima_lru m = do
  v ← get_elem? m.tabla_global 0
  some (v, record m { tabla_global = quitar m.tabla_global 0 })

-- Whether a page is taken, in a round with vueltas == 1 (`true`) or 2.
unfoldable pub elegible : Bool → Pagina → Bool
elegible true p = not p.uso && not p.modificada
elegible false p = not p.uso && p.modificada

-- What a round does to a page that it does not take.
unfoldable pub no_elegida : Bool → ℕ → Pagina → Memoria → Memoria
unfolding cambiar_pagina
no_elegida true direccion p m = m
no_elegida false direccion p m = cambiar_pagina direccion (record p { uso = false }) m

-- The for of elegirVictimaClockM, with the number of iterations that are left.
unfoldable pub vuelta_clock :
    (primera : Bool) (quedan : ℕ) → Memoria → Option (Option PaginaGlobal × Memoria)
unfolding elegible no_elegida aumentar_puntero_clock
vuelta_clock primera zero m = some (none, m)
vuelta_clock primera (suc quedan) m = do
  v ← get_elem? m.tabla_global m.puntero_clock
  p ← get_elem? m.paginas v.pagina
  let resto = vuelta_clock primera quedan (aumentar_puntero_clock (no_elegida primera v.pagina p m))
  (if elegible primera p
      then some (
        some v,
        aumentar_puntero_clock (record m { tabla_global = quitar m.tabla_global m.puntero_clock }),
      )
      else resto)

-- The while of elegirVictimaClockM, with the number of rounds that are left.
unfoldable pub vueltas_clock :
    (quedan : ℕ) (primera : Bool) → Memoria → Option (PaginaGlobal × Memoria)
unfolding vuelta_clock
vueltas_clock zero primera m = none
vueltas_clock (suc quedan) primera m = do
  (elegida, m1) ← vuelta_clock primera (length m.tabla_global) m
  elim elegida [ none ↦ vueltas_clock quedan (not primera) m1 | some v ↦ some (v, m1) ]

-- Four rounds are enough.
unfoldable pub elegir_victima_clock_m : Memoria → Option (PaginaGlobal × Memoria)
unfolding vueltas_clock
elegir_victima_clock_m m = vueltas_clock 4 true m

unfoldable pub elegir_victima : Algoritmo → Memoria → Option (PaginaGlobal × Memoria)
unfolding elegir_victima_lru elegir_victima_clock_m
elegir_victima lru m = elegir_victima_lru m
elegir_victima clock_m m = elegir_victima_clock_m m
elegir_victima otro m = none

-- The loop of encontrarNumeroDePagina from the page `i` on, with the index found so far.
unfoldable pub ultima_con_marco : List Pagina → (marco indice i : ℕ) → List ℕ → Option ℕ
ultima_con_marco heap marco indice i [] = some indice
ultima_con_marco heap marco indice i (direccion ∷ resto) = do
  p ← get_elem? heap direccion
  ultima_con_marco heap marco (if p.marco == marco then i else indice) (i + 1) resto

unfoldable pub encontrar_numero_de_pagina : TablaDePaginas → Pagina → Memoria → Option ℕ
unfolding ultima_con_marco
encontrar_numero_de_pagina tabla pagina m =
    ultima_con_marco m.paginas pagina.marco menos_uno 0 tabla.paginas

unfoldable pub no_tiene_pags_presentes : List Pagina → List ℕ → Option Bool
no_tiene_pags_presentes heap [] = some true
no_tiene_pags_presentes heap (direccion ∷ resto) = do
  p ← get_elem? heap direccion
  vacia ← no_tiene_pags_presentes heap resto
  some (not p.precencia && vacia)

unfoldable pub limpiar_bit : ℕ → Memoria → Memoria
limpiar_bit marco m = record m { bitmap = set m.bitmap marco false }

-- The first frame below `marcos` whose bit is clear; a bit past the end of the bitmap is not read.
unfoldable pub primer_libre : (marcos i : ℕ) → List Bool → Option ℕ
primer_libre zero i bits = none
primer_libre (suc marcos) i [] = none
primer_libre (suc marcos) i (b ∷ bits) = if b then primer_libre marcos (i + 1) bits else some i

module _ {S : Type 0} (ent : Entorno S) where
  -- The if (pagina->modificada) of liberarVictima; the reply is dropped.
  unfoldable pub escribir_si_modificada :
      PaginaGlobal → (num_pag id_query : ℕ) → Pagina → Nodo S → Option (Nodo S)
  unfolding realizar_escritura_de_bloque cambiar_pagina
  escribir_si_modificada victima num_pag id_query p s =
      if p.modificada
      then (do
        (s1, r) ← realizar_escritura_de_bloque ent victima.file_tag num_pag p.marco id_query s
        some (record s1 {
          memoria =
              cambiar_pagina victima.pagina (record p { precencia = false; modificada = false })
                s1.memoria;
        }))
      else some s

  unfoldable pub liberar_victima : PaginaGlobal → ℕ → Nodo S → Option (Nodo S)
  unfolding encontrar_tabla_con_file_tag encontrar_numero_de_pagina cambiar_pagina limpiar_bit
      escribir_si_modificada no_tiene_pags_presentes destruir_tabla_de_paginas
  liberar_victima victima id_query s = do
    tabla ← encontrar_tabla_con_file_tag victima.file_tag s.memoria
    p ← get_elem? s.memoria.paginas victima.pagina
    num_pag ← encontrar_numero_de_pagina tabla p s.memoria
    let m1 = cambiar_pagina victima.pagina (record p { precencia = false }) s.memoria
    s2 ←
        escribir_si_modificada victima num_pag id_query p
          (record s { memoria = limpiar_bit p.marco m1 })
    vacia ← no_tiene_pags_presentes s2.memoria.paginas tabla.paginas
    some (
        if vacia
        then record s2 { memoria = destruir_tabla_de_paginas tabla.direccion s2.memoria }
        else s2)

  -- The tokens of the file:tag are logged, so both must be there.
  unfoldable pub liberar_marco : ℕ → Nodo S → Option (ℕ × Nodo S)
  unfolding elegir_victima encontrar_tabla_con_file_tag encontrar_numero_de_pagina liberar_victima
  liberar_marco id_query s = do
    (victima, m1) ← elegir_victima s.memoria.algoritmo s.memoria
    p ← get_elem? m1.paginas victima.pagina
    file ← get_elem? (ent.partir victima.file_tag 58) 0
    etiqueta ← get_elem? (ent.partir victima.file_tag 58) 1
    tabla ← encontrar_tabla_con_file_tag victima.file_tag m1
    num_pag ← encontrar_numero_de_pagina tabla p m1
    s2 ← liberar_victima victima id_query (record s { memoria = m1 })
    some (p.marco, s2)

  unfoldable pub asignar_marco : ℕ → Nodo S → Option (ℕ × Nodo S)
  unfolding primer_libre liberar_marco
  asignar_marco id_query s = elim (primer_libre s.memoria.cant_marcos 0 s.memoria.bitmap) [
    | some marco ↦ some (marco, s)
    | none ↦ liberar_marco id_query s
  ]
