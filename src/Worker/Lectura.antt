-- ===== src/Worker/Lectura.antt =====
-- worker/src/memoria.c: leerMemoria.
use trabajo_practico_de_sist.Comun.{
  ℕ, zero, suc, ◌+◌, ◌/◌, ◌%◌, Option, none, some, Bool, true, false, leb, ◌==◌, if◌then◌else◌,
  ◌>>=◌, List, [], ◌++◌, length, get_elem?, c_string,
}
use trabajo_practico_de_sist.Utils.Estructuras.{Instruccion, RespuestaStorage}
use trabajo_practico_de_sist.Worker.Estado.{
  Pagina, Memoria, Nodo, Entorno, cambiar_pagina, encontrar_tabla_con_file_tag, tabla_en,
}
use trabajo_practico_de_sist.Worker.Marcos.{leer_contenido_para_master, escribir_contenido_en_marco}
use trabajo_practico_de_sist.Worker.Paginas.{
  agregar_a_tabla_global, crear_tabla, cargar_pagina_nueva, ubicar_ausente,
}
use trabajo_practico_de_sist.Worker.Bloques.{
  Hecho, Paso, sigue, corta, respuesta_por_defecto, marcos_necesarios, es_acceso, con_bloque, luego,
}

-- What is left to read, and the text read so far.
abbrev pub Lectura : Type 0
Lectura = ℕ × List ℕ

-- The block of a reply copied to a frame, from its start.
unfoldable pub copiar_bloque : List ℕ → ℕ → Memoria → Option Memoria
unfolding escribir_contenido_en_marco
copiar_bloque contenido marco m = do
  (resto, bytes, m') ← escribir_contenido_en_marco contenido m.tam_bloque marco 0 m
  some m'

-- A read from the frame of a page; string_append stops at the first NUL.
unfoldable pub leer_marco :
    {S : Type 0} → Lectura → (marco desplazamiento : ℕ) → Nodo S → Option (Nodo S × Paso Lectura)
unfolding leer_contenido_para_master
leer_marco (bytes, lectura) marco desplazamiento s = do
  (bytes', leido) ← leer_contenido_para_master bytes marco desplazamiento s.memoria
  some (s, sigue (bytes', lectura ++ c_string leido))

module _ {S : Type 0} (ent : Entorno S) (id_query : ℕ) (file_tag : List ℕ) where
  -- The pointer to the table of the file:tag, made if there is none.
  unfoldable pub tabla_para_leer : ℕ → Nodo S → Option (Nodo S × Paso ℕ)
  unfolding encontrar_tabla_con_file_tag con_bloque crear_tabla tabla_en copiar_bloque
  tabla_para_leer num_pag s = elim (encontrar_tabla_con_file_tag file_tag s.memoria) [
    | some tabla ↦ some (s, sigue tabla.direccion)
    | none ↦
        con_bloque ent file_tag num_pag id_query
          (λ r s1. do
            (direccion, s2) ← crear_tabla ent file_tag num_pag false id_query s1
            tabla ← tabla_en direccion s2.memoria.tablas
            pagina ← get_elem? tabla.paginas num_pag
            p ← get_elem? s2.memoria.paginas pagina
            m3 ← copiar_bloque r.contenido p.marco s2.memoria
            some (record s2 { memoria = m3 }, sigue direccion))
          s
  ]

  -- The body of the if (numPag >= list_size(tabla->paginas)), or nothing.
  unfoldable pub agregar_para_leer :
      (falta : Bool) (direccion num_pag : ℕ) → Nodo S → Option (Nodo S × Paso Hecho)
  unfolding con_bloque cargar_pagina_nueva copiar_bloque
  agregar_para_leer false direccion num_pag s = some (s, sigue tt)
  agregar_para_leer true direccion num_pag s =
      con_bloque ent file_tag num_pag id_query
        (λ r s1. do
          (marco, s2) ← cargar_pagina_nueva ent direccion file_tag num_pag false id_query s1
          m3 ← copiar_bloque r.contenido marco s2.memoria
          some (record s2 { memoria = m3 }, sigue tt))
        s

  unfoldable pub extender_para_leer :
      (direccion num_pag : ℕ) → Nodo S → Option (Nodo S × Paso Hecho)
  unfolding tabla_en agregar_para_leer
  extender_para_leer direccion num_pag s = do
    tabla ← tabla_en direccion s.memoria.tablas
    agregar_para_leer (leb (length tabla.paginas) num_pag) direccion num_pag s

  -- The branches of if (pagina->precencia == 1).
  unfoldable pub leer_segun_precencia :
      (precencia : Bool) (direccion : ℕ)
      → Pagina
      → (num_pag desplazamiento : ℕ) → Lectura
      → Nodo S
      → Option (Nodo S × Paso Lectura)
  unfolding cambiar_pagina con_bloque ubicar_ausente copiar_bloque agregar_a_tabla_global leer_marco
  leer_segun_precencia true pagina p num_pag desplazamiento lectura s =
      leer_marco lectura p.marco desplazamiento
        (record s { memoria = cambiar_pagina pagina (record p { modificada = false }) s.memoria })
  leer_segun_precencia false pagina p num_pag desplazamiento lectura s =
      con_bloque ent file_tag num_pag id_query
        (λ r s1. do
          (marco, s2) ← ubicar_ausente ent pagina file_tag false id_query s1
          m3 ← copiar_bloque r.contenido marco s2.memoria
          m4 ← agregar_a_tabla_global pagina file_tag m3
          leer_marco lectura marco desplazamiento (record s2 { memoria = m4 }))
        s

  unfoldable pub leer_de_pagina :
      (direccion num_pag desplazamiento : ℕ) → Lectura → Nodo S → Option (Nodo S × Paso Lectura)
  unfolding tabla_en leer_segun_precencia
  leer_de_pagina direccion num_pag desplazamiento lectura s = do
    tabla ← tabla_en direccion s.memoria.tablas
    pagina ← get_elem? tabla.paginas num_pag
    p ← get_elem? s.memoria.paginas pagina
    leer_segun_precencia p.precencia pagina p num_pag desplazamiento lectura s

  -- The for of leerMemoria, with the number of iterations that are left.
  unfoldable pub leer_paginas :
      (quedan direccion num_pag desplazamiento : ℕ)
      → Lectura
      → Nodo S
      → Option (Nodo S × Paso Lectura)
  unfolding extender_para_leer leer_de_pagina luego
  leer_paginas zero direccion num_pag desplazamiento lectura s = some (s, sigue lectura)
  leer_paginas (suc quedan) direccion num_pag desplazamiento lectura s = do
    extendida ← extender_para_leer direccion num_pag s
    leida ← luego extendida (λ u s1. leer_de_pagina direccion num_pag desplazamiento lectura s1)
    luego leida (λ lectura' s2. leer_paginas quedan direccion (num_pag + 1) 0 lectura' s2)

-- The reply, and the text read; the caller looks at the text of a reply CORRECTO only.
unfoldable pub lectura_final :
    {S : Type 0} → Nodo S × Paso Lectura → Nodo S × RespuestaStorage × List ℕ
unfolding respuesta_por_defecto
lectura_final (s, sigue (bytes, lectura)) = (s, respuesta_por_defecto, lectura)
lectura_final (s, corta r) = (s, r, [])

-- With no page to reach, paginaInicial is read and was never written.
unfoldable pub leer_memoria :
    {S : Type 0} → Entorno S → Instruccion → Nodo S → Option (Nodo S × RespuestaStorage × List ℕ)
unfolding es_acceso marcos_necesarios tabla_para_leer luego leer_paginas lectura_final
leer_memoria ent ins s =
    let tam = s.memoria.tam_bloque in
    let file_tag = c_string ins.file_tag in
    let num_pag = ins.direccion_base / tam in
    if es_acceso ins.direccion_base ins.tamanio tam
    then (do
      tabla ← tabla_para_leer ent ins.query_id file_tag num_pag s
      fin ← luego tabla (λ direccion s1.
          if ins.tamanio == 0
          then none
          else leer_paginas ent ins.query_id file_tag (marcos_necesarios ins.tamanio tam) direccion
              num_pag (ins.direccion_base % tam) (ins.tamanio, []) s1)
      some (lectura_final fin))
    else none
