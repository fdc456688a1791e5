-- ===== src/Worker/Escritura.antt =====
-- worker/src/memoria.c: escribirMemoria.
use trabajo_practico_de_sist.Comun.{
  ℕ, zero, suc, ◌+◌, ◌/◌, ◌%◌, Option, none, some, Bool, true, false, leb, ◌==◌, if◌then◌else◌,
  ◌>>=◌, List, length, get_elem?, c_string,
}
use trabajo_practico_de_sist.Utils.Estructuras.{Instruccion, RespuestaStorage}
use trabajo_practico_de_sist.Worker.Estado.{
  Pagina, Nodo, Entorno, cambiar_pagina, encontrar_tabla_con_file_tag, tabla_en,
}
use trabajo_practico_de_sist.Worker.Marcos.{leer_rango, escribir_contenido_en_marco}
use trabajo_practico_de_sist.Worker.Paginas.{
  agregar_a_tabla_global, crear_tabla, cargar_pagina_nueva, ubicar_ausente,
}
use trabajo_practico_de_sist.Worker.Bloques.{
  Hecho, Paso, sigue, corta, respuesta_por_defecto, marcos_necesarios, es_acceso, con_bloque, luego,
}

-- What is left of the contents and of their length.
abbrev pub Resto : Type 0
Resto = List ℕ × ℕ

-- A write onto the frame of a page.
unfoldable pub escribir_marco :
    {S : Type 0} → Resto → (marco desplazamiento : ℕ) → Nodo S → Option (Nodo S × Paso Resto)
unfolding escribir_contenido_en_marco
escribir_marco (contenido, bytes) marco desplazamiento s = do
  (contenido', bytes', m') ←
      escribir_contenido_en_marco contenido bytes marco desplazamiento s.memoria
  some (record s { memoria = m' }, sigue (contenido', bytes'))

module _ {S : Type 0} (ent : Entorno S) (id_query : ℕ) (file_tag : List ℕ) where
  -- The pointer to the table of the file:tag, made if there is none.
  unfoldable pub tabla_para_escribir : ℕ → Nodo S → Option (Nodo S × Paso ℕ)
  unfolding encontrar_tabla_con_file_tag con_bloque crear_tabla
  tabla_para_escribir num_pag s = elim (encontrar_tabla_con_file_tag file_tag s.memoria) [
    | some tabla ↦ some (s, sigue tabla.direccion)
    | none ↦
        con_bloque ent file_tag num_pag id_query
          (λ r s1. do
            (direccion, s2) ← crear_tabla ent file_tag num_pag true id_query s1
            some (s2, sigue direccion))
          s
  ]

  -- The body of the if (numPag >= list_size(tabla->paginas)), or nothing. The block that is read is
  -- not copied.
  unfoldable pub agregar_para_escribir :
      (falta : Bool) (direccion num_pag : ℕ) → Nodo S → Option (Nodo S × Paso Hecho)
  unfolding con_bloque cargar_pagina_nueva
  agregar_para_escribir false direccion num_pag s = some (s, sigue tt)
  agregar_para_escribir true direccion num_pag s =
      con_bloque ent file_tag num_pag id_query
        (λ r s1. do
          (marco, s2) ← cargar_pagina_nueva ent direccion file_tag num_pag true id_query s1
          some (s2, sigue tt))
        s

  unfoldable pub extender_para_escribir :
      (direccion num_pag : ℕ) → Nodo S → Option (Nodo S × Paso Hecho)
  unfolding tabla_en agregar_para_escribir
  extender_para_escribir direccion num_pag s = do
    tabla ← tabla_en direccion s.memoria.tablas
    agregar_para_escribir (leb (length tabla.paginas) num_pag) direccion num_pag s

  -- The branches of if (pagina->precencia == 1). The block that is read is not copied.
  unfoldable pub escribir_segun_precencia :
      (precencia : Bool) (direccion : ℕ)
      → Pagina
      → (num_pag desplazamiento : ℕ) → Resto
      → Nodo S
      → Option (Nodo S × Paso Resto)
  unfolding cambiar_pagina con_bloque ubicar_ausente agregar_a_tabla_global escribir_marco
  escribir_segun_precencia true pagina p num_pag desplazamiento resto s =
      escribir_marco resto p.marco desplazamiento
        (record s { memoria = cambiar_pagina pagina (record p { modificada = true }) s.memoria })
  escribir_segun_precencia false pagina p num_pag desplazamiento resto s =
      con_bloque ent file_tag num_pag id_query
        (λ r s1. do
          (marco, s2) ← ubicar_ausente ent pagina file_tag true id_query s1
          m3 ← agregar_a_tabla_global pagina file_tag s2.memoria
          escribir_marco resto marco desplazamiento (record s2 { memoria = m3 }))
        s

  unfoldable pub escribir_en_pagina :
      (direccion num_pag desplazamiento : ℕ) → Resto → Nodo S → Option (Nodo S × Paso Resto)
  unfolding tabla_en escribir_segun_precencia
  escribir_en_pagina direccion num_pag desplazamiento resto s = do
    tabla ← tabla_en direccion s.memoria.tablas
    pagina ← get_elem? tabla.paginas num_pag
    p ← get_elem? s.memoria.paginas pagina
    escribir_segun_precencia p.precencia pagina p num_pag desplazamiento resto s

  -- The for of escribirMemoria, with the number of iterations that are left.
  unfoldable pub escribir_paginas :
      (quedan direccion num_pag desplazamiento : ℕ) → Resto → Nodo S → Option (Nodo S × Paso Hecho)
  unfolding extender_para_escribir escribir_en_pagina luego
  escribir_paginas zero direccion num_pag desplazamiento resto s = some (s, sigue tt)
  escribir_paginas (suc quedan) direccion num_pag desplazamiento resto s = do
    extendida ← extender_para_escribir direccion num_pag s
    escrita ← luego extendida (λ u s1. escribir_en_pagina direccion num_pag desplazamiento resto s1)
    luego escrita (λ resto' s2. escribir_paginas quedan direccion (num_pag + 1) 0 resto' s2)

unfoldable pub respuesta_final : {S : Type 0} → Nodo S × Paso Hecho → Nodo S × RespuestaStorage
unfolding respuesta_por_defecto
respuesta_final (s, sigue u) = (s, respuesta_por_defecto)
respuesta_final (s, corta r) = (s, r)

-- With no page to reach, paginaInicial is read and was never written.
unfoldable pub escribir_memoria :
    {S : Type 0} → Entorno S → Instruccion → Nodo S → Option (Nodo S × RespuestaStorage)
unfolding leer_rango es_acceso marcos_necesarios tabla_para_escribir luego escribir_paginas
    respuesta_final
escribir_memoria ent ins s =
    let tam = s.memoria.tam_bloque in
    let file_tag = c_string ins.file_tag in
    let num_pag = ins.direccion_base / tam in
    if es_acceso ins.direccion_base ins.contenido_length tam
    then (do
      contenido ← leer_rango ins.contenido 0 ins.contenido_length
      tabla ← tabla_para_escribir ent ins.query_id file_tag num_pag s
      fin ← luego tabla (λ direccion s1.
          if ins.contenido_length == 0
          then none
          else escribir_paginas ent ins.query_id file_tag
              (marcos_necesarios ins.contenido_length tam) direccion num_pag
              (ins.direccion_base % tam) (contenido, ins.contenido_length) s1)
      some (respuesta_final fin))
    else none
