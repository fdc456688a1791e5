-- ===== src/Ejemplos/Corridas.antt =====
-- The theorems about the Worker and about lists of ints, on the small Worker.
use trabajo_practico_de_sist.Comun.{
  ℕ, ◌+◌, ◌≤◌, ◌<◌, ◌≡◌, ◌≢◌, refl, List, [], ◌∷◌, Option, some, none, true, arith, length, codes,
  inl, inr, ◌>>=◌, All, drop, eq_bytes, c_string, ◌==◌, if◌then◌else◌,
}
use trabajo_practico_de_sist.Utils.Estructuras.{
  Query, desalojo_query, RespuestaStorage, crear_respuesta_query, crear_respuesta_storage,
  crear_instruccion, error_limite,
}
use trabajo_practico_de_sist.Utils.Enteros.{parsear_lista_enteros, lista_enteros_a_string}
use trabajo_practico_de_sist.Utils.IdaYVuelta.{parsear-lista_enteros_a_string}
use trabajo_practico_de_sist.Worker.Estado.{
  Memoria, Nodo, PaginaGlobal, encontrar_tabla_con_file_tag, buscar_tabla,
}
use trabajo_practico_de_sist.Worker.Marcos.{
  escribir_contenido_en_marco, leer_contenido_para_storage,
}
use trabajo_practico_de_sist.Worker.Victimas.{
  elegir_victima_clock_m, vueltas_clock, encontrar_numero_de_pagina,
}
use trabajo_practico_de_sist.Worker.Bloques.{es_correcto, respuesta_por_defecto}
use trabajo_practico_de_sist.Worker.Escritura.{escribir_memoria}
use trabajo_practico_de_sist.Worker.Lectura.{leer_memoria}
use trabajo_practico_de_sist.Worker.Persistencia.{persistir_memoria}
use trabajo_practico_de_sist.Worker.Instrucciones.{trozos, hasta_salto, interpretar_instruccion}
use trabajo_practico_de_sist.Worker.Ejecucion.{Ejecutor}
use trabajo_practico_de_sist.Worker.Interprete.{Llegadas, sale, ejecutar_desde, query_interpreter}
use trabajo_practico_de_sist.Worker.Escrito.{escribir_contenido_en_marco-leer}
use trabajo_practico_de_sist.Worker.Reloj.{Tomada}
use trabajo_practico_de_sist.Worker.Victima.{elegir_victima_clock_m-Tomada}
use trabajo_practico_de_sist.Worker.Cierres.{cierres, abierta}
use trabajo_practico_de_sist.Worker.Desenlace.{recibidas, query_interpreter-cierres}
use trabajo_practico_de_sist.Worker.Lineas.{lineas, ejecutar_lineas, ejecutar_desde-lineas}
use trabajo_practico_de_sist.Worker.IdaYVuelta.{relectura, escribir_memoria-leer}
use trabajo_practico_de_sist.Worker.Volcado.{Limpia, persistir_memoria-Limpia}
use trabajo_practico_de_sist.Worker.Perdida.{leer_memoria-persistir}
use trabajo_practico_de_sist.Worker.Numero.{encontrar_numero_de_pagina-ultima}
use trabajo_practico_de_sist.Worker.Sintaxis.{
  Nombre, escribir, texto, instruccion_de, interpretar_instruccion-texto,
}
use trabajo_practico_de_sist.Ejemplos.Textos.{partir, partir-Separa, itoa, itoa-Decimal, textos}
use trabajo_practico_de_sist.Ejemplos.Trabajador.{
  entorno, pagina_cero, pagina_uno, pagina_dos, tabla, memoria, nodo, escribir_ab, ejecutor,
  archivo, consulta, memoria-Redonda, pagina-Presente, ab-Escribible, ab-Acierto,
}

escribir_contenido_en_marco-leer_example :
    (m' : Memoria) × (escribir_contenido_en_marco (9 ∷ 8 ∷ []) 2 1 0 memoria ≡ some ([], 0, m'))
    × (leer_contenido_para_storage 2 1 0 m' ≡ some (0, 9 ∷ 8 ∷ []))
    × (leer_contenido_para_storage 2 0 0 m' ≡ leer_contenido_para_storage 2 0 0 memoria)
    × (length m'.interna ≡ 4)
escribir_contenido_en_marco-leer_example =
    escribir_contenido_en_marco-leer (9 ∷ 8 ∷ []) 1 0 memoria 0 0 2 (omega arith) (omega arith)
      (λ e. omega (arith, e)) (omega arith) (omega arith)

elegir_victima_clock_m-Tomada_example :
    (v : PaginaGlobal) × (m' : Memoria) × (elegir_victima_clock_m memoria ≡ some (v, m'))
    × (vueltas_clock (4 + 3) true memoria ≡ some (v, m'))
    × Tomada v m'
elegir_victima_clock_m-Tomada_example = elegir_victima_clock_m-Tomada memoria 3 memoria-Redonda

abbrev abrir : List ℕ → Option (List ℕ)
abrir ruta = some archivo

-- When END was executed the Master preempts the query, and then it sends another one.
abbrev otra_consulta : Query
otra_consulta = record consulta { id = 8 }

abbrev llegadas : ℕ → Llegadas
llegadas i =
    if i == 1
    then record {
      antes = [];
      tras_instruccion = record consulta { cod_accion = desalojo_query } ∷ [];
      tras_interrupcion = otra_consulta ∷ [];
    }
    else record { antes = []; tras_instruccion = []; tras_interrupcion = [] }

-- The run of the two lines of the file: the new query is closed with the old one.
terminado : Ejecutor ℕ
unfolding query_interpreter
terminado = elim (query_interpreter entorno abrir [] 3 llegadas ejecutor) [
  | none ↦ ejecutor
  | some x ↦ x.0
]

corrida : query_interpreter entorno abrir [] 3 llegadas ejecutor ≡ some (terminado, sale)
unfolding query_interpreter terminado eq_bytes crear_instruccion crear_respuesta_storage es_correcto
corrida = refl

dos_cierres : (cierres terminado.al_master ≡ 2) × (terminado.query_actual ≡ none)
unfolding query_interpreter terminado eq_bytes crear_instruccion crear_respuesta_storage es_correcto
    crear_respuesta_query
dos_cierres = (refl, refl)

query_interpreter-cierres_example :
    (1 ≤ cierres terminado.al_master + abierta terminado.query_actual)
    × (cierres terminado.al_master + abierta terminado.query_actual ≤ 1 + recibidas llegadas 3 0)
query_interpreter-cierres_example =
    query_interpreter-cierres entorno abrir [] 3 llegadas consulta ejecutor terminado sale refl
      corrida

pocas : length (drop 0 (lineas archivo)) < 3
unfolding trozos hasta_salto
pocas = omega arith

ejecutar_desde-lineas_example : ejecutar_desde entorno 3 archivo 7 0 llegadas ejecutor ≡ (do
  e' ← ejecutar_lineas entorno (drop 0 (lineas archivo)) 7 0 llegadas ejecutor
  some (e', sale))
ejecutar_desde-lineas_example = ejecutar_desde-lineas entorno 3 archivo 7 0 llegadas ejecutor pocas

sin_nul : All (λ b. b ≢ 0) (escribir_ab.contenido)
unfolding crear_instruccion
sin_nul = ((λ e. omega (arith, e)), ((λ e. omega (arith, e)), tt))

escribir_memoria-leer_example :
    (s1 : Nodo ℕ) × (s2 : Nodo ℕ) × (escribir_memoria entorno escribir_ab nodo
      ≡ some (s1, respuesta_por_defecto))
    × (leer_memoria entorno (relectura escribir_ab) s1
        ≡ some (s2, respuesta_por_defecto, escribir_ab.contenido))
    × (s2.almacen ≡ 0)
escribir_memoria-leer_example = escribir_memoria-leer entorno escribir_ab nodo ab-Escribible sin_nul

volcado : Nodo ℕ × RespuestaStorage
unfolding persistir_memoria
volcado = elim (persistir_memoria entorno 7 (codes "f:t") nodo) [
  | none ↦ (nodo, respuesta_por_defecto)
  | some x ↦ x
]

se_vuelca : persistir_memoria entorno 7 (codes "f:t") nodo ≡ some (volcado.0, volcado.1)
unfolding persistir_memoria volcado encontrar_tabla_con_file_tag eq_bytes crear_instruccion
    crear_respuesta_storage
se_vuelca = refl

volcado-correcto : es_correcto volcado.1.cod_respuesta ≡ true
unfolding persistir_memoria volcado encontrar_tabla_con_file_tag eq_bytes crear_instruccion
    crear_respuesta_storage es_correcto
volcado-correcto = refl

hallada : encontrar_tabla_con_file_tag (codes "f:t") memoria ≡ some tabla
unfolding encontrar_tabla_con_file_tag buscar_tabla eq_bytes
hallada = refl

persistir_memoria-Limpia_example :
    All (Limpia volcado.0.memoria) tabla.paginas
    × (volcado.0.memoria.interna ≡ memoria.interna)
    × (volcado.0.memoria.tablas ≡ memoria.tablas)
    × (volcado.0.memoria.tabla_global ≡ memoria.tabla_global)
    × (volcado.0.memoria.bitmap ≡ memoria.bitmap)
persistir_memoria-Limpia_example =
    persistir_memoria-Limpia entorno 7 (codes "f:t") nodo volcado.0 volcado.1 tabla hallada
      se_vuelca volcado-correcto

otras_limpias :
    (nodo.memoria.paginas ≡ pagina_cero ∷ pagina_uno ∷ pagina_dos ∷ [])
    × Limpia memoria 1
    × Limpia memoria 2
otras_limpias = (
  refl,
  record { pagina = pagina_uno; en_heap = refl; sin_cambios = refl },
  record { pagina = pagina_dos; en_heap = refl; sin_cambios = refl },
)

-- The page 0 is modified in `nodo`.
leer_memoria-persistir_example :
    (s' : Nodo ℕ) × (lectura : List ℕ) × (leer_memoria entorno escribir_ab nodo
      ≡ some (s', respuesta_por_defecto, lectura))
    × (persistir_memoria entorno escribir_ab.query_id (c_string escribir_ab.file_tag) s'
        ≡ some (s', respuesta_por_defecto))
    × (s'.almacen ≡ 0)
unfolding ab-Acierto pagina-Presente
leer_memoria-persistir_example =
    leer_memoria-persistir entorno escribir_ab nodo ab-Acierto
      (inl refl, (inr otras_limpias.1, (inr otras_limpias.2, tt)))

-- The page 1 was never brought and has the frame 0 all the same.
encontrar_numero_de_pagina-ultima_example :
    encontrar_numero_de_pagina tabla pagina_cero memoria ≡ some 1
encontrar_numero_de_pagina-ultima_example =
    encontrar_numero_de_pagina-ultima memoria tabla pagina_cero pagina_uno (0 ∷ []) 1 (2 ∷ []) refl
      ((pagina_cero, refl), tt) refl refl ((pagina_dos, refl, λ e. omega (arith, e)), tt)

interpretar_instruccion-texto_example :
    interpretar_instruccion partir (texto itoa (escribir (codes "f") (codes "t") 12 (codes "ab"))) 7
    ≡ some (instruccion_de 7 (escribir (codes "f") (codes "t") 12 (codes "ab")))
interpretar_instruccion-texto_example =
    interpretar_instruccion-texto partir itoa partir-Separa itoa-Decimal 7
      (escribir (codes "f") (codes "t") 12 (codes "ab"))
      (
        letra 102 (omega arith) (omega arith),
        letra 116 (omega arith) (omega arith),
        omega arith,
        ((λ e. absurd (cc e)), ((λ e. omega (arith, e)), ((λ e. omega (arith, e)), tt))),
      )
  where
    letra : (b : ℕ) → b ≢ 32 → b ≢ 58 → Nombre (b ∷ [])
    letra b h k = (((λ e. absurd (cc e)), (h, tt)), ((λ e. absurd (cc e)), (k, tt)))

parsear-lista_enteros_a_string_example :
    parsear_lista_enteros textos (lista_enteros_a_string textos (12 ∷ 0 ∷ 345 ∷ []))
    ≡ 12 ∷ 0 ∷ 345 ∷ []
parsear-lista_enteros_a_string_example =
    parsear-lista_enteros_a_string textos 12 (0 ∷ 345 ∷ []) partir-Separa itoa-Decimal
      (omega arith, (omega arith, (omega arith, tt)))

rechazo : Nodo ℕ × RespuestaStorage
unfolding crear_respuesta_storage
rechazo =
    (record nodo { almacen = 1 }, crear_respuesta_storage error_limite (7 ∷ 8 ∷ []) (codes "E"))

abbrev sin_texto : List ℕ
sin_texto = []
