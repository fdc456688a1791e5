-- ===== src/Worker/Ejecucion.antt =====
-- worker/src/ejecucion.c: ejecutarInstruccion, huboInterrupcion, and the messages to the Master of
-- worker/src/worker.c (procesarError, confirmarDesalojo).
use trabajo_practico_de_sist.Comun.{
  ℕ, ◌+◌, List, [], ◌∷◌, ◌++◌, Option, none, some, Bool, true, false, ◌>>=◌, codes, c_string,
}
use trabajo_practico_de_sist.Utils.Estructuras.{
  Instruccion, CodigoInstruccion, create, truncate, tag, commit, flush, delete, end, read, write,
  desalojo_query, fin_query, respuesta_query, RespuestaStorage, RespuestaQuery, Query,
  crear_respuesta_query,
}
use trabajo_practico_de_sist.Worker.Estado.{Nodo, Entorno}
use trabajo_practico_de_sist.Worker.Marcos.{pedir_a_storage}
use trabajo_practico_de_sist.Worker.Bloques.{es_correcto, respuesta_por_defecto}
use trabajo_practico_de_sist.Worker.Escritura.{escribir_memoria}
use trabajo_practico_de_sist.Worker.Lectura.{leer_memoria}
use trabajo_practico_de_sist.Worker.Persistencia.{persistir_memoria}

-- `al_master` holds the answers sent to the Master, `sem_query` the value of the semaphore.
pub record Ejecutor (S : Type 0) : Type 0 where
  pub nodo : Nodo S
  pub query_actual : Option Query
  pub interrupcion : Bool
  pub sem_query : ℕ
  pub al_master : List RespuestaQuery

unfoldable pub enviar_al_master : {S : Type 0} → RespuestaQuery → Ejecutor S → Ejecutor S
enviar_al_master r e = record e { al_master = e.al_master ++ r ∷ [] }

-- liberarQuery(queryActual) reads the query, so that NULL is a crash.
unfoldable pub liberar_query_actual : {S : Type 0} → Ejecutor S → Option (Ejecutor S)
liberar_query_actual e = do q ← e.query_actual; some (record e { query_actual = none })

-- liberarQuery(queryActual) and the message, as procesarError, confirmarDesalojo and END do.
unfoldable pub cerrar_query : {S : Type 0} → RespuestaQuery → Ejecutor S → Option (Ejecutor S)
unfolding enviar_al_master liberar_query_actual
cerrar_query r e = do e1 ← liberar_query_actual e; some (enviar_al_master r e1)

unfoldable pub procesar_error :
    {S : Type 0} → RespuestaStorage → (file etiqueta : List ℕ) → Ejecutor S → Option (Ejecutor S)
unfolding cerrar_query
procesar_error r file etiqueta e =
    cerrar_query
      (crear_respuesta_query (c_string r.error) 0 (c_string file) (c_string etiqueta) fin_query) e

unfoldable pub confirmar_desalojo :
    {S : Type 0} → ℕ → (file etiqueta : List ℕ) → Ejecutor S → Option (Ejecutor S)
unfolding cerrar_query
confirmar_desalojo pc file etiqueta e =
    cerrar_query
      (crear_respuesta_query (codes "Worker Desalojado") pc (c_string file) (c_string etiqueta)
        desalojo_query)
      e

unfoldable pub hubo_interrupcion : {S : Type 0} → Ejecutor S → Bool × Ejecutor S
hubo_interrupcion e = (e.interrupcion, record e { interrupcion = false })

module _ {S : Type 0} (ent : Entorno S) where
  -- What a function of memoria.c leaves.
  unfoldable pub con_nodo : Ejecutor S → Nodo S × RespuestaStorage → Ejecutor S × RespuestaStorage
  con_nodo e (s, r) = (record e { nodo = s }, r)

  unfoldable pub reenviar : Instruccion → Ejecutor S → Option (Ejecutor S × RespuestaStorage)
  unfolding pedir_a_storage con_nodo
  reenviar ins e = do fin ← pedir_a_storage ent ins e.nodo; some (con_nodo e fin)

  -- The case READ: the text read goes to the Master if the reply is CORRECTO.
  unfoldable pub ejecutar_read :
      Instruccion → ℕ → Ejecutor S → Option (Ejecutor S × RespuestaStorage)
  unfolding leer_memoria es_correcto enviar_al_master
  ejecutar_read ins pc e = do
    (s1, r, lectura) ← leer_memoria ent ins e.nodo
    let e1 = record e { nodo = s1 }
    elim (es_correcto r.cod_respuesta) [
      | true ↦ some (
        enviar_al_master
            (crear_respuesta_query lectura (pc + 1) (c_string ins.nombre_file) (c_string ins.tag)
              respuesta_query)
            e1,
        r,
      )
      | false ↦ some (e1, r)
    ]

  -- The case COMMIT: the request is made if the pages of the file:tag were all written.
  unfoldable pub ejecutar_commit : Instruccion → Ejecutor S → Option (Ejecutor S × RespuestaStorage)
  unfolding persistir_memoria es_correcto reenviar
  ejecutar_commit ins e = do
    (s1, r) ← persistir_memoria ent ins.query_id (c_string ins.file_tag) e.nodo
    let e1 = record e { nodo = s1 }
    elim (es_correcto r.cod_respuesta) [ true ↦ reenviar ins e1 | false ↦ some (e1, r) ]

  unfoldable pub ejecutar_end :
      Instruccion → ℕ → Ejecutor S → Option (Ejecutor S × RespuestaStorage)
  unfolding cerrar_query respuesta_por_defecto
  ejecutar_end ins pc e = do
    e1 ←
        cerrar_query
          (crear_respuesta_query (codes "Fin de Ejecucion - Exitoso") (pc + 1)
            (c_string ins.nombre_file) (c_string ins.tag) fin_query)
          e
    some (e1, respuesta_por_defecto)

  -- The switch of ejecutarInstruccion; the default is exit(1).
  unfoldable pub segun_instruccion :
      CodigoInstruccion → Instruccion → ℕ → Ejecutor S → Option (Ejecutor S × RespuestaStorage)
  unfolding reenviar escribir_memoria con_nodo ejecutar_read ejecutar_commit persistir_memoria
      ejecutar_end
  segun_instruccion create ins pc e = reenviar ins e
  segun_instruccion truncate ins pc e = reenviar ins e
  segun_instruccion write ins pc e = do fin ← escribir_memoria ent ins e.nodo; some (con_nodo e fin)
  segun_instruccion read ins pc e = ejecutar_read ins pc e
  segun_instruccion tag ins pc e = reenviar ins e
  segun_instruccion commit ins pc e = ejecutar_commit ins e
  segun_instruccion flush ins pc e = do
    fin ← persistir_memoria ent ins.query_id (c_string ins.file_tag) e.nodo
    some (con_nodo e fin)
  segun_instruccion delete ins pc e = reenviar ins e
  segun_instruccion end ins pc e = ejecutar_end ins pc e
  segun_instruccion _ ins pc e = none

  unfoldable pub ejecutar_instruccion :
      Instruccion → ℕ → Ejecutor S → Option (Ejecutor S × RespuestaStorage)
  unfolding segun_instruccion
  ejecutar_instruccion ins pc e = segun_instruccion ins.codigo_ins ins pc e
