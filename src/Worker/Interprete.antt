-- ===== src/Worker/Interprete.antt =====
-- worker/src/ejecucion.c: queryInterpreter, and what escucharMaster does with a packet. The thread of
-- escucharMaster may take packets of the Master at any moment of a run: `llegadas` says, for each
-- line, the messages that it took at each moment that a run can tell from the next. `terminar`
-- stays 0.
use trabajo_practico_de_sist.Comun.{
  ℕ, zero, suc, ◌+◌, ◌-◌, List, [], ◌∷◌, ◌++◌, Option, none, some, true, false, ◌>>=◌, c_string,
}
use trabajo_practico_de_sist.Utils.Estructuras.{
  Instruccion, CodigoAccion, ejecucion_query, desalojo_query, Query,
}
use trabajo_practico_de_sist.Worker.Estado.{Entorno}
use trabajo_practico_de_sist.Worker.Bloques.{es_correcto}
use trabajo_practico_de_sist.Worker.Persistencia.{persistir_memoria_completa}
use trabajo_practico_de_sist.Worker.Instrucciones.{interpretar_instruccion, leer_linea_por_indice}
use trabajo_practico_de_sist.Worker.Ejecucion.{
  Ejecutor, procesar_error, confirmar_desalojo, hubo_interrupcion, ejecutar_instruccion,
}

-- Whether the while of queryInterpreter goes on to the next line.
pub data Marcha : Type 0 where
  sigue_linea sale : Marcha

-- The switch of escucharMaster.
unfoldable pub recibir_segun : {S : Type 0} → CodigoAccion → Query → Ejecutor S → Ejecutor S
recibir_segun ejecucion_query q e = record e { query_actual = some q; sem_query = e.sem_query + 1 }
recibir_segun desalojo_query q e = record e { interrupcion = true }
recibir_segun _ q e = e

unfoldable pub escuchar_master : {S : Type 0} → Query → Ejecutor S → Ejecutor S
unfolding recibir_segun
escuchar_master q e = recibir_segun q.cod_accion q e

-- The packets that escucharMaster takes, in order.
unfoldable pub atender_mensajes : {S : Type 0} → List Query → Ejecutor S → Ejecutor S
unfolding escuchar_master
atender_mensajes [] e = e
atender_mensajes (q ∷ qs) e = atender_mensajes qs (escuchar_master q e)

-- The messages taken while a line is executed: before its instruction, then before huboInterrupcion
-- or procesarError, and then, if there was an interruption, before the query is closed. The
-- instruction and persistirMemoriaCompleta read nothing that a message changes until they end or
-- close the query, so a message taken meanwhile counts as taken before or after.
pub record Llegadas : Type 0 where
  pub antes : List Query
  pub tras_instruccion : List Query
  pub tras_interrupcion : List Query

unfoldable pub crear_path_final : (path_querys archivo : List ℕ) → List ℕ
crear_path_final path_querys archivo = path_querys ++ archivo

module _ {S : Type 0} (ent : Entorno S) where
  -- The body of the if (huboInterrupcion()).
  unfoldable pub desalojar : (id_query pc : ℕ) → Instruccion → Ejecutor S → Option (Ejecutor S)
  unfolding persistir_memoria_completa es_correcto procesar_error confirmar_desalojo
  desalojar id_query pc ins e = do
    (s1, r) ← persistir_memoria_completa ent id_query e.nodo
    elim (es_correcto r.cod_respuesta) [
      | true ↦ confirmar_desalojo (pc + 1) ins.nombre_file ins.tag (record e { nodo = s1 })
      | false ↦ procesar_error r ins.nombre_file ins.tag (record e { nodo = s1 })
    ]

  -- huboInterrupcion and what hangs from it; `mensajes` come after huboInterrupcion.
  unfoldable pub verificar_interrupcion :
      (id_query pc : ℕ)
      → Instruccion
      → (mensajes : List Query) → Ejecutor S
      → Option (Ejecutor S × Marcha)
  unfolding hubo_interrupcion desalojar atender_mensajes
  verificar_interrupcion id_query pc ins mensajes e = elim (hubo_interrupcion e).0 [
    | true ↦ do
      e1 ← desalojar id_query pc ins (atender_mensajes mensajes (hubo_interrupcion e).1)
      some (e1, sale)
    | false ↦ some ((hubo_interrupcion e).1, sigue_linea)
  ]

  -- The body of the while of queryInterpreter.
  unfoldable pub ejecutar_linea :
      List ℕ → (id_query pc : ℕ) → Llegadas → Ejecutor S → Option (Ejecutor S × Marcha)
  unfolding interpretar_instruccion ejecutar_instruccion es_correcto procesar_error atender_mensajes
      verificar_interrupcion
  ejecutar_linea linea id_query pc llegan e = do
    ins ← interpretar_instruccion ent.partir linea id_query
    (e1, r) ← ejecutar_instruccion ent ins pc (atender_mensajes llegan.antes e)
    let e2 = atender_mensajes llegan.tras_instruccion e1
    elim (es_correcto r.cod_respuesta) [
      | true ↦ verificar_interrupcion id_query pc ins llegan.tras_interrupcion e2
      | false ↦ do e3 ← procesar_error r ins.nombre_file ins.tag e2; some (e3, sale)
    ]

  -- The while of queryInterpreter on at most `rondas` lines, from the line `pc` of the file on. The
  -- lines are over when `sale` comes with the state; `sigue_linea` says that the rounds were too few.
  unfoldable pub ejecutar_desde :
      (rondas : ℕ) (archivo : List ℕ) (id_query pc : ℕ) (llegadas : ℕ → Llegadas)
      → Ejecutor S
      → Option (Ejecutor S × Marcha)
  unfolding ejecutar_linea leer_linea_por_indice
  ejecutar_desde zero archivo id_query pc llegadas e = some (e, sigue_linea)
  ejecutar_desde (suc rondas) archivo id_query pc llegadas e =
      elim (leer_linea_por_indice archivo pc) [
        | none ↦ some (e, sale)
        | some linea ↦ do
          (e1, marcha) ← ejecutar_linea linea id_query pc (llegadas pc) e
          elim marcha [
            | sigue_linea ↦ ejecutar_desde rondas archivo id_query (pc + 1) llegadas e1
            | sale ↦ some (e1, sale)
          ]
      ]

  -- A round of queryInterpreter once sem_wait passed; `abrir` is fopen and the bytes of the file, and
  -- `none` is exit(1) or a NULL queryActual.
  unfoldable pub query_interpreter :
      (abrir : List ℕ → Option (List ℕ)) (path_querys : List ℕ) (rondas : ℕ)
      (llegadas : ℕ → Llegadas)
      → Ejecutor S
      → Option (Ejecutor S × Marcha)
  unfolding crear_path_final ejecutar_desde
  query_interpreter abrir path_querys rondas llegadas e = do
    q ← e.query_actual
    archivo ← abrir (crear_path_final path_querys (c_string q.archivo_query))
    ejecutar_desde rondas archivo q.id q.pc llegadas (record e { sem_query = e.sem_query - 1 })
