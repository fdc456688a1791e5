-- ===== src/Master/Planificador.antt =====
-- planificacion.c: the rounds of the threads. `none` is a crash: the NULL of an empty queue, or of a
-- query that no Worker runs.
use trabajo_practico_de_sist.Comun.{
  ℕ, ◌+◌, ◌-◌, ◌%◌, ◌^◌, [], ◌∷◌, ◌++◌, Option, none, some, ◌&&◌, ltb, ◌==◌, if◌then◌else◌, ◌>>=◌,
  length, get_elem?, codes,
}
use trabajo_practico_de_sist.Utils.Estructuras.{
  espera_query, ejecucion_query, respuesta_query, desalojo_query, fin_query, Query, RespuestaQuery,
  menos_uno, crear_query_master, crear_respuesta_query,
}
use trabajo_practico_de_sist.Master.Estado.{Ordenadas, Maestro, a_worker, a_control}
use trabajo_practico_de_sist.Master.Consultas.{
  menor_int, obtener_prioridad_query, cambiar_cod_accion_query, cambiar_pc,
  query_control_desconectado, sacar, obtener_worker_ejecutando_query,
  todos_los_workers_tienen_query, con_query, eliminar_worker_lista, agregar_query_master_lista,
}

-- enviarQuery
unfoldable pub enviar_query : ℕ → ℕ → Maestro → Maestro
enviar_query q socket s = elim (s.consultas q) [
  | none ↦ s
  | some m ↦ record s { enviados = s.enviados ++ a_worker socket m.query ∷ [] }
]

-- enviarRespuestaQuery to the Query Control of the query.
unfoldable pub enviar_respuesta_query : ℕ → RespuestaQuery → Maestro → Maestro
enviar_respuesta_query q r s = elim (s.consultas q) [
  | none ↦ s
  | some m ↦ record s { enviados = s.enviados ++ a_control m.socket_query_control r ∷ [] }
]

-- The new query gets the next id. (The overflow of the int is its wrap-around.)
unfoldable pub atender_query : Query → ℕ → Maestro → Maestro
unfolding crear_query_master
atender_query query socket s =
    let q = s.ultimo_query_id in
    let m = crear_query_master (record query { id = q }) socket in
    record s {
      consultas = λ j. if q == j then some m else s.consultas j;
      ultimo_query_id = (q + 1) % 2 ^ 32;
      colas = record (s.colas) { cola_new = s.colas.cola_new ++ q ∷ [] };
    }

unfoldable pub enviar_desalojo : ℕ → Maestro → Option Maestro
unfolding obtener_worker_ejecutando_query cambiar_cod_accion_query enviar_query
enviar_desalojo q s = do
  w ← obtener_worker_ejecutando_query q s.workers
  some (enviar_query q w.socket_worker (cambiar_cod_accion_query q desalojo_query s))

-- The query of least priority in execution is the last of the list.
unfoldable pub desalojar_si : ℕ → Maestro → Option Maestro
unfolding obtener_prioridad_query enviar_desalojo
desalojar_si q s = do
  ultima ← get_elem? s.colas.lista_execute (length s.colas.lista_execute - 1)
  p ← obtener_prioridad_query q s
  p' ← obtener_prioridad_query ultima s
  if menor_int p p' then enviar_desalojo ultima s else some s

unfoldable pub verificar_desalojo : ℕ → Maestro → Option Maestro
unfolding desalojar_si todos_los_workers_tienen_query
verificar_desalojo q s =
    if s.fifo
    then some s
    else if ltb 0 (length s.colas.lista_execute) && todos_los_workers_tienen_query s.workers
    then desalojar_si q s
    else some s

-- obtenerSiguienteQueryMasterReady: the preempted queries go first.
unfoldable pub obtener_siguiente : Maestro → Option (ℕ × Maestro)
obtener_siguiente s = elim s.colas.cola_desalojo [
  | q ∷ resto ↦ some (q, record s { colas = record (s.colas) { cola_desalojo = resto } })
  | [] ↦ elim s.colas.cola_new [
    | q ∷ resto ↦ some (q, record s { colas = record (s.colas) { cola_new = resto } })
    | [] ↦ none
  ]
]

module _ (lib : Ordenadas) where
  unfoldable pub agregar_ready : ℕ → Maestro → Maestro
  unfolding agregar_query_master_lista
  agregar_ready q s = record s {
    colas = record (s.colas) {
      lista_ready = agregar_query_master_lista lib s s.colas.lista_ready q;
    };
  }

  -- One round of the thread `ready`, without the start of the thread that ages the query.
  unfoldable pub ready : Maestro → Option Maestro
  unfolding obtener_siguiente agregar_ready cambiar_cod_accion_query verificar_desalojo
  ready s = do
    (q, s1) ← obtener_siguiente s
    verificar_desalojo q (cambiar_cod_accion_query q espera_query (agregar_ready q s1))

  -- atenderWorker, from the query in ready to its Worker.
  unfoldable pub tomar_query : ℕ → ℕ → Maestro → Option (ℕ × Maestro)
  unfolding agregar_query_master_lista cambiar_cod_accion_query con_query enviar_query
  tomar_query w socket s = elim s.colas.lista_ready [
    | [] ↦ none
    | q ∷ resto ↦
        let s1 = record s {
          colas = record (s.colas) {
            lista_ready = resto;
            lista_execute = agregar_query_master_lista lib s s.colas.lista_execute q;
          };
        } in
        let s2 = cambiar_cod_accion_query q ejecucion_query s1 in
        some (q, enviar_query q socket (record s2 { workers = con_query w q s2.workers }))
  ]

unfoldable pub desalojar_query : ℕ → RespuestaQuery → Maestro → Maestro
unfolding cambiar_pc sacar query_control_desconectado cambiar_cod_accion_query
desalojar_query q r s =
    let s1 = cambiar_pc q r.pc s in
    let execute = sacar q s1.colas.lista_execute in
    if query_control_desconectado q s1
    then cambiar_cod_accion_query q fin_query (record s1 {
      colas = record (s1.colas) {
        lista_execute = execute;
        cola_exit = s1.colas.cola_exit ++ q ∷ [];
      };
    })
    else cambiar_cod_accion_query q espera_query (record s1 {
      colas = record (s1.colas) {
        lista_execute = execute;
        cola_desalojo = s1.colas.cola_desalojo ++ q ∷ [];
      };
    })

unfoldable pub enviar_exit : ℕ → RespuestaQuery → Maestro → Maestro
unfolding enviar_respuesta_query sacar cambiar_cod_accion_query
enviar_exit q r s =
    let s1 = enviar_respuesta_query q r s in
    cambiar_cod_accion_query q fin_query (record s1 {
      colas = record (s1.colas) {
        lista_execute = sacar q s1.colas.lista_execute;
        cola_exit = s1.colas.cola_exit ++ q ∷ [];
      };
    })

unfoldable pub liberar_de : ℕ → Maestro → Maestro
unfolding con_query
liberar_de w s = record s { workers = con_query w menos_uno s.workers }

-- atenderWorker, on the answer of Worker `w` for query `q`.
unfoldable pub atender_respuesta : ℕ → ℕ → RespuestaQuery → Maestro → Maestro
unfolding cambiar_cod_accion_query desalojar_query enviar_respuesta_query enviar_exit liberar_de
atender_respuesta w q r s =
    let s1 = cambiar_cod_accion_query q r.cod_respuesta s in
    elim r.cod_respuesta [
      | desalojo_query ↦ liberar_de w (desalojar_query q r s1)
      | respuesta_query ↦ cambiar_cod_accion_query q ejecucion_query (enviar_respuesta_query q r s1)
      | fin_query ↦ enviar_exit q r (liberar_de w s1)
      | _ ↦ s1
    ]

unfoldable pub manejar_desconexion_worker : ℕ → ℕ → Maestro → Maestro
unfolding enviar_exit eliminar_worker_lista crear_respuesta_query
manejar_desconexion_worker w q s =
    let texto = codes "Desconexi" ++ (195 ∷ 179 ∷ codes "n de worker") in
    enviar_exit q (crear_respuesta_query texto 0 [] [] fin_query)
      (record s { workers = eliminar_worker_lista w s.workers })
