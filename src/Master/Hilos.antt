-- ===== src/Master/Hilos.antt =====
-- planificacion.c: the start, the thread that ages a query, the one that frees the ended ones, and
-- the disconnection of a Query Control. `none` is a crash, as in Planificador.
use trabajo_practico_de_sist.Comun.{
  ℕ, [], ◌∷◌, ◌++◌, Option, none, some, Bool, true, false, not, ◌&&◌, ◌==◌, if◌then◌else◌,
}
use trabajo_practico_de_sist.Utils.Estructuras.{CodigoAccion, fin_query}
use trabajo_practico_de_sist.Master.Estado.{Ordenadas, Maestro}
use trabajo_practico_de_sist.Master.Consultas.{
  menor_int, disminuir_prioridad_query, cambiar_cod_accion_query, query_control_desconectado,
  desconectar_query_control, sacar, obtener_worker_ejecutando_query, contiene_query,
  mayor_prioridad,
}
use trabajo_practico_de_sist.Master.Planificador.{enviar_desalojo, verificar_desalojo}

-- iniciarPlanificacion, with the configuration's algorithm and aging time.
unfoldable pub iniciar_planificacion : Bool → ℕ → Maestro
iniciar_planificacion fifo tiempo_aging = record {
  fifo = fifo;
  tiempo_aging = tiempo_aging;
  colas = record {
    cola_new = [];
    cola_desalojo = [];
    lista_ready = [];
    lista_execute = [];
    cola_exit = [];
  };
  consultas = λ q. none;
  workers = [];
  ultimo_query_id = 0;
  enviados = [];
}

unfoldable pub es_fin : CodigoAccion → Bool
es_fin fin_query = true
es_fin _ = false

-- The condition of the loop of `aging`.
unfoldable pub envejece : ℕ → Maestro → Bool
unfolding query_control_desconectado es_fin obtener_worker_ejecutando_query
envejece q s = elim (s.consultas q) [
  | none ↦ false
  | some m ↦
      not (query_control_desconectado q s)
      && (not (es_fin m.query.cod_accion) && (elim (obtener_worker_ejecutando_query q s.workers) [
        | none ↦ menor_int 0 m.query.prioridad
        | some w ↦ false
      ]))
]

-- One round of `aging`, after the wait.
unfoldable pub aging : Ordenadas → ℕ → Maestro → Option Maestro
unfolding envejece disminuir_prioridad_query mayor_prioridad verificar_desalojo
aging lib q s =
    let s1 = disminuir_prioridad_query q s in
    let s2 = record s1 {
      colas = record (s1.colas) {
        lista_ready = lib.sort (mayor_prioridad s1) s1.colas.lista_ready;
      };
    } in
    if envejece q s then verificar_desalojo q s2 else some s

-- One round of `exitStatus`.
unfoldable pub exit_status : Maestro → Option Maestro
exit_status s = elim s.colas.cola_exit [
  | [] ↦ none
  | q ∷ resto ↦ some (record s {
    colas = record (s.colas) { cola_exit = resto };
    consultas = λ j. if q == j then none else s.consultas j;
  })
]

unfoldable pub sacar_de_ready : ℕ → Maestro → Maestro
unfolding desconectar_query_control sacar cambiar_cod_accion_query
sacar_de_ready q s =
    let s1 = desconectar_query_control q s in
    cambiar_cod_accion_query q fin_query (record s1 {
      colas = record (s1.colas) {
        lista_ready = sacar q s1.colas.lista_ready;
        cola_exit = s1.colas.cola_exit ++ q ∷ [];
      };
    })

unfoldable pub manejar_desconexion_query_control : ℕ → Maestro → Option Maestro
unfolding obtener_worker_ejecutando_query desconectar_query_control enviar_desalojo sacar_de_ready
    contiene_query
manejar_desconexion_query_control q s = elim (obtener_worker_ejecutando_query q s.workers) [
  | some w ↦ enviar_desalojo q (desconectar_query_control q s)
  | none ↦ if contiene_query q s.colas.lista_ready then some (sacar_de_ready q s) else some s
]
