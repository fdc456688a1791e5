-- ===== src/Master/Consultas.antt =====
-- planificacion.c: the monitors over one query, over the lists and over the Workers.
use mathlib.Core.Option
use trabajo_practico_de_sist.Comun.{
  ℕ, ◌+◌, ◌-◌, ◌%◌, ◌^◌, List, [], ◌∷◌, ◌++◌, Option, none, some, Bool, true, false, ◌&&◌, ltb,
  ◌==◌, if◌then◌else◌,
}
use trabajo_practico_de_sist.Utils.Estructuras.{CodigoAccion, QueryMaster, Worker}
use trabajo_practico_de_sist.Master.Estado.{Ordenadas, Maestro}

-- `<` on ints, by their patterns.
abbrev pub menor_int : ℕ → ℕ → Bool
menor_int a b = ltb ((a + 2 ^ 31) % 2 ^ 32) ((b + 2 ^ 31) % 2 ^ 32)

abbrev pub con_consulta : (QueryMaster → QueryMaster) → ℕ → Maestro → Maestro
con_consulta g q s = record s {
  consultas = λ j. if q == j then Option.map g (s.consultas j) else s.consultas j;
}

unfoldable pub obtener_prioridad_query : ℕ → Maestro → Option ℕ
obtener_prioridad_query q s = Option.map (λ m. m.query.prioridad) (s.consultas q)

unfoldable pub disminuir_prioridad_query : ℕ → Maestro → Maestro
disminuir_prioridad_query q s =
    con_consulta
      (λ m.
        if menor_int 0 m.query.prioridad
        then record m { query = record (m.query) { prioridad = m.query.prioridad - 1 } }
        else m)
      q s

unfoldable pub cambiar_cod_accion_query : ℕ → CodigoAccion → Maestro → Maestro
cambiar_cod_accion_query q c s =
    con_consulta (λ m. record m { query = record (m.query) { cod_accion = c } }) q s

unfoldable pub cambiar_pc : ℕ → ℕ → Maestro → Maestro
cambiar_pc q pc s = con_consulta (λ m. record m { query = record (m.query) { pc = pc } }) q s

unfoldable pub query_control_desconectado : ℕ → Maestro → Bool
query_control_desconectado q s = elim (s.consultas q) [
  | none ↦ false
  | some m ↦ m.desconexion_query_control
]

unfoldable pub desconectar_query_control : ℕ → Maestro → Maestro
desconectar_query_control q s =
    con_consulta (λ m. record m { desconexion_query_control = true }) q s

-- list_remove_element
unfoldable pub sacar : ℕ → List ℕ → List ℕ
sacar q [] = []
sacar q (x ∷ xs) = if q == x then xs else x ∷ sacar q xs

-- list_find of the Worker that runs the query.
unfoldable pub obtener_worker_ejecutando_query : ℕ → List Worker → Option Worker
obtener_worker_ejecutando_query q [] = none
obtener_worker_ejecutando_query q (w ∷ ws) =
    if w.id_query == q then some w else obtener_worker_ejecutando_query q ws

-- `idQuery >= 0` of an int is that its sign bit is clear.
unfoldable pub todos_los_workers_tienen_query : List Worker → Bool
todos_los_workers_tienen_query [] = true
todos_los_workers_tienen_query (w ∷ ws) =
    ltb w.id_query (2 ^ 31) && todos_los_workers_tienen_query ws

-- worker->idQuery, of the Worker with this id.
unfoldable pub con_query : ℕ → ℕ → List Worker → List Worker
con_query w q [] = []
con_query w q (x ∷ xs) = if x.id == w then record x { id_query = q } ∷ xs else x ∷ con_query w q xs

unfoldable pub eliminar_worker_lista : ℕ → List Worker → List Worker
eliminar_worker_lista w [] = []
eliminar_worker_lista w (x ∷ xs) = if x.id == w then xs else x ∷ eliminar_worker_lista w xs

unfoldable pub contiene_query : ℕ → List ℕ → Bool
contiene_query q [] = false
contiene_query q (x ∷ xs) = if x == q then true else contiene_query q xs

-- A query that is not there is after all that are.
unfoldable pub mayor_prioridad : Maestro → ℕ → ℕ → Bool
mayor_prioridad s a b = elim (s.consultas a) [
  | none ↦ false
  | some x ↦ elim (s.consultas b) [
    | none ↦ true
    | some y ↦ menor_int x.query.prioridad y.query.prioridad
  ]
]

unfoldable pub agregar_query_master_lista : Ordenadas → Maestro → List ℕ → ℕ → List ℕ
unfolding mayor_prioridad
agregar_query_master_lista lib s lista q =
    if s.fifo then lista ++ q ∷ [] else lib.add_sorted (mayor_prioridad s) q lista
