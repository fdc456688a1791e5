-- ===== src/Ejemplos/Planificacion.antt =====
-- The theorems on the scheduler at work on a Master with one Worker and two queries.
use trabajo_practico_de_sist.Comun.{
  ◌+◌, ℕ, ◌<◌, ◌≡◌, refl, [], ◌∷◌, none, some, false, ◌==◌, if◌then◌else◌, arith,
}
use trabajo_practico_de_sist.Utils.Estructuras.{
  QueryMaster, RespuestaQuery, ejecucion_query, desalojo_query,
}
use trabajo_practico_de_sist.Master.Estado.{veces, Ordenadas, Maestro}
use trabajo_practico_de_sist.Master.Planificador.{
  atender_respuesta, manejar_desconexion_worker, tomar_query, ready,
}
use trabajo_practico_de_sist.Master.Rondas.{Sale, ready-en_colas}
use trabajo_practico_de_sist.Master.Conservacion.{
  en_colas, atender_respuesta-en_colas, manejar_desconexion_worker-en_colas, tomar_query-en_colas,
}

-- Lists that are kept in the order of arrival, the last one first.
abbrev ordenadas : Ordenadas
unfolding veces
ordenadas = record {
  add_sorted = λ antes y l. y ∷ l;
  sort = λ antes l. l;
  veces-add_sorted = λ antes x y l. refl;
  veces-sort = λ antes x l. refl;
}

abbrev consulta : ℕ → QueryMaster
consulta q = record {
  query = record {
    id = q;
    archivo_query = 113 ∷ 0 ∷ [];
    archivo_query_length = 2;
    prioridad = 3;
    pc = 0;
    cod_accion = ejecucion_query;
  };
  socket_query_control = 9;
  desconexion_query_control = false;
  aging_iniciado = false;
}

abbrev maestro : Maestro
maestro = record {
  fifo = false;
  tiempo_aging = 0;
  colas = record {
    cola_new = [];
    cola_desalojo = [];
    lista_ready = 1 ∷ [];
    lista_execute = 0 ∷ [];
    cola_exit = [];
  };
  consultas = λ q. if q == 0 then some (consulta 0) else if q == 1 then some (consulta 1) else none;
  workers = record { id = 7; id_query = 0; socket_worker = 4 } ∷ [];
  ultimo_query_id = 2;
  enviados = [];
}

abbrev desalojada : RespuestaQuery
desalojada = record {
  cod_respuesta = desalojo_query;
  pc = 5;
  mensaje = [];
  mensaje_length = 0;
  nombre_file = [];
  nombre_file_length = 0;
  tag = [];
  tag_length = 0;
}

en_ejecucion : 0 < veces 0 maestro.colas.lista_execute
unfolding veces
en_ejecucion = ground arith

atender_respuesta-en_colas_example :
    en_colas 0 (atender_respuesta 7 0 desalojada maestro).colas ≡ en_colas 0 maestro.colas
atender_respuesta-en_colas_example =
    atender_respuesta-en_colas 7 0 0 desalojada maestro en_ejecucion

manejar_desconexion_worker-en_colas_example :
    en_colas 0 (manejar_desconexion_worker 7 0 maestro).colas ≡ en_colas 0 maestro.colas
manejar_desconexion_worker-en_colas_example =
    manejar_desconexion_worker-en_colas 7 0 0 maestro en_ejecucion

tomar_query-en_colas_example :
    (s' : Maestro) × (tomar_query ordenadas 8 6 maestro ≡ some (1, s'))
    × (s'.colas.lista_ready ≡ [])
    × ((x : ℕ) → en_colas x s'.colas ≡ en_colas x maestro.colas)
tomar_query-en_colas_example = tomar_query-en_colas ordenadas 8 6 1 [] maestro refl

-- The query 1 is new.
abbrev con_nueva : Maestro
con_nueva = record maestro {
  colas = record {
    cola_new = 1 ∷ [];
    cola_desalojo = [];
    lista_ready = [];
    lista_execute = 0 ∷ [];
    cola_exit = [];
  };
}

tras_ready : Maestro
unfolding ready
tras_ready = elim (ready ordenadas con_nueva) [ none ↦ con_nueva | some s ↦ s ]

una_ronda : ready ordenadas con_nueva ≡ some tras_ready
unfolding ready tras_ready
una_ronda = refl

ready-en_colas_example :
    (q : ℕ) × Sale q con_nueva.colas tras_ready.colas
    × ((x : ℕ)
        → (veces x tras_ready.colas.lista_ready ≡ veces x [] + (if x == q then 1 else 0))
          × (en_colas x tras_ready.colas ≡ en_colas x con_nueva.colas))
    × (tras_ready.colas.lista_execute ≡ 0 ∷ [])
    × (tras_ready.colas.cola_exit ≡ [])
ready-en_colas_example = ready-en_colas ordenadas con_nueva tras_ready una_ronda
