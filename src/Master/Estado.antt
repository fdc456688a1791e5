-- ===== src/Master/Estado.antt =====
-- The global variables of planificacion.c, and what it reads of the configuration. A pointer to a
-- t_query_master is the id of its query, which asignarQueryId makes unique.
use trabajo_practico_de_sist.Comun.{ℕ, ◌+◌, ◌≡◌, List, [], ◌∷◌, Option, Bool, ◌==◌, if◌then◌else◌}
use trabajo_practico_de_sist.Utils.Estructuras.{Query, QueryMaster, Worker, RespuestaQuery}

-- How many times `x` is in the list.
unfoldable pub veces : ℕ → List ℕ → ℕ
veces x [] = 0
veces x (y ∷ ys) = (if x == y then 1 else 0) + veces x ys

-- list_add_sorted and list_sort of the commons library, which keep the elements.
pub record Ordenadas : Type 0 where
  pub add_sorted : (ℕ → ℕ → Bool) → ℕ → List ℕ → List ℕ
  pub sort : (ℕ → ℕ → Bool) → List ℕ → List ℕ
  pub veces-add_sorted :
      (antes : ℕ → ℕ → Bool) (x y : ℕ) (l : List ℕ)
      → veces x (add_sorted antes y l) ≡ (if x == y then 1 else 0) + veces x l
  pub veces-sort : (antes : ℕ → ℕ → Bool) (x : ℕ) (l : List ℕ) → veces x (sort antes l) ≡ veces x l

-- What is sent: a query to the socket of a Worker, an answer to that of a Query Control.
pub data Envio : Type 0 where
  a_worker : ℕ → Query → Envio
  a_control : ℕ → RespuestaQuery → Envio

pub record Colas : Type 0 where
  pub cola_new : List ℕ
  pub cola_desalojo : List ℕ
  pub lista_ready : List ℕ
  pub lista_execute : List ℕ
  pub cola_exit : List ℕ

-- `fifo`: algoritmoPlanificacion is "FIFO".
pub record Maestro : Type 0 where
  pub fifo : Bool
  pub tiempo_aging : ℕ
  pub colas : Colas
  pub consultas : ℕ → Option QueryMaster
  pub workers : List Worker
  pub ultimo_query_id : ℕ
  pub enviados : List Envio
