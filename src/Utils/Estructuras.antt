-- ===== src/Utils/Estructuras.antt =====
-- utils/src/utils/estructuras.h and estructuras.c. An int32_t is its bit pattern, below 2 ^ 32.
-- A char* or void* field is the list of the bytes it points to, NUL included; the pointers
-- themselves, the mutexes and the thread handle are not part of the model.
use trabajo_practico_de_sist.Comun.{ℕ, ◌+◌, ◌^◌, ◌-◌, List, [], ◌∷◌, ◌++◌, length, Bool, false}

-- codigo_accion_query. `otra` is a value that the enumeration does not name.
pub data CodigoAccion : Type 0 where
  creacion_query espera_query ejecucion_query respuesta_query desalojo_query fin_query :
      CodigoAccion
  otra : ℕ → CodigoAccion

pub record Query : Type 0 where
  pub id : ℕ
  pub archivo_query : List ℕ
  pub archivo_query_length : ℕ
  pub prioridad : ℕ
  pub pc : ℕ
  pub cod_accion : CodigoAccion

pub record QueryMaster : Type 0 where
  pub query : Query
  pub socket_query_control : ℕ
  pub desconexion_query_control : Bool
  pub aging_iniciado : Bool

pub record Worker : Type 0 where
  pub id : ℕ
  pub id_query : ℕ
  pub socket_worker : ℕ

pub record RespuestaQuery : Type 0 where
  pub cod_respuesta : CodigoAccion
  pub pc : ℕ
  pub mensaje : List ℕ
  pub mensaje_length : ℕ
  pub nombre_file : List ℕ
  pub nombre_file_length : ℕ
  pub tag : List ℕ
  pub tag_length : ℕ

-- codigo_instruccion. `otro` is a value that the enumeration does not name.
pub data CodigoInstruccion : Type 0 where
  create truncate tag commit flush delete end read write write_block read_block : CodigoInstruccion
  otro : ℕ → CodigoInstruccion

pub record Instruccion : Type 0 where
  pub query_id : ℕ
  pub codigo_ins : CodigoInstruccion
  pub file_tag_length : ℕ
  pub file_tag : List ℕ
  pub nombre_file_length : ℕ
  pub nombre_file : List ℕ
  pub tag_length : ℕ
  pub tag : List ℕ
  pub tamanio : ℕ
  pub direccion_base : ℕ
  pub contenido_length : ℕ
  pub contenido : List ℕ
  pub nombre_file_destino_length : ℕ
  pub nombre_file_destino : List ℕ
  pub tag_destino_length : ℕ
  pub tag_destino : List ℕ
  pub nro_bloque : ℕ

-- codigo_respuesta_storage. `otra_respuesta` is a value that the enumeration does not name.
pub data CodigoRespuesta : Type 0 where
  correcto error_inexistente error_preexistente : CodigoRespuesta
  error_insuficiente error_prohibido error_limite : CodigoRespuesta
  otra_respuesta : ℕ → CodigoRespuesta

pub record RespuestaStorage : Type 0 where
  pub cod_respuesta : CodigoRespuesta
  pub contenido : List ℕ
  pub contenido_length : ℕ
  pub error : List ℕ
  pub error_length : ℕ

-- The bit pattern of the int32_t -1.
abbrev pub menos_uno : ℕ
menos_uno = 2 ^ 32 - 1

-- A text argument of the functions below is given without its NUL; `string_duplicate` copies both.
abbrev pub duplicar : List ℕ → List ℕ
duplicar texto = texto ++ 0 ∷ []

unfoldable pub crear_query : List ℕ → ℕ → Query
crear_query archivo prioridad = record {
  id = menos_uno;
  archivo_query = duplicar archivo;
  archivo_query_length = length archivo + 1;
  prioridad = prioridad;
  pc = 0;
  cod_accion = creacion_query;
}

unfoldable pub crear_query_master : Query → ℕ → QueryMaster
crear_query_master query socket = record {
  query = query;
  socket_query_control = socket;
  desconexion_query_control = false;
  aging_iniciado = false;
}

unfoldable pub crear_worker : ℕ → ℕ → Worker
crear_worker id_worker socket = record {
  id = id_worker;
  id_query = menos_uno;
  socket_worker = socket;
}

unfoldable pub crear_respuesta_query : List ℕ → ℕ → List ℕ → List ℕ → CodigoAccion → RespuestaQuery
crear_respuesta_query mensaje pc nombre_file etiqueta cod = record {
  cod_respuesta = cod;
  pc = pc;
  mensaje = duplicar mensaje;
  mensaje_length = length mensaje + 1;
  nombre_file = duplicar nombre_file;
  nombre_file_length = length nombre_file + 1;
  tag = duplicar etiqueta;
  tag_length = length etiqueta + 1;
}

-- `contenido` is what lies at the pointer, `contenido_length` bytes of it.
unfoldable pub crear_instruccion :
    (query_id : ℕ) (codigo : CodigoInstruccion) (file_tag nombre_file etiqueta : List ℕ)
    (tamanio direccion_base : ℕ) (contenido nombre_destino tag_destino : List ℕ) (nro_bloque : ℕ)
    → Instruccion
crear_instruccion id codigo file_tag nombre etiqueta tamanio base contenido destino tag_dst nro =
    record {
      query_id = id;
      codigo_ins = codigo;
      file_tag_length = length file_tag + 1;
      file_tag = duplicar file_tag;
      nombre_file_length = length nombre + 1;
      nombre_file = duplicar nombre;
      tag_length = length etiqueta + 1;
      tag = duplicar etiqueta;
      tamanio = tamanio;
      direccion_base = base;
      contenido_length = length contenido;
      contenido = contenido;
      nombre_file_destino_length = length destino + 1;
      nombre_file_destino = duplicar destino;
      tag_destino_length = length tag_dst + 1;
      tag_destino = duplicar tag_dst;
      nro_bloque = nro;
    }

unfoldable pub crear_respuesta_storage : CodigoRespuesta → List ℕ → List ℕ → RespuestaStorage
crear_respuesta_storage codigo contenido error = record {
  cod_respuesta = codigo;
  contenido = contenido;
  contenido_length = length contenido;
  error = duplicar error;
  error_length = length error + 1;
}
