-- ===== src/Utils/Serializacion/Codigos.antt =====
-- The enumerations of estructuras.h as the ints that serializacion.c copies.
use trabajo_practico_de_sist.Comun.{ℕ, ◌==◌, if◌then◌else◌}
use trabajo_practico_de_sist.Utils.Estructuras.{
  CodigoAccion, creacion_query, espera_query, ejecucion_query, respuesta_query, desalojo_query,
  fin_query, otra, CodigoInstruccion, create, truncate, tag, commit, flush, delete, end, read,
  write, write_block, read_block, otro, CodigoRespuesta, correcto, error_inexistente,
  error_preexistente, error_insuficiente, error_prohibido, error_limite, otra_respuesta,
}
use trabajo_practico_de_sist.Utils.Paquetes.{Buffer}

-- The value that an enumerator has in an int of four bytes, and back.
unfoldable pub accion_a_entero : CodigoAccion → ℕ
accion_a_entero creacion_query = 0
accion_a_entero espera_query = 1
accion_a_entero ejecucion_query = 2
accion_a_entero respuesta_query = 3
accion_a_entero desalojo_query = 4
accion_a_entero fin_query = 5
accion_a_entero (otra n) = n

unfoldable pub entero_a_accion : ℕ → CodigoAccion
entero_a_accion n =
    if n == 0
    then creacion_query
    else if n == 1
    then espera_query
    else if n == 2
    then ejecucion_query
    else if n == 3
    then respuesta_query
    else if n == 4
    then desalojo_query
    else if n == 5
    then fin_query
    else otra n

unfoldable pub instruccion_a_entero : CodigoInstruccion → ℕ
instruccion_a_entero create = 0
instruccion_a_entero truncate = 1
instruccion_a_entero tag = 2
instruccion_a_entero commit = 3
instruccion_a_entero flush = 4
instruccion_a_entero delete = 5
instruccion_a_entero end = 6
instruccion_a_entero read = 7
instruccion_a_entero write = 8
instruccion_a_entero write_block = 9
instruccion_a_entero read_block = 10
instruccion_a_entero (otro n) = n

unfoldable pub entero_a_instruccion : ℕ → CodigoInstruccion
entero_a_instruccion n =
    if n == 0
    then create
    else if n == 1
    then truncate
    else if n == 2
    then tag
    else if n == 3
    then commit
    else if n == 4
    then flush
    else if n == 5
    then delete
    else if n == 6
    then end
    else if n == 7
    then read
    else if n == 8
    then write
    else if n == 9
    then write_block
    else if n == 10
    then read_block
    else otro n

unfoldable pub respuesta_a_entero : CodigoRespuesta → ℕ
respuesta_a_entero correcto = 0
respuesta_a_entero error_inexistente = 1
respuesta_a_entero error_preexistente = 2
respuesta_a_entero error_insuficiente = 3
respuesta_a_entero error_prohibido = 4
respuesta_a_entero error_limite = 5
respuesta_a_entero (otra_respuesta n) = n

unfoldable pub entero_a_respuesta : ℕ → CodigoRespuesta
entero_a_respuesta n =
    if n == 0
    then correcto
    else if n == 1
    then error_inexistente
    else if n == 2
    then error_preexistente
    else if n == 3
    then error_insuficiente
    else if n == 4
    then error_prohibido
    else if n == 5
    then error_limite
    else otra_respuesta n

-- `buffer->offset = 0` before the reads of a message.
abbrev pub rebobinar : Buffer → Buffer
rebobinar b = record b { offset = 0 }
