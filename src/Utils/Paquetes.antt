-- ===== src/Utils/Paquetes.antt =====
-- utils/src/utils/paquetes.c: buffers, and the framing of a packet on a socket. A socket is the
-- list of the bytes that wait to be received on it, and sending adds bytes at its end.
pub mod Lectura
pub mod Laws
use trabajo_practico_de_sist.Comun.{
  ℕ, suc, ◌+◌, ◌*◌, ◌/◌, ◌%◌, ◌≤◌, List, [], ◌∷◌, ◌++◌, Option, none, some, length, take, drop, leb,
  if◌then◌else◌, ◌>>=◌, ◌==◌,
}

-- `stream` holds the bytes that were written; what malloc left behind them has no value here.
pub record Buffer : Type 0 where
  pub size : ℕ
  pub offset : ℕ
  pub stream : List ℕ

unfoldable pub crear_buffer : ℕ → Buffer
crear_buffer n = record { size = n; offset = 0; stream = [] }

-- memcpy of `datos` to `stream + offset`. `none`: it would write behind the allocation.
unfoldable pub agregar_buffer : List ℕ → Buffer → Option Buffer
agregar_buffer datos b =
    if leb (b.offset + length datos) b.size
    then some (record b {
      offset = b.offset + length datos;
      stream = take b.offset b.stream ++ datos ++ drop (b.offset + length datos) b.stream;
    })
    else none

-- memcpy of `n` bytes from `stream + offset`. `none`: it would read behind the allocation.
unfoldable pub leer_buffer : ℕ → Buffer → Option (List ℕ × Buffer)
leer_buffer n b =
    if leb (b.offset + n) (length b.stream)
    then some (take n (drop b.offset b.stream), record b { offset = b.offset + n })
    else none

-- The four bytes of an int32_t, least significant first.
unfoldable pub entero : ℕ → List ℕ
entero w = (w % 256) ∷ (w / 256 % 256) ∷ (w / 65536 % 256) ∷ (w / 16777216 % 256) ∷ []

unfoldable pub valor : List ℕ → ℕ
valor [] = 0
valor (b ∷ bs) = b + 256 * valor bs

unfoldable pub agregar_entero : ℕ → Buffer → Option Buffer
unfolding agregar_buffer entero
agregar_entero w = agregar_buffer (entero w)

unfoldable pub leer_entero : Buffer → Option (ℕ × Buffer)
unfolding leer_buffer valor
leer_entero b = do (bytes, b') ← leer_buffer 4 b; some (valor bytes, b')

pub record Paquete : Type 0 where
  pub codigo_operacion : ℕ
  pub buffer : Buffer

unfoldable pub crear_paquete : ℕ → Buffer → Paquete
crear_paquete codigo b = record { codigo_operacion = codigo; buffer = b }

-- The socket after `send`: operation code, size, then `size` bytes of the stream.
unfoldable pub enviar_paquete : ℕ → Buffer → List ℕ → List ℕ
unfolding crear_paquete entero
enviar_paquete codigo b socket =
    let paquete = crear_paquete codigo b in
    socket
    ++ (entero paquete.codigo_operacion
        ++ (entero paquete.buffer.size ++ take paquete.buffer.size paquete.buffer.stream))

-- `recv` with MSG_WAITALL for `n` bytes, where the peer sends no more than what is in flight: it
-- gives what there is when it is less, and returns 0, which the callers take for a failure, when
-- there is nothing or `n` is 0.
unfoldable pub recv_todo : ℕ → List ℕ → Option (List ℕ × List ℕ)
recv_todo n socket =
    if n == 0
    then none
    else if length socket == 0
    then none
    else some (take n socket, drop n socket)

-- `none` is the NULL that the callers read as a disconnection. A stream that came short, of a peer
-- that closed, is accepted with its whole size; after a short code or size nothing more comes.
unfoldable pub recibir_paquete : List ℕ → Option (Paquete × List ℕ)
unfolding recv_todo valor
recibir_paquete socket = do
  (codigo, s1) ← recv_todo 4 socket
  (tam, s2) ← recv_todo 4 s1
  (bytes, s3) ← recv_todo (valor tam) s2
  some (
    record {
      codigo_operacion = valor codigo;
      buffer = record { size = valor tam; offset = 0; stream = bytes };
    },
    s3,
  )
