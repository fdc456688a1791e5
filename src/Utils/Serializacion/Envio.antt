-- ===== src/Utils/Serializacion/Envio.antt =====
-- Packets on a socket: what one process sends, the other receives, packet by packet.
use trabajo_practico_de_sist.Comun.{
  ℕ, zero, suc, ◌^◌, ◌<◌, ◌≡◌, refl, List, [], ◌∷◌, ◌++◌, Option, some, length, take, drop,
  length-append, arith, append-nil, append_assoc, take-length, take-length_append,
  drop-length_append, All, map, ◌>>=◌,
}
use trabajo_practico_de_sist.Utils.Estructuras.{Instruccion}
use trabajo_practico_de_sist.Utils.Paquetes.{
  Buffer, Paquete, entero, enviar_paquete, recv_todo, recibir_paquete,
}
use trabajo_practico_de_sist.Utils.Paquetes.Laws.{length-entero, valor-entero}
use trabajo_practico_de_sist.Utils.Serializacion.Formato.{IsLleno}
use trabajo_practico_de_sist.Utils.Serializacion.Pedido.{
  serializar_instruccion, deserializar_instruccion,
}
use trabajo_practico_de_sist.Utils.Serializacion.RoundTrip.{
  IsInstruccion, deserializar-serializar_instruccion,
}

recv_todo-append :
    (n : ℕ) (d r : List ℕ) → length d ≡ n → 0 < n → recv_todo n (d ++ r) ≡ some (d, r)
unfolding recv_todo
recv_todo-append n d r h pos = ground (arith, take_n, drop_n, length-append d r)
  where
    take_n : take n (d ++ r) ≡ d
    take_n = rw (← h) (take-length_append d r)

    drop_n : drop n (d ++ r) ≡ r
    drop_n = rw (← h) (drop-length_append d r)

-- A full buffer, and an operation code that fits its int.
pub record IsPaquete (p : Paquete) : Type 0 where
  pub codigo : p.codigo_operacion < 2 ^ 32
  pub lleno : IsLleno p.buffer

-- The packet as the receiver has it, before it reads.
abbrev pub recibido : Paquete → Paquete
recibido p = record p { buffer = record (p.buffer) { offset = 0 } }

abbrev bytes_de : Paquete → List ℕ
bytes_de p = entero p.codigo_operacion ++ (entero p.buffer.size ++ p.buffer.stream)

enviar_paquete-bytes :
    (p : Paquete) (socket : List ℕ)
    → IsPaquete p
    → enviar_paquete p.codigo_operacion p.buffer socket ≡ socket ++ bytes_de p
unfolding enviar_paquete
enviar_paquete-bytes p socket h = rw (← h.lleno.completo, take-length p.buffer.stream)

recibir_paquete-bytes :
    (p : Paquete) (resto : List ℕ)
    → IsPaquete p
    → recibir_paquete (bytes_de p ++ resto) ≡ some (recibido p, resto)
unfolding recibir_paquete
recibir_paquete-bytes p resto h = rw (
  append_assoc,
  recv_todo-append 4 (entero p.codigo_operacion) _ (length-entero p.codigo_operacion) (omega arith),
  append_assoc,
  recv_todo-append 4 (entero p.buffer.size) _ (length-entero p.buffer.size) (omega arith),
  valor-entero p.buffer.size h.lleno.cabe,
  valor-entero p.codigo_operacion h.codigo,
  recv_todo-append p.buffer.size p.buffer.stream resto h.lleno.completo h.lleno.algo,
)

abbrev pub enviar_todos : List Paquete → List ℕ → List ℕ
enviar_todos [] socket = socket
enviar_todos (p ∷ ps) socket = enviar_todos ps (enviar_paquete p.codigo_operacion p.buffer socket)

abbrev pub recibir_todos : ℕ → List ℕ → Option (List Paquete × List ℕ)
recibir_todos zero socket = some ([], socket)
recibir_todos (suc n) socket = do
  (p, s1) ← recibir_paquete socket
  (ps, s2) ← recibir_todos n s1
  some (p ∷ ps, s2)

enviar_todos-append :
    (ps : List Paquete) (s t : List ℕ) → enviar_todos ps (s ++ t) ≡ s ++ enviar_todos ps t
unfolding enviar_paquete
enviar_todos-append [] s t = refl
enviar_todos-append (p ∷ ps) s t = rw append_assoc (enviar_todos-append ps s _)

enviar_todos-start : (ps : List Paquete) (s : List ℕ) → enviar_todos ps s ≡ s ++ enviar_todos ps []
enviar_todos-start ps s = rw append-nil at (enviar_todos-append ps s [])

-- Packets sent one after the other on a socket where nothing waits are received in that order,
-- each with its own bytes, and nothing is left over.
pub recibir_todos-enviar_todos :
    (ps : List Paquete)
    → All IsPaquete ps
    → recibir_todos (length ps) (enviar_todos ps []) ≡ some (map recibido ps, [])
recibir_todos-enviar_todos [] h = refl
recibir_todos-enviar_todos (p ∷ ps) h = rw (
  enviar_paquete-bytes p [] h.0,
  enviar_todos-start ps (bytes_de p),
  recibir_paquete-bytes p (enviar_todos ps []) h.0,
  recibir_todos-enviar_todos ps h.1,
)

-- The instruction that a Worker sends, followed by whatever else it sends, is the instruction
-- that Storage receives and deserialises.
pub recibir-enviar_instruccion :
    (i : Instruccion) (codigo : ℕ) (resto : List ℕ)
    → IsInstruccion i
    → codigo < 2 ^ 32
    → (b : Buffer) × (p : Paquete) × (b' : Buffer) × (serializar_instruccion i ≡ some b)
      × (recibir_paquete (enviar_paquete codigo b [] ++ resto) ≡ some (p, resto))
      × (p.codigo_operacion ≡ codigo)
      × (deserializar_instruccion p.buffer ≡ some (i, b'))
unfolding deserializar_instruccion
recibir-enviar_instruccion i codigo resto h hc =
    let r = deserializar-serializar_instruccion i h in
    let p : Paquete = record { codigo_operacion = codigo; buffer = r.0 } in
    let hp : IsPaquete p = record { codigo = hc; lleno = r.2.0 } in
    (
      r.0,
      recibido p,
      r.2.1.0,
      r.1,
      rw (enviar_paquete-bytes p [] hp) (recibir_paquete-bytes p resto hp),
      refl,
      unfold deserializar_instruccion in r.2.1.1,
    )
