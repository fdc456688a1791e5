-- ===== src/Storage/Operaciones/Base.antt =====
-- storage.c, enviarRespuestaAWorker; operaciones.c, the start and the end of a handler. The result of
-- an operation is the state and the reply that is sent; `none` is a crash of the process.
use trabajo_practico_de_sist.Comun.{ℕ, List, Option, none, some, take, replicate}
use trabajo_practico_de_sist.Utils.Estructuras.{
  CodigoRespuesta, RespuestaStorage, crear_respuesta_storage,
}
use trabajo_practico_de_sist.Storage.Estado.{Superblock, Fs}
use trabajo_practico_de_sist.Storage.Verificar.{Veredicto, seguir, rechazar, callar}

abbrev pub Salida : Type 0 → Type 0
Salida B = Option (Fs B × RespuestaStorage)

-- Without contents, zeros are sent in their place.
unfoldable pub enviar_respuesta_a_worker :
    Superblock → CodigoRespuesta → Option (List ℕ) → List ℕ → RespuestaStorage
unfolding crear_respuesta_storage
enviar_respuesta_a_worker sb codigo none error =
    crear_respuesta_storage codigo (replicate sb.tam_bloque 0) error
enviar_respuesta_a_worker sb codigo (some contenido) error =
    crear_respuesta_storage codigo (take sb.tam_bloque contenido) error

module _ {B : Type 0} (sb : Superblock) where
  abbrev pub responder : CodigoRespuesta → Option (List ℕ) → List ℕ → Fs B → Salida B
  responder codigo contenido error s = some (s, enviar_respuesta_a_worker sb codigo contenido error)

  -- The start of every handler: a request that fails its check ends with the reply of the check.
  -- (`callar` is not met: a handler is called with its own code.)
  abbrev pub si_valida : Option Veredicto → Fs B → Salida B → Salida B
  si_valida none s resto = none
  si_valida (some seguir) s resto = resto
  si_valida (some (rechazar codigo error)) s resto = responder codigo none error s
  si_valida (some callar) s resto = none
