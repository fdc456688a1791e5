-- ===== src/Utils/Serializacion/Formato.antt =====
-- What it is for a message to fill its buffer and to come back from it.
use trabajo_practico_de_sist.Comun.{
  ℕ, ◌^◌, ◌<◌, ◌≡◌, List, [], ◌++◌, Option, some, length, arith, append-nil,
}
use trabajo_practico_de_sist.Utils.Estructuras.{
  CodigoAccion, otra, CodigoInstruccion, otro, CodigoRespuesta, otra_respuesta,
}
use trabajo_practico_de_sist.Utils.Paquetes.{
  Buffer, crear_buffer, agregar_buffer, leer_buffer, entero, leer_entero, agregar_entero,
}
use trabajo_practico_de_sist.Utils.Paquetes.Lectura.{◌▸◌, Lectura, ◌>>=◌}
use trabajo_practico_de_sist.Utils.Paquetes.Laws.{
  escrito, Escribe, Lee, Escribe-agregar_buffer, Escribe-agregar_entero, Escribe-▸, Lee-leer_buffer,
  Lee-leer_entero, Lee->>=,
}
use trabajo_practico_de_sist.Utils.Serializacion.Codigos.{
  accion_a_entero, entero_a_accion, instruccion_a_entero, entero_a_instruccion, respuesta_a_entero,
  entero_a_respuesta, rebobinar,
}

-- A value of the enumeration, or an int that it does not name.
abbrev pub IsAccion : CodigoAccion → Type 0
IsAccion (otra n) = (5 < n) × (n < 2 ^ 32)
IsAccion _ = Unit {0}

abbrev pub IsCodigoInstruccion : CodigoInstruccion → Type 0
IsCodigoInstruccion (otro n) = (10 < n) × (n < 2 ^ 32)
IsCodigoInstruccion _ = Unit {0}

abbrev pub IsCodigoRespuesta : CodigoRespuesta → Type 0
IsCodigoRespuesta (otra_respuesta n) = (5 < n) × (n < 2 ^ 32)
IsCodigoRespuesta _ = Unit {0}

pub accion_lem :
    (c : CodigoAccion)
    → IsAccion c
    → (accion_a_entero c < 2 ^ 32) × (entero_a_accion (accion_a_entero c) ≡ c)
unfolding accion_a_entero entero_a_accion
accion_lem (otra n) h = ground arith
accion_lem _ h = ground arith

pub instruccion_lem :
    (c : CodigoInstruccion)
    → IsCodigoInstruccion c
    → (instruccion_a_entero c < 2 ^ 32) × (entero_a_instruccion (instruccion_a_entero c) ≡ c)
unfolding instruccion_a_entero entero_a_instruccion
instruccion_lem (otro n) h = ground arith
instruccion_lem _ h = ground arith

pub respuesta_lem :
    (c : CodigoRespuesta)
    → IsCodigoRespuesta c
    → (respuesta_a_entero c < 2 ^ 32) × (entero_a_respuesta (respuesta_a_entero c) ≡ c)
unfolding respuesta_a_entero entero_a_respuesta
respuesta_lem (otra_respuesta n) h = ground arith
respuesta_lem _ h = ground arith

-- The length field of a text is its length, and fits.
abbrev pub IsLargo : ℕ → List ℕ → Type 0
IsLargo n bytes = (length bytes ≡ n) × (n < 2 ^ 32)

-- The buffer is full: the bytes written are as many as were allocated, at least one, and their
-- number fits an int32_t.
pub record IsLleno (b : Buffer) : Type 0 where
  pub hasta_el_final : b.offset ≡ b.size
  pub completo : length b.stream ≡ b.size
  pub algo : 0 < b.size
  pub cabe : b.size < 2 ^ 32

-- `b` holds `a` in full, and reading it from the start gives `a` back.
abbrev pub Contiene : {A : Type 0} → Lectura A → Buffer → A → Type 0
Contiene m b a = IsLleno b × ((b' : Buffer) × (m (rebobinar b) ≡ some (a, b')))

pub viaje :
    {A : Type 0} (w : Buffer → Option Buffer) (m : Lectura A) (bytes : List ℕ) (n : ℕ) (a : A)
    → Escribe w bytes
    → Lee m bytes a
    → length bytes ≡ n
    → (0 < n) × (n < 2 ^ 32)
    → (b : Buffer) × (w (crear_buffer n) ≡ some b) × Contiene m b a
unfolding crear_buffer
viaje w m bytes n a hw hm e r = (
  escrito n bytes,
  hw.at n [] (omega arith),
  (
    record { hasta_el_final = e; completo = e; algo = r.0; cabe = r.1 },
    (escrito n bytes, hm.at n bytes [] [] (rw append-nil)),
  ),
)

-- A text goes as its length and its bytes.
pub Escribe-texto :
    (n : ℕ) (bytes : List ℕ) {v : Buffer → Option Buffer} {ys : List ℕ}
    → Escribe v ys
    → Escribe (agregar_entero n ▸ agregar_buffer bytes ▸ v) (entero n ++ (bytes ++ ys))
Escribe-texto n bytes h =
    Escribe-▸ (Escribe-agregar_entero n) (Escribe-▸ (Escribe-agregar_buffer bytes) h)

pub Lee-texto :
    {A : Type 0} (f : ℕ → List ℕ → Lectura A) {n : ℕ} {bytes ys : List ℕ} {a : A}
    → IsLargo n bytes
    → Lee (f n bytes) ys a
    → Lee (leer_entero >>= λ m. leer_buffer m >>= λ d. f m d) (entero n ++ (bytes ++ ys)) a
Lee-texto f {n} {bytes} hl h =
    Lee->>= _ _ (Lee-leer_entero n hl.1) (Lee->>= _ _ (Lee-leer_buffer n bytes hl.0) h)
