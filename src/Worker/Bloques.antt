-- ===== src/Worker/Bloques.antt =====
-- worker/src/memoria.c: a block asked of Storage on the way to a page, and what the two cases of the
-- answer lead to; the pages that an address and a length reach.
use trabajo_practico_de_sist.Comun.{
  ℕ, ◌+◌, ◌-◌, ◌/◌, ◌^◌, Option, some, Bool, true, false, ◌&&◌, ltb, if◌then◌else◌, ◌>>=◌, List,
  codes, [],
}
use trabajo_practico_de_sist.Utils.Estructuras.{
  CodigoRespuesta, correcto, error_inexistente, error_preexistente, error_insuficiente,
  error_prohibido, error_limite, otra_respuesta, RespuestaStorage, crear_respuesta_storage,
  duplicar,
}
use trabajo_practico_de_sist.Worker.Estado.{Nodo, Entorno}
use trabajo_practico_de_sist.Worker.Marcos.{realizar_lectura_de_bloque}

-- A stretch that leaves no value.
abbrev pub Hecho : Type 0
Hecho = Unit

-- A stretch of escribirMemoria or leerMemoria goes on with a value, or the function returns a reply.
pub data Paso {ℓ} (A : Type ℓ) : Type ℓ where
  sigue : A → Paso A
  corta : RespuestaStorage → Paso A

unfoldable pub es_correcto : CodigoRespuesta → Bool
es_correcto correcto = true
es_correcto error_inexistente = false
es_correcto error_preexistente = false
es_correcto error_insuficiente = false
es_correcto error_prohibido = false
es_correcto error_limite = false
es_correcto (otra_respuesta n) = false

-- lecturaStoragePorDefault: the seven bytes of "Basura" and its NUL.
unfoldable pub respuesta_por_defecto : RespuestaStorage
respuesta_por_defecto = crear_respuesta_storage correcto (duplicar (codes "Basura")) []

unfoldable pub marcos_necesarios : (bytes tam_bloque : ℕ) → ℕ
marcos_necesarios bytes tam_bloque = (bytes + tam_bloque - 1) / tam_bloque

-- The ints of an access are not negative, neither is the sum of marcosNecesarios, and the division
-- is defined. A negative base or size is out of this model.
unfoldable pub es_acceso : (base bytes tam_bloque : ℕ) → Bool
es_acceso base bytes tam_bloque =
    ltb 0 tam_bloque && ltb base (2 ^ 31) && ltb (bytes + tam_bloque) (2 ^ 31)

-- realizarLecturaDeBloque and the switch on its codRespuesta.
unfoldable pub con_bloque {ℓ} :
    {S : Type 0} {A : Type ℓ}
    → Entorno S
    → (file_tag : List ℕ) (num_pag id_query : ℕ)
    → (RespuestaStorage → Nodo S → Option (Nodo S × Paso A))
    → Nodo S
    → Option (Nodo S × Paso A)
unfolding realizar_lectura_de_bloque es_correcto
con_bloque ent file_tag num_pag id_query exito s = do
  (s1, r) ← realizar_lectura_de_bloque ent file_tag num_pag id_query s
  if es_correcto r.cod_respuesta then exito r s1 else some (s1, corta r)

-- What follows a stretch that did not return.
unfoldable pub luego {ℓ κ} :
    {S : Type 0} {A : Type ℓ} {B : Type κ}
    → Nodo S × Paso A
    → (A → Nodo S → Option (Nodo S × Paso B))
    → Option (Nodo S × Paso B)
luego (s, corta r) f = some (s, corta r)
luego (s, sigue a) f = f a s
