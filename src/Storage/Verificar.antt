-- ===== src/Storage/Verificar.antt =====
-- storage/src/operaciones.c: the checks before an operation, verificarOperacionesBase and what it
-- calls, with the texts of the errors.
use trabajo_practico_de_sist.Comun.{
  ℕ, ◌^◌, List, [], ◌++◌, Option, none, some, Bool, true, false, ◌&&◌, length, ltb, if◌then◌else◌,
  ◌>>=◌, codes, c_string,
}
use trabajo_practico_de_sist.Utils.Estructuras.{
  Instruccion, CodigoInstruccion, create, truncate, tag, commit, write_block, read_block, delete,
  CodigoRespuesta, error_inexistente, error_preexistente, error_prohibido, error_limite,
}
use trabajo_practico_de_sist.Storage.Estado.{Fs, buscar_tag, contiene}
use trabajo_practico_de_sist.Storage.Meta.{obtener_bloques_meta, verificar_estado_commited}

-- Which check failed, for its text.
pub data Falta : Type 0 where
  file_preexistente file_inexistente tag_inexistente destino_inexistente : Falta
  tag_preexistente comiteado fuera_de_limite : Falta

-- 1, or 0 after an error was sent with this code and text; the `default` returns 0 and sends none.
pub data Veredicto : Type 0 where
  seguir : Veredicto
  rechazar : CodigoRespuesta → List ℕ → Veredicto
  callar : Veredicto

-- The names that the paths are made of.
abbrev pub file_de : Instruccion → List ℕ
file_de ins = c_string ins.nombre_file

abbrev pub tag_de : Instruccion → List ℕ
tag_de ins = c_string ins.tag

abbrev pub destino_de : Instruccion → List ℕ
destino_de ins = c_string ins.nombre_file_destino

abbrev pub tag_destino_de : Instruccion → List ℕ
tag_destino_de ins = c_string ins.tag_destino

unfoldable pub operacion : CodigoInstruccion → List ℕ
operacion create = codes "ERROR AL CREAR FILE: "
operacion truncate = codes "ERROR AL TRUNCAR FILE: "
operacion tag = codes "ERROR AL TAGGEAR FILE: "
operacion commit = codes "ERROR AL COMMITEAR FILE: "
operacion write_block = codes "ERROR AL ESCRIBIR BLOQUE: "
operacion read_block = codes "ERROR AL LEER BLOQUE: "
operacion delete = codes "ERROR AL ELIMINAR TAG: "
operacion _ = []

unfoldable pub intento : CodigoInstruccion → List ℕ
intento write_block = codes "Se intento escribrir"
intento _ = codes "Se intento leer"

unfoldable pub detalle : Falta → Instruccion → List ℕ
unfolding intento
detalle file_preexistente ins = codes "File " ++ (file_de ins ++ codes " preexistente")
detalle file_inexistente ins = codes "File " ++ (file_de ins ++ codes " inexistente")
detalle tag_inexistente ins =
    codes "Tag " ++ (tag_de ins ++ (codes " de File " ++ (file_de ins ++ codes " inexistente")))
detalle destino_inexistente ins = codes "File " ++ (destino_de ins ++ codes " destino inexistente")
detalle tag_preexistente ins =
    codes "Tag "
    ++ (tag_destino_de ins ++ (codes " de File " ++ (destino_de ins ++ codes " preexistente")))
detalle comiteado ins =
    codes "Operacion prohibida sobre file:tag "
    ++ (file_de ins ++ (codes ":" ++ (tag_de ins ++ codes " que se encuentra comiteado")))
detalle fuera_de_limite ins =
    intento ins.codigo_ins
    ++ (codes " por fuera del size del file:tag " ++ (file_de ins ++ (codes ":" ++ tag_de ins)))

unfoldable pub texto : Falta → Instruccion → List ℕ
unfolding operacion detalle
texto falta ins = operacion ins.codigo_ins ++ detalle falta ins

-- The code that each check sends.
unfoldable pub codigo_de : Falta → CodigoRespuesta
codigo_de file_preexistente = error_preexistente
codigo_de tag_preexistente = error_preexistente
codigo_de comiteado = error_prohibido
codigo_de fuera_de_limite = error_limite
codigo_de _ = error_inexistente

unfoldable pub error_por : Falta → Instruccion → Veredicto
unfolding codigo_de texto
error_por falta ins = rechazar (codigo_de falta) (texto falta ins)

module _ {B : Type 0} where
  unfoldable pub verificar_file : List ℕ → Fs B → Bool
  verificar_file f s = contiene f s.dirs

  unfoldable pub verificar_tag : List ℕ → List ℕ → Fs B → Bool
  verificar_tag f t s = elim (buscar_tag f t s.tags) [ none ↦ false | some _ ↦ true ]

  -- `nro_bloque >= 0` of an int32_t pattern is that its sign bit is clear.
  unfoldable pub verificar_dentro_file_tag : Instruccion → Fs B → Option Bool
  unfolding obtener_bloques_meta
  verificar_dentro_file_tag ins s = do
    bloques ← obtener_bloques_meta (file_de ins) (tag_de ins) s
    some (ltb ins.nro_bloque (2 ^ 31) && ltb ins.nro_bloque (length bloques))

  -- The last two checks of the cases below; `none` is the abort() on a missing metadata.config.
  unfoldable pub si_no_comiteado : Instruccion → Fs B → Option Veredicto → Option Veredicto
  unfolding verificar_estado_commited error_por
  si_no_comiteado ins s resto = do
    comiteado_ya ← verificar_estado_commited (file_de ins) (tag_de ins) s
    if comiteado_ya then some (error_por comiteado ins) else resto

  unfoldable pub si_dentro : Instruccion → Fs B → Option Veredicto
  unfolding verificar_dentro_file_tag error_por
  si_dentro ins s = do
    dentro ← verificar_dentro_file_tag ins s
    if dentro then some seguir else some (error_por fuera_de_limite ins)

  -- The first two checks of all cases but CREATE.
  unfoldable pub si_existe : Instruccion → Fs B → Option Veredicto → Option Veredicto
  unfolding verificar_file verificar_tag error_por
  si_existe ins s resto =
      if verificar_file (file_de ins) s
      then (if verificar_tag (file_de ins) (tag_de ins) s
          then resto
          else some (error_por tag_inexistente ins))
      else some (error_por file_inexistente ins)

  unfoldable pub si_destino : Instruccion → Fs B → Option Veredicto
  unfolding verificar_file verificar_tag error_por
  si_destino ins s =
      if verificar_file (destino_de ins) s
      then (if verificar_tag (destino_de ins) (tag_destino_de ins) s
          then some (error_por tag_preexistente ins)
          else some seguir)
      else some (error_por destino_inexistente ins)

  unfoldable pub si_no_file : Instruccion → Fs B → Option Veredicto
  unfolding verificar_file error_por
  si_no_file ins s =
      if verificar_file (file_de ins) s then some (error_por file_preexistente ins) else some seguir

  unfoldable pub verificar_operaciones_base :
      CodigoInstruccion → Instruccion → Fs B → Option Veredicto
  unfolding si_no_comiteado si_dentro si_existe si_destino si_no_file
  verificar_operaciones_base create ins s = si_no_file ins s
  verificar_operaciones_base truncate ins s = si_existe ins s (si_no_comiteado ins s (some seguir))
  verificar_operaciones_base tag ins s = si_existe ins s (si_destino ins s)
  verificar_operaciones_base commit ins s = si_existe ins s (some seguir)
  verificar_operaciones_base write_block ins s =
      si_existe ins s (si_no_comiteado ins s (si_dentro ins s))
  verificar_operaciones_base read_block ins s = si_existe ins s (si_dentro ins s)
  verificar_operaciones_base delete ins s = si_existe ins s (some seguir)
  verificar_operaciones_base _ ins s = some callar
