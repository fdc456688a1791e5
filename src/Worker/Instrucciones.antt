-- ===== src/Worker/Instrucciones.antt =====
-- worker/src/ejecucion.c: a line of a query's file (leerLineaPorIndice) and the instruction that it
-- is (obtenerCodigoOperacion, interpretarInstruccion). codigoAString of memoria.c.
use trabajo_practico_de_sist.Comun.{
  ℕ, ◌-◌, List, [], ◌∷◌, ◌++◌, Option, none, some, true, false, ◌||◌, ◌==◌, if◌then◌else◌, ◌>>=◌,
  get_elem?, codes, eq_bytes,
}
use trabajo_practico_de_sist.Utils.Estructuras.{
  Instruccion, CodigoInstruccion, create, truncate, tag, commit, flush, delete, end, read, write,
  write_block, read_block, otro, crear_instruccion, menos_uno,
}
use trabajo_practico_de_sist.Utils.Enteros.{atoi}

unfoldable pub obtener_codigo_operacion : List ℕ → CodigoInstruccion
obtener_codigo_operacion texto =
    if eq_bytes texto (codes "CREATE")
    then create
    else if eq_bytes texto (codes "TRUNCATE")
    then truncate
    else if eq_bytes texto (codes "WRITE")
    then write
    else if eq_bytes texto (codes "READ")
    then read
    else if eq_bytes texto (codes "TAG")
    then tag
    else if eq_bytes texto (codes "COMMIT")
    then commit
    else if eq_bytes texto (codes "FLUSH")
    then flush
    else if eq_bytes texto (codes "DELETE")
    then delete
    else if eq_bytes texto (codes "END")
    then end
    else otro menos_uno

-- `none` is NULL.
unfoldable pub codigo_a_string : CodigoInstruccion → Option (List ℕ)
codigo_a_string create = some (codes "CREATE")
codigo_a_string truncate = some (codes "TRUNCATE")
codigo_a_string write = some (codes "WRITE")
codigo_a_string read = some (codes "READ")
codigo_a_string tag = some (codes "TAG")
codigo_a_string commit = some (codes "COMMIT")
codigo_a_string flush = some (codes "FLUSH")
codigo_a_string delete = some (codes "DELETE")
codigo_a_string end = some (codes "END")
codigo_a_string write_block = none
codigo_a_string read_block = none
codigo_a_string (otro n) = none

-- The words of a line after its first, the second one split at ':'.
pub record Parametros : Type 0 where
  pub file_tag : List ℕ
  pub file : List ℕ
  pub etiqueta : List ℕ

-- crearInstruccion with what its calls share; the text "" is passed with the length 1, its NUL.
unfoldable pub instruccion_sobre :
    ℕ
    → CodigoInstruccion
    → Parametros
    → (tamanio base : ℕ) (contenido destino tag_destino : List ℕ) → Instruccion
instruccion_sobre query_id codigo p tamanio base contenido destino tag_destino =
    crear_instruccion query_id codigo p.file_tag p.file p.etiqueta tamanio base contenido destino
      tag_destino 0

-- The second word, which every instruction but END splits.
unfoldable pub leer_parametros : (List ℕ → ℕ → List (List ℕ)) → List (List ℕ) → Option Parametros
leer_parametros partir partes = do
  file_tag ← get_elem? partes 1
  file ← get_elem? (partir file_tag 58) 0
  etiqueta ← get_elem? (partir file_tag 58) 1
  some (record { file_tag = file_tag; file = file; etiqueta = etiqueta })

-- The switch of interpretarInstruccion; a word that is missing is a NULL.
unfoldable pub segun_codigo :
    (List ℕ → ℕ → List (List ℕ)) → CodigoInstruccion → List (List ℕ) → ℕ → Option Instruccion
unfolding leer_parametros instruccion_sobre
segun_codigo partir create partes id = do
  p ← leer_parametros partir partes
  some (instruccion_sobre id create p 0 0 (0 ∷ []) [] [])
segun_codigo partir truncate partes id = do
  p ← leer_parametros partir partes
  tamanio ← get_elem? partes 2
  some (instruccion_sobre id truncate p (atoi tamanio) 0 (0 ∷ []) [] [])
segun_codigo partir write partes id = do
  p ← leer_parametros partir partes
  base ← get_elem? partes 2
  contenido ← get_elem? partes 3
  some (instruccion_sobre id write p 0 (atoi base) contenido [] [])
segun_codigo partir read partes id = do
  p ← leer_parametros partir partes
  base ← get_elem? partes 2
  tamanio ← get_elem? partes 3
  some (instruccion_sobre id read p (atoi tamanio) (atoi base) (0 ∷ []) [] [])
segun_codigo partir tag partes id = do
  p ← leer_parametros partir partes
  destino ← get_elem? partes 2
  file ← get_elem? (partir destino 58) 0
  etiqueta ← get_elem? (partir destino 58) 1
  some (instruccion_sobre id tag p 0 0 (0 ∷ []) file etiqueta)
segun_codigo partir commit partes id = do
  p ← leer_parametros partir partes
  some (instruccion_sobre id commit p 0 0 (0 ∷ []) [] [])
segun_codigo partir flush partes id = do
  p ← leer_parametros partir partes
  some (instruccion_sobre id flush p 0 0 (0 ∷ []) [] [])
segun_codigo partir delete partes id = do
  p ← leer_parametros partir partes
  some (instruccion_sobre id delete p 0 0 (0 ∷ []) [] [])
segun_codigo partir end partes id = some (crear_instruccion id end [] [] [] 0 0 (0 ∷ []) [] [] 0)
segun_codigo partir _ partes id = none

-- 32 is the code of ' '. `none` is exit(1) on a word that is no instruction, or a NULL.
unfoldable pub interpretar_instruccion :
    (List ℕ → ℕ → List (List ℕ)) → List ℕ → ℕ → Option Instruccion
unfolding obtener_codigo_operacion segun_codigo
interpretar_instruccion partir linea query_id = do
  palabra ← get_elem? (partir linea 32) 0
  segun_codigo partir (obtener_codigo_operacion palabra) (partir linea 32) query_id

-- fgets into 256 bytes, again and again: at most 255 bytes each time, up to a newline and with it.
-- `acumulado` holds the bytes of the piece that is being read, `quedan` more fit in it.
unfoldable pub trozos : (quedan : ℕ) (acumulado : List ℕ) → List ℕ → List (List ℕ)
trozos quedan [] [] = []
trozos quedan (b ∷ bs) [] = (b ∷ bs) ∷ []
trozos quedan acumulado (c ∷ cs) = elim (c == 10 || quedan == 1) [
  | true ↦ (acumulado ++ c ∷ []) ∷ trozos 255 [] cs
  | false ↦ trozos (quedan - 1) (acumulado ++ c ∷ []) cs
]

-- The text of a piece, up to its newline or its NUL.
unfoldable pub hasta_salto : List ℕ → List ℕ
hasta_salto [] = []
hasta_salto (c ∷ cs) = if c == 10 || c == 0 then [] else c ∷ hasta_salto cs

unfoldable pub leer_linea_por_indice : List ℕ → ℕ → Option (List ℕ)
unfolding trozos hasta_salto
leer_linea_por_indice archivo linea = do
  trozo ← get_elem? (trozos 255 [] archivo) linea
  some (hasta_salto trozo)
