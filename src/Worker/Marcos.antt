-- ===== src/Worker/Marcos.antt =====
-- worker/src/memoria.c: the bytes of a frame (escribirContenidoEnMarco, leerContenidoParaMaster,
-- leerContenidoParaStorage) and the two requests that memoria.c makes of Storage.
use trabajo_practico_de_sist.Comun.{
  ℕ, ◌+◌, ◌-◌, ◌*◌, List, [], ◌∷◌, ◌++◌, Option, none, some, ltb, leb, if◌then◌else◌, ◌>>=◌, length,
  take, drop, get_elem?,
}
use trabajo_practico_de_sist.Utils.Estructuras.{
  Instruccion, crear_instruccion, RespuestaStorage, write_block, read_block,
}
use trabajo_practico_de_sist.Worker.Estado.{Memoria, Nodo, Entorno}

-- memcpy from the position `pos` of a buffer: past its end is undefined.
unfoldable pub leer_rango : List ℕ → ℕ → ℕ → Option (List ℕ)
leer_rango buffer pos n =
    if leb (pos + n) (length buffer) then some (take n (drop pos buffer)) else none

-- memcpy onto the position `pos` of a buffer: past its end is undefined.
unfoldable pub poner_rango : List ℕ → ℕ → List ℕ → Option (List ℕ)
poner_rango buffer pos bytes =
    if leb (pos + length bytes) (length buffer)
    then some (take pos buffer ++ (bytes ++ drop (pos + length bytes) buffer))
    else none

-- The bytes of a frame that are left from `desplazamiento` on, at most `pedidos`.
unfoldable pub en_marco : (tam_bloque pedidos desplazamiento : ℕ) → ℕ
en_marco tam_bloque pedidos desplazamiento =
    if ltb pedidos (tam_bloque - desplazamiento) then pedidos else tam_bloque - desplazamiento

-- *contenido and *contenidoLength after it, and the memory.
unfoldable pub escribir_contenido_en_marco :
    (contenido : List ℕ) (contenido_length marco desplazamiento : ℕ)
    → Memoria
    → Option (List ℕ × ℕ × Memoria)
unfolding en_marco leer_rango poner_rango
escribir_contenido_en_marco contenido contenido_length marco desplazamiento m =
    let n = en_marco m.tam_bloque contenido_length desplazamiento in
    do
      bytes ← leer_rango contenido 0 n
      interna' ← poner_rango m.interna (marco * m.tam_bloque + desplazamiento) bytes
      some (drop n contenido, contenido_length - n, record m { interna = interna' })

-- *bytesALeer after it, and the bytes read with their NUL.
unfoldable pub leer_contenido_para_master :
    (bytes_a_leer marco desplazamiento : ℕ) → Memoria → Option (ℕ × List ℕ)
unfolding en_marco leer_rango
leer_contenido_para_master bytes_a_leer marco desplazamiento m =
    let n = en_marco m.tam_bloque bytes_a_leer desplazamiento in
    do
      leido ← leer_rango m.interna (marco * m.tam_bloque + desplazamiento) n
      some (bytes_a_leer - n, leido ++ 0 ∷ [])

-- As leer_contenido_para_master, without the NUL.
unfoldable pub leer_contenido_para_storage :
    (bytes_a_leer marco desplazamiento : ℕ) → Memoria → Option (ℕ × List ℕ)
unfolding en_marco leer_rango
leer_contenido_para_storage bytes_a_leer marco desplazamiento m =
    let n = en_marco m.tam_bloque bytes_a_leer desplazamiento in
    do
      leido ← leer_rango m.interna (marco * m.tam_bloque + desplazamiento) n
      some (bytes_a_leer - n, leido)

module _ {S : Type 0} (ent : Entorno S) where
  -- enviarInstruccion and recibirRespuestaStorage.
  unfoldable pub pedir_a_storage : Instruccion → Nodo S → Option (Nodo S × RespuestaStorage)
  pedir_a_storage ins s = do (a, r) ← ent.pedir ins s.almacen; some (record s { almacen = a }, r)

  -- 58 is the code of ':'. `num_pag` is the bit pattern of an int32_t.
  unfoldable pub realizar_escritura_de_bloque :
      (file_tag : List ℕ) (num_pag marco id_query : ℕ) → Nodo S → Option (Nodo S × RespuestaStorage)
  unfolding pedir_a_storage leer_contenido_para_storage
  realizar_escritura_de_bloque file_tag num_pag marco id_query s = do
    file ← get_elem? (ent.partir file_tag 58) 0
    etiqueta ← get_elem? (ent.partir file_tag 58) 1
    (resto, contenido) ← leer_contenido_para_storage s.memoria.tam_bloque marco 0 s.memoria
    pedir_a_storage
        (crear_instruccion id_query write_block file_tag file etiqueta 0 0 contenido [] [] num_pag)
        s

  -- crearInstruccion is called with the empty text and the length 0.
  unfoldable pub realizar_lectura_de_bloque :
      (file_tag : List ℕ) (num_pag id_query : ℕ) → Nodo S → Option (Nodo S × RespuestaStorage)
  unfolding pedir_a_storage
  realizar_lectura_de_bloque file_tag num_pag id_query s = do
    file ← get_elem? (ent.partir file_tag 58) 0
    etiqueta ← get_elem? (ent.partir file_tag 58) 1
    pedir_a_storage
        (crear_instruccion id_query read_block file_tag file etiqueta 0 0 [] [] [] num_pag) s
