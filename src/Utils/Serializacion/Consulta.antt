-- ===== src/Utils/Serializacion/Consulta.antt =====
-- serializacion.c: the messages between Master, Query Control and Worker.
use trabajo_practico_de_sist.Comun.{ℕ, ◌+◌, ◌*◌, ◌%◌, ◌^◌, Option}
use trabajo_practico_de_sist.Utils.Estructuras.{Query, RespuestaQuery}
use trabajo_practico_de_sist.Utils.Paquetes.{
  Buffer, crear_buffer, agregar_buffer, agregar_entero, leer_buffer, leer_entero,
}
use trabajo_practico_de_sist.Utils.Paquetes.Lectura.{◌▸◌, Lectura, ◌>>=◌, devolver}
use trabajo_practico_de_sist.Utils.Serializacion.Codigos.{
  accion_a_entero, entero_a_accion, rebobinar,
}

unfoldable pub serializar_query : Query → Option Buffer
unfolding crear_buffer accion_a_entero
serializar_query q =
    (agregar_entero q.id
        ▸ agregar_entero q.prioridad
        ▸ agregar_entero q.pc
        ▸ agregar_entero (accion_a_entero q.cod_accion)
        ▸ agregar_entero q.archivo_query_length
        ▸ agregar_buffer q.archivo_query)
      (crear_buffer ((4 * 5 + q.archivo_query_length) % 2 ^ 32))

unfoldable pub leer_query : Lectura Query
unfolding entero_a_accion
leer_query = do
  id ← leer_entero
  prioridad ← leer_entero
  pc ← leer_entero
  cod ← leer_entero
  largo ← leer_entero
  archivo ← leer_buffer largo
  devolver (record {
    id = id;
    archivo_query = archivo;
    archivo_query_length = largo;
    prioridad = prioridad;
    pc = pc;
    cod_accion = entero_a_accion cod;
  })

unfoldable pub deserializar_query : Lectura Query
unfolding leer_query
deserializar_query b = leer_query (rebobinar b)

-- serializarSizeBlock and serializarIdWorker have the same body.
unfoldable pub serializar_size_block : ℕ → Option Buffer
unfolding crear_buffer
serializar_size_block size_block = agregar_entero size_block (crear_buffer 4)

unfoldable pub deserializar_size_block : Lectura ℕ
deserializar_size_block b = leer_entero (rebobinar b)

unfoldable pub serializar_id_worker : ℕ → Option Buffer
unfolding crear_buffer
serializar_id_worker id_worker = agregar_entero id_worker (crear_buffer 4)

unfoldable pub deserializar_id_worker : Lectura ℕ
deserializar_id_worker b = leer_entero (rebobinar b)

unfoldable pub serializar_respuesta_query : RespuestaQuery → Option Buffer
unfolding crear_buffer accion_a_entero
serializar_respuesta_query r =
    (agregar_entero (accion_a_entero r.cod_respuesta)
        ▸ agregar_entero r.pc
        ▸ agregar_entero r.mensaje_length
        ▸ agregar_buffer r.mensaje
        ▸ agregar_entero r.nombre_file_length
        ▸ agregar_buffer r.nombre_file
        ▸ agregar_entero r.tag_length
        ▸ agregar_buffer r.tag)
      (crear_buffer ((4 * 4 + 4 + r.mensaje_length + r.nombre_file_length + r.tag_length) % 2 ^ 32))

unfoldable pub leer_respuesta_query : Lectura RespuestaQuery
unfolding entero_a_accion
leer_respuesta_query = do
  cod ← leer_entero
  pc ← leer_entero
  n1 ← leer_entero
  mensaje ← leer_buffer n1
  n2 ← leer_entero
  nombre ← leer_buffer n2
  n3 ← leer_entero
  etiqueta ← leer_buffer n3
  devolver (record {
    cod_respuesta = entero_a_accion cod;
    pc = pc;
    mensaje = mensaje;
    mensaje_length = n1;
    nombre_file = nombre;
    nombre_file_length = n2;
    tag = etiqueta;
    tag_length = n3;
  })

unfoldable pub deserializar_respuesta_query : Lectura RespuestaQuery
unfolding leer_respuesta_query
deserializar_respuesta_query b = leer_respuesta_query (rebobinar b)
