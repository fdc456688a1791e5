-- ===== src/Utils/Serializacion/Pedido.antt =====
-- serializacion.c: the instruction that a Worker sends to Storage, and the reply.
use trabajo_practico_de_sist.Comun.{◌+◌, ◌*◌, ◌%◌, ◌^◌, Option}
use trabajo_practico_de_sist.Utils.Estructuras.{Instruccion, RespuestaStorage}
use trabajo_practico_de_sist.Utils.Paquetes.{
  Buffer, crear_buffer, agregar_buffer, agregar_entero, leer_buffer, leer_entero,
}
use trabajo_practico_de_sist.Utils.Paquetes.Lectura.{◌▸◌, Lectura, ◌>>=◌, devolver}
use trabajo_practico_de_sist.Utils.Serializacion.Codigos.{
  instruccion_a_entero, entero_a_instruccion, respuesta_a_entero, entero_a_respuesta, rebobinar,
}

unfoldable pub serializar_instruccion : Instruccion → Option Buffer
unfolding crear_buffer instruccion_a_entero
serializar_instruccion i =
    (agregar_entero i.query_id
        ▸ agregar_entero (instruccion_a_entero i.codigo_ins)
        ▸ agregar_entero i.file_tag_length
        ▸ agregar_buffer i.file_tag
        ▸ agregar_entero i.nombre_file_length
        ▸ agregar_buffer i.nombre_file
        ▸ agregar_entero i.tag_length
        ▸ agregar_buffer i.tag
        ▸ agregar_entero i.tamanio
        ▸ agregar_entero i.direccion_base
        ▸ agregar_entero i.contenido_length
        ▸ agregar_buffer i.contenido
        ▸ agregar_entero i.nombre_file_destino_length
        ▸ agregar_buffer i.nombre_file_destino
        ▸ agregar_entero i.tag_destino_length
        ▸ agregar_buffer i.tag_destino
        ▸ agregar_entero i.nro_bloque)
      (crear_buffer (
        (4 * 10
          + 4
          + i.nombre_file_length
          + i.tag_length
          + i.contenido_length
          + i.nombre_file_destino_length
          + i.tag_destino_length
          + i.file_tag_length)
        % 2 ^ 32))

unfoldable pub leer_instruccion : Lectura Instruccion
unfolding entero_a_instruccion
leer_instruccion = do
  query_id ← leer_entero
  codigo ← leer_entero
  n1 ← leer_entero
  file_tag ← leer_buffer n1
  n2 ← leer_entero
  nombre ← leer_buffer n2
  n3 ← leer_entero
  etiqueta ← leer_buffer n3
  tamanio ← leer_entero
  base ← leer_entero
  n4 ← leer_entero
  contenido ← leer_buffer n4
  n5 ← leer_entero
  destino ← leer_buffer n5
  n6 ← leer_entero
  tag_dst ← leer_buffer n6
  nro ← leer_entero
  devolver (record {
    query_id = query_id;
    codigo_ins = entero_a_instruccion codigo;
    file_tag_length = n1;
    file_tag = file_tag;
    nombre_file_length = n2;
    nombre_file = nombre;
    tag_length = n3;
    tag = etiqueta;
    tamanio = tamanio;
    direccion_base = base;
    contenido_length = n4;
    contenido = contenido;
    nombre_file_destino_length = n5;
    nombre_file_destino = destino;
    tag_destino_length = n6;
    tag_destino = tag_dst;
    nro_bloque = nro;
  })

unfoldable pub deserializar_instruccion : Lectura Instruccion
unfolding leer_instruccion
deserializar_instruccion b = leer_instruccion (rebobinar b)

unfoldable pub serializar_respuesta_storage : RespuestaStorage → Option Buffer
unfolding crear_buffer respuesta_a_entero
serializar_respuesta_storage r =
    (agregar_entero (respuesta_a_entero r.cod_respuesta)
        ▸ agregar_entero r.contenido_length
        ▸ agregar_buffer r.contenido
        ▸ agregar_entero r.error_length
        ▸ agregar_buffer r.error)
      (crear_buffer ((4 + 4 + r.contenido_length + r.error_length + 4) % 2 ^ 32))

unfoldable pub leer_respuesta_storage : Lectura RespuestaStorage
unfolding entero_a_respuesta
leer_respuesta_storage = do
  cod ← leer_entero
  n1 ← leer_entero
  contenido ← leer_buffer n1
  n2 ← leer_entero
  error ← leer_buffer n2
  devolver (record {
    cod_respuesta = entero_a_respuesta cod;
    contenido = contenido;
    contenido_length = n1;
    error = error;
    error_length = n2;
  })

unfoldable pub deserializar_respuesta_storage : Lectura RespuestaStorage
unfolding leer_respuesta_storage
deserializar_respuesta_storage b = leer_respuesta_storage (rebobinar b)
