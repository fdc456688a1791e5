-- ===== src/Ejemplos/Mensajes.antt =====
-- The theorems on messages at work on concrete ones.
use trabajo_practico_de_sist.Comun.{◌≡◌, refl, [], ◌∷◌, ◌++◌, some, arith, All}
use trabajo_practico_de_sist.Utils.Estructuras.{
  Query, RespuestaQuery, RespuestaStorage, Instruccion, CodigoInstruccion, creacion_query,
  fin_query, correcto,
}
use trabajo_practico_de_sist.Utils.Paquetes.{Buffer, Paquete, enviar_paquete, recibir_paquete}
use trabajo_practico_de_sist.Utils.Serializacion.Consulta.{
  serializar_query, deserializar_query, serializar_respuesta_query, deserializar_respuesta_query,
}
use trabajo_practico_de_sist.Utils.Serializacion.Pedido.{
  serializar_instruccion, deserializar_instruccion, serializar_respuesta_storage,
  deserializar_respuesta_storage,
}
use trabajo_practico_de_sist.Utils.Serializacion.Formato.{Contiene}
use trabajo_practico_de_sist.Utils.Serializacion.RoundTrip.{
  IsQuery, IsRespuestaQuery, IsRespuestaStorage, IsInstruccion, deserializar-serializar_query,
  deserializar-serializar_respuesta_query, deserializar-serializar_respuesta_storage,
  deserializar-serializar_instruccion,
}
use trabajo_practico_de_sist.Utils.Serializacion.Envio.{
  IsPaquete, recibido, enviar_todos, recibir_todos, recibir_todos-enviar_todos,
  recibir-enviar_instruccion,
}

abbrev consulta : Query
consulta = record {
  id = 3;
  archivo_query = 113 ∷ 0 ∷ [];
  archivo_query_length = 2;
  prioridad = 4;
  pc = 7;
  cod_accion = creacion_query;
}

consulta-IsQuery : IsQuery consulta
consulta-IsQuery = record {
  id = omega arith;
  prioridad = omega arith;
  pc = omega arith;
  accion = tt;
  largo = (refl, omega arith);
  total = omega arith;
}

deserializar-serializar_query_example :
    (b : Buffer) × (serializar_query consulta ≡ some b) × Contiene deserializar_query b consulta
deserializar-serializar_query_example = deserializar-serializar_query consulta consulta-IsQuery

abbrev respuesta_consulta : RespuestaQuery
respuesta_consulta = record {
  cod_respuesta = fin_query;
  pc = 9;
  mensaje = 111 ∷ 107 ∷ 0 ∷ [];
  mensaje_length = 3;
  nombre_file = 97 ∷ 0 ∷ [];
  nombre_file_length = 2;
  tag = 116 ∷ 0 ∷ [];
  tag_length = 2;
}

respuesta_consulta-Is : IsRespuestaQuery respuesta_consulta
respuesta_consulta-Is = record {
  accion = tt;
  pc = omega arith;
  mensaje = (refl, omega arith);
  nombre_file = (refl, omega arith);
  tag = (refl, omega arith);
  total = omega arith;
}

deserializar-serializar_respuesta_query_example :
    (b : Buffer) × (serializar_respuesta_query respuesta_consulta ≡ some b)
    × Contiene deserializar_respuesta_query b respuesta_consulta
deserializar-serializar_respuesta_query_example =
    deserializar-serializar_respuesta_query respuesta_consulta respuesta_consulta-Is

abbrev respuesta : RespuestaStorage
respuesta = record {
  cod_respuesta = correcto;
  contenido = 5 ∷ 6 ∷ [];
  contenido_length = 2;
  error = 0 ∷ [];
  error_length = 1;
}

respuesta-Is : IsRespuestaStorage respuesta
respuesta-Is = record {
  codigo = tt;
  contenido = (refl, omega arith);
  error = (refl, omega arith);
  total = omega arith;
}

deserializar-serializar_respuesta_storage_example :
    (b : Buffer) × (serializar_respuesta_storage respuesta ≡ some b)
    × Contiene deserializar_respuesta_storage b respuesta
deserializar-serializar_respuesta_storage_example =
    deserializar-serializar_respuesta_storage respuesta respuesta-Is

abbrev instruccion : Instruccion
instruccion = record {
  query_id = 1;
  codigo_ins = CodigoInstruccion.write_block;
  file_tag_length = 4;
  file_tag = 97 ∷ 58 ∷ 116 ∷ 0 ∷ [];
  nombre_file_length = 2;
  nombre_file = 97 ∷ 0 ∷ [];
  tag_length = 2;
  tag = 116 ∷ 0 ∷ [];
  tamanio = 2;
  direccion_base = 0;
  contenido_length = 2;
  contenido = 7 ∷ 8 ∷ [];
  nombre_file_destino_length = 1;
  nombre_file_destino = 0 ∷ [];
  tag_destino_length = 1;
  tag_destino = 0 ∷ [];
  nro_bloque = 0;
}

instruccion-Is : IsInstruccion instruccion
instruccion-Is = record {
  query_id = omega arith;
  codigo = tt;
  file_tag = (refl, omega arith);
  nombre_file = (refl, omega arith);
  tag = (refl, omega arith);
  tamanio = omega arith;
  direccion_base = omega arith;
  contenido = (refl, omega arith);
  nombre_file_destino = (refl, omega arith);
  tag_destino = (refl, omega arith);
  nro_bloque = omega arith;
  total = omega arith;
}

deserializar-serializar_instruccion_example :
    (b : Buffer) × (serializar_instruccion instruccion ≡ some b)
    × Contiene deserializar_instruccion b instruccion
deserializar-serializar_instruccion_example =
    deserializar-serializar_instruccion instruccion instruccion-Is

recibir-enviar_instruccion_example :
    (b : Buffer) × (p : Paquete) × (b' : Buffer) × (serializar_instruccion instruccion ≡ some b)
    × (recibir_paquete (enviar_paquete 2 b [] ++ 9 ∷ []) ≡ some (p, 9 ∷ []))
    × (p.codigo_operacion ≡ 2)
    × (deserializar_instruccion p.buffer ≡ some (instruccion, b'))
recibir-enviar_instruccion_example =
    recibir-enviar_instruccion instruccion 2 (9 ∷ []) instruccion-Is (omega arith)

abbrev uno : Paquete
uno = record { codigo_operacion = 1; buffer = record { size = 2; offset = 2; stream = 7 ∷ 8 ∷ [] } }

abbrev otro_paquete : Paquete
otro_paquete = record {
  codigo_operacion = 5;
  buffer = record { size = 1; offset = 1; stream = 9 ∷ [] };
}

paquetes : All IsPaquete (uno ∷ otro_paquete ∷ [])
paquetes = (
  record {
    codigo = omega arith;
    lleno = record {
      hasta_el_final = refl;
      completo = refl;
      algo = omega arith;
      cabe = omega arith;
    };
  },
  (
    record {
      codigo = omega arith;
      lleno = record {
        hasta_el_final = refl;
        completo = refl;
        algo = omega arith;
        cabe = omega arith;
      };
    },
    tt,
  ),
)

recibir_todos-enviar_todos_example :
    recibir_todos 2 (enviar_todos (uno ∷ otro_paquete ∷ []) [])
    ≡ some (recibido uno ∷ recibido otro_paquete ∷ [], [])
recibir_todos-enviar_todos_example = recibir_todos-enviar_todos (uno ∷ otro_paquete ∷ []) paquetes
