-- ===== src/Utils/Serializacion/RoundTrip.antt =====
-- What a process serialises, another deserialises: the buffer is filled to its last byte, no
-- access leaves it, and every field comes back.
use trabajo_practico_de_sist.Comun.{◌+◌, ◌^◌, ◌<◌, ◌≡◌, some, length-append, arith}
use trabajo_practico_de_sist.Utils.Estructuras.{
  Query, RespuestaQuery, Instruccion, RespuestaStorage,
}
use trabajo_practico_de_sist.Utils.Paquetes.{Buffer}
use trabajo_practico_de_sist.Utils.Paquetes.Laws.{
  Escribe-agregar_buffer, Escribe-agregar_entero, Escribe-▸, Lee-leer_buffer, Lee-leer_entero,
  Lee->>=, Lee-ultimo, length-entero,
}
use trabajo_practico_de_sist.Utils.Serializacion.Codigos.{accion_a_entero}
use trabajo_practico_de_sist.Utils.Serializacion.Consulta.{
  serializar_query, deserializar_query, leer_query, serializar_respuesta_query,
  deserializar_respuesta_query, leer_respuesta_query,
}
use trabajo_practico_de_sist.Utils.Serializacion.Pedido.{
  serializar_instruccion, deserializar_instruccion, leer_instruccion, serializar_respuesta_storage,
  deserializar_respuesta_storage, leer_respuesta_storage,
}
use trabajo_practico_de_sist.Utils.Serializacion.Formato.{
  IsAccion, IsCodigoInstruccion, IsCodigoRespuesta, IsLargo, Contiene, viaje, Escribe-texto,
  Lee-texto, accion_lem, instruccion_lem, respuesta_lem,
}

pub record IsQuery (q : Query) : Type 0 where
  pub id : q.id < 2 ^ 32
  pub prioridad : q.prioridad < 2 ^ 32
  pub pc : q.pc < 2 ^ 32
  pub accion : IsAccion q.cod_accion
  pub largo : IsLargo q.archivo_query_length q.archivo_query
  pub total : 20 + q.archivo_query_length < 2 ^ 31

-- Any query whose ints are int32_t patterns, whose code is one, and whose text has the length of its
-- field, fits and fills its buffer, and reading the buffer from its start gives the query back.
pub deserializar-serializar_query :
    (q : Query)
    → IsQuery q
    → (b : Buffer) × (serializar_query q ≡ some b) × Contiene deserializar_query b q
unfolding serializar_query deserializar_query
deserializar-serializar_query q h =
    viaje _ leer_query _ _ q
      (Escribe-▸ (Escribe-agregar_entero q.id) (
        Escribe-▸ (Escribe-agregar_entero q.prioridad) (
          Escribe-▸ (Escribe-agregar_entero q.pc) (
            Escribe-▸ (Escribe-agregar_entero (accion_a_entero q.cod_accion)) (
              Escribe-▸ (Escribe-agregar_entero q.archivo_query_length)
                (Escribe-agregar_buffer q.archivo_query))))))
      (Lee->>= _ _ (Lee-leer_entero q.id h.id) (
        Lee->>= _ _ (Lee-leer_entero q.prioridad h.prioridad) (
          Lee->>= _ _ (Lee-leer_entero q.pc h.pc) (
            Lee->>= _ _ (Lee-leer_entero _ (accion_lem q.cod_accion h.accion).0) (
              Lee->>= _ _ (Lee-leer_entero q.archivo_query_length h.largo.1) (
                Lee-ultimo _ _ (Lee-leer_buffer q.archivo_query_length q.archivo_query h.largo.0)
                  (rw ((accion_lem q.cod_accion h.accion).1))))))))
      (simp (length-append, length-entero) (omega arith)) (omega arith)

pub record IsRespuestaQuery (r : RespuestaQuery) : Type 0 where
  pub accion : IsAccion r.cod_respuesta
  pub pc : r.pc < 2 ^ 32
  pub mensaje : IsLargo r.mensaje_length r.mensaje
  pub nombre_file : IsLargo r.nombre_file_length r.nombre_file
  pub tag : IsLargo r.tag_length r.tag
  pub total : 20 + r.mensaje_length + r.nombre_file_length + r.tag_length < 2 ^ 31

-- An answer to a query whose ints are int32_t patterns and whose texts have the lengths of their
-- fields fills its buffer, and reading the buffer from its start gives the answer back.
pub deserializar-serializar_respuesta_query :
    (r : RespuestaQuery)
    → IsRespuestaQuery r
    → (b : Buffer) × (serializar_respuesta_query r ≡ some b)
      × Contiene deserializar_respuesta_query b r
unfolding serializar_respuesta_query deserializar_respuesta_query
deserializar-serializar_respuesta_query r h =
    let (ha, ea) = accion_lem r.cod_respuesta h.accion in
    viaje _ leer_respuesta_query _ _ r
      (Escribe-▸ (Escribe-agregar_entero _) (
        Escribe-▸ (Escribe-agregar_entero r.pc) (
          Escribe-texto r.mensaje_length r.mensaje (
            Escribe-texto r.nombre_file_length r.nombre_file
              (Escribe-▸ (Escribe-agregar_entero r.tag_length) (Escribe-agregar_buffer r.tag))))))
      (Lee->>= _ _ (Lee-leer_entero _ ha) (
        Lee->>= _ _ (Lee-leer_entero r.pc h.pc) (
          Lee-texto _ h.mensaje (
            Lee-texto _ h.nombre_file (
              Lee->>= _ _ (Lee-leer_entero _ h.tag.1)
                (Lee-ultimo _ _ (Lee-leer_buffer _ r.tag h.tag.0) (rw ea)))))))
      (simp (length-append, length-entero) (omega arith)) (omega arith)

pub record IsRespuestaStorage (r : RespuestaStorage) : Type 0 where
  pub codigo : IsCodigoRespuesta r.cod_respuesta
  pub contenido : IsLargo r.contenido_length r.contenido
  pub error : IsLargo r.error_length r.error
  pub total : 12 + r.contenido_length + r.error_length < 2 ^ 31

-- A reply of Storage whose code is one and whose contents and error have the lengths of their fields
-- fills its buffer, and reading the buffer from its start gives the reply back.
pub deserializar-serializar_respuesta_storage :
    (r : RespuestaStorage)
    → IsRespuestaStorage r
    → (b : Buffer) × (serializar_respuesta_storage r ≡ some b)
      × Contiene deserializar_respuesta_storage b r
unfolding serializar_respuesta_storage deserializar_respuesta_storage
deserializar-serializar_respuesta_storage r h =
    let (ha, ea) = respuesta_lem r.cod_respuesta h.codigo in
    viaje _ leer_respuesta_storage _ _ r
      (Escribe-▸ (Escribe-agregar_entero _) (
        Escribe-texto r.contenido_length r.contenido
          (Escribe-▸ (Escribe-agregar_entero r.error_length) (Escribe-agregar_buffer r.error))))
      (Lee->>= _ _ (Lee-leer_entero _ ha) (
        Lee-texto _ h.contenido (
          Lee->>= _ _ (Lee-leer_entero _ h.error.1)
            (Lee-ultimo _ _ (Lee-leer_buffer _ r.error h.error.0) (rw ea)))))
      (simp (length-append, length-entero) (omega arith)) (omega arith)

pub record IsInstruccion (i : Instruccion) : Type 0 where
  pub query_id : i.query_id < 2 ^ 32
  pub codigo : IsCodigoInstruccion i.codigo_ins
  pub file_tag : IsLargo i.file_tag_length i.file_tag
  pub nombre_file : IsLargo i.nombre_file_length i.nombre_file
  pub tag : IsLargo i.tag_length i.tag
  pub tamanio : i.tamanio < 2 ^ 32
  pub direccion_base : i.direccion_base < 2 ^ 32
  pub contenido : IsLargo i.contenido_length i.contenido
  pub nombre_file_destino : IsLargo i.nombre_file_destino_length i.nombre_file_destino
  pub tag_destino : IsLargo i.tag_destino_length i.tag_destino
  pub nro_bloque : i.nro_bloque < 2 ^ 32
  pub total :
      44 + i.file_tag_length + i.nombre_file_length + i.tag_length + i.contenido_length
        + i.nombre_file_destino_length + i.tag_destino_length
      < 2 ^ 31

-- An instruction whose ints are int32_t patterns and whose six texts have the lengths of their fields
-- fills its buffer, and reading the buffer from its start gives the instruction back.
pub deserializar-serializar_instruccion :
    (i : Instruccion)
    → IsInstruccion i
    → (b : Buffer) × (serializar_instruccion i ≡ some b) × Contiene deserializar_instruccion b i
unfolding serializar_instruccion deserializar_instruccion
deserializar-serializar_instruccion i h =
    let (hc, ec) = instruccion_lem i.codigo_ins h.codigo in
    viaje _ leer_instruccion _ _ i
      (Escribe-▸ (Escribe-agregar_entero i.query_id) (
        Escribe-▸ (Escribe-agregar_entero _) (
          Escribe-texto i.file_tag_length i.file_tag (
            Escribe-texto i.nombre_file_length i.nombre_file (
              Escribe-texto i.tag_length i.tag (
                Escribe-▸ (Escribe-agregar_entero i.tamanio) (
                  Escribe-▸ (Escribe-agregar_entero i.direccion_base) (
                    Escribe-texto i.contenido_length i.contenido (
                      Escribe-texto i.nombre_file_destino_length i.nombre_file_destino (
                        Escribe-texto i.tag_destino_length i.tag_destino
                          (Escribe-agregar_entero i.nro_bloque)))))))))))
      (Lee->>= _ _ (Lee-leer_entero _ h.query_id) (
        Lee->>= _ _ (Lee-leer_entero _ hc) (
          Lee-texto _ h.file_tag (
            Lee-texto _ h.nombre_file (
              Lee-texto _ h.tag (
                Lee->>= _ _ (Lee-leer_entero _ h.tamanio) (
                  Lee->>= _ _ (Lee-leer_entero _ h.direccion_base) (
                    Lee-texto _ h.contenido (
                      Lee-texto _ h.nombre_file_destino (
                        Lee-texto _ h.tag_destino
                          (Lee-ultimo _ _ (Lee-leer_entero _ h.nro_bloque) (rw ec))))))))))))
      (simp (length-append, length-entero) (omega arith)) (omega arith)
