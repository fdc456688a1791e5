-- ===== src/Utils/Serializacion.antt =====
-- utils/src/utils/serializacion.c. `none` stands for an access outside the allocation of a buffer.
-- The sizes are computed as int32_t, so they wrap.
pub mod Codigos
pub mod Consulta
pub mod Pedido
pub mod Formato
pub mod RoundTrip
pub mod Envio
