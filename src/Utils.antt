-- ===== src/Utils.antt =====
-- utils/src/utils: the structures that the processes exchange, their buffers and packets.
pub mod Estructuras
pub mod Paquetes
pub mod Serializacion
pub mod Enteros
pub mod Separados
pub mod IdaYVuelta
