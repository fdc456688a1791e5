-- ===== src/Storage.antt =====
-- storage/src: the file system behind the Workers' requests.
pub mod Estado
pub mod Enlaces
pub mod Bloques
pub mod Meta
pub mod Verificar
pub mod Operaciones
pub mod Servidor
pub mod Inicio
pub mod Invariante
pub mod Correccion
