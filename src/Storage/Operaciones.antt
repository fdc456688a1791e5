-- ===== src/Storage/Operaciones.antt =====
-- storage/src/operaciones.c: the operation that each request asks for.
pub mod Base
pub mod Archivos
pub mod Commit
pub mod Contenido
