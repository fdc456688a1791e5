-- ===== src/Storage/Correccion.antt =====
-- What the operations of operaciones.c do to the file:tags as their users see them.
pub mod Vista
pub mod Truncar
pub mod Crear
pub mod Copiar
pub mod Borrar
pub mod Leer
pub mod Comitear
pub mod Aislamiento
pub mod Escribir
pub mod Escritura
pub mod Servicio
pub mod Arranque
