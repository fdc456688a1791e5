-- ===== src/Ejemplos.antt =====
-- Runs of the model on a small disk, with a bit array that is a function and a hash that is the
-- contents itself.
mod Disco
mod Textos
mod Trabajador
mod Corridas
mod Reemplazo
mod Casos
mod Mensajes
mod Planificacion
