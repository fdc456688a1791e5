-- ===== src/Master.antt =====
-- master/src/planificacion.c: the scheduler of queries.
pub mod Estado
pub mod Consultas
pub mod Planificador
pub mod Conservacion
pub mod Hilos
pub mod Rondas
