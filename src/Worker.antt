-- ===== src/Worker.antt =====
-- The Worker: worker/src/memoria.c, worker/src/ejecucion.c and the functions of worker/src/worker.c
-- that these call.
pub mod Estado
pub mod Marcos
pub mod Victimas
pub mod Paginas
pub mod Bloques
pub mod Escritura
pub mod Lectura
pub mod Persistencia
pub mod Instrucciones
pub mod Ejecucion
pub mod Interprete
pub mod Rangos
pub mod Escrito
pub mod Reloj
pub mod Victima
pub mod Cierres
pub mod Desenlace
pub mod Lineas
pub mod Aciertos
pub mod Relectura
pub mod Eleccion
pub mod Libres
pub mod MarcoLibre
pub mod MarcoTomado
pub mod Marcado
pub mod Rechazos
pub mod RechazosEscritura
pub mod RechazosLectura
pub mod Sintaxis
pub mod Numero
pub mod Perdida
pub mod Devuelve
pub mod Desalojo
pub mod Volcado
pub mod IdaYVuelta
