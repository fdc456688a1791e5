-- ===== src/Worker/RechazosLectura.antt =====
-- worker/src/memoria.c: the replies that leerMemoria returns.
use trabajo_practico_de_sist.Worker.Lectura.{Lectura}
