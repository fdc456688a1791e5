-- ===== src/Worker/RechazosEscritura.antt =====
-- worker/src/memoria.c: the replies that escribirMemoria returns.
