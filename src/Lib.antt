-- ===== src/Lib.antt =====
-- A simulator of a distributed operating system (tp-2025-2c-main): queries are sent by Query Control
-- to the Master, which schedules them on Workers; a Worker interprets them and asks Storage, a file
-- system of files with tags, for blocks. This is a model of the messages that all the processes
-- share, of Storage, of the Worker, and of the rounds of the Master's threads.
--
-- The parts of the model:
-- - Utils/Estructuras: utils/src/utils/estructuras.h and estructuras.c (t_query, t_instruccion,
--   t_respuesta_storage and the rest, and the functions that make them). An int32_t is its bit
--   pattern, below 2 ^ 32; a char* is the list of its bytes with its NUL.
-- - Utils/Paquetes: utils/src/utils/paquetes.c. A t_buffer is its size, offset and the bytes written;
--   a write or read past its size is `none`. A socket is the list of the bytes in flight,
--   and a peer that sends no more than them has closed.
-- - Utils/Enteros: utils/src/utils/utils.c (parsear_lista_enteros, lista_enteros_a_string,
--   stringToBool) and atoi. Utils/Separados: what string_split and string_itoa do.
-- - Utils/Serializacion: utils/src/utils/serializacion.c, with the conversions between enumerations
--   and ints that it makes by casts.
-- - Storage/Estado: what storage.c keeps, and what storage.c, operaciones.c and metadata.c keep in
--   files: the bitmap, blocks_hash_index.config, physical_blocks, the directories of files and tags
--   with their metadata.config, and logical_blocks, whose hard links are pairs of the number of the
--   entry and the physical block. st_nlink is counted over all of them.
-- - Storage/Bloques: the functions on blocks of storage/src/storage.c (buscarBloqueLibre,
--   agregarHardLink, eliminarHardLink, deduplicacionBloque, the hash index, escribirBloque and
--   leerBloque). Storage/Meta: storage/src/metadata.c. Storage/Verificar: verificarOperacionesBase.
-- - Storage/Operaciones: the handlers of storage/src/operaciones.c, from their checks to the reply.
--   Storage/Servidor: atenderWorker. Storage/Inicio: iniciarFileSystem with FRESH_START.
-- - Storage/Invariante: the invariant (Bien), and what each step does to it. Storage/Correccion: a
--   file:tag as a Worker sees it (vista), and the operations in terms of it.
-- - Worker: worker/src/memoria.c, worker/src/ejecucion.c and the functions of worker/src/worker.c that
--   these call. Estado has the globals: a t_pagina is shared by its table and tablaPagGlobal, so pages
--   live in a heap and the two hold addresses. Marcos has the bytes of the frames and the requests to
--   Storage, Victimas the replacement (LRU and CLOCK-M) and asignarMarco, Paginas the entry of a page,
--   Escritura and Lectura are escribirMemoria and leerMemoria, with Bloques for what they share,
--   Persistencia is persistirMemoria. Instrucciones has the lines of a query and their instructions,
--   Ejecucion ejecutarInstruccion, Interprete queryInterpreter and escucharMaster. The theorems are in
--   Escrito (the bytes of a frame), Victima (CLOCK-M), MarcoLibre and MarcoTomado (the frames),
--   IdaYVuelta, Perdida, RechazosEscritura and RechazosLectura (accesses), Volcado and Devuelve
--   (persistirMemoria), Numero, Lineas, Sintaxis, Desalojo (a preemption) and Desenlace (a whole run).
-- - Master: master/src/planificacion.c. Estado has its global variables, Consultas the monitors over
--   queries, lists and Workers, Planificador and Hilos one round of each thread; Conservacion and
--   Rondas are about the queues. list_add_sorted and list_sort of the commons are a parameter (Ordenadas).
-- - Ejemplos: a small disk, a small Worker and messages, where the theorems are applied.
--
-- The bit array of the commons library and its md5 are a parameter (Externos): its laws are what the
-- library documents of bitarray_test_bit, bitarray_set_bit, bitarray_clean_bit and
-- bitarray_get_max_bit. `none` stands for a crash: abort() of a missing metadata.config, a NULL
-- FILE*, a NULL list element, a table used after it was destroyed, a read of an uninitialised pointer.
-- Of the Worker, Storage and string_split are a parameter (Entorno), and a negative address or size is
-- none. The loops recur on lists or on their number of rounds, so no fuel is needed, but for two:
-- CLOCK-M has four rounds and the while over the lines of a query a number of rounds, each with a
-- theorem that says that they are enough. An operation runs under the lock of its file:tag and is one step.
--
-- A run of queryInterpreter takes the messages that escucharMaster receives during it as a parameter
-- (Llegadas): for each line, those before the instruction, those before huboInterrupcion and those
-- before the query is closed.
--
-- Not modelled: the semaphores and the interleaving of the Master's threads, SIGINT, the delays of
-- the Worker, worker/memoria.c (an earlier copy that is not built), Query Control, the paths (storage/src/paths.c only joins names), logging, delays,
-- configuration, the start over files that are there already, and two operations interleaved inside
-- their critical sections.
pub mod Comun
pub mod Utils
pub mod Storage
pub mod Worker
pub mod Master
pub mod Ejemplos
