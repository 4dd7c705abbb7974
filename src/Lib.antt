-- ===== src/Lib.antt =====
-- Master of Files: a distributed system of a Master that schedules queries, Workers that run them,
-- and a Storage of files with tags. A verification of its own logic.
--
-- Utils.Protocolo is utils/src/utils/protocolo.h and hello.h as the other
-- parts see them: requests, replies, return codes. Utils.Paquete and Utils.Nombre are utils/src/utils/hello.c:
-- packets as bytes, with a little-endian `int` and a socket as the bytes left to read, and the split of
-- a name into file and tag. The loop of `recibir_paquete` runs on the size of the buffer as fuel, which
-- is enough since each round takes four bytes. The shared helpers of the proofs are in Base.
--
-- Worker.Memoria and Worker.Paginas are worker/src/memoria_Interna.c. Memoria holds the frame table
-- (`Marco`, `Memoria`), the search for a frame and the two replacement algorithms; Paginas holds what
-- talks to Storage: `traer_pagina`, `acceder_memoria`, `flush_frame`, `flush_filetag` and
-- `flush_todos_filetags_modificados`. The functions keep the names of the source. The globals are the
-- fields of the record `Memoria`, which every operation takes and gives back. The socket to Storage is
-- the parameter `Conexion`, a state and a reply to each request; the clock is a function from instants
-- to milliseconds.
--
-- The theorems about Paginas read the memory as an abstract map `vista` from file, tag and page to
-- bytes: a page in a frame hides the one in Storage. What they ask of Storage is the record
-- `PageStore`. The invariant is `Coherente`.
--
-- The loop of `acceder_memoria` runs on fuel: the size of the access, since each round moves at least
-- one byte when the page size is positive; the theorems about it show that it never runs out.
-- Addresses are `size_t` and page numbers `uint32_t`, with their wrap-around written out.
--
-- Storage is storage/src: Storage.Datos its lists, bitmap and hard links (storage_gestion_estructuras.h,
-- the searches of operaciones_storage.c, storage_archivos.c), Storage.Nombres the names of blocks,
-- Storage.Operaciones the operations `operacion_create_file`, `operacion_truncate_file`,
-- `operacion_tag_file` and `operacion_eliminar_tag`, a result code with the new state. `link` and
-- `unlink` work on a map from paths to physical blocks; they fail with ENOENT and EEXIST only.
-- Storage.Tamanio compares the size of a tag and its blocks after TRUNCATE, and
-- `Contado` is the invariant of the counters of the physical blocks. Storage.Crear compares CREATE with
-- a map from names to tags.
--
-- Master is master/src/master_planificacion.c with the records of master_estructuras.h. A query is an
-- address in a store that the READY queue and the Workers share. Master.Planificacion holds the
-- functions of the source: one round of `planificador_fifo` and one period of `aging_ready` are steps
-- on the record `Master`, atomic but for the locks; a round that waits on a semaphore gives `none`, and
-- the outcomes of a send and of the creation of a packet are arguments. `list_sort` of the commons
-- library is a parameter, with the hypotheses of the record `Ordena`.
--
-- Storage.Bloques is the read and the write of a logical block and COMMIT, over a digest and a dictionary
-- that are parameters; the write of a file may fail to open it or be cut short, which is an argument
-- (`Escribe`); Storage.Atencion is one function per handler of storage/src/atencion_worker.c and
-- the dispatch of storage_conexiones.c. Storage.Atencion.Paginas reads the state as a map of pages, and
-- Storage.Atencion.Servidor makes of Storage, where no write of a file is cut short, the `PageStore` that the
-- memory of a Worker asks for.
-- Storage.Inicio is the start of storage/src/storage.c with FRESH_START, and the functions of f_fresh_stat.c there.
-- Storage.Reinicio is the start without it: the folders are data, and `none` is the null pointer that
-- `fresh_start_false` follows where the hash index has no block for a logical one.
--
-- Master.Rutas is the names of scripts and the numbers of queries of master/src/master_query.c, with
-- `generar_path_query` of the Worker; Worker.Instrucciones is how worker/src/instrucciones.c reads a
-- line of a script, with the fields of `sscanf` and the
-- 64-bit `strtoul` written out. A null pointer is not a value there.
-- Worker.Instrucciones.Ejecucion is one function per instruction of the same file, over the memory and
-- the socket to Storage, with `malloc` as a parameter; Worker.Bucle is the dispatch of an instruction,
-- the cycle of a line, `procesar_query`, and the table of paths and the main loop of
-- worker/src/worker.c. What a Worker sends to the Master is a list of messages; the lines of a script
-- come from a parameter.
--
-- Master.Mensajes is what master/src/master.c does with each message of a Worker or of a Query Control,
-- with `manejar_desconexion_worker` and `enviar_fin_query`: what goes to the Query Controls is a list of
-- messages. Master.Alcance has the invariant `Justo`, and Master.Alcance.Pasos the steps of the Master
-- in any order, with the states that they reach. Master.Desconexion is `buscar_query_por_socket` and
-- `manejar_desconexion_qc`, with the lists of the states and the list
-- searches of the commons library as parameters.
--
-- QueryControl is the loop of query_control/src/query_control.c that waits for the Master.
-- Sistema puts the parts together: Sistema.Lectura a Worker whose socket leads to Storage, and
-- Sistema.Mensajes the packets of a Worker's messages as the Master reads them.
--
-- Not modelled: logs, sleeps, locks (but for the lock that TRUNCATE takes twice) and the release of
-- memory; the metadata and hash index files; the metadata of a tag as text; the
-- bytes beyond the buffer that READ_BLOCK sends of a file shorter than a block; a folder of logical blocks that
-- is missing when a link is made; a notice to a Query Control whose send fails; opening and closing sockets, and threads.
pub mod Base
pub mod Utils
pub mod Worker
pub mod Storage
pub mod Master
pub mod QueryControl
pub mod Sistema
