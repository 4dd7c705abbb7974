-- ===== src/Worker/Tests/Ejecucion.antt =====
-- Runs of the instructions and of the main loop, over the memory of the other runs.
use master_of_files.Base.{
  ℕ, ◌≡◌, refl, ◌^◌, Bool, true, false, Option, none, some, List, [], ◌∷◌, ◌%◌, arith, find_index,
}
use master_of_files.Base.Texto.{Texto, texto_eq, codes}
use master_of_files.Utils.Protocolo.{Rc, cero}
use master_of_files.Master.Rutas.{termina_con_slash, generar_path_query}
use master_of_files.Worker.Memoria.{
  Memoria, frame_matchea, compara, buscar_marco_libre, elegir_algoritmo, algoritmo_lru, lru_desde,
}
use master_of_files.Worker.Paginas.{
  flush_filetag, acceder_memoria, acceder_desde, copiar, traer_pagina, reemplazar_marco,
  flush_frame, flush_marco, escribir_pagina_storage, cargar_marco, lectura_pagina_storage,
}
use master_of_files.Worker.Paginas.Vista.{Coherente}
use master_of_files.Worker.Instrucciones.{
  Instruccion, cortar_final, cortar_inicio, limpiar_linea, hasta, campo, parsear_instruccion,
  separar_file_tag, saltar,
}
use master_of_files.Worker.Instrucciones.Numero.{
  ajuste, leer_digitos, numero, parse_size_t_safe, strtoul,
}
use master_of_files.Worker.Instrucciones.Ejecucion.{
  Mensaje, op_resp_read_ok, ejecutar_create, ejecutar_write, ejecutar_read, ejecutar_truncate,
  ejecutar_delete,
}
use master_of_files.Worker.Instrucciones.Relectura.{ejecutar_read-ejecutar_write}
use master_of_files.Worker.Instrucciones.Guardar.{ejecutar_truncate-ejecutar_delete}
use master_of_files.Worker.Bucle.{
  Estado, Orden, op_enviar_path, op_desalojar_query, op_reanudar_query, add_path_for_qid,
  get_path_for_qid, remove_path_for_qid, comando_de, ejecutar_end, ejecutar_comando,
  ejecutar_instruccion, avisar_desalojo, ciclo_linea, ciclo_instruccion, procesar_desde,
  procesar_query, atender, escuchar,
}
use master_of_files.Worker.Bucle.Desalojo.{desalojos}
use master_of_files.Worker.Bucle.Escuchar.{escuchar-desalojos}
use master_of_files.Worker.Bucle.Reanudar.{procesar_query_resumes}
use master_of_files.Worker.Tests.{reloj, llena, llena-Coherente}
use master_of_files.Worker.Tests.Storage.{Paginas, storage_ab, pages_ab}

abbrev todo : ℕ → Bool
todo n = true

abbrev escribe : Instruccion
escribe = record {
  comando = codes "WRITE";
  arg1 = codes "a:b";
  arg2 = codes "1";
  arg3 = codes "hola";
}

abbrev relee : Instruccion
relee = record { comando = codes "READ"; arg1 = codes "a:b"; arg2 = codes "1"; arg3 = codes "4" }

abbrev memoria_de : Option (Rc × Memoria Paginas) → Memoria Paginas
memoria_de none = llena
memoria_de (some (_, r)) = r

abbrev escrita : Memoria Paginas
escrita = memoria_de (ejecutar_write storage_ab reloj todo llena escribe)

escribe_ok : ejecutar_write storage_ab reloj todo llena escribe ≡ some (cero, escrita)
unfolding ejecutar_write separar_file_tag find_index parse_size_t_safe strtoul saltar leer_digitos
    numero acceder_memoria acceder_desde copiar ajuste traer_pagina frame_matchea compara
    buscar_marco_libre elegir_algoritmo algoritmo_lru lru_desde reemplazar_marco flush_frame
    flush_marco escribir_pagina_storage cargar_marco lectura_pagina_storage texto_eq
escribe_ok = refl

ejecutar_read-ejecutar_write_example :
    (rc : Rc) × (r'' : Memoria Paginas) × (ms : List Mensaje) × (ejecutar_read storage_ab reloj todo
        escrita relee
      ≡ some (rc, r'', ms))
    × Coherente pages_ab r''
    × (rc ≡ cero → ms ≡ op_resp_read_ok (codes "a:b") (4 % 2 ^ 32) (some (codes "hola")) ∷ [])
unfolding separar_file_tag find_index parse_size_t_safe strtoul saltar leer_digitos numero ajuste
ejecutar_read-ejecutar_write_example =
    ejecutar_read-ejecutar_write pages_ab reloj todo (codes "a") (codes "b") 1 (omega arith) llena
      escrita escribe relee llena-Coherente refl refl refl refl refl (omega arith) (omega arith)
      refl escribe_ok

abbrev guarda : Instruccion
guarda = record { comando = codes "COMMIT"; arg1 = codes "a:b"; arg2 = []; arg3 = [] }

abbrev recorta : Instruccion
recorta = record { comando = codes "TRUNCATE"; arg1 = codes "a:b"; arg2 = codes "4"; arg3 = [] }

ejecutar_truncate-ejecutar_delete_example :
    ((ejecutar_truncate storage_ab reloj llena recorta).1.frames ≡ llena.frames)
    × ((ejecutar_delete storage_ab reloj llena recorta).1.frames
        ≡ (flush_filetag storage_ab reloj llena (codes "a") (codes "b")).1.frames)
unfolding separar_file_tag find_index
ejecutar_truncate-ejecutar_delete_example =
    ejecutar_truncate-ejecutar_delete storage_ab reloj llena recorta (codes "a") (codes "b") refl

-- A script of two lines, and the Worker that has it to run.
abbrev lineas : List Texto
lineas = codes "WRITE a:b 1 hola" ∷ codes "READ a:b 1 4" ∷ []

abbrev inicio : Estado Paginas
inicio = record {
  memoria = llena;
  a_master = [];
  lista_query_paths = [];
  desalojado = false;
  query_cancelada = false;
  pc_actual = 0;
}

procesar_query_resumes_example :
    procesar_query storage_ab reloj todo true inicio (some lineas) 3 1
    ≡ (elim (procesar_query storage_ab reloj todo true inicio
        (some (codes "WRITE a:b 1 hola" ∷ []))
        3
        1) [
          | none ↦ none
          | some s' ↦ procesar_query storage_ab reloj todo true s' (some lineas) 3 2
        ])
procesar_query_resumes_example =
    procesar_query_resumes storage_ab reloj todo true (codes "WRITE a:b 1 hola" ∷ [])
      (codes "READ a:b 1 4" ∷ []) inicio 3 refl refl (omega arith)

abbrev abrir : Texto → Option (List Texto)
abrir path = some (codes "CREATE c:d" ∷ codes "END" ∷ [])

abbrev ordenes : List Orden
ordenes = op_enviar_path 3 0 (codes "s") ∷ op_desalojar_query 3 ∷ op_reanudar_query 3 1 ∷ []

abbrev estado_de : Option (Estado Paginas) → Estado Paginas
estado_de none = inicio
estado_de (some s) = s

abbrev final : Estado Paginas
final = estado_de (escuchar storage_ab reloj todo true abrir (codes "d/") ordenes inicio)

escucha_ok : escuchar storage_ab reloj todo true abrir (codes "d/") ordenes inicio ≡ some final
unfolding escuchar atender generar_path_query termina_con_slash procesar_query procesar_desde
    ciclo_instruccion limpiar_linea cortar_inicio cortar_final ciclo_linea ejecutar_instruccion
    ejecutar_comando comando_de parsear_instruccion campo hasta saltar texto_eq add_path_for_qid
    get_path_for_qid remove_path_for_qid avisar_desalojo ejecutar_end ejecutar_create
escucha_ok = refl

escuchar-desalojos_example : desalojos final.a_master ≡ desalojos []
escuchar-desalojos_example =
    escuchar-desalojos storage_ab reloj todo true abrir (codes "d/") ordenes inicio final escucha_ok
