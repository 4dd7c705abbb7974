-- ===== src/Worker/Bucle.antt =====
-- worker/src/instrucciones.c and worker.c: the dispatch of an instruction, the cycle of a line, a query,
-- and what the main loop of a Worker does with each message of the Master.
pub mod Desalojo
pub mod Escuchar
pub mod Reanudar
use master_of_files.Base.{
  ℕ, zero, suc, ◌+◌, ◌-◌, ◌%◌, ◌^◌, Bool, true, false, Option, none, some, List, [], ◌∷◌, ◌++◌,
  ◌==◌, if◌then◌else◌, drop,
}
use master_of_files.Base.Texto.{Texto, codes, texto_eq}
use master_of_files.Utils.Protocolo.{Conexion, Rc}
use master_of_files.Master.Rutas.{generar_path_query}
use master_of_files.Worker.Memoria.{Memoria}
use master_of_files.Worker.Paginas.{flush_todos_filetags_modificados}
use master_of_files.Worker.Instrucciones.{Instruccion, limpiar_linea, parsear_instruccion}
use master_of_files.Worker.Instrucciones.Ejecucion.{
  Mensaje, op_query_desalojada, op_fin_query, ejecutar_create, ejecutar_truncate, ejecutar_write,
  ejecutar_read, ejecutar_tag, ejecutar_commit, ejecutar_flush, ejecutar_delete,
}

-- The globals of a Worker, and what it has sent to the Master, the last message last.
pub record Estado (State : Type 0) : Type 0 where
  pub memoria : Memoria State
  pub a_master : List Mensaje
  pub lista_query_paths : List (ℕ × Texto)
  pub desalojado : Bool
  pub query_cancelada : Bool
  pub pc_actual : ℕ

unfoldable pub add_path_for_qid : List (ℕ × Texto) → ℕ → Texto → List (ℕ × Texto)
add_path_for_qid paths qid path = paths ++ (qid, path) ∷ []

unfoldable pub get_path_for_qid : List (ℕ × Texto) → ℕ → Option Texto
get_path_for_qid [] qid = none
get_path_for_qid ((q, path) ∷ paths) qid =
    let rest = get_path_for_qid paths qid in if q == qid then some path else rest

unfoldable pub remove_path_for_qid : List (ℕ × Texto) → ℕ → List (ℕ × Texto)
remove_path_for_qid [] qid = []
remove_path_for_qid ((q, path) ∷ paths) qid =
    let rest = (q, path) ∷ remove_path_for_qid paths qid in if q == qid then paths else rest

-- The commands of `ejecutar_instruccion`.
pub data Comando : Type 0 where
  vacia create truncate write read tag commit flush delete fin desconocida : Comando

unfoldable pub comando_de : Texto → Comando
comando_de [] = vacia
comando_de (x ∷ xs) =
    let c = x ∷ xs in
    if texto_eq c (codes "CREATE")
    then create
    else if texto_eq c (codes "TRUNCATE")
    then truncate
    else if texto_eq c (codes "WRITE")
    then write
    else if texto_eq c (codes "READ")
    then read
    else if texto_eq c (codes "TAG")
    then tag
    else if texto_eq c (codes "COMMIT")
    then commit
    else if texto_eq c (codes "FLUSH")
    then flush
    else if texto_eq c (codes "DELETE")
    then delete
    else if texto_eq c (codes "END")
    then fin
    else desconocida

-- The messages of the Master. The third reads an `int` after its code, as the second does.
pub data Orden : Type 0 where
  op_enviar_path : ℕ → ℕ → Texto → Orden
  op_query_desconectada : ℕ → Orden
  op_desalojar_query : ℕ → Orden
  op_reanudar_query : ℕ → ℕ → Orden
  otra : Orden

module _ (c : Conexion) (tiempo : ℕ → ℕ) (malloc : ℕ → Bool) (pila : Bool) where
  open c use {State}

  abbrev pub con_memoria : Estado State → Rc × Memoria State → Estado State
  con_memoria s (_, r) = record s { memoria = r }

  abbrev pub con_escrito : Estado State → Option (Rc × Memoria State) → Option (Estado State)
  con_escrito s none = none
  con_escrito s (some h) = some (con_memoria s h)

  abbrev pub con_leido :
      Estado State → Option (Rc × Memoria State × List Mensaje) → Option (Estado State)
  con_leido s none = none
  con_leido s (some (_, r, ms)) = some (record s { memoria = r; a_master = s.a_master ++ ms })

  unfoldable pub ejecutar_end : Estado State → ℕ → Estado State
  ejecutar_end s id_query = record s {
    lista_query_paths = remove_path_for_qid s.lista_query_paths id_query;
    a_master = s.a_master ++ op_fin_query id_query ∷ [];
  }

  unfoldable pub ejecutar_comando : Comando → Estado State → Instruccion → ℕ → Option (Estado State)
  ejecutar_comando vacia s inst id_query = some s
  ejecutar_comando create s inst id_query =
      some (con_memoria s (ejecutar_create c tiempo pila s.memoria inst))
  ejecutar_comando truncate s inst id_query =
      some (con_memoria s (ejecutar_truncate c tiempo s.memoria inst))
  ejecutar_comando write s inst id_query =
      con_escrito s (ejecutar_write c tiempo malloc s.memoria inst)
  ejecutar_comando read s inst id_query = con_leido s (ejecutar_read c tiempo malloc s.memoria inst)
  ejecutar_comando tag s inst id_query = some (con_memoria s (ejecutar_tag c tiempo s.memoria inst))
  ejecutar_comando commit s inst id_query =
      some (con_memoria s (ejecutar_commit c tiempo s.memoria inst))
  ejecutar_comando flush s inst id_query =
      some (con_memoria s (ejecutar_flush c tiempo s.memoria inst))
  ejecutar_comando delete s inst id_query =
      some (con_memoria s (ejecutar_delete c tiempo s.memoria inst))
  ejecutar_comando fin s inst id_query = some (ejecutar_end s id_query)
  ejecutar_comando desconocida s inst id_query = some s

  unfoldable pub ejecutar_instruccion : Estado State → Instruccion → ℕ → Option (Estado State)
  ejecutar_instruccion s inst id_query = ejecutar_comando (comando_de inst.comando) s inst id_query

  -- The flush and the message of a query that the Master wants paused; the flush's result is only logged.
  unfoldable pub avisar_desalojo : Estado State → ℕ → ℕ → Estado State
  avisar_desalojo s id_query pc =
      if s.desalojado
      then record s {
        memoria = (flush_todos_filetags_modificados c tiempo s.memoria).1;
        a_master = s.a_master ++ op_query_desalojada id_query pc ∷ [];
      }
      else s

  -- The cycle of a line that is not empty.
  unfoldable pub ciclo_linea : Estado State → Texto → ℕ → ℕ → Option (ℕ × Estado State)
  ciclo_linea s instruccion id_query pc =
      let s' = record s { memoria = record s.memoria { context_query_id = id_query } } in
      let pc' = (pc + 1) % 2 ^ 64 in
      elim (ejecutar_instruccion s' (parsear_instruccion instruccion) id_query) [
        | none ↦ none
        | some s'' ↦ some (pc', avisar_desalojo s'' id_query pc')
      ]

  unfoldable pub ciclo_instruccion : Estado State → Texto → ℕ → ℕ → Option (ℕ × Estado State)
  ciclo_instruccion s texto id_query pc =
      if s.query_cancelada then some (pc, s) else elim (limpiar_linea texto) [
        | [] ↦ some ((pc + 1) % 2 ^ 64, s)
        | x ∷ xs ↦ ciclo_linea s (x ∷ xs) id_query pc
      ]

  -- The second loop of `procesar_query`, over the lines that are left of the file.
  unfoldable pub procesar_desde : List Texto → Estado State → ℕ → ℕ → Option (ℕ × Estado State)
  procesar_desde [] s id_query pc = some (pc, s)
  procesar_desde (linea ∷ lineas) s id_query pc =
      if s.query_cancelada then some (pc, s) else elim (ciclo_instruccion s linea id_query pc) [
        | none ↦ none
        | some (pc', s') ↦ procesar_desde lineas s' id_query pc'
      ]

  -- `archivo` is the lines of the script, `none` where it cannot be opened.
  unfoldable pub procesar_query : Estado State → Option (List Texto) → ℕ → ℕ → Option (Estado State)
  procesar_query s none id_query pc_inicial = some s
  procesar_query s (some lineas) id_query pc_inicial =
      let pc = if pc_inicial == 0 then 1 else pc_inicial in
      elim (procesar_desde (drop (pc - 1) lineas) s id_query pc) [
        | none ↦ none
        | some (_, s') ↦ some s'
      ]

  abbrev pub empezar : Estado State → ℕ → Estado State
  empezar s pc = record s { desalojado = false; query_cancelada = false; pc_actual = pc }

  -- One turn of the loop. `abrir` gives the lines of a file, `none` where there is none. The path of the
  -- scripts of the configuration is not empty.
  unfoldable pub atender :
      (Texto → Option (List Texto)) → Texto → Estado State → Orden → Option (Estado State)
  atender abrir path_queries s (op_enviar_path id_query pc_inicial nombre) =
      elim (generar_path_query path_queries nombre) [
        | none ↦ none
        | some path_completo ↦
            let paths = add_path_for_qid s.lista_query_paths id_query path_completo in
            procesar_query (empezar (record s { lista_query_paths = paths }) pc_inicial)
              (abrir path_completo) id_query (pc_inicial % 2 ^ 64)
      ]
  atender abrir path_queries s (op_query_desconectada id_query) =
      some (record s { query_cancelada = true })
  atender abrir path_queries s (op_desalojar_query id_query) = some (record s { desalojado = true })
  atender abrir path_queries s (op_reanudar_query qid pc) =
      elim (get_path_for_qid s.lista_query_paths qid) [
        | none ↦ some s
        | some path ↦ elim (procesar_query (empezar s pc) (abrir path) qid (pc % 2 ^ 64)) [
          | none ↦ none
          | some s' ↦
              some (record s' { lista_query_paths = remove_path_for_qid s'.lista_query_paths qid })
        ]
      ]
  atender abrir path_queries s otra = some s

  -- The main loop, until the Master closes the connection.
  unfoldable pub escuchar :
      (Texto → Option (List Texto)) → Texto → List Orden → Estado State → Option (Estado State)
  escuchar abrir path_queries [] s = some s
  escuchar abrir path_queries (o ∷ os) s = elim (atender abrir path_queries s o) [
    | none ↦ none
    | some s' ↦ escuchar abrir path_queries os s'
  ]
