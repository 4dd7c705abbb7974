-- ===== src/Master/Tests/Desconexion.antt =====
-- Query Controls that disconnect: with lists of the states as lists, and a search from the front.
use master_of_files.Base.{
  ℕ, ◌≡◌, refl, Bool, Option, none, some, List, [], ◌∷◌, if◌then◌else◌, find_index,
}
use master_of_files.Master.Planificacion.{
  planificador_fifo, obtener_worker_libre, enviar_a, agregar_query_ready_fifo,
}
use master_of_files.Master.Rutas.{crear_query, generar_qid}
use master_of_files.Master.Mensajes.{conectar_worker, conectar_query}
use master_of_files.Master.Alcance.Pasos.{inicial}
use master_of_files.Master.Desconexion.{
  Estados, sin_estados, cancelar, buscar_query_por_socket, manejar_desconexion_qc,
}
use master_of_files.Master.Tests.Alcance.{corriendo}
use master_of_files.Master.Tests.Insercion.{insertar, insercion}

abbrev list_find : (ℕ → Bool) → List ℕ → Option ℕ
list_find cond [] = none
list_find cond (x ∷ xs) = let rest = list_find cond xs in if cond x then some x else rest

abbrev list_remove_by_condition : (ℕ → Bool) → List ℕ → List ℕ
list_remove_by_condition cond [] = []
list_remove_by_condition cond (x ∷ xs) =
    let rest = x ∷ list_remove_by_condition cond xs in if cond x then xs else rest

abbrev en_execute : Estados
en_execute = record {
  estado_ready = some [];
  estado_execute = some (7 ∷ []);
  estado_exit = some [];
}

-- With lists of the states the Worker of the query is asked to evict it; with the lists as the Master has
-- them nothing is done.
desconexiones :
    (manejar_desconexion_qc list_find list_remove_by_condition corriendo en_execute 9
      ≡ (corriendo, en_execute, some 0))
    × (manejar_desconexion_qc list_find list_remove_by_condition corriendo sin_estados 9
        ≡ (corriendo, sin_estados, none))
unfolding manejar_desconexion_qc cancelar buscar_query_por_socket inicial conectar_worker
    conectar_query crear_query generar_qid agregar_query_ready_fifo insercion insertar
    planificador_fifo obtener_worker_libre enviar_a find_index
desconexiones = (refl, refl)
