-- ===== src/Master/Tests/Alcance.antt =====
-- Runs of the Master from its start: a Worker says hello, a query comes, is sent and ends.
use master_of_files.Base.{
  ℕ, ◌≡◌, refl, inr, true, Option, none, some, [], ◌∷◌, get_elem?, find_index,
}
use master_of_files.Base.Int.{pos}
use master_of_files.Base.Texto.{codes}
use master_of_files.Master.Datos.{exec, ready, Query, Worker, Master}
use master_of_files.Master.Planificacion.{
  planificador_fifo, obtener_worker_libre, enviar_a, agregar_query_ready_fifo,
}
use master_of_files.Master.Rutas.{crear_query, generar_qid}
use master_of_files.Master.Mensajes.{
  Sistema, con_master, conectar_worker, conectar_query, atender_fin_query,
}
use master_of_files.Master.Alcance.{Justo}
use master_of_files.Master.Alcance.Despachos.{planificador_fifo_progress}
use master_of_files.Master.Alcance.Pasos.{
  llega_query, llega_worker, despacha, termina, Alcanza, aqui, luego, inicial, Alcanza-Justo,
}
use master_of_files.Master.Tests.Insercion.{insertar, insercion, insercion-Permuta}

abbrev pub vacia : ℕ → Query
vacia a = record {
  qid = 0;
  pc = 0;
  path = [];
  prioridad = pos 0;
  estado_actual = ready;
  socket_query = 0;
  worker_asignado = none;
}

abbrev pub con_un_worker : Sistema
con_un_worker = conectar_worker (inicial true vacia) 4 1

abbrev pub con_una_query : Sistema
con_una_query = (conectar_query insercion con_un_worker 7 (codes "q") (pos 2) 9).0

abbrev pub o_master : Sistema → Option Master → Master
o_master s none = s.master
o_master s (some m) = m

abbrev pub corriendo : Sistema
corriendo =
    con_master con_una_query
      (o_master con_una_query (planificador_fifo con_una_query.master true true))

abbrev acabada : Sistema
acabada = atender_fin_query corriendo 4 ((0 ∷ 0 ∷ 0 ∷ 0 ∷ []) ∷ []) true

camino : Alcanza insercion (inicial true vacia) acabada
unfolding inicial conectar_worker conectar_query crear_query generar_qid agregar_query_ready_fifo
    insercion insertar planificador_fifo obtener_worker_libre enviar_a find_index
camino =
    luego
      (luego
        (luego (luego aqui (llega_worker (inicial true vacia) 4 1))
          (llega_query con_un_worker 7 (codes "q") (pos 2) 9 refl))
        (despacha con_una_query corriendo.master true true (inr refl) refl))
      (termina corriendo 4 ((0 ∷ 0 ∷ 0 ∷ 0 ∷ []) ∷ []) true)

Alcanza-Justo_example : Justo acabada.master
Alcanza-Justo_example = Alcanza-Justo insercion insercion-Permuta true vacia acabada camino

una_query-Justo : Justo con_una_query.master
unfolding inicial conectar_worker conectar_query crear_query generar_qid agregar_query_ready_fifo
    insercion insertar planificador_fifo obtener_worker_libre enviar_a find_index
una_query-Justo = Alcanza-Justo insercion insercion-Permuta true vacia con_una_query (
    luego (luego aqui (llega_worker (inicial true vacia) 4 1))
      (llega_query con_un_worker 7 (codes "q") (pos 2) 9 refl))

planificador_fifo_progress_example :
    (m' : Master) × (j : ℕ) × (x : Worker) × (planificador_fifo con_una_query.master true true
      ≡ some m')
    × (m'.cola_ready ≡ [])
    × (get_elem? m'.workers j ≡ some x)
    × (x.ejecutando ≡ some 7)
    × ((m'.query 7).estado_actual ≡ exec)
unfolding inicial conectar_worker conectar_query crear_query generar_qid agregar_query_ready_fifo
    insercion insertar planificador_fifo obtener_worker_libre enviar_a find_index
planificador_fifo_progress_example =
    planificador_fifo_progress con_una_query.master 7 0 []
      record { socket = 4; id = 1; libre = true; ejecutando = none } una_query-Justo refl refl refl
