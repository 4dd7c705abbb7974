-- ===== src/Sistema/Tests.antt =====
-- A READ of a Worker that runs query 7, on its way to the Query Control at socket 9.
use master_of_files.Base.{ℕ, ◌≡◌, refl, false, none, some, List, [], ◌∷◌, ◌++◌, arith, find_index}
use master_of_files.Base.Int.{pos}
use master_of_files.Base.Texto.{codes, tiene}
use master_of_files.Utils.Paquete.{serializar_paquete, recibir_operacion, recibir_paquete}
use master_of_files.Utils.Envio.{armar}
use master_of_files.Worker.Instrucciones.Ejecucion.{op_resp_read_ok}
use master_of_files.Master.Datos.{exec, Query, Worker}
use master_of_files.Master.Planificacion.{buscar_worker_por_socket}
use master_of_files.Master.Mensajes.{op_mensaje, Sistema, atender_read_ok}
use master_of_files.Sistema.Mensajes.{op_de, campos_de, atender_read_ok-serializar_paquete}

abbrev corriendo : ℕ → Query
corriendo a = record {
  qid = 3;
  pc = 0;
  path = codes "q";
  prioridad = pos 1;
  estado_actual = exec;
  socket_query = 9;
  worker_asignado = some 0;
}

abbrev ocupado : Worker
ocupado = record { socket = 4; id = 1; libre = false; ejecutando = some 7 }

abbrev sistema : Sistema
sistema = record {
  master = record {
    prioridades = false;
    query = corriendo;
    cola_ready = [];
    workers = ocupado ∷ [];
    sem_queries = 0;
    sem_workers = 0;
  };
  next_qid = 4;
  queries_activas = 7 ∷ [];
  avisos = [];
}

atender_read_ok-serializar_paquete_example :
    let m = op_resp_read_ok (codes "a:b") 4 (some (codes "hola")) in
    let vacia = op_resp_read_ok (codes "a:b") 0 none in
    (bytes : List ℕ) × (bytes' : List ℕ) × (recibir_operacion
        (serializar_paquete (armar (op_de m) (campos_de m)) ++ 5 ∷ [])
      ≡ some (op_de m, bytes))
    × (recibir_paquete bytes ≡ some (campos_de m, 5 ∷ []))
    × (atender_read_ok sistema 4 (campos_de m)
        ≡ record sistema { avisos = (9, op_mensaje (codes "Archivo a:b, contenido: hola")) ∷ [] })
    × (recibir_operacion (serializar_paquete (armar (op_de vacia) (campos_de vacia)) ++ 5 ∷ [])
        ≡ some (op_de vacia, bytes'))
    × (recibir_paquete bytes' ≡ some (campos_de vacia, 5 ∷ []))
    × (atender_read_ok sistema 4 (campos_de vacia) ≡ sistema)
unfolding buscar_worker_por_socket find_index tiene
atender_read_ok-serializar_paquete_example =
    atender_read_ok-serializar_paquete sistema 4 0 ocupado 7 refl refl refl (codes "a:b")
      (codes "hola") (5 ∷ []) refl (omega arith)
