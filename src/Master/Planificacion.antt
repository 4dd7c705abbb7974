-- ===== src/Master/Planificacion.antt =====
-- master/src/master_planificacion.c: the READY queue, aging, the choice of a Worker, one round of the
-- scheduler, and preemption. `list_sort` of the commons library is the parameter `list_sort`; a send
-- and the creation of a packet may fail, which is an argument.
use master_of_files.Base.{
  ℕ, suc, ◌-◌, Bool, true, false, ◌||◌, Option, none, some, List, [], ◌∷◌, ◌++◌, ltb, ◌==◌,
  if◌then◌else◌, find_index, modify,
}
use master_of_files.Base.Int.{ℤ, pos, negsuc, ltb_ℤ}
use master_of_files.Master.Datos.{exec, Query, Worker, Master, escribir}

-- `a->prioridad == b->prioridad`.
abbrev pub eq_ℤ : ℤ → ℤ → Bool
eq_ℤ (pos a) (pos b) = a == b
eq_ℤ (negsuc a) (negsuc b) = a == b
eq_ℤ _ _ = false

unfoldable pub comparar_prioridad : Query → Query → Bool
comparar_prioridad a b =
    if eq_ℤ a.prioridad b.prioridad then ltb a.qid b.qid else ltb_ℤ a.prioridad b.prioridad

unfoldable pub buscar_worker_por_socket : List Worker → ℕ → Option ℕ
buscar_worker_por_socket ws socket = find_index (λ w. w.socket == socket) ws

unfoldable pub buscar_worker_por_id : List Worker → ℕ → Option ℕ
buscar_worker_por_id ws id = find_index (λ w. w.id == id) ws

-- The index of the first free Worker, and the list in which it is taken.
unfoldable pub obtener_worker_libre : List Worker → Option ℕ × List Worker
obtener_worker_libre ws = elim (find_index (λ w. w.libre) ws) [
  | none ↦ (none, ws)
  | some i ↦ (some i, modify ws i (λ w. record w { libre = false }))
]

unfoldable pub contar_workers_libres : List Worker → ℕ
contar_workers_libres [] = 0
contar_workers_libres (w ∷ ws) =
    if w.libre then suc (contar_workers_libres ws) else contar_workers_libres ws

-- One query of the loop of `aging_ready`.
abbrev pub envejecer : Query → Query
envejecer q = elim q.prioridad [ pos n ↦ record q { prioridad = pos (n - 1) } | negsuc n ↦ q ]

unfoldable pub envejecer_cola : (ℕ → Query) → List ℕ → ℕ → Query
envejecer_cola query [] = query
envejecer_cola query (a ∷ rest) = envejecer_cola (escribir query a envejecer) rest

-- The priority of what a Worker runs, where it counts for `buscar_peor_query_en_ejecucion`.
abbrev pub corre : Worker → Option ℕ
corre w = if w.libre then none else w.ejecutando

-- The loop of `buscar_peor_query_en_ejecucion` from Worker `i`, over its two variables: the Worker and
-- its query.
unfoldable pub peor_desde : (ℕ → Query) → ℕ → List Worker → Option (ℕ × ℕ) → Option (ℕ × ℕ)
peor_desde query i [] peor = peor
peor_desde query i (w ∷ ws) peor = elim (corre w) [
  | none ↦ peor_desde query (suc i) ws peor
  | some q ↦ elim peor [
    | none ↦ peor_desde query (suc i) ws (some (i, q))
    | some (j, p) ↦
        peor_desde query (suc i) ws
          (if ltb_ℤ (query p).prioridad (query q).prioridad then some (i, q) else some (j, p))
  ]
]

unfoldable pub buscar_peor_query_en_ejecucion : (ℕ → Query) → List Worker → Option (ℕ × ℕ)
buscar_peor_query_en_ejecucion query ws = peor_desde query 0 ws none

-- The Worker that is asked to evict its query, and the query. The request changes no state here.
unfoldable pub verificar_desalojo : Master → Option (ℕ × ℕ)
verificar_desalojo m =
    if m.prioridades
    then elim m.cola_ready [
      | [] ↦ none
      | mejor ∷ _ ↦ elim (buscar_peor_query_en_ejecucion m.query m.workers) [
        | none ↦ none
        | some (i, p) ↦
            if ltb_ℤ (m.query mejor).prioridad (m.query p).prioridad then some (i, p) else none
      ]
    ]
    else none

unfoldable pub registrar_worker_libre : Master → ℕ → Master
registrar_worker_libre m i = record m {
  workers = modify m.workers i (λ w. record w { libre = true; ejecutando = none });
  sem_workers = suc m.sem_workers;
}

-- The two semaphores are taken and the query leaves the queue; what follows depends on the Worker, on
-- the packet and on the send. A query that is put back is at the front again, and the semaphores are
-- given back, so that the queue and they are as before.
unfoldable pub enviar_a : Master → ℕ → List ℕ → ℕ → List Worker → Bool → Bool → Master
enviar_a m q resto i ws hay_paquete enviado =
    let asignada =
      escribir m.query q (λ x. record x { estado_actual = exec; worker_asignado = some i }) in
    if hay_paquete
    then (if enviado
        then record m {
          query = asignada;
          cola_ready = resto;
          workers = modify ws i (λ w. record w { ejecutando = some q });
          sem_queries = m.sem_queries - 1;
          sem_workers = m.sem_workers - 1;
        }
        else record m {
          query = asignada;
          workers = modify ws i (λ w. record w { ejecutando = some q });
        })
    else record m {
      query = asignada;
      workers = modify ws i (λ w. record w { libre = true; ejecutando = none });
    }

-- One round of `planificador_fifo`; `none` where it waits for a query or for a Worker.
unfoldable pub planificador_fifo : Master → Bool → Bool → Option Master
planificador_fifo m hay_paquete enviado =
    if (m.sem_queries == 0) || (m.sem_workers == 0) then none else elim m.cola_ready [
      | [] ↦ some m
      | q ∷ resto ↦
          let (worker, ws) = obtener_worker_libre m.workers in
          elim worker [
            | none ↦ some m
            | some i ↦ some (enviar_a m q resto i ws hay_paquete enviado)
          ]
    ]

module _ (list_sort : (ℕ → ℕ → Bool) → List ℕ → List ℕ) where
  abbrev pub ordenar : Master → Master
  ordenar m = record m {
    cola_ready =
        (if m.prioridades
          then list_sort (λ a b. comparar_prioridad (m.query a) (m.query b)) m.cola_ready
          else m.cola_ready);
  }

  -- With the request of `verificar_desalojo`, which looks at the queue after the insertion.
  unfoldable pub agregar_query_ready_fifo : Master → ℕ → Master × Option (ℕ × ℕ)
  agregar_query_ready_fifo m q =
      let m' : Master = record (ordenar (record m { cola_ready = m.cola_ready ++ (q ∷ []) })) {
        sem_queries = suc m.sem_queries;
      } in
      (m', verificar_desalojo m')

  -- One period of `aging_ready`.
  unfoldable pub aging_ready : Master → Master × Option (ℕ × ℕ)
  aging_ready m =
      let m' = ordenar (record m { query = envejecer_cola m.query m.cola_ready }) in
      (m', verificar_desalojo m')
