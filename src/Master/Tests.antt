-- ===== src/Master/Tests.antt =====
-- Runs of the scheduler with two Workers and two queries.
mod Insercion
mod Rutas
mod Alcance
mod Desconexion
use mathlib.Core.Option
use master_of_files.Base.{
  ℕ, zero, suc, ◌≡◌, refl, ◌≢◌, ◌⊎◌, inl, inr, Bool, true, false, not, Option, none, some, [], ◌∷◌,
  if◌then◌else◌, ◌==◌, get_elem?, arith, sym, ◌∙◌, ap, find_index, Bool-cases,
}
use master_of_files.Base.Int.{ℤ, pos, negsuc, ltb_ℤ, ◌≤ℤ◌}
use master_of_files.Base.Texto.{codes}
use master_of_files.Master.Datos.{NombreEstado, ready, exec, Query, Worker, Master}
use master_of_files.Master.Planificacion.{
  corre, buscar_peor_query_en_ejecucion, verificar_desalojo, obtener_worker_libre,
  contar_workers_libres, enviar_a, planificador_fifo, envejecer, envejecer_cola,
}
use master_of_files.Master.Prioridades.{
  Peor, Corre, comparar_prioridad_lem, buscar_peor_query_en_ejecucion_lem, verificar_desalojo_lem,
}
use master_of_files.Master.Ronda.{
  planificador_fifo-enviar_a, obtener_worker_libre-contar_workers_libres,
}
use master_of_files.Master.Aging.{SinRepetir, Edad, envejecer_cola_lem}

abbrev una_query : ℕ → ℤ → Query
una_query id p = record {
  qid = id;
  pc = 0;
  path = codes "q";
  prioridad = p;
  estado_actual = ready;
  socket_query = 9;
  worker_asignado = none;
}

-- Query 0 runs with priority 5; query 1 waits with priority 2.
abbrev store : ℕ → Query
store a = una_query a (if a == 0 then pos 5 else pos 2)

abbrev ocupado : Worker
ocupado = record { socket = 4; id = 1; libre = false; ejecutando = some 0 }

abbrev libre : Worker
libre = record { socket = 5; id = 2; libre = true; ejecutando = none }

abbrev m0 : Master
m0 = record {
  prioridades = true;
  query = store;
  cola_ready = 1 ∷ [];
  workers = ocupado ∷ libre ∷ [];
  sem_queries = 1;
  sem_workers = 1;
}

planificador_fifo-enviar_a_example :
    (m' : Master) × (w w' : Worker) × (planificador_fifo m0 true false ≡ some m')
    × (get_elem? m0.workers 1 ≡ some w)
    × (w.libre ≡ true)
    × (get_elem? m'.workers 1 ≡ some w')
    × (w'.libre ≡ false)
    × (w'.ejecutando ≡ some 1)
    × (m'.cola_ready ≡ m0.cola_ready)
    × (m'.sem_queries ≡ m0.sem_queries)
    × (m'.sem_workers ≡ m0.sem_workers)
unfolding obtener_worker_libre find_index
planificador_fifo-enviar_a_example =
    planificador_fifo-enviar_a m0 1 1 [] (omega arith) (omega arith) refl refl

verificar_desalojo_lem_example :
    ((verificar_desalojo m0 ≡ none) × Peor store (ocupado ∷ libre ∷ []) (store 1).prioridad)
    ⊎ ((v : ℕ) × (q : ℕ) × (verificar_desalojo m0 ≡ some (v, q))
        × Corre (ocupado ∷ libre ∷ []) 0 v q
        × Peor store (ocupado ∷ libre ∷ []) (store q).prioridad
        × (ltb_ℤ (store 1).prioridad (store q).prioridad ≡ true))
verificar_desalojo_lem_example = verificar_desalojo_lem m0 1 [] refl refl

cola01-SinRepetir : SinRepetir (0 ∷ 1 ∷ [])
cola01-SinRepetir zero zero a e e' = refl
cola01-SinRepetir zero (suc zero) a e e' = absurd (ground arith)
cola01-SinRepetir (suc zero) zero a e e' = absurd (ground arith)
cola01-SinRepetir (suc zero) (suc zero) a e e' = refl
cola01-SinRepetir (suc (suc j)) k a e e' = cc
cola01-SinRepetir zero (suc (suc k)) a e e' = cc
cola01-SinRepetir (suc zero) (suc (suc k)) a e e' = cc

envejecer_cola_lem_example :
    ((k a : ℕ)
      → get_elem? (0 ∷ 1 ∷ []) k ≡ some a
      → Edad (store a) (envejecer_cola store (0 ∷ 1 ∷ []) a))
    × ((a : ℕ)
        → ((k : ℕ) → get_elem? (0 ∷ 1 ∷ []) k ≢ some a)
        → envejecer_cola store (0 ∷ 1 ∷ []) a ≡ store a)
    × ((j k a b : ℕ)
        → get_elem? (0 ∷ 1 ∷ []) j ≡ some a
        → get_elem? (0 ∷ 1 ∷ []) k ≡ some b
        → (store a).prioridad ≤ℤ (store b).prioridad
        → (envejecer_cola store (0 ∷ 1 ∷ []) a).prioridad
          ≤ℤ (envejecer_cola store (0 ∷ 1 ∷ []) b).prioridad)
envejecer_cola_lem_example = envejecer_cola_lem store (0 ∷ 1 ∷ []) cola01-SinRepetir
