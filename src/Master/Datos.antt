-- ===== src/Master/Datos.antt =====
-- master/src/master_estructuras.h and the globals of master_planificacion.c. A query is an address in
-- the store `query`; the READY queue and the Workers hold addresses, so that they share it.
use master_of_files.Base.{ℕ, Bool, Option, List, ◌==◌, if◌then◌else◌}
use master_of_files.Base.Int.{ℤ}
use master_of_files.Base.Texto.{Texto}

pub data NombreEstado : Type 0 where
  ready exec exit : NombreEstado

pub record Query : Type 0 where
  pub qid : ℕ
  pub pc : ℕ
  pub path : Texto
  pub prioridad : ℤ
  pub estado_actual : NombreEstado
  pub socket_query : ℕ
  pub worker_asignado : Option ℕ

pub record Worker : Type 0 where
  pub socket : ℕ
  pub id : ℕ
  pub libre : Bool
  pub ejecutando : Option ℕ

-- `prioridades` says that ALGORITMO_PLANIFICACION is "PRIORIDADES"; the two numbers are semaphores.
pub record Master : Type 0 where
  pub prioridades : Bool
  pub query : ℕ → Query
  pub cola_ready : List ℕ
  pub workers : List Worker
  pub sem_queries : ℕ
  pub sem_workers : ℕ

-- A write through a `t_query*`.
abbrev pub escribir : (ℕ → Query) → ℕ → (Query → Query) → ℕ → Query
escribir query a g b = if b == a then g (query b) else query b
