-- ===== src/Master/Alcance.antt =====
-- master/src: the states that the Master can reach, and what is counted in them.
pub mod Cuentas
pub mod Handlers
pub mod Despachos
pub mod Avisos
pub mod Pasos
use master_of_files.Base.{
  ℕ, zero, suc, ◌+◌, ◌≤◌, ◌≡◌, Bool, true, false, ◌&&◌, Option, none, some, List, [], ◌∷◌, ◌==◌,
  if◌then◌else◌, length,
}
use master_of_files.Master.Datos.{Query, Worker, Master}

-- How often an address waits in a queue.
abbrev pub veces : ℕ → List ℕ → ℕ
veces q [] = 0
veces q (x ∷ xs) = (if x == q then 1 else 0) + veces q xs

abbrev pub suma : (Worker → ℕ) → List Worker → ℕ
suma f [] = 0
suma f (w ∷ ws) = f w + suma f ws

abbrev pub es_query : ℕ → Option ℕ → ℕ
es_query q none = 0
es_query q (some p) = if p == q then 1 else 0

abbrev pub uno_si : Bool → ℕ
uno_si b = if b then 1 else 0

abbrev pub hay_alguna : Option ℕ → ℕ
hay_alguna none = 0
hay_alguna (some _) = 1

-- Whether a Worker runs the query, is free, and is free although it runs one.
abbrev pub corre_query : ℕ → Worker → ℕ
corre_query q w = es_query q w.ejecutando

abbrev pub esta_libre : Worker → ℕ
esta_libre w = uno_si w.libre

abbrev pub libre_que_corre : Worker → ℕ
libre_que_corre w = if w.libre then hay_alguna w.ejecutando else 0

-- The invariant: every query waits or runs once at most, a free Worker runs nothing, and the semaphores
-- count no less than the Workers that are free and the queries that wait.
pub record Justo (m : Master) : Type 0 where
  pub una : (q : ℕ) → veces q m.cola_ready + suma (corre_query q) m.workers ≤ 1
  pub libres : suma libre_que_corre m.workers ≡ 0
  pub avisan : suma esta_libre m.workers ≤ m.sem_workers
  pub esperan : length m.cola_ready ≤ m.sem_queries

-- What the commons library documents of its sort: each element as often as before.
pub record Permuta (list_sort : (ℕ → ℕ → Bool) → List ℕ → List ℕ) : Type 0 where
  pub tantas : (cmp : ℕ → ℕ → Bool) (xs : List ℕ) (a : ℕ) → veces a (list_sort cmp xs) ≡ veces a xs
  pub largo : (cmp : ℕ → ℕ → Bool) (xs : List ℕ) → length (list_sort cmp xs) ≡ length xs
