-- ===== src/Master/Alcance/Handlers.antt =====
-- master/src: what each handler of the Master does to the invariant.
use master_of_files.Base.{
  ℕ, ◌+◌, ◌≡◌, refl, inl, inr, Bool, true, false, none, some, List, [], ◌∷◌, ◌==◌, if◌then◌else◌,
  get_elem?, length, length-append, arith, ◌∙◌, ap, Bool-cases,
}
use master_of_files.Master.Datos.{Worker, Master}
use master_of_files.Master.Planificacion.{
  registrar_worker_libre, agregar_query_ready_fifo, aging_ready, ordenar, comparar_prioridad,
}
use master_of_files.Master.Mensajes.{sin_worker}
use master_of_files.Master.Alcance.{
  veces, suma, es_query, corre_query, esta_libre, libre_que_corre, uno_si, Justo, Permuta,
}
use master_of_files.Master.Alcance.Cuentas.{veces-append, suma-modify, suma-quitar}

-- Only the queue, the Workers and the semaphores count.
pub Justo-same :
    (m m' : Master)
    → Justo m
    → m'.cola_ready ≡ m.cola_ready
    → m'.workers ≡ m.workers
    → m'.sem_workers ≡ m.sem_workers
    → m'.sem_queries ≡ m.sem_queries
    → Justo m'
Justo-same m m' v a b c d = record {
  una = λ q. rw (a, b) (v.una q);
  libres = rw b v.libres;
  avisan = rw (b, c) v.avisan;
  esperan = rw (a, d) v.esperan;
}

pub quitar-Justo :
    (m : Master) (i : ℕ) (w : Worker)
    → get_elem? m.workers i ≡ some w
    → Justo m
    → Justo (sin_worker m i)
quitar-Justo m i w at v = record {
  una = λ q. omega (arith, v.una q, suma-quitar (corre_query q) m.workers i w at);
  libres = omega (arith, v.libres, suma-quitar libre_que_corre m.workers i w at);
  avisan = omega (arith, v.avisan, suma-quitar esta_libre m.workers i w at);
  esperan = v.esperan;
}

es_query_self : (q : ℕ) → es_query q (some q) ≡ 1
es_query_self q = ground arith

-- A Worker that is given back runs nothing, and its query is nowhere.
pub registrar_worker_libre-Justo :
    (m : Master) (i q : ℕ) (w : Worker)
    → get_elem? m.workers i ≡ some w
    → w.ejecutando ≡ some q
    → Justo m
    → Justo (registrar_worker_libre m i)
      × (veces q (registrar_worker_libre m i).cola_ready
            + suma (corre_query q) (registrar_worker_libre m i).workers
          ≡ 0)
unfolding registrar_worker_libre
registrar_worker_libre-Justo m i q w at run v = (
  record {
    una = λ p. omega (arith, v.una p, suma-modify (corre_query p) m.workers i g w at);
    libres = omega (arith, v.libres, suma-modify libre_que_corre m.workers i g w at);
    avisan = omega (arith, v.avisan, suma-modify esta_libre m.workers i g w at);
    esperan = v.esperan;
  },
  omega (arith, v.una q, suma-modify (corre_query q) m.workers i g w at, corre),
)
  where
    g : Worker → Worker
    g w = record w { libre = true; ejecutando = none }

    corre : corre_query q w ≡ 1
    corre = ap (es_query q) run ∙ es_query_self q

-- The comparison that the queue is sorted by.
abbrev orden : Master → ℕ → ℕ → Bool
orden m a b = comparar_prioridad (m.query a) (m.query b)

module _ (list_sort : (ℕ → ℕ → Bool) → List ℕ → List ℕ) (o : Permuta list_sort) where
  veces-ordenar :
      (b : Bool) (cmp : ℕ → ℕ → Bool) (xs : List ℕ) (a : ℕ)
      → veces a (if b then list_sort cmp xs else xs) ≡ veces a xs
  veces-ordenar true cmp xs a = o.tantas cmp xs a
  veces-ordenar false cmp xs a = refl

  length-ordenar :
      (b : Bool) (cmp : ℕ → ℕ → Bool) (xs : List ℕ)
      → length (if b then list_sort cmp xs else xs) ≡ length xs
  length-ordenar true cmp xs = o.largo cmp xs
  length-ordenar false cmp xs = refl

  ordenar-Justo : (m : Master) → Justo m → Justo (ordenar list_sort m)
  ordenar-Justo m v = record {
    una = λ q. omega (arith, v.una q, veces-ordenar m.prioridades (orden m) m.cola_ready q);
    libres = v.libres;
    avisan = v.avisan;
    esperan = omega (arith, v.esperan, length-ordenar m.prioridades (orden m) m.cola_ready);
  }

  pub agregar_query_ready_fifo-Justo :
      (m : Master) (q : ℕ)
      → Justo m
      → veces q m.cola_ready + suma (corre_query q) m.workers ≡ 0
      → Justo (agregar_query_ready_fifo list_sort m q).0
  unfolding agregar_query_ready_fifo
  agregar_query_ready_fifo-Justo m q v nueva = ordenar-Justo _ (record {
    una = λ p. elim (Bool-cases (q == p)) [
      | inl e ↦
          let same : q ≡ p = ground arith in
          let nada : veces p m.cola_ready + suma (corre_query p) m.workers ≡ 0 =
            rw (← same) nueva in
          omega (arith, nada, veces-append p m.cola_ready (q ∷ []), ap uno_si e)
      | inr e ↦ omega (arith, v.una p, veces-append p m.cola_ready (q ∷ []), ap uno_si e)
    ];
    libres = v.libres;
    avisan = v.avisan;
    esperan = omega (arith, v.esperan, length-append m.cola_ready (q ∷ []));
  })

  pub aging_ready-Justo : (m : Master) → Justo m → Justo (aging_ready list_sort m).0
  unfolding aging_ready
  aging_ready-Justo m v = ordenar-Justo _ (Justo-same m _ v refl refl refl refl)
