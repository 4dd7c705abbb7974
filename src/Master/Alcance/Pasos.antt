-- ===== src/Master/Alcance/Pasos.antt =====
-- master/src: the steps of the Master, as its threads take them one after the other.
use master_of_files.Base.{ℕ, ◌+◌, ◌≡◌, refl, ◌⊎◌, Bool, true, false, some, List, [], arith}
use master_of_files.Base.Int.{ℤ}
use master_of_files.Base.Texto.{Texto}
use master_of_files.Master.Datos.{Query, Master}
use master_of_files.Master.Planificacion.{planificador_fifo, aging_ready}
use master_of_files.Master.Mensajes.{
  Sistema, con_master, manejar_desconexion_worker, conectar_worker, atender_read_ok,
  atender_fin_query, conectar_query, atender_desalojada,
}
use master_of_files.Master.Alcance.{veces, suma, corre_query, Justo, Permuta}
use master_of_files.Master.Alcance.Handlers.{
  Justo-same, agregar_query_ready_fifo-Justo, aging_ready-Justo,
}
use master_of_files.Master.Alcance.Despachos.{planificador_fifo-Justo}
use master_of_files.Master.Alcance.Avisos.{
  con_worker-cases, conectar_worker-Justo, desconectar-Justo, atender_desalojada-Justo,
  atender_fin_query-Justo, atender_read_ok-Justo,
}

-- One step. A new query is at an address that neither waits nor runs. A packet that was made is sent.
pub data Paso (list_sort : (ℕ → ℕ → Bool) → List ℕ → List ℕ) : Sistema → Sistema → Type 0 where
  llega_query :
      (s : Sistema) (q : ℕ) (path : Texto) (prioridad : ℤ) (sock : ℕ)
      → veces q s.master.cola_ready + suma (corre_query q) s.master.workers ≡ 0
      → Paso list_sort s (conectar_query list_sort s q path prioridad sock).0
  llega_worker :
      (s : Sistema) (sock id_worker : ℕ) → Paso list_sort s (conectar_worker s sock id_worker)
  despacha :
      (s : Sistema) (m : Master) (hay enviado : Bool)
      → (hay ≡ false ⊎ enviado ≡ true)
      → planificador_fifo s.master hay enviado ≡ some m
      → Paso list_sort s (con_master s m)
  envejece : (s : Sistema) → Paso list_sort s (con_master s (aging_ready list_sort s.master).0)
  desaloja :
      (s : Sistema) (sock qid pc : ℕ)
      → Paso list_sort s (atender_desalojada list_sort s sock qid pc).0
  lee :
      (s : Sistema) (sock : ℕ) (campos : List (List ℕ))
      → Paso list_sort s (atender_read_ok s sock campos)
  termina :
      (s : Sistema) (sock : ℕ) (campos : List (List ℕ)) (hay : Bool)
      → Paso list_sort s (atender_fin_query s sock campos hay)
  se_va_worker :
      (s : Sistema) (sock : ℕ) (hay : Bool)
      → Paso list_sort s (manejar_desconexion_worker s sock hay)

pub data Alcanza (list_sort : (ℕ → ℕ → Bool) → List ℕ → List ℕ) (s : Sistema)
    : Sistema → Type 0 where
  aqui : Alcanza list_sort s s
  luego : {t u : Sistema} → Alcanza list_sort s t → Paso list_sort t u → Alcanza list_sort s u

-- The state before any message, under either algorithm.
unfoldable pub inicial : Bool → (ℕ → Query) → Sistema
inicial prioridades store = record {
  master = record {
    prioridades = prioridades;
    query = store;
    cola_ready = [];
    workers = [];
    sem_queries = 0;
    sem_workers = 0;
  };
  next_qid = 0;
  queries_activas = [];
  avisos = [];
}

module _ (list_sort : (ℕ → ℕ → Bool) → List ℕ → List ℕ) (o : Permuta list_sort) where
  Paso-Justo : {s t : Sistema} → Paso list_sort s t → Justo s.master → Justo t.master
  unfolding conectar_query manejar_desconexion_worker
  Paso-Justo (llega_query s q path prioridad sock nueva) v =
      agregar_query_ready_fifo-Justo list_sort o _ q (Justo-same s.master _ v refl refl refl refl)
        nueva
  Paso-Justo (llega_worker s sock id_worker) v = conectar_worker-Justo s sock id_worker v
  Paso-Justo (despacha s m hay enviado bien h) v =
      planificador_fifo-Justo s.master m hay enviado bien v h
  Paso-Justo (envejece s) v = aging_ready-Justo list_sort o s.master v
  Paso-Justo (desaloja s sock qid pc) v = atender_desalojada-Justo list_sort o s sock qid pc v
  Paso-Justo (lee s sock campos) v = atender_read_ok-Justo list_sort o s sock campos v
  Paso-Justo (termina s sock campos hay) v = atender_fin_query-Justo list_sort o s sock campos hay v
  Paso-Justo (se_va_worker s sock hay) v =
      con_worker-cases (λ (x : Sistema). Justo x.master) s sock s _ v
        λ i w at. desconectar-Justo s i w w.ejecutando hay at v

  inicial-Justo : (b : Bool) (store : ℕ → Query) → Justo (inicial b store).master
  unfolding inicial
  inicial-Justo b store = omega arith

  -- In every state that the Master reaches by these steps, in any order, each query waits or runs once at
  -- most, a free Worker runs nothing, and the semaphores count no less than the free Workers and the
  -- waiting queries. A step sends each packet that it made, and `list_sort` gives each element as often as
  -- it was.
  pub Alcanza-Justo :
      (b : Bool) (store : ℕ → Query) (s : Sistema)
      → Alcanza list_sort (inicial b store) s
      → Justo s.master
  Alcanza-Justo b store s aqui = inicial-Justo b store
  Alcanza-Justo b store s (luego {t} r p) = Paso-Justo p (Alcanza-Justo b store t r)
