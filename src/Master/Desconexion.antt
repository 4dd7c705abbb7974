-- ===== src/Master/Desconexion.antt =====
-- master/src/master_query.c: a Query Control that disconnects. The lists of the states and the searches of the
-- commons library in them, `list_find` and `list_remove_by_condition`, are parameters.
use master_of_files.Base.{ℕ, Bool, Option, none, some, List, ◌==◌}
use master_of_files.Master.Datos.{NombreEstado, ready, exec, exit, escribir}
use master_of_files.Master.Mensajes.{Sistema, con_master}

-- `estadoReady`, `estadoExecute` and `estadoExit`: `none` for a null pointer.
pub record Estados : Type 0 where
  pub estado_ready : Option (List ℕ)
  pub estado_execute : Option (List ℕ)
  pub estado_exit : Option (List ℕ)

-- What the pointers are set to, and nothing changes.
abbrev pub sin_estados : Estados
sin_estados = record { estado_ready = none; estado_execute = none; estado_exit = none }

-- The system, the lists, and the Worker that is asked to evict its query.
abbrev pub Desconexion : Type 0
Desconexion = Sistema × Estados × Option ℕ

module _ (list_find : (ℕ → Bool) → List ℕ → Option ℕ)
    (list_remove_by_condition : (ℕ → Bool) → List ℕ → List ℕ) where
  abbrev pub buscar_en : (ℕ → Bool) → Option (List ℕ) → Option ℕ
  buscar_en cond none = none
  buscar_en cond (some queries) = list_find cond queries

  unfoldable pub buscar_query_por_socket : Sistema → Estados → ℕ → Option ℕ
  buscar_query_por_socket s e sock =
      let coincide_socket : ℕ → Bool = λ q. (s.master.query q).socket_query == sock in
      elim (buscar_en coincide_socket e.estado_ready) [
        | some q ↦ some q
        | none ↦ elim (buscar_en coincide_socket e.estado_execute) [
          | some q ↦ some q
          | none ↦ buscar_en coincide_socket e.estado_exit
        ]
      ]

  abbrev pub sacar_de : (ℕ → Bool) → Option (List ℕ) → Option (List ℕ)
  sacar_de cond none = none
  sacar_de cond (some queries) = some (list_remove_by_condition cond queries)

  abbrev pub sacar : (ℕ → Bool) → Estados → Estados
  sacar cond e = record {
    estado_ready = sacar_de cond e.estado_ready;
    estado_execute = sacar_de cond e.estado_execute;
    estado_exit = sacar_de cond e.estado_exit;
  }

  -- A query that ends: it is marked, taken from the lists and released.
  abbrev pub forzar_exit : Sistema → Estados → ℕ → Desconexion
  forzar_exit s e q = (
    con_master s (record s.master {
      query = escribir s.master.query q (λ x. record x { estado_actual = exit });
    }),
    sacar (λ p. (s.master.query p).qid == (s.master.query q).qid) e,
    none,
  )

  -- What follows from the state of the query and from its Worker.
  unfoldable pub cancelar : Sistema → Estados → ℕ → NombreEstado → Option ℕ → Desconexion
  cancelar s e q ready w = forzar_exit s e q
  cancelar s e q exec none = forzar_exit s e q
  cancelar s e q exec (some w) = (s, e, some w)
  cancelar s e q exit w = forzar_exit s e q

  unfoldable pub manejar_desconexion_qc : Sistema → Estados → ℕ → Desconexion
  manejar_desconexion_qc s e sock = elim (buscar_query_por_socket s e sock) [
    | none ↦ (s, e, none)
    | some q ↦ cancelar s e q (s.master.query q).estado_actual (s.master.query q).worker_asignado
  ]
