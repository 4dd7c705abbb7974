-- ===== src/Master/Alcance/Avisos.antt =====
-- master/src: what the messages of the Workers do to the invariant.
use master_of_files.Base.{
  ℕ, ◌≡◌, refl, inl, inr, Bool, true, Option, none, some, List, [], ◌∷◌, ◌==◌, ltb, get_elem?,
  arith, ◌∙◌, ap, Bool-cases, Option-cases,
}
use master_of_files.Base.Texto.{Texto, codes}
use master_of_files.Master.Datos.{ready, exit, escribir, Worker, Master}
use master_of_files.Master.Planificacion.{registrar_worker_libre, buscar_worker_por_socket}
use master_of_files.Master.Mensajes.{
  Sistema, Efecto, con_master, con_worker, enviar_fin_query, desconectar, conectar_worker,
  atender_read_ok, atender_fin_query, atender_desalojada, leer_lectura, leer_qid,
}
use master_of_files.Master.Alcance.{corre_query, esta_libre, libre_que_corre, Justo, Permuta}
use master_of_files.Master.Alcance.Cuentas.{suma-append}
use master_of_files.Master.Alcance.Handlers.{
  Justo-same, quitar-Justo, registrar_worker_libre-Justo, agregar_query_ready_fifo-Justo,
}

-- What holds where no Worker is found, and for the Worker that is.
pub con_worker-cases :
    {B : Type 0} (P : B → Type 0) (s : Sistema) (sock : ℕ) (z : B) (k : ℕ → Worker → B)
    → P z
    → ((i : ℕ) (w : Worker) → get_elem? s.master.workers i ≡ some w → P (k i w))
    → P (con_worker s sock z k)
con_worker-cases P s sock z k pz pk =
    elim (Option-cases (buscar_worker_por_socket s.master.workers sock)) [
      | inl e ↦ rw (e, con_worker) pz
      | inr (i, e) ↦ elim (Option-cases (get_elem? s.master.workers i)) [
        | inl f ↦ rw (e, con_worker) (rw (f) pz)
        | inr (w, f) ↦ rw (e, con_worker) (rw (f) (pk i w f))
      ]
    ]

pub enviar_fin_query-Justo :
    (s : Sistema) (q : ℕ) (motivo : Texto) (hay : Bool)
    → Justo s.master
    → Justo (enviar_fin_query s q motivo hay).master
unfolding enviar_fin_query
enviar_fin_query-Justo s q motivo hay v =
    elim (Bool-cases (ltb 0 (s.master.query q).socket_query)) [
      | inl e ↦ rw (e) (Justo-same s.master _ v refl refl refl refl)
      | inr e ↦ rw (e) (Justo-same s.master _ v refl refl refl refl)
    ]

enviar_fin_query-workers :
    (s : Sistema) (q : ℕ) (motivo : Texto) (hay : Bool)
    → (enviar_fin_query s q motivo hay).master.workers ≡ s.master.workers
unfolding enviar_fin_query
enviar_fin_query-workers s q motivo hay =
    elim (Bool-cases (ltb 0 (s.master.query q).socket_query)) [
      | inl e ↦ rw (e) refl
      | inr e ↦ rw (e) refl
    ]

pub conectar_worker-Justo :
    (s : Sistema) (sock id_worker : ℕ)
    → Justo s.master
    → Justo (conectar_worker s sock id_worker).master
unfolding conectar_worker
conectar_worker-Justo s sock id_worker v = record {
  una = λ q. omega (arith, v.una q, suma-append (corre_query q) s.master.workers nuevo);
  libres = omega (arith, v.libres, suma-append libre_que_corre s.master.workers nuevo);
  avisan = omega (arith, v.avisan, suma-append esta_libre s.master.workers nuevo);
  esperan = v.esperan;
}
  where
    nuevo : List Worker
    nuevo = record { socket = sock; id = id_worker; libre = true; ejecutando = none } ∷ []

pub desconectar-Justo :
    (s : Sistema) (i : ℕ) (w : Worker) (e : Option ℕ) (hay : Bool)
    → get_elem? s.master.workers i ≡ some w
    → Justo s.master
    → Justo (desconectar s i e hay).master
unfolding desconectar
desconectar-Justo s i w none hay at v = quitar-Justo s.master i w at v
desconectar-Justo s i w (some q) hay at v =
    quitar-Justo _ i w
      (ap (λ (ws : List Worker). get_elem? ws i) (enviar_fin_query-workers antes q motivo hay) ∙ at)
      (enviar_fin_query-Justo antes q motivo hay (Justo-same s.master _ v refl refl refl refl))
  where
    motivo : Texto
    motivo = codes "Cancelada por desconexion del Worker"

    antes : Sistema
    antes = con_master s (record s.master {
      query =
          escribir s.master.query q
            (λ x. record x { estado_actual = exit; worker_asignado = none });
    })

module _ (list_sort : (ℕ → ℕ → Bool) → List ℕ → List ℕ) (o : Permuta list_sort) where
  pub atender_desalojada-Justo :
      (s : Sistema) (sock qid pc : ℕ)
      → Justo s.master
      → Justo (atender_desalojada list_sort s sock qid pc).0.master
  unfolding atender_desalojada
  atender_desalojada-Justo s sock qid pc v =
      con_worker-cases (λ (x : Efecto). Justo x.0.master) s sock _ _ v
        λ i w at. elim (Option-cases w.ejecutando) [
          | inl e ↦ rw (e) v
          | inr (q, e) ↦ elim (Bool-cases ((s.master.query q).qid == qid)) [
            | inr f ↦ rw (e) (rw (f) v)
            | inl f ↦
                let m : Master = record s.master {
                  query =
                      escribir s.master.query q
                        (λ x. record x { pc = pc; estado_actual = ready; worker_asignado = none });
                } in
                let (justo, nada) =
                  registrar_worker_libre-Justo m i q w at e
                    (Justo-same s.master m v refl refl refl refl) in
                rw (e) (
                  rw (f) (
                    agregar_query_ready_fifo-Justo list_sort o (registrar_worker_libre m i) q justo
                      nada))
          ]
        ]

  pub atender_fin_query-Justo :
      (s : Sistema) (sock : ℕ) (campos : List (List ℕ)) (hay : Bool)
      → Justo s.master
      → Justo (atender_fin_query s sock campos hay).master
  unfolding atender_fin_query
  atender_fin_query-Justo s sock campos hay v =
      con_worker-cases (λ (x : Sistema). Justo x.master) s sock _ _ v
        λ i w at. elim (Option-cases w.ejecutando) [
          | inl e ↦ rw (e) v
          | inr (q, e) ↦ elim (Option-cases (leer_qid campos)) [
            | inl f ↦ rw (e) (rw (f) v)
            | inr (qid, f) ↦ elim (Bool-cases (qid == (s.master.query q).qid)) [
              | inr g ↦ rw (e) (rw (f) (rw (g) v))
              | inl g ↦ rw (e) (
                  rw (f) (
                    rw (g) (
                      enviar_fin_query-Justo (con_master s (registrar_worker_libre s.master i)) q
                        (codes "Finalizada OK") hay
                        (registrar_worker_libre-Justo s.master i q w at e v).0)))
            ]
          ]
        ]

  pub atender_read_ok-Justo :
      (s : Sistema) (sock : ℕ) (campos : List (List ℕ))
      → Justo s.master
      → Justo (atender_read_ok s sock campos).master
  unfolding atender_read_ok
  atender_read_ok-Justo s sock campos v =
      con_worker-cases (λ (x : Sistema). Justo x.master) s sock _ _ v
        λ i w at. elim (Option-cases w.ejecutando) [
          | inl e ↦ rw (e) v
          | inr (q, e) ↦ elim (Option-cases (leer_lectura campos)) [
            | inl f ↦ rw (e) (rw (f) v)
            | inr (t, f) ↦ rw (e) (rw (f) v)
          ]
        ]
