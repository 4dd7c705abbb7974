-- ===== src/Master/Ronda.antt =====
-- master/src/master_planificacion.c: what a round of `planificador_fifo` does, on each branch.
use master_of_files.Base.{
  ℕ, zero, suc, ◌≡◌, ◌≢◌, refl, ◌⊎◌, inl, inr, Bool, true, false, ◌||◌, Option, none, some, List,
  [], ◌∷◌, ◌==◌, get_elem?, modify, find_index, get_elem?-modify_self, arith, sym, ◌∙◌, ap,
  Bool-cases, Option-cases,
}
use mathlib.Core.Option
use master_of_files.Master.Datos.{Worker, Master}
use master_of_files.Master.Planificacion.{
  obtener_worker_libre, contar_workers_libres, enviar_a, planificador_fifo,
}
use master_of_files.Master.Despacho.{obtener_worker_libre_sound}

List-cases : (xs : List ℕ) → (xs ≡ []) ⊎ ((x : ℕ) × (r : List ℕ) × (xs ≡ x ∷ r))
List-cases [] = inl refl
List-cases (x ∷ xs) = inr (x, xs, refl)

-- A round that returns: it changed nothing, or it took a Worker for the first query.
pub ronda-cases :
    (m m' : Master) (hay enviado : Bool)
    → planificador_fifo m hay enviado ≡ some m'
    → (m ≡ m')
      ⊎ ((q : ℕ) × (resto : List ℕ) × (i : ℕ) × (w : Worker) × (m.cola_ready ≡ q ∷ resto)
          × (get_elem? m.workers i ≡ some w)
          × (w.libre ≡ true)
          × (enviar_a m q resto i (modify m.workers i (λ w. record w { libre = false })) hay enviado
              ≡ m'))
unfolding planificador_fifo
ronda-cases m m' hay enviado h = elim (Bool-cases ((m.sem_queries == 0) || (m.sem_workers == 0))) [
  | inl espera ↦ absurd (cc (rw (espera, planificador_fifo) at h))
  | inr pasa ↦
      let h1 = rw (pasa, planificador_fifo) at h in
      elim (List-cases m.cola_ready) [
        | inl vacia ↦ inl (cc (rw vacia at h1))
        | inr (q, resto, cola) ↦
            let h2 = rw cola at h1 in
            elim (Option-cases (obtener_worker_libre m.workers).0) [
              | inl nadie ↦ inl (cc (rw nadie at h2))
              | inr (i, hallado) ↦
                  let (w, at, l, ws) =
                    obtener_worker_libre_sound m.workers (obtener_worker_libre m.workers).1 i
                      (ap (λ (o : Option ℕ). (o, (obtener_worker_libre m.workers).1)) hallado) in
                  let h3 = rw hallado at h2 in
                  inr (
                    q,
                    resto,
                    i,
                    w,
                    cola,
                    at,
                    l,
                    ap (λ ws. enviar_a m q resto i ws hay enviado) (sym ws) ∙ cc h3,
                  )
            ]
      ]
]

-- A round that starts, with a query that waits and a free Worker, and whose send fails: the query is at the
-- front of READY again and the semaphores are as before, but the Worker that was free stays taken and runs it.
pub planificador_fifo-enviar_a :
    (m : Master) (q i : ℕ) (resto : List ℕ)
    → m.sem_queries ≢ 0
    → m.sem_workers ≢ 0
    → m.cola_ready ≡ q ∷ resto
    → (obtener_worker_libre m.workers).0 ≡ some i
    → (m' : Master) × (w w' : Worker) × (planificador_fifo m true false ≡ some m')
      × (get_elem? m.workers i ≡ some w)
      × (w.libre ≡ true)
      × (get_elem? m'.workers i ≡ some w')
      × (w'.libre ≡ false)
      × (w'.ejecutando ≡ some q)
      × (m'.cola_ready ≡ m.cola_ready)
      × (m'.sem_queries ≡ m.sem_queries)
      × (m'.sem_workers ≡ m.sem_workers)
unfolding enviar_a planificador_fifo
planificador_fifo-enviar_a m q i resto hay_q hay_w cola hallado =
    let pasa : ((m.sem_queries == 0) || (m.sem_workers == 0)) ≡ false = ground arith in
    let (w, at, l, ws) =
      obtener_worker_libre_sound m.workers (obtener_worker_libre m.workers).1 i
        (ap (λ (o : Option ℕ). (o, (obtener_worker_libre m.workers).1)) hallado) in
    (
      enviar_a m q resto i (obtener_worker_libre m.workers).1 true false,
      w,
      record w { libre = false; ejecutando = some q },
      rw (pasa, planificador_fifo) (simp (cola, hallado) refl),
      at,
      l,
      ap (λ ws. get_elem? (modify ws i (λ (w : Worker). record w { ejecutando = some q })) i) ws
          ∙ get_elem?-modify_self (modify m.workers i (λ w. record w { libre = false })) i
              (λ w. record w { ejecutando = some q })
          ∙ ap (Option.map (λ (w : Worker). record w { ejecutando = some q })) (
              get_elem?-modify_self m.workers i (λ w. record w { libre = false })
              ∙ ap (Option.map (λ (w : Worker). record w { libre = false })) at),
      refl,
      refl,
      refl,
      refl,
      refl,
    )

contar-none :
    (ws : List Worker)
    → find_index (λ (w : Worker). w.libre) ws ≡ none
    → contar_workers_libres ws ≡ 0
unfolding contar_workers_libres find_index
contar-none [] h = refl
contar-none (w ∷ ws) h = elim (Bool-cases w.libre) [
  | inl l ↦ absurd (ground arith)
  | inr l ↦ rw l (contar-none ws (ground arith))
]

contar-modify :
    (ws : List Worker) (i : ℕ)
    → find_index (λ (w : Worker). w.libre) ws ≡ some i
    → contar_workers_libres ws
      ≡ suc (contar_workers_libres (modify ws i (λ w. record w { libre = false })))
unfolding contar_workers_libres find_index
contar-modify [] i h = cc
contar-modify (w ∷ ws) zero h = elim (Bool-cases w.libre) [
  | inl l ↦ rw l refl
  | inr l ↦ absurd (ground arith)
]
contar-modify (w ∷ ws) (suc i) h = elim (Bool-cases w.libre) [
  | inl l ↦ absurd (ground arith)
  | inr l ↦ rw l (contar-modify ws i (ground arith))
]

-- A free Worker is found exactly where `contar_workers_libres` counts one, and taking it lowers the
-- count by one.
pub obtener_worker_libre-contar_workers_libres :
    (ws : List Worker)
    → ((contar_workers_libres ws ≡ 0) × ((obtener_worker_libre ws).0 ≡ none))
      ⊎ ((i : ℕ) × ((obtener_worker_libre ws).0 ≡ some i)
          × (contar_workers_libres ws ≡ suc (contar_workers_libres (obtener_worker_libre ws).1)))
unfolding obtener_worker_libre
obtener_worker_libre-contar_workers_libres ws =
    elim (Option-cases (find_index (λ (w : Worker). w.libre) ws)) [
      | inl e ↦ inl (contar-none ws e, rw (e, obtener_worker_libre) refl)
      | inr (i, e) ↦ inr (
        i,
        rw (e, obtener_worker_libre) refl,
        rw (e, obtener_worker_libre) (contar-modify ws i e),
      )
    ]
