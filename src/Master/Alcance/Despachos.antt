-- ===== src/Master/Alcance/Despachos.antt =====
-- master/src/master_planificacion.c: the rounds of the scheduler from a state that keeps the invariant.
use master_of_files.Base.{
  ℕ, ◌+◌, ◌<◌, ◌≡◌, refl, inl, inr, ◌⊎◌, Bool, true, false, ◌||◌, Option, none, some, List, ◌∷◌,
  ◌==◌, get_elem?, modify, length, get_elem?-modify_self, find_index, find_index-none,
  find_index_sound, arith, ◌∙◌, ap, Bool-cases, Option-cases,
}
use mathlib.Core.Option
use master_of_files.Master.Datos.{exec, Worker, Master, escribir}
use master_of_files.Master.Planificacion.{enviar_a, planificador_fifo, obtener_worker_libre}
use master_of_files.Master.Ronda.{ronda-cases}
use master_of_files.Master.Alcance.{
  veces, suma, uno_si, es_query, hay_alguna, corre_query, esta_libre, libre_que_corre, Justo,
}
use master_of_files.Master.Alcance.Cuentas.{suma-modify, suma-part}

-- A Worker that is free in a state that keeps the invariant runs nothing.
nada_corre : (e : Option ℕ) (q : ℕ) → hay_alguna e ≡ 0 → es_query q e ≡ 0
nada_corre none q h = refl
nada_corre (some p) q h = absurd (omega arith)

libre-nada :
    (m : Master) (i q : ℕ) (w : Worker)
    → Justo m
    → get_elem? m.workers i ≡ some w
    → w.libre ≡ true
    → (corre_query q w ≡ 0) × (libre_que_corre w ≡ 0)
libre-nada m i q w v at l =
    let (r, e) = suma-part libre_que_corre m.workers i w at in
    let z : libre_que_corre w ≡ 0 = omega (arith, v.libres) in
    (nada_corre w.ejecutando q (rw l at z), z)

-- A Worker that is taken and then changed once more.
dos_cambios :
    (f : Worker → ℕ) (ws : List Worker) (i : ℕ) (a b : Worker → Worker) (w : Worker)
    → get_elem? ws i ≡ some w
    → suma f (modify (modify ws i a) i b) + f w ≡ suma f ws + f (b (a w))
dos_cambios f ws i a b w at = omega (
  arith,
  suma-modify f ws i a w at,
  suma-modify f (modify ws i a) i b (a w) (get_elem?-modify_self ws i a ∙ ap (Option.map a) at),
)

module _ (m : Master) (q i : ℕ) (resto : List ℕ) (w : Worker) (v : Justo m)
    (cola : m.cola_ready ≡ q ∷ resto) (at : get_elem? m.workers i ≡ some w)
    (l : w.libre ≡ true) where
  tomado : List Worker
  tomado = modify m.workers i (λ w. record w { libre = false })

  enviado-Justo : Justo (enviar_a m q resto i tomado true true)
  unfolding enviar_a tomado
  enviado-Justo = record {
    una = λ p. omega (
      arith,
      v.una p,
      ap (veces p) cola,
      (libre-nada m i p w v at l).0,
      dos_cambios (corre_query p) m.workers i (λ w. record w { libre = false })
          (λ w. record w { ejecutando = some q }) w at,
    );
    libres = omega (
      arith,
      v.libres,
      dos_cambios libre_que_corre m.workers i (λ w. record w { libre = false })
          (λ w. record w { ejecutando = some q }) w at,
    );
    avisan = omega (
      arith,
      v.avisan,
      ap uno_si l,
      dos_cambios esta_libre m.workers i (λ w. record w { libre = false })
          (λ w. record w { ejecutando = some q }) w at,
    );
    esperan = omega (arith, v.esperan, ap length cola);
  }

  sin_paquete-Justo : (b : Bool) → Justo (enviar_a m q resto i tomado false b)
  unfolding enviar_a tomado
  sin_paquete-Justo b = record {
    una = λ p. omega (
      arith,
      v.una p,
      (libre-nada m i p w v at l).0,
      dos_cambios (corre_query p) m.workers i (λ w. record w { libre = false })
          (λ w. record w { libre = true; ejecutando = none }) w at,
    );
    libres = omega (
      arith,
      v.libres,
      dos_cambios libre_que_corre m.workers i (λ w. record w { libre = false })
          (λ w. record w { libre = true; ejecutando = none }) w at,
    );
    avisan = omega (
      arith,
      v.avisan,
      ap uno_si l,
      dos_cambios esta_libre m.workers i (λ w. record w { libre = false })
          (λ w. record w { libre = true; ejecutando = none }) w at,
    );
    esperan = v.esperan;
  }

pub planificador_fifo-Justo :
    (m m' : Master) (hay enviado : Bool)
    → (hay ≡ false ⊎ enviado ≡ true)
    → Justo m
    → planificador_fifo m hay enviado ≡ some m'
    → Justo m'
unfolding tomado
planificador_fifo-Justo m m' hay enviado bien v h = elim (ronda-cases m m' hay enviado h) [
  | inl same ↦ rw⁻¹ same v
  | inr (q, resto, i, w, cola, at, l, done) ↦ elim (Bool-cases hay) [
    | inr sin ↦ rw⁻¹ done (rw sin (sin_paquete-Justo m q i resto w v cola at l enviado))
    | inl con ↦
        let ok : enviado ≡ true = elim bien [ inl x ↦ absurd (cc (x, con)) | inr x ↦ x ] in
        rw⁻¹ done (rw (con, ok) (enviado-Justo m q i resto w v cola at l))
  ]
]

obtener_some :
    (ws : List Worker) (i : ℕ)
    → find_index (λ (w : Worker). w.libre) ws ≡ some i
    → obtener_worker_libre ws ≡ (some i, modify ws i (λ w. record w { libre = false }))
unfolding obtener_worker_libre
obtener_some ws i e = rw (e, obtener_worker_libre) refl

-- A query that waits while a Worker is free does not wait for the semaphores: the next round whose send
-- works gives the first query to a Worker.
pub planificador_fifo_progress :
    (m : Master) (q i : ℕ) (resto : List ℕ) (w : Worker)
    → Justo m
    → m.cola_ready ≡ q ∷ resto
    → get_elem? m.workers i ≡ some w
    → w.libre ≡ true
    → (m' : Master) × (j : ℕ) × (x : Worker) × (planificador_fifo m true true ≡ some m')
      × (m'.cola_ready ≡ resto)
      × (get_elem? m'.workers j ≡ some x)
      × (x.ejecutando ≡ some q)
      × ((m'.query q).estado_actual ≡ exec)
unfolding planificador_fifo enviar_a
planificador_fifo_progress m q i resto w v cola at l =
    elim (Option-cases (find_index (λ (w : Worker). w.libre) m.workers)) [
      | inl e ↦ absurd (cc (find_index-none (λ (w : Worker). w.libre) m.workers i w e at, l))
      | inr (j, e) ↦
          let (y, at', l') = find_index_sound (λ (w : Worker). w.libre) m.workers j e in
          let ws : List Worker = modify m.workers j (λ w. record w { libre = false }) in
          (
            enviar_a m q resto j ws true true,
            j,
            record y { libre = false; ejecutando = some q },
            rw (pasa, planificador_fifo)
                (rw cola (
                  rw (ap (λ (o : Option ℕ × List Worker). o.0) (obtener_some m.workers j e)) (
                    ap (λ (o : Option ℕ × List Worker). some (enviar_a m q resto j o.1 true true))
                      (obtener_some m.workers j e)))),
            refl,
            corre j y at',
            refl,
            en_exec j,
          )
    ]
  where
    r : (x : ℕ) × (suma esta_libre m.workers ≡ esta_libre w + x)
    r = suma-part esta_libre m.workers i w at

    hay_worker : 0 < m.sem_workers
    hay_worker = omega (arith, v.avisan, r.1, ap uno_si l)

    hay_query : 0 < m.sem_queries
    hay_query = omega (arith, v.esperan, ap length cola)

    pasa : ((m.sem_queries == 0) || (m.sem_workers == 0)) ≡ false
    pasa = ground (arith, hay_worker, hay_query)

    corre :
        (j : ℕ) (y : Worker)
        → get_elem? m.workers j ≡ some y
        → get_elem?
            (modify
              (modify m.workers j (λ w. record w { libre = false }))
              j
              (λ w. record w { ejecutando = some q }))
            j
          ≡ some (record y { libre = false; ejecutando = some q })
    corre j y at' =
        get_elem?-modify_self (modify m.workers j (λ w. record w { libre = false })) j
          (λ w. record w { ejecutando = some q })
        ∙ ap (Option.map (λ (w : Worker). record w { ejecutando = some q })) (
            get_elem?-modify_self m.workers j (λ w. record w { libre = false })
            ∙ ap (Option.map (λ (w : Worker). record w { libre = false })) at')

    mismo : (q == q) ≡ true
    mismo = ground arith

    en_exec :
        (j : ℕ)
        → (escribir m.query q
            (λ x. record x { estado_actual = exec; worker_asignado = some j })
            q).estado_actual
          ≡ exec
    en_exec j = rw mismo refl
