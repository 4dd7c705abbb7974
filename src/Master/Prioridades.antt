-- ===== src/Master/Prioridades.antt =====
-- master/src/master_planificacion.c: the order of the READY queue, and the query that is evicted.
use master_of_files.Base.{
  ℕ, zero, suc, ◌+◌, ◌≡◌, refl, ◌≢◌, ◌⊎◌, inl, inr, true, false, none, some, List, [], ◌∷◌,
  get_elem?, arith, sym, ◌∙◌, ap, Bool-cases, Option-cases,
}
use master_of_files.Base.Int.{ℤ, ltb_ℤ, ◌≤ℤ◌}
use master_of_files.Master.Datos.{Query, Worker, Master}
use master_of_files.Master.Planificacion.{
  comparar_prioridad, corre, peor_desde, buscar_peor_query_en_ejecucion, verificar_desalojo,
}

-- The comparison of READY is a strict total order on queries with different ids: never both ways, it
-- chains, and of two queries with different ids one goes before the other.
pub comparar_prioridad_lem :
    (a b c : Query)
    → (comparar_prioridad a b ≡ true → comparar_prioridad b a ≡ false)
      × (comparar_prioridad a b ≡ true
          → comparar_prioridad b c ≡ true
          → comparar_prioridad a c ≡ true)
      × (a.qid ≢ b.qid → (comparar_prioridad a b ≡ true) ⊎ (comparar_prioridad b a ≡ true))
unfolding comparar_prioridad
comparar_prioridad_lem a b c = (λ h. ground arith, λ h k. ground arith, λ n. ground arith)

-- Nobody in these Workers runs a query that is less urgent.
abbrev pub Peor : (ℕ → Query) → List Worker → ℤ → Type 0
Peor query ws t =
    (j : ℕ) (w : Worker) (q : ℕ)
    → get_elem? ws j ≡ some w
    → corre w ≡ some q
    → (query q).prioridad ≤ℤ t

Peor-cons :
    (query : ℕ → Query) (w : Worker) (ws : List Worker) (t : ℤ)
    → ((q : ℕ) → corre w ≡ some q → (query q).prioridad ≤ℤ t)
    → Peor query ws t
    → Peor query (w ∷ ws) t
Peor-cons query w ws t h n zero x q e c = let same : w ≡ x = cc e in h q (ap corre same ∙ c)
Peor-cons query w ws t h n (suc j) x q e c = n j x q e c

-- Worker `v`, counted from `i`, runs `q`.
abbrev pub Corre : List Worker → ℕ → ℕ → ℕ → Type 0
Corre ws i v q =
    (j : ℕ) × (w : Worker) × (v ≡ i + j) × (get_elem? ws j ≡ some w) × (corre w ≡ some q)

Corre-suc :
    (w : Worker) (ws : List Worker) (i v q : ℕ) → Corre ws (suc i) v q → Corre (w ∷ ws) i v q
Corre-suc w ws i v q (j, x, e, at, c) = (suc j, x, omega arith, at, c)

-- The loop keeps the worst of what it has seen.
peor_desde-some :
    (query : ℕ → Query) (i : ℕ) (ws : List Worker) (k p : ℕ)
    → (v : ℕ) × (q : ℕ) × (peor_desde query i ws (some (k, p)) ≡ some (v, q))
      × ((query p).prioridad ≤ℤ (query q).prioridad)
      × Peor query ws (query q).prioridad
      × (((v ≡ k) × (q ≡ p)) ⊎ Corre ws i v q)
unfolding peor_desde
peor_desde-some query i [] k p = (k, p, refl, omega arith, λ j w q at c. cc, inl (refl, refl))
peor_desde-some query i (w ∷ ws) k p = elim (Option-cases (corre w)) [
  | inl nada ↦
      let (v, q, e, le, n, here) = peor_desde-some query (suc i) ws k p in
      (
        v,
        q,
        rw (nada, peor_desde) e,
        le,
        Peor-cons query w ws _ (λ x c. absurd (cc (c, nada))) n,
        elim here [ inl z ↦ inl z | inr z ↦ inr (Corre-suc w ws i v q z) ],
      )
  | inr (x, c) ↦ elim (Bool-cases (ltb_ℤ (query p).prioridad (query x).prioridad)) [
    | inl peor ↦
        let (v, q, e, le, n, here) = peor_desde-some query (suc i) ws i x in
        (
          v,
          q,
          rw (c, peor_desde) (rw (peor, peor_desde) e),
          ground arith,
          Peor-cons query w ws _ (λ y c'. let same : x ≡ y = cc (c, c') in rw⁻¹ same le) n,
          elim here [
            | inl z ↦ inr (0, w, omega (arith, z.0), refl, c ∙ ap some (sym z.1))
            | inr z ↦ inr (Corre-suc w ws i v q z)
          ],
        )
    | inr mejor ↦
        let (v, q, e, le, n, here) = peor_desde-some query (suc i) ws k p in
        (
          v,
          q,
          rw (c, peor_desde) (rw (mejor, peor_desde) e),
          le,
          Peor-cons query w ws _
              (λ y c'.
                let same : x ≡ y = cc (c, c') in
                let lx : (query x).prioridad ≤ℤ (query p).prioridad = ground arith in
                let lq : (query x).prioridad ≤ℤ (query q).prioridad = omega arith in rw⁻¹ same lq)
              n,
          elim here [ inl z ↦ inl z | inr z ↦ inr (Corre-suc w ws i v q z) ],
        )
  ]
]

peor_desde-none :
    (query : ℕ → Query) (i : ℕ) (ws : List Worker)
    → ((peor_desde query i ws none ≡ none)
        × ((j : ℕ) (w : Worker) → get_elem? ws j ≡ some w → corre w ≡ none))
      ⊎ ((v : ℕ) × (q : ℕ) × (peor_desde query i ws none ≡ some (v, q))
          × Peor query ws (query q).prioridad
          × Corre ws i v q)
unfolding peor_desde
peor_desde-none query i [] = inl (refl, λ j w at. cc)
peor_desde-none query i (w ∷ ws) = elim (Option-cases (corre w)) [
  | inl nada ↦ elim (peor_desde-none query (suc i) ws) [
    | inl (e, nadie) ↦ inl (rw (nada, peor_desde) e, ociosos nadie nada)
    | inr (v, q, e, n, here) ↦ inr (
      v,
      q,
      rw (nada, peor_desde) e,
      Peor-cons query w ws _ (λ x c. absurd (cc (c, nada))) n,
      Corre-suc w ws i v q here,
    )
  ]
  | inr (x, c) ↦
      let (v, q, e, le, n, here) = peor_desde-some query (suc i) ws i x in
      inr (
        v,
        q,
        rw (c, peor_desde) e,
        Peor-cons query w ws _ (λ y c'. let same : x ≡ y = cc (c, c') in rw⁻¹ same le) n,
        elim here [
          | inl z ↦ (0, w, omega (arith, z.0), refl, c ∙ ap some (sym z.1))
          | inr z ↦ Corre-suc w ws i v q z
        ],
      )
]
  where
    ociosos :
        ((j : ℕ) (x : Worker) → get_elem? ws j ≡ some x → corre x ≡ none)
        → corre w ≡ none
        → (j : ℕ) (x : Worker) → get_elem? (w ∷ ws) j ≡ some x
        → corre x ≡ none
    ociosos nadie nada zero x at = let same : w ≡ x = cc at in ap corre (sym same) ∙ nada
    ociosos nadie nada (suc j) x at = nadie j x at

-- Of the queries that Workers run, `buscar_peor_query_en_ejecucion` gives one whose priority number no
-- other exceeds, with its Worker, and nothing only where no Worker runs one.
pub buscar_peor_query_en_ejecucion_lem :
    (query : ℕ → Query) (ws : List Worker)
    → ((buscar_peor_query_en_ejecucion query ws ≡ none)
        × ((j : ℕ) (w : Worker) → get_elem? ws j ≡ some w → corre w ≡ none))
      ⊎ ((v : ℕ) × (q : ℕ) × (buscar_peor_query_en_ejecucion query ws ≡ some (v, q))
          × Peor query ws (query q).prioridad
          × Corre ws 0 v q)
unfolding buscar_peor_query_en_ejecucion
buscar_peor_query_en_ejecucion_lem query ws = peor_desde-none query 0 ws

-- With priorities and a query waiting, a Worker is asked to evict exactly where some running query is
-- less urgent than the first one waiting: the one that is named is then strictly less urgent, and no
-- running query is less urgent than it; where none is named no running query is less urgent than the
-- first one waiting.
pub verificar_desalojo_lem :
    (m : Master) (mejor : ℕ) (resto : List ℕ)
    → m.prioridades ≡ true
    → m.cola_ready ≡ mejor ∷ resto
    → ((verificar_desalojo m ≡ none) × Peor m.query m.workers (m.query mejor).prioridad)
      ⊎ ((v : ℕ) × (q : ℕ) × (verificar_desalojo m ≡ some (v, q))
          × Corre m.workers 0 v q
          × Peor m.query m.workers (m.query q).prioridad
          × (ltb_ℤ (m.query mejor).prioridad (m.query q).prioridad ≡ true))
unfolding verificar_desalojo
verificar_desalojo_lem m mejor resto p e =
    elim (buscar_peor_query_en_ejecucion_lem m.query m.workers) [
      | inl (b, nadie) ↦ inl (
        rw (p, verificar_desalojo) (rw (e, verificar_desalojo) (rw (b, verificar_desalojo) refl)),
        λ j w q at c. absurd (cc (c, nadie j w at)),
      )
      | inr (v, q, b, n, here) ↦
          elim (Bool-cases (ltb_ℤ (m.query mejor).prioridad (m.query q).prioridad)) [
            | inl lt ↦ inr (
              v,
              q,
              rw (p, verificar_desalojo)
                  (rw (e, verificar_desalojo)
                    (rw (b, verificar_desalojo) (rw (lt, verificar_desalojo) refl))),
              here,
              n,
              lt,
            )
            | inr ge ↦ inl (
              rw (p, verificar_desalojo)
                  (rw (e, verificar_desalojo)
                    (rw (b, verificar_desalojo) (rw (ge, verificar_desalojo) refl))),
              λ j w x at c.
                  let a = n j w x at c in
                  let le : (m.query q).prioridad ≤ℤ (m.query mejor).prioridad = ground arith in
                  omega arith,
            )
          ]
    ]
