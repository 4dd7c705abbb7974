-- ===== src/Master/Aging.antt =====
-- master/src/master_planificacion.c: one period of `aging_ready`.
use master_of_files.Base.{
  ℕ, zero, suc, ◌≡◌, refl, ◌≢◌, inl, inr, false, some, List, [], ◌∷◌, ◌==◌, get_elem?, arith, ◌∙◌,
  ap, subst, sym, ◌⊎◌, Bool-cases,
}
use master_of_files.Base.Int.{ℤ, pos, negsuc, ◌-ℤ◌, ◌≤ℤ◌}
use master_of_files.Master.Datos.{Query, escribir}
use master_of_files.Master.Planificacion.{envejecer, envejecer_cola}

-- No address stands twice in a queue.
abbrev pub SinRepetir : List ℕ → Type 0
SinRepetir cola = (j k a : ℕ) → get_elem? cola j ≡ some a → get_elem? cola k ≡ some a → j ≡ k

cola_fuera :
    (query : ℕ → Query) (cola : List ℕ) (a : ℕ)
    → ((k : ℕ) → get_elem? cola k ≢ some a)
    → envejecer_cola query cola a ≡ query a
unfolding envejecer_cola
cola_fuera query [] a n = refl
cola_fuera query (b ∷ cola) a n =
    let other : (a == b) ≡ false = elim (Bool-cases (a == b)) [
      | inl q ↦ let same : b ≡ a = ground arith in absurd (n 0 (ap some same))
      | inr q ↦ q
    ] in
    cola_fuera (escribir query b envejecer) cola a (λ k. n (suc k)) ∙ rw other refl

envejecer_mono :
    (a b : Query) → a.prioridad ≤ℤ b.prioridad → (envejecer a).prioridad ≤ℤ (envejecer b).prioridad
envejecer_mono a b le = ground arith

cola_dentro :
    (query : ℕ → Query) (cola : List ℕ)
    → SinRepetir cola
    → (k a : ℕ) → get_elem? cola k ≡ some a
    → envejecer_cola query cola a ≡ envejecer (query a)
unfolding envejecer_cola
cola_dentro query [] n k a e = cc
cola_dentro query (b ∷ cola) n zero a e =
    let same : b ≡ a = cc e in
    cola_fuera (escribir query b envejecer) cola a
      (λ k e'. let bad = n 0 (suc k) a e e' in omega arith)
    ∙ rw same (ground arith)
cola_dentro query (b ∷ cola) n (suc k) a e =
    let other : (a == b) ≡ false = elim (Bool-cases (a == b)) [
      | inl q ↦
          let same : b ≡ a = ground arith in
          let bad = n 0 (suc k) a (ap some same) e in absurd (omega arith)
      | inr q ↦ q
    ] in
    cola_dentro (escribir query b envejecer) cola
      (λ i j c x y. let z = n (suc i) (suc j) c x y in omega arith) k a e
    ∙ rw other refl

-- How a priority number ages: one less, and not below zero.
abbrev pub Edad : Query → Query → Type 0
Edad q q' =
    ((q.prioridad ≤ℤ pos 0) × (q' ≡ q))
    ⊎ ((pos 1 ≤ℤ q.prioridad) × (q' ≡ record q { prioridad = q.prioridad -ℤ pos 1 }))

envejecer-Edad :
    (q : Query) (p : ℤ) → Edad (record q { prioridad = p }) (envejecer (record q { prioridad = p }))
unfolding ◌-ℤ◌
envejecer-Edad q (pos zero) = inl (omega arith, refl)
envejecer-Edad q (pos (suc n)) =
    inr (omega arith, ap (λ x. record q { prioridad = x }) (ground arith))
envejecer-Edad q (negsuc n) = inl (omega arith, refl)

-- Where no query stands twice in READY, a period of aging takes one from the priority number of each query that
-- waits, unless it is zero or less, and leaves the rest of it and every other query as they were. No query that
-- waits overtakes another: one whose number was not the greater is not the greater after.
pub envejecer_cola_lem :
    (query : ℕ → Query) (cola : List ℕ)
    → SinRepetir cola
    → ((k a : ℕ) → get_elem? cola k ≡ some a → Edad (query a) (envejecer_cola query cola a))
      × ((a : ℕ) → ((k : ℕ) → get_elem? cola k ≢ some a) → envejecer_cola query cola a ≡ query a)
      × ((j k a b : ℕ)
          → get_elem? cola j ≡ some a
          → get_elem? cola k ≡ some b
          → (query a).prioridad ≤ℤ (query b).prioridad
          → (envejecer_cola query cola a).prioridad ≤ℤ (envejecer_cola query cola b).prioridad)
envejecer_cola_lem query cola n = (
  λ k a e.
      subst (Edad (query a)) (sym (cola_dentro query cola n k a e))
        (envejecer-Edad (query a) (query a).prioridad),
  λ a f. cola_fuera query cola a f,
  λ j k a b e e' le.
      let x = ap (λ (q : Query). q.prioridad) (cola_dentro query cola n j a e) in
      let y = ap (λ (q : Query). q.prioridad) (cola_dentro query cola n k b e') in
      rw (x, y) (envejecer_mono (query a) (query b) le),
)
