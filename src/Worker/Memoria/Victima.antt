-- ===== src/Worker/Memoria/Victima.antt =====
-- worker/src/memoria_Interna.c: which frame `algoritmo_LRU` chooses.
use master_of_files.Base.{
  ℕ, zero, suc, ◌+◌, ◌-◌, ◌^◌, ◌≤◌, ◌<◌, ◌≡◌, refl, ◌⊎◌, inl, inr, true, false, not, ◌&&◌, Option,
  none, some, List, [], ◌∷◌, ltb, get_elem?, arith, Bool-cases,
}
use master_of_files.Worker.Memoria.{Marco, lru_desde, algoritmo_lru}

abbrev pub Ocupado : List Marco → ℕ → Marco → Type 0
Ocupado fs i f = (get_elem? fs i ≡ some f) × (f.libre ≡ false)

-- No frame in use was used before `t`.
abbrev pub NadieAntes : List Marco → ℕ → Type 0
NadieAntes fs t = (j : ℕ) (g : Marco) → Ocupado fs j g → t ≤ g.last_used

NadieAntes-cons :
    (f : Marco) (fs : List Marco) (t : ℕ)
    → (f.libre ≡ false → t ≤ f.last_used)
    → NadieAntes fs t
    → NadieAntes (f ∷ fs) t
NadieAntes-cons f fs t h n zero g (e, l) = ground arith
NadieAntes-cons f fs t h n (suc j) g o = n j g o

lru_desde-some :
    (i : ℕ) (fs : List Marco) (victima : Option ℕ) (peor v : ℕ)
    → lru_desde i fs victima peor ≡ some v
    → ((victima ≡ some v) × NadieAntes fs peor)
      ⊎ ((j : ℕ) × (f : Marco) × (v ≡ i + j)
          × Ocupado fs j f
          × (f.last_used < peor)
          × NadieAntes fs f.last_used)
unfolding lru_desde
lru_desde-some i [] victima peor v e = inl (e, λ j g o. absurd (ground arith))
lru_desde-some i (f ∷ fs) victima peor v e =
    elim (Bool-cases (not f.libre && ltb f.last_used peor)) [
      | inl mejor ↦ elim (lru_desde-some (suc i) fs (some i) f.last_used v (rw mejor at e)) [
        | inl (here, n) ↦ inr (
          0,
          f,
          ground arith,
          (refl, ground arith),
          ground arith,
          NadieAntes-cons f fs f.last_used (λ l. omega arith) n,
        )
        | inr (j, g, at, o, before, n) ↦ inr (
          suc j,
          g,
          omega arith,
          o,
          ground arith,
          NadieAntes-cons f fs g.last_used (λ l. omega arith) n,
        )
      ]
      | inr peor_que ↦ elim (lru_desde-some (suc i) fs victima peor v (rw peor_que at e)) [
        | inl (here, n) ↦ inl (here, NadieAntes-cons f fs peor (λ l. ground arith) n)
        | inr (j, g, at, o, before, n) ↦ inr (
          suc j,
          g,
          omega arith,
          o,
          before,
          NadieAntes-cons f fs g.last_used (λ l. ground arith) n,
        )
      ]
    ]

-- LRU chooses a frame in use, and no frame in use was last used before it.
pub algoritmo_lru_oldest :
    (fs : List Marco) (v : ℕ)
    → algoritmo_lru fs ≡ some v
    → (f : Marco) × Ocupado fs v f × NadieAntes fs f.last_used
unfolding algoritmo_lru
algoritmo_lru_oldest fs v e = elim (lru_desde-some 0 fs none (2 ^ 64 - 1) v e) [
  | inl (bad, n) ↦ absurd (ground arith)
  | inr (j, f, at, o, before, n) ↦ let same : v ≡ j = omega arith in (f, rw same o, n)
]

lru_desde_keeps :
    (i : ℕ) (fs : List Marco) (a peor : ℕ) → (v : ℕ) × (lru_desde i fs (some a) peor ≡ some v)
unfolding lru_desde
lru_desde_keeps i [] a peor = (a, refl)
lru_desde_keeps i (x ∷ fs) a peor = elim (Bool-cases (not x.libre && ltb x.last_used peor)) [
  | inl mejor ↦ rw mejor (lru_desde_keeps (suc i) fs i x.last_used)
  | inr otro ↦ rw otro (lru_desde_keeps (suc i) fs a peor)
]

lru_desde_finds :
    (i : ℕ) (fs : List Marco) (peor j : ℕ) (f : Marco)
    → Ocupado fs j f
    → f.last_used < peor
    → (v : ℕ) × (lru_desde i fs none peor ≡ some v)
unfolding lru_desde
lru_desde_finds i [] peor j f o h = absurd (ground arith)
lru_desde_finds i (x ∷ fs) peor zero f o h =
    let mejor : (not x.libre && ltb x.last_used peor) ≡ true = ground arith in
    rw mejor (lru_desde_keeps (suc i) fs i x.last_used)
lru_desde_finds i (x ∷ fs) peor (suc j) f o h =
    elim (Bool-cases (not x.libre && ltb x.last_used peor)) [
      | inl mejor ↦ rw mejor (lru_desde_keeps (suc i) fs i x.last_used)
      | inr otro ↦ rw otro (lru_desde_finds (suc i) fs peor j f o h)
    ]

-- It finds one whenever some frame in use has a time below the largest `uint64_t`.
algoritmo_lru_finds :
    (fs : List Marco) (j : ℕ) (f : Marco)
    → Ocupado fs j f
    → f.last_used < 2 ^ 64 - 1
    → (v : ℕ) × (algoritmo_lru fs ≡ some v)
unfolding algoritmo_lru
algoritmo_lru_finds fs j f o h = lru_desde_finds 0 fs (2 ^ 64 - 1) j f o h
