-- ===== src/Base/Lists.antt =====
-- Lists measured and indexed by native numbers, under the library's names.
use Prim.Native.Nat.{ℕ, zero, suc, ◌+◌, ◌-◌, ◌<◌, ◌≤◌, min}
use mathlib.Core.Path.{◌≡◌, refl, ap}
use mathlib.Core.Logic.{◌≢◌, ◌⊎◌, inl, inr}
use mathlib.Core.Bool.{Bool, true, false}
use mathlib.Core.Option
use mathlib.Core.List.{List, [], ◌∷◌, ◌++◌, map}
use mathlib.Core.Option.{Option, none, some}
use native.Mathlib.Omega.{arith}
use master_of_files.Base.Tests.{Bool-cases, if◌then◌else◌}

module _ {ℓ} {A : Type ℓ} where
  abbrev pub length : List A → ℕ
  length [] = 0
  length (x ∷ xs) = suc (length xs)

  abbrev pub get_elem? : List A → ℕ → Option A
  get_elem? [] i = none
  get_elem? (x ∷ xs) zero = some x
  get_elem? (x ∷ xs) (suc i) = get_elem? xs i

  -- A write out of bounds changes nothing.
  abbrev pub set : List A → ℕ → A → List A
  set [] i v = []
  set (x ∷ xs) zero v = v ∷ xs
  set (x ∷ xs) (suc i) v = x ∷ set xs i v

  pub length-append : (xs ys : List A) → length (xs ++ ys) ≡ length xs + length ys
  length-append [] ys = omega arith
  length-append (x ∷ xs) ys = omega (arith, length-append xs ys)

module _ {ℓ} {A : Type ℓ} where
  pub length-set : (xs : List A) (i : ℕ) (v : A) → length (set xs i v) ≡ length xs
  length-set [] i v = refl
  length-set (x ∷ xs) zero v = refl
  length-set (x ∷ xs) (suc i) v = ap suc (length-set xs i v)

  pub get_elem?-set_self :
      (xs : List A) (i : ℕ) (v : A) → i < length xs → get_elem? (set xs i v) i ≡ some v
  get_elem?-set_self [] i v h = elim h [ ]
  get_elem?-set_self (x ∷ xs) zero v h = refl
  get_elem?-set_self (x ∷ xs) (suc i) v h = get_elem?-set_self xs i v (omega arith)

  pub get_elem?-set_ne :
      (xs : List A) {i j : ℕ} (v : A) → i ≢ j → get_elem? (set xs i v) j ≡ get_elem? xs j
  get_elem?-set_ne [] v h = refl
  get_elem?-set_ne (x ∷ xs) {i = zero} {j = zero} v h = absurd (h refl)
  get_elem?-set_ne (x ∷ xs) {i = zero} {j = suc j} v h = refl
  get_elem?-set_ne (x ∷ xs) {i = suc i} {j = zero} v h = refl
  get_elem?-set_ne (x ∷ xs) {i = suc i} {j = suc j} v h = get_elem?-set_ne xs v (λ e. h (ap suc e))

module _ {ℓ} {A : Type ℓ} where
  abbrev pub get_or : List A → ℕ → A → A
  get_or [] i d = d
  get_or (x ∷ xs) zero d = x
  get_or (x ∷ xs) (suc i) d = get_or xs i d

  abbrev pub take : ℕ → List A → List A
  take zero ys = []
  take (suc n) [] = []
  take (suc n) (a ∷ ys) = a ∷ take n ys

  abbrev pub drop : ℕ → List A → List A
  drop zero ys = ys
  drop (suc n) [] = []
  drop (suc n) (a ∷ ys) = drop n ys

  abbrev pub replicate : ℕ → A → List A
  replicate zero a = []
  replicate (suc n) a = a ∷ replicate n a

  pub take-append-drop : (n : ℕ) (xs : List A) → take n xs ++ drop n xs ≡ xs
  take-append-drop zero xs = refl
  take-append-drop (suc n) [] = refl
  take-append-drop (suc n) (x ∷ xs) = rw (take-append-drop n xs)

  pub length-take : (n : ℕ) (xs : List A) → length (take n xs) ≡ min n (length xs)
  length-take zero xs = omega arith
  length-take (suc n) [] = omega arith
  length-take (suc n) (x ∷ xs) = omega (arith, length-take n xs)

  pub length-drop : (n : ℕ) (xs : List A) → length (drop n xs) ≡ length xs - n
  length-drop zero xs = omega arith
  length-drop (suc n) [] = omega arith
  length-drop (suc n) (x ∷ xs) = omega (arith, length-drop n xs)

  pub length-replicate : (n : ℕ) (a : A) → length (replicate n a) ≡ n
  length-replicate zero a = refl
  length-replicate (suc n) a = ap suc (length-replicate n a)

  pub get_elem?-replicate :
      (n : ℕ) (a : A) (i : ℕ) (x : A) → get_elem? (replicate n a) i ≡ some x → x ≡ a
  get_elem?-replicate zero a i x e = cc
  get_elem?-replicate (suc n) a zero x e = cc e
  get_elem?-replicate (suc n) a (suc i) x e = get_elem?-replicate n a i x e

  pub length-map {κ} : {B : Type κ} (xs : List A) (f : A → B) → length (map f xs) ≡ length xs
  length-map [] f = refl
  length-map (x ∷ xs) f = ap suc (length-map xs f)

module _ {ℓ} {A : Type ℓ} where
  -- The index of the first element that passes a test.
  unfoldable pub find_index : (A → Bool) → List A → Option ℕ
  find_index p [] = none
  find_index p (x ∷ xs) =
      let rest = Option.map suc (find_index p xs) in if p x then some 0 else rest

  pub find_index_sound :
      (p : A → Bool) (xs : List A) (i : ℕ)
      → find_index p xs ≡ some i
      → (x : A) × (get_elem? xs i ≡ some x) × (p x ≡ true)
  unfolding find_index
  find_index_sound p [] i e = cc
  find_index_sound p (x ∷ xs) zero e = elim (Bool-cases (p x)) [
    | inl h ↦ (x, refl, h)
    | inr h ↦ absurd (ground arith)
  ]
  find_index_sound p (x ∷ xs) (suc i) e = elim (Bool-cases (p x)) [
    | inl h ↦ absurd (ground arith)
    | inr h ↦ find_index_sound p xs i (ground arith)
  ]

  pub find_index-none :
      (p : A → Bool) (xs : List A) (i : ℕ) (x : A)
      → find_index p xs ≡ none
      → get_elem? xs i ≡ some x
      → p x ≡ false
  unfolding find_index
  find_index-none p [] i x e g = cc
  find_index-none p (y ∷ xs) zero x e g = ground arith
  find_index-none p (y ∷ xs) (suc i) x e g = find_index-none p xs i x (ground arith) g

  abbrev pub modify : List A → ℕ → (A → A) → List A
  modify [] i f = []
  modify (x ∷ xs) zero f = f x ∷ xs
  modify (x ∷ xs) (suc i) f = x ∷ modify xs i f

  pub length-modify : (xs : List A) (i : ℕ) (f : A → A) → length (modify xs i f) ≡ length xs
  length-modify [] i f = refl
  length-modify (x ∷ xs) zero f = refl
  length-modify (x ∷ xs) (suc i) f = ap suc (length-modify xs i f)

  pub get_elem?-modify_self :
      (xs : List A) (i : ℕ) (f : A → A)
      → get_elem? (modify xs i f) i ≡ Option.map f (get_elem? xs i)
  get_elem?-modify_self [] i f = refl
  get_elem?-modify_self (x ∷ xs) zero f = refl
  get_elem?-modify_self (x ∷ xs) (suc i) f = get_elem?-modify_self xs i f

  pub get_elem?-modify_ne :
      (xs : List A) {i j : ℕ} (f : A → A) → i ≢ j → get_elem? (modify xs i f) j ≡ get_elem? xs j
  get_elem?-modify_ne [] f h = refl
  get_elem?-modify_ne (x ∷ xs) {i = zero} {j = zero} f h = absurd (h refl)
  get_elem?-modify_ne (x ∷ xs) {i = zero} {j = suc j} f h = refl
  get_elem?-modify_ne (x ∷ xs) {i = suc i} {j = zero} f h = refl
  get_elem?-modify_ne (x ∷ xs) {i = suc i} {j = suc j} f h =
      get_elem?-modify_ne xs f (λ e. h (ap suc e))

  pub get_elem?-lt : (xs : List A) (i : ℕ) (x : A) → get_elem? xs i ≡ some x → i < length xs
  get_elem?-lt [] i x e = cc
  get_elem?-lt (y ∷ xs) zero x e = omega arith
  get_elem?-lt (y ∷ xs) (suc i) x e = omega (arith, get_elem?-lt xs i x e)

  pub get_elem?_total : (xs : List A) (i : ℕ) → i < length xs → (x : A) × (get_elem? xs i ≡ some x)
  get_elem?_total [] i h = elim h [ ]
  get_elem?_total (x ∷ xs) zero h = (x, refl)
  get_elem?_total (x ∷ xs) (suc i) h = get_elem?_total xs i (omega arith)

  -- What is read after `modify`: the changed element at its index, and the old one elsewhere.
  pub modify-cases :
      (xs : List A) (i j : ℕ) (f : A → A) (y : A)
      → get_elem? (modify xs i f) j ≡ some y
      → ((i ≡ j) × (x : A) × (get_elem? xs j ≡ some x) × (y ≡ f x))
        ⊎ ((i ≢ j) × (get_elem? xs j ≡ some y))
  modify-cases [] i j f y h = cc
  modify-cases (x ∷ xs) zero zero f y h = inl (refl, x, refl, ground arith)
  modify-cases (x ∷ xs) zero (suc j) f y h = inr (λ e. omega arith, h)
  modify-cases (x ∷ xs) (suc i) zero f y h = inr (λ e. omega arith, h)
  modify-cases (x ∷ xs) (suc i) (suc j) f y h = elim (modify-cases xs i j f y h) [
    | inl (e, z, g, q) ↦ inl (ap suc e, z, g, q)
    | inr (e, g) ↦ inr (λ p. e (omega arith), g)
  ]

  pub take_of_length-le : (k : ℕ) (ys : List A) → length ys ≤ k → take k ys ≡ ys
  take_of_length-le zero [] le = refl
  take_of_length-le (suc k) [] le = refl
  take_of_length-le zero (a ∷ ys) le = absurd (omega arith)
  take_of_length-le (suc k) (a ∷ ys) le = ap (◌∷◌ a) (take_of_length-le k ys (omega arith))

  pub drop_of_length-le : (n : ℕ) (xs : List A) → length xs ≤ n → drop n xs ≡ []
  drop_of_length-le zero [] h = refl
  drop_of_length-le zero (x ∷ xs) h = absurd (omega arith)
  drop_of_length-le (suc n) [] h = refl
  drop_of_length-le (suc n) (x ∷ xs) h = drop_of_length-le n xs (omega arith)

  pub modify-none : (xs : List A) (i : ℕ) (f : A → A) → get_elem? xs i ≡ none → modify xs i f ≡ xs
  modify-none [] i f h = refl
  modify-none (x ∷ xs) zero f h = cc
  modify-none (x ∷ xs) (suc i) f h = ap (◌∷◌ x) (modify-none xs i f h)

module _ {ℓ} {A : Type ℓ} where
  -- Two lists that are read alike are one.
  pub eq_of_get_elem? :
      (xs ys : List A)
      → length xs ≡ length ys
      → ((j : ℕ) → j < length xs → get_elem? xs j ≡ get_elem? ys j)
      → xs ≡ ys
  eq_of_get_elem? [] [] e h = refl
  eq_of_get_elem? [] (y ∷ ys) e h = absurd (omega arith)
  eq_of_get_elem? (x ∷ xs) [] e h = absurd (omega arith)
  eq_of_get_elem? (x ∷ xs) (y ∷ ys) e h =
      let head : x ≡ y = cc (h 0 (omega arith)) in
      let tail : xs ≡ ys = eq_of_get_elem? xs ys (omega arith) (λ j l. h (suc j) (omega arith)) in
      cc (head, tail)
