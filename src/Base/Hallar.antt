-- ===== src/Base/Hallar.antt =====
-- The first element of a list that passes a test, and where it stands.
use mathlib.Core.Path.{◌≡◌, refl, ◌∙◌}
use mathlib.Core.Bool.{Bool, false}
use mathlib.Core.Option
use mathlib.Core.Option.{Option, none, some}
use mathlib.Core.Logic.{inl, inr}
use mathlib.Core.List.{List, [], ◌∷◌, ◌++◌}
use Prim.Native.Nat.{ℕ, zero, suc}
use native.Mathlib.Omega.{arith}
use master_of_files.Base.Tests.{if◌then◌else◌, Bool-cases}
use master_of_files.Base.Lists.{get_elem?, modify, find_index}

abbrev pub en_indice {ℓ} : {A : Type ℓ} → List A → Option ℕ → Option A
en_indice xs none = none
en_indice xs (some i) = get_elem? xs i

abbrev pub o_si_no {ℓ} : {A : Type ℓ} → Option A → Option A → Option A
o_si_no none z = z
o_si_no (some x) z = some x

module _ {ℓ} {A : Type ℓ} where
  abbrev pub hallar : (A → Bool) → List A → Option A
  hallar p [] = none
  hallar p (x ∷ xs) = if p x then some x else hallar p xs

  en_indice-suc :
      (x : A) (xs : List A) (o : Option ℕ) → en_indice (x ∷ xs) (Option.map suc o) ≡ en_indice xs o
  en_indice-suc x xs none = refl
  en_indice-suc x xs (some i) = refl

  pub en_indice-find_index :
      (p : A → Bool) (xs : List A) → en_indice xs (find_index p xs) ≡ hallar p xs
  unfolding find_index
  en_indice-find_index p [] = refl
  en_indice-find_index p (x ∷ xs) = elim (Bool-cases (p x)) [
    | inl h ↦ rw h refl
    | inr h ↦ rw h (en_indice-suc x xs (find_index p xs) ∙ en_indice-find_index p xs)
  ]

  pub hallar-append :
      (p : A → Bool) (xs ys : List A) → hallar p (xs ++ ys) ≡ o_si_no (hallar p xs) (hallar p ys)
  hallar-append p [] ys = refl
  hallar-append p (x ∷ xs) ys = elim (Bool-cases (p x)) [
    | inl h ↦ rw h refl
    | inr h ↦ rw h (hallar-append p xs ys)
  ]

  pub hallar-modify_self :
      (p : A → Bool) (xs : List A) (i : ℕ) (g : A → A)
      → ((x : A) → p (g x) ≡ p x)
      → find_index p xs ≡ some i
      → hallar p (modify xs i g) ≡ Option.map g (hallar p xs)
  unfolding find_index
  hallar-modify_self p [] i g keep e = cc
  hallar-modify_self p (x ∷ xs) zero g keep e = elim (Bool-cases (p x)) [
    | inl h ↦ rw (keep x, h) refl
    | inr h ↦ absurd (ground arith)
  ]
  hallar-modify_self p (x ∷ xs) (suc i) g keep e = elim (Bool-cases (p x)) [
    | inl h ↦ absurd (ground arith)
    | inr h ↦ rw h (hallar-modify_self p xs i g keep (ground arith))
  ]

  pub hallar-modify_ne :
      (p : A → Bool) (xs : List A) (i : ℕ) (g : A → A)
      → ((x : A) → p (g x) ≡ p x)
      → ((x : A) → get_elem? xs i ≡ some x → p x ≡ false)
      → hallar p (modify xs i g) ≡ hallar p xs
  hallar-modify_ne p [] i g keep h = refl
  hallar-modify_ne p (x ∷ xs) zero g keep h = rw (keep x, h x refl) refl
  hallar-modify_ne p (x ∷ xs) (suc i) g keep h = elim (Bool-cases (p x)) [
    | inl q ↦ rw q refl
    | inr q ↦ rw q (hallar-modify_ne p xs i g keep h)
  ]
