-- ===== src/Base/Trozos.antt =====
-- Slices of lists: what is read in an append, after a `take` or a `drop`, and in a list with a part
-- replaced; and the addresses of the bytes of a page.
use native.Mathlib.Nat.{
  div-eq_of_lt, div-add-mod', mod-lt, mul-add-div_right, mul-add-mod_self_right, mod-eq_of_lt,
}
use Prim.Native.Nat.{ℕ, zero, suc, ◌+◌, ◌*◌, ◌/◌, ◌%◌, ◌<◌, ◌≤◌}
use mathlib.Core.Path.{◌≡◌, refl, ap, sym, ◌∙◌}
use mathlib.Core.List.{List, [], ◌∷◌, ◌++◌}
use native.Mathlib.Omega.{arith}
use master_of_files.Base.Lists.{
  length, get_elem?, take, drop, length-take, length-drop, length-append,
}

module _ {ℓ} {A : Type ℓ} where
  pub get_elem?-append_left :
      (xs ys : List A) (i : ℕ) → i < length xs → get_elem? (xs ++ ys) i ≡ get_elem? xs i
  get_elem?-append_left [] ys i h = elim h [ ]
  get_elem?-append_left (x ∷ xs) ys zero h = refl
  get_elem?-append_left (x ∷ xs) ys (suc i) h = get_elem?-append_left xs ys i (omega arith)

  pub get_elem?-append_right :
      (xs ys : List A) (i : ℕ) → get_elem? (xs ++ ys) (length xs + i) ≡ get_elem? ys i
  get_elem?-append_right [] ys i = ap (λ (n : ℕ). get_elem? ys n) (omega arith)
  get_elem?-append_right (x ∷ xs) ys i =
      ap (λ (n : ℕ). get_elem? (x ∷ xs ++ ys) n) same ∙ get_elem?-append_right xs ys i
    where
      same : suc (length xs) + i ≡ suc (length xs + i)
      same = omega arith

  pub get_elem?-take :
      (n : ℕ) (xs : List A) (i : ℕ) → i < n → get_elem? (take n xs) i ≡ get_elem? xs i
  get_elem?-take zero xs i h = elim h [ ]
  get_elem?-take (suc n) [] i h = refl
  get_elem?-take (suc n) (x ∷ xs) zero h = refl
  get_elem?-take (suc n) (x ∷ xs) (suc i) h = get_elem?-take n xs i (omega arith)

  pub get_elem?-drop :
      (n : ℕ) (xs : List A) (i : ℕ) → get_elem? (drop n xs) i ≡ get_elem? xs (n + i)
  get_elem?-drop zero xs i = ap (λ (n : ℕ). get_elem? xs n) (omega arith)
  get_elem?-drop (suc n) [] i = refl
  get_elem?-drop (suc n) (x ∷ xs) i =
      get_elem?-drop n xs i ∙ ap (λ (m : ℕ). get_elem? (x ∷ xs) m) same
    where
      same : suc (n + i) ≡ suc n + i
      same = omega arith

  -- `xs` with `n` bytes from `off` replaced by the first `n` of `ys`.
  abbrev pub pegar : ℕ → ℕ → List A → List A → List A
  pegar off n ys xs = take off xs ++ (take n ys ++ drop (off + n) xs)

  module _ (off n : ℕ) (ys xs : List A) (fits : off + n ≤ length xs) (full : n ≤ length ys) where
    pub length-pegar : length (pegar off n ys xs) ≡ length xs
    length-pegar = omega (
      arith,
      length-append (take off xs) (take n ys ++ drop (off + n) xs),
      length-append (take n ys) (drop (off + n) xs),
      length-take off xs,
      length-take n ys,
      length-drop (off + n) xs,
    )

    first : length (take off xs) ≡ off
    first = omega (arith, length-take off xs)

    second : length (take n ys) ≡ n
    second = omega (arith, length-take n ys)

    pub get_elem?-pegar_before :
        (i : ℕ) → i < off → get_elem? (pegar off n ys xs) i ≡ get_elem? xs i
    get_elem?-pegar_before i h =
        get_elem?-append_left (take off xs) _ i (omega (arith, first)) ∙ get_elem?-take off xs i h

    tail :
        (i : ℕ)
        → get_elem? (pegar off n ys xs) (off + i) ≡ get_elem? (take n ys ++ drop (off + n) xs) i
    tail i =
        ap (λ (m : ℕ). get_elem? (pegar off n ys xs) (m + i)) (sym first)
        ∙ get_elem?-append_right (take off xs) (take n ys ++ drop (off + n) xs) i

    pub get_elem?-pegar_in :
        (i : ℕ) → i < n → get_elem? (pegar off n ys xs) (off + i) ≡ get_elem? ys i
    get_elem?-pegar_in i h =
        tail i
        ∙ get_elem?-append_left (take n ys) (drop (off + n) xs) i (omega (arith, second))
        ∙ get_elem?-take n ys i h

    pub get_elem?-pegar_after :
        (i : ℕ) → get_elem? (pegar off n ys xs) (off + n + i) ≡ get_elem? xs (off + n + i)
    get_elem?-pegar_after i =
        ap (λ (m : ℕ). get_elem? (pegar off n ys xs) m) shift
        ∙ tail (n + i)
        ∙ ap (λ (m : ℕ). get_elem? (take n ys ++ drop (off + n) xs) (m + i)) (sym second)
        ∙ get_elem?-append_right (take n ys) (drop (off + n) xs) i
        ∙ get_elem?-drop (off + n) xs i
      where
        shift : off + n + i ≡ off + (n + i)
        shift = omega arith

-- The page of an address is known by its bounds.
pub pagina_de : (tam a p o : ℕ) → o < tam → a ≡ p * tam + o → (a / tam ≡ p) × (a % tam ≡ o)
pagina_de tam a p o h e = (
  ap (λ (n : ℕ). n / tam) e
      ∙ mul-add-div_right (omega arith) p o
      ∙ ap (λ (n : ℕ). p + n) (div-eq_of_lt h)
      ∙ omega arith,
  ap (λ (n : ℕ). n % tam) e ∙ mul-add-mod_self_right p tam o ∙ mod-eq_of_lt h,
)

pub direccion_de : (tam a : ℕ) → 0 < tam → (a ≡ a / tam * tam + a % tam) × (a % tam < tam)
direccion_de tam a h = (sym (div-add-mod' a tam), mod-lt a h)
