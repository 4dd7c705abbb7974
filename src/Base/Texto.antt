-- ===== src/Base/Texto.antt =====
-- C strings: lists of bytes with no terminating zero. `strcmp(a, b) == 0` is `texto_eq`.
use Prim.Native.Char.{code}
use Prim.Native.String.{String}
use Prim.Native.Nat.{ℕ}
use mathlib.Core.Path.{◌≡◌, refl}
use mathlib.Core.Bool.{Bool, true, false, ◌&&◌, ◌||◌}
use mathlib.Core.List.{List, [], ◌∷◌}
use mathlib.Core.Logic.{◌↔◌}
use native.Mathlib.Omega.{arith}
use master_of_files.Base.Tests.{◌==◌, if◌then◌else◌}

abbrev pub Texto : Type 0
Texto = List ℕ

-- A literal of the source as its bytes.
abbrev pub codes : String → Texto
codes String.[] = []
codes (String.◌∷◌ c s) = code c ∷ codes s

unfoldable pub texto_eq : Texto → Texto → Bool
texto_eq [] [] = true
texto_eq [] (y ∷ ys) = false
texto_eq (x ∷ xs) [] = false
texto_eq (x ∷ xs) (y ∷ ys) = (x == y) && texto_eq xs ys

pub texto_eq_sound : (a b : Texto) → texto_eq a b ≡ true → a ≡ b
unfolding texto_eq
texto_eq_sound [] [] h = refl
texto_eq_sound [] (y ∷ ys) h = cc
texto_eq_sound (x ∷ xs) [] h = cc
texto_eq_sound (x ∷ xs) (y ∷ ys) h = ground (arith, texto_eq_sound xs ys)

pub texto_eq_refl : (a : Texto) → texto_eq a a ≡ true
unfolding texto_eq
texto_eq_refl [] = refl
texto_eq_refl (x ∷ xs) = ground (arith, texto_eq_refl xs)

pub texto_eq_iff : (a b : Texto) → (texto_eq a b ≡ true) ↔ (a ≡ b)
texto_eq_iff a b = (texto_eq_sound a b, λ e. rw e (texto_eq_refl b))

-- Whether a byte occurs in a string.
unfoldable pub tiene : ℕ → Texto → Bool
tiene b [] = false
tiene b (x ∷ xs) = (x == b) || tiene b xs

-- The C string in a field of bytes: what comes before the first zero.
abbrev pub cadena : List ℕ → Texto
cadena [] = []
cadena (c ∷ cs) = let r = cadena cs in if c == 0 then [] else c ∷ r
