-- ===== src/Worker/Instrucciones/Numero.antt =====
-- worker/src/instrucciones.c: `parse_size_t_safe`, with `strtoul` of the C library in base ten.
use master_of_files.Base.{
  ℕ, ◌+◌, ◌-◌, ◌*◌, ◌%◌, ◌<◌, ◌≡◌, refl, Bool, true, false, ◌&&◌, Option, none, some, [], ◌∷◌, ◌++◌,
  ◌==◌, leb, if◌then◌else◌, arith, sym, ap, ◌∙◌, inl, inr, Bool-cases, append-nil,
}
use master_of_files.Base.Texto.{Texto}
use master_of_files.Worker.Instrucciones.{saltar, es_espacio}

abbrev pub es_digito : ℕ → Bool
es_digito c = leb 48 c && leb c 57

unfoldable pub leer_digitos : ℕ → Texto → ℕ × Texto
leer_digitos n [] = (n, [])
leer_digitos n (c ∷ cs) =
    let r = leer_digitos (n * 10 + (c - 48)) cs in if es_digito c then r else (n, c ∷ cs)

-- An `unsigned long` of 64 bits: a larger number gives the largest one, and a minus sign wraps around.
unfoldable pub ajuste : Bool → ℕ → ℕ
ajuste menos n =
    if leb 18446744073709551616 n
    then 18446744073709551615
    else if menos
    then (18446744073709551616 - n) % 18446744073709551616
    else n

-- The digits behind the sign; with none, the end is the start of the text.
unfoldable pub numero : Bool → Texto → Texto → ℕ × Texto
numero menos txt [] = (0, txt)
numero menos txt (c ∷ cs) =
    let r = leer_digitos 0 (c ∷ cs) in if es_digito c then (ajuste menos r.0, r.1) else (0, txt)

-- The value and `end`.
unfoldable pub strtoul : Texto → ℕ × Texto
strtoul txt = elim (saltar txt) [
  | [] ↦ (0, txt)
  | c ∷ cs ↦
      if c == b'-'
      then numero true txt cs
      else if c == b'+'
      then numero false txt cs
      else numero false txt (c ∷ cs)
]

unfoldable pub parse_size_t_safe : Texto → Option ℕ
parse_size_t_safe txt = let (val, end) = strtoul txt in elim end [ [] ↦ some val | _ ∷ _ ↦ none ]

-- Decimal digits, read from the first.
abbrev pub valor : ℕ → Texto → ℕ
valor n [] = n
valor n (c ∷ cs) = valor (n * 10 + (c - 48)) cs

abbrev pub digitos : Texto → Bool
digitos [] = true
digitos (c ∷ cs) = es_digito c && digitos cs

-- What does not go on with a digit.
abbrev pub corta_digitos : Texto → Bool
corta_digitos [] = true
corta_digitos (c ∷ cs) = if es_digito c then false else true

leer_digitos_lem :
    (n : ℕ) (ds s : Texto)
    → digitos ds ≡ true
    → corta_digitos s ≡ true
    → leer_digitos n (ds ++ s) ≡ (valor n ds, s)
unfolding leer_digitos
leer_digitos_lem n [] [] h k = refl
leer_digitos_lem n [] (x ∷ s) h k = elim (Bool-cases (es_digito x)) [
  | inl e ↦ absurd (cc (rw e at k))
  | inr e ↦ rw (e) refl
]
leer_digitos_lem n (c ∷ ds) s h k = elim (Bool-cases (es_digito c)) [
  | inl e ↦ rw (e) (leer_digitos_lem (n * 10 + (c - 48)) ds s (rw e at h) k)
  | inr e ↦ absurd (cc (rw e at h))
]

numero_lem :
    (menos : Bool) (txt : Texto) (c : ℕ) (ds s : Texto)
    → digitos (c ∷ ds) ≡ true
    → corta_digitos s ≡ true
    → numero menos txt ((c ∷ ds) ++ s) ≡ (ajuste menos (valor 0 (c ∷ ds)), s)
unfolding numero
numero_lem menos txt c ds s h k = elim (Bool-cases (es_digito c)) [
  | inl e ↦ rw (e, leer_digitos_lem 0 (c ∷ ds) s h k) refl
  | inr e ↦ absurd (cc (rw e at h))
]

es_digito_lem :
    (c : ℕ)
    → es_digito c ≡ true
    → (es_espacio c ≡ false) × ((c == b'-') ≡ false) × ((c == b'+') ≡ false)
es_digito_lem c h = ground arith

saltar_digito : (c : ℕ) (cs : Texto) → es_espacio c ≡ false → saltar (c ∷ cs) ≡ c ∷ cs
unfolding saltar
saltar_digito c cs e = rw (e) refl

strtoul_lem :
    (c : ℕ) (ds s : Texto)
    → digitos (c ∷ ds) ≡ true
    → corta_digitos s ≡ true
    → strtoul ((c ∷ ds) ++ s) ≡ (ajuste false (valor 0 (c ∷ ds)), s)
unfolding strtoul saltar
strtoul_lem c ds s h k = elim (Bool-cases (es_digito c)) [
  | inl e ↦
      let (a, b, d) = es_digito_lem c e in
      rw (saltar_digito c (ds ++ s) a, strtoul)
        (rw (b, d) (numero_lem false ((c ∷ ds) ++ s) c ds s h k))
  | inr e ↦ absurd (cc (rw e at h))
]

strtoul_menos :
    (c : ℕ) (ds s : Texto)
    → digitos (c ∷ ds) ≡ true
    → corta_digitos s ≡ true
    → strtoul (b'-' ∷ ((c ∷ ds) ++ s)) ≡ (ajuste true (valor 0 (c ∷ ds)), s)
unfolding strtoul saltar
strtoul_menos c ds s h k = numero_lem true (b'-' ∷ ((c ∷ ds) ++ s)) c ds s h k

ajuste_mas : (n : ℕ) → n < 18446744073709551616 → ajuste false n ≡ n
unfolding ajuste
ajuste_mas n h = let e : leb 18446744073709551616 n ≡ false = ground arith in rw (e) refl

ajuste_menos : (n : ℕ) → n < 18446744073709551616 → 0 < n → ajuste true n ≡ 18446744073709551616 - n
unfolding ajuste
ajuste_menos n h pos =
    let e : leb 18446744073709551616 n ≡ false = ground arith in rw (e) (omega arith)

parse_size_t_safe-some : (t : Texto) (v : ℕ) → strtoul t ≡ (v, []) → parse_size_t_safe t ≡ some v
unfolding parse_size_t_safe
parse_size_t_safe-some t v e =
    rw (ap (λ (r : ℕ × Texto). r.1) e, parse_size_t_safe) (ap (λ (r : ℕ × Texto). some r.0) e)

parse_size_t_safe-none :
    (t : Texto) (v x : ℕ) (s : Texto) → strtoul t ≡ (v, x ∷ s) → parse_size_t_safe t ≡ none
unfolding parse_size_t_safe
parse_size_t_safe-none t v x s e = rw (e, parse_size_t_safe) refl

-- The digits of a positive number below 2 ^ 64 are read as that number, and refused where a byte follows
-- that is no digit; with a minus sign before them they are read as 2 ^ 64 less that number.
pub parse_size_t_safe_lem :
    (c x : ℕ) (ds s : Texto)
    → digitos (c ∷ ds) ≡ true
    → es_digito x ≡ false
    → valor 0 (c ∷ ds) < 18446744073709551616
    → 0 < valor 0 (c ∷ ds)
    → (parse_size_t_safe (c ∷ ds) ≡ some (valor 0 (c ∷ ds)))
      × (parse_size_t_safe ((c ∷ ds) ++ x ∷ s) ≡ none)
      × (parse_size_t_safe (b'-' ∷ c ∷ ds) ≡ some (18446744073709551616 - valor 0 (c ∷ ds)))
parse_size_t_safe_lem c x ds s h n small pos = (
  parse_size_t_safe-some (c ∷ ds) _ (fin ∙ ap (λ (v : ℕ). (v, [])) (ajuste_mas _ small)),
  parse_size_t_safe-none ((c ∷ ds) ++ x ∷ s) _ x s (strtoul_lem c ds (x ∷ s) h (rw n refl)),
  parse_size_t_safe-some (b'-' ∷ c ∷ ds) _
      (fin_menos ∙ ap (λ (v : ℕ). (v, [])) (ajuste_menos _ small pos)),
)
  where
    fin : strtoul (c ∷ ds) ≡ (ajuste false (valor 0 (c ∷ ds)), [])
    fin = ap strtoul (sym (append-nil (c ∷ ds))) ∙ strtoul_lem c ds [] h refl

    fin_menos : strtoul (b'-' ∷ c ∷ ds) ≡ (ajuste true (valor 0 (c ∷ ds)), [])
    fin_menos =
        ap (λ (t : Texto). strtoul (b'-' ∷ t)) (sym (append-nil (c ∷ ds)))
        ∙ strtoul_menos c ds [] h refl
