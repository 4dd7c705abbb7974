-- ===== src/Master/Tests/Insercion.antt =====
-- A sort by insertion, which does what `list_sort` documents.
use master_of_files.Base.{
  ℕ, zero, suc, ◌≡◌, refl, ◌⊎◌, ◌↔◌, inl, inr, Bool, true, false, some, List, [], ◌∷◌,
  if◌then◌else◌, get_elem?, length, arith, sym, ◌∙◌, ap, subst, Bool-cases,
}
use master_of_files.Master.Cola.{Esta, Ordena}
use master_of_files.Master.Alcance.{veces, Permuta}

unfoldable pub insertar : (ℕ → ℕ → Bool) → ℕ → List ℕ → List ℕ
insertar cmp x [] = x ∷ []
insertar cmp x (y ∷ ys) = let rest = insertar cmp x ys in if cmp y x then y ∷ rest else x ∷ y ∷ ys

unfoldable pub insercion : (ℕ → ℕ → Bool) → List ℕ → List ℕ
insercion cmp [] = []
insercion cmp (x ∷ xs) = insertar cmp x (insercion cmp xs)

insertar-true :
    (cmp : ℕ → ℕ → Bool) (x y : ℕ) (ys : List ℕ)
    → cmp y x ≡ true
    → insertar cmp x (y ∷ ys) ≡ y ∷ insertar cmp x ys
unfolding insertar
insertar-true cmp x y ys h = rw (h, insertar) refl

insertar-false :
    (cmp : ℕ → ℕ → Bool) (x y : ℕ) (ys : List ℕ)
    → cmp y x ≡ false
    → insertar cmp x (y ∷ ys) ≡ x ∷ y ∷ ys
unfolding insertar
insertar-false cmp x y ys h = rw (h, insertar) refl

insertar_nil : (cmp : ℕ → ℕ → Bool) (x : ℕ) → insertar cmp x [] ≡ x ∷ []
unfolding insertar
insertar_nil cmp x = refl

Esta-cons : (y a : ℕ) (ys : List ℕ) → ((a ≡ y) ⊎ Esta a ys) → Esta a (y ∷ ys)
Esta-cons y a ys (inl e) = (0, ap some (sym e))
Esta-cons y a ys (inr (k, e)) = (suc k, e)

Esta-uncons : (y a : ℕ) (ys : List ℕ) → Esta a (y ∷ ys) → (a ≡ y) ⊎ Esta a ys
Esta-uncons y a ys (zero, e) = inl (cc e)
Esta-uncons y a ys (suc k, e) = inr (k, e)

insertar-Esta :
    (cmp : ℕ → ℕ → Bool) (x a : ℕ) (ys : List ℕ)
    → Esta a (insertar cmp x ys) ↔ ((a ≡ x) ⊎ Esta a ys)
insertar-Esta cmp x a [] = (
  λ h. Esta-uncons x a [] (subst (Esta a) (insertar_nil cmp x) h),
  λ h. subst (Esta a) (sym (insertar_nil cmp x)) (Esta-cons x a [] h),
)
insertar-Esta cmp x a (y ∷ ys) = elim (Bool-cases (cmp y x)) [
  | inr aqui ↦ (
    λ h. Esta-uncons x a (y ∷ ys) (subst (Esta a) (insertar-false cmp x y ys aqui) h),
    λ h. subst (Esta a) (sym (insertar-false cmp x y ys aqui)) (Esta-cons x a (y ∷ ys) h),
  )
  | inl luego ↦ (
    λ h.
        elim (Esta-uncons y a (insertar cmp x ys)
          (subst (Esta a) (insertar-true cmp x y ys luego) h)) [
            | inl e ↦ inr (Esta-cons y a ys (inl e))
            | inr r ↦ elim ((insertar-Esta cmp x a ys).0 r) [
              | inl e ↦ inl e
              | inr r' ↦ inr (Esta-cons y a ys (inr r'))
            ]
          ],
    λ h. subst (Esta a) (sym (insertar-true cmp x y ys luego)) (
        Esta-cons y a (insertar cmp x ys) (elim h [
          | inl e ↦ inr ((insertar-Esta cmp x a ys).1 (inl e))
          | inr r ↦ elim (Esta-uncons y a ys r) [
            | inl e ↦ inl e
            | inr r' ↦ inr ((insertar-Esta cmp x a ys).1 (inr r'))
          ]
        ])),
  )
]

abbrev EnOrden : (ℕ → ℕ → Bool) → List ℕ → Type 0
EnOrden cmp xs =
    (j a b : ℕ) → get_elem? xs j ≡ some a → get_elem? xs (suc j) ≡ some b → cmp b a ≡ false

EnOrden-cons :
    (cmp : ℕ → ℕ → Bool) (x : ℕ) (xs : List ℕ)
    → ((b : ℕ) → get_elem? xs 0 ≡ some b → cmp b x ≡ false)
    → EnOrden cmp xs
    → EnOrden cmp (x ∷ xs)
EnOrden-cons cmp x xs h o zero a b e e' = let q : x ≡ a = cc e in ap (cmp b) (sym q) ∙ h b e'
EnOrden-cons cmp x xs h o (suc j) a b e e' = o j a b e e'

-- The first element after an insertion.
insertar_first :
    (cmp : ℕ → ℕ → Bool) (x : ℕ) (ys : List ℕ) (b : ℕ)
    → get_elem? (insertar cmp x ys) 0 ≡ some b
    → (b ≡ x) ⊎ (get_elem? ys 0 ≡ some b)
insertar_first cmp x [] b e =
    inl (let q = ap (λ l. get_elem? l 0) (sym (insertar_nil cmp x)) ∙ e in cc q)
insertar_first cmp x (y ∷ ys) b e = elim (Bool-cases (cmp y x)) [
  | inr aqui ↦
      inl (let q = ap (λ l. get_elem? l 0) (sym (insertar-false cmp x y ys aqui)) ∙ e in cc q)
  | inl luego ↦ inr (ap (λ l. get_elem? l 0) (sym (insertar-true cmp x y ys luego)) ∙ e)
]

insertar-EnOrden :
    (cmp : ℕ → ℕ → Bool) (x : ℕ) (ys : List ℕ)
    → ((a b : ℕ) → cmp a b ≡ true → cmp b a ≡ false)
    → EnOrden cmp ys
    → EnOrden cmp (insertar cmp x ys)
insertar-EnOrden cmp x [] asim o =
    subst (EnOrden cmp) (sym (insertar_nil cmp x)) (EnOrden-cons cmp x [] (λ b e. cc) o)
insertar-EnOrden cmp x (y ∷ ys) asim o = elim (Bool-cases (cmp y x)) [
  | inr aqui ↦ subst (EnOrden cmp) (sym (insertar-false cmp x y ys aqui)) (
      EnOrden-cons cmp x (y ∷ ys)
        (λ b e. let q : y ≡ b = cc e in ap (λ (z : ℕ). cmp z x) (sym q) ∙ aqui) o)
  | inl luego ↦ subst (EnOrden cmp) (sym (insertar-true cmp x y ys luego)) (
      EnOrden-cons cmp y (insertar cmp x ys)
        (λ b e. elim (insertar_first cmp x ys b e) [
          | inl q ↦ ap (λ (z : ℕ). cmp z y) q ∙ asim y x luego
          | inr at ↦ o 0 y b refl at
        ])
        (insertar-EnOrden cmp x ys asim (λ j. o (suc j))))
]

insercion-Esta : (cmp : ℕ → ℕ → Bool) (xs : List ℕ) (a : ℕ) → Esta a (insercion cmp xs) ↔ Esta a xs
unfolding insercion
insercion-Esta cmp [] a = (λ h. h, λ h. h)
insercion-Esta cmp (x ∷ xs) a = (
  λ h. Esta-cons x a xs (elim ((insertar-Esta cmp x a (insercion cmp xs)).0 h) [
    | inl e ↦ inl e
    | inr r ↦ inr ((insercion-Esta cmp xs a).0 r)
  ]),
  λ h.
      (insertar-Esta cmp x a (insercion cmp xs)).1 (elim (Esta-uncons x a xs h) [
        | inl e ↦ inl e
        | inr r ↦ inr ((insercion-Esta cmp xs a).1 r)
      ]),
)

insercion-EnOrden :
    (cmp : ℕ → ℕ → Bool) (xs : List ℕ)
    → ((a b : ℕ) → cmp a b ≡ true → cmp b a ≡ false)
    → EnOrden cmp (insercion cmp xs)
unfolding insercion
insercion-EnOrden cmp [] asim = λ j a b e e'. cc
insercion-EnOrden cmp (x ∷ xs) asim =
    insertar-EnOrden cmp x (insercion cmp xs) asim (insercion-EnOrden cmp xs asim)

pub insercion-Ordena : Ordena insercion
insercion-Ordena = record {
  mismos = insercion-Esta;
  en_orden = λ cmp xs j a b asim. insercion-EnOrden cmp xs asim j a b;
}

insertar-veces :
    (cmp : ℕ → ℕ → Bool) (x a : ℕ) (ys : List ℕ) → veces a (insertar cmp x ys) ≡ veces a (x ∷ ys)
insertar-veces cmp x a [] = ap (veces a) (insertar_nil cmp x)
insertar-veces cmp x a (y ∷ ys) = elim (Bool-cases (cmp y x)) [
  | inr aqui ↦ ap (veces a) (insertar-false cmp x y ys aqui)
  | inl luego ↦
      let e : veces a (insertar cmp x ys) ≡ veces a (x ∷ ys) = insertar-veces cmp x a ys in
      ap (veces a) (insertar-true cmp x y ys luego) ∙ omega arith
]

insertar-length :
    (cmp : ℕ → ℕ → Bool) (x : ℕ) (ys : List ℕ) → length (insertar cmp x ys) ≡ suc (length ys)
insertar-length cmp x [] = ap length (insertar_nil cmp x)
insertar-length cmp x (y ∷ ys) = elim (Bool-cases (cmp y x)) [
  | inr aqui ↦ ap length (insertar-false cmp x y ys aqui)
  | inl luego ↦ ap length (insertar-true cmp x y ys luego) ∙ ap suc (insertar-length cmp x ys)
]

insercion-veces :
    (cmp : ℕ → ℕ → Bool) (xs : List ℕ) (a : ℕ) → veces a (insercion cmp xs) ≡ veces a xs
unfolding insercion
insercion-veces cmp [] a = refl
insercion-veces cmp (x ∷ xs) a =
    let e : veces a (insercion cmp xs) ≡ veces a xs = insercion-veces cmp xs a in
    insertar-veces cmp x a (insercion cmp xs) ∙ omega arith

insercion-length : (cmp : ℕ → ℕ → Bool) (xs : List ℕ) → length (insercion cmp xs) ≡ length xs
unfolding insercion
insercion-length cmp [] = refl
insercion-length cmp (x ∷ xs) =
    insertar-length cmp x (insercion cmp xs) ∙ ap suc (insercion-length cmp xs)

pub insercion-Permuta : Permuta insercion
insercion-Permuta = record { tantas = insercion-veces; largo = insercion-length }
