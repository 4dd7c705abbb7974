-- ===== src/Storage/Nombres/Numeros.antt =====
-- storage/src/f_fresh_stat.c and operaciones_storage.c: the names of blocks with different numbers are distinct.
use master_of_files.Base.{
  ℕ, zero, suc, ◌+◌, ◌-◌, ◌*◌, ◌/◌, ◌<◌, ◌≡◌, refl, inl, inr, [], ◌∷◌, ◌++◌, ltb, arith, sym, ◌∙◌,
  ap, Bool-cases,
}
use master_of_files.Base.Texto.{Texto, codes}
use master_of_files.Storage.Nombres.{digitos, itoa, block_04d, crear_nombre_bloque_logico}

-- The number that digits stand for, and the one in the name of a block.
abbrev valor : ℕ → Texto → ℕ
valor n [] = n
valor n (c ∷ cs) = valor (n * 10 + (c - b'0')) cs

abbrev numero_de : Texto → ℕ
numero_de (b ∷ l ∷ o ∷ c ∷ k ∷ ds) = valor 0 ds
numero_de cs = 0

valor-append :
    (n : ℕ) (ds : Texto) (c : ℕ) → valor n (ds ++ (c ∷ [])) ≡ valor n ds * 10 + (c - b'0')
valor-append n [] c = refl
valor-append n (d ∷ ds) c = valor-append (n * 10 + (d - b'0')) ds c

valor-digitos : (fuel n : ℕ) → n < fuel → valor 0 (digitos fuel n) ≡ n
unfolding digitos
valor-digitos zero n h = omega arith
valor-digitos (suc fuel) n h = elim (Bool-cases (ltb n 10)) [
  | inl e ↦ rw (e) (omega arith)
  | inr e ↦
      let menos : n / 10 < fuel = ground arith in
      rw (e) (
        valor-append 0 (digitos fuel (n / 10)) _ ∙ omega (arith, valor-digitos fuel (n / 10) menos))
]

numero_de-block_04d : (n : ℕ) → numero_de (block_04d n) ≡ n
unfolding block_04d itoa
numero_de-block_04d n = elim (Bool-cases (ltb n 10)) [
  | inl a ↦ rw (a) (valor-digitos (suc n) n (omega arith))
  | inr a ↦ elim (Bool-cases (ltb n 100)) [
    | inl b ↦ rw (a, b) (valor-digitos (suc n) n (omega arith))
    | inr b ↦ elim (Bool-cases (ltb n 1000)) [
      | inl c ↦ rw (a, b, c) (valor-digitos (suc n) n (omega arith))
      | inr c ↦ rw (a, b, c) (valor-digitos (suc n) n (omega arith))
    ]
  ]
]

pub block_04d_injective : (n m : ℕ) → block_04d n ≡ block_04d m → n ≡ m
block_04d_injective n m e = sym (numero_de-block_04d n) ∙ ap numero_de e ∙ numero_de-block_04d m

valor_tras : (n : ℕ) (ds es : Texto) → valor n (ds ++ es) ≡ valor (valor n ds) es
valor_tras n [] es = refl
valor_tras n (d ∷ ds) es = valor_tras (n * 10 + (d - b'0')) ds es

-- A name read as a number: the digits, and the four characters after them.
valor-crear_nombre_bloque_logico :
    (n : ℕ) → valor 0 (crear_nombre_bloque_logico n) ≡ valor n (codes ".dat")
unfolding crear_nombre_bloque_logico itoa
valor-crear_nombre_bloque_logico n =
    let sin_ceros : valor 0 (itoa n ++ codes ".dat") ≡ valor n (codes ".dat") =
      valor_tras 0 (digitos (suc n) n) (codes ".dat")
      ∙ ap (λ k. valor k (codes ".dat")) (valor-digitos (suc n) n (omega arith)) in
    elim (Bool-cases (ltb n 10)) [
      | inl a ↦ rw (a) sin_ceros
      | inr a ↦ elim (Bool-cases (ltb n 100)) [
        | inl b ↦ rw (a, b) sin_ceros
        | inr b ↦ elim (Bool-cases (ltb n 1000)) [
          | inl c ↦ rw (a, b, c) sin_ceros
          | inr c ↦ elim (Bool-cases (ltb n 10000)) [
            | inl d ↦ rw (a, b, c, d) sin_ceros
            | inr d ↦ elim (Bool-cases (ltb n 100000)) [
              | inl e ↦ rw (a, b, c, d, e) sin_ceros
              | inr e ↦ rw (a, b, c, d, e) sin_ceros
            ]
          ]
        ]
      ]
    ]

pub crear_nombre_bloque_logico_injective :
    (n m : ℕ) → crear_nombre_bloque_logico n ≡ crear_nombre_bloque_logico m → n ≡ m
crear_nombre_bloque_logico_injective n m e =
    let iguales : valor n (codes ".dat") ≡ valor m (codes ".dat") =
      sym (valor-crear_nombre_bloque_logico n)
      ∙ ap (valor 0) e
      ∙ valor-crear_nombre_bloque_logico m in
    omega arith
