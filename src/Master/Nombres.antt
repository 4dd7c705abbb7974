-- ===== src/Master/Nombres.antt =====
-- master/src/master_query.c: what the names of scripts and the numbers of queries are.
use master_of_files.Base.{
  ℕ, zero, suc, ◌+◌, ◌%◌, ◌^◌, ◌<◌, ◌≡◌, ◌≢◌, refl, true, false, ◌&&◌, none, some, [], ◌∷◌, ◌++◌,
  ◌==◌, arith, sym, subst, ap, ◌∙◌, inl, inr, Bool-cases, Option-cases,
}
use master_of_files.Base.Int.{ℤ}
use master_of_files.Base.Texto.{Texto, tiene}
use master_of_files.Master.Rutas.{
  saltear_prefijos, tras_barra, base, path_nombre_archivo, termina_con_slash,
  path_unir_directorio_archivo, generar_path_query, generar_qid, crear_query,
}

base-some : (s r : Texto) → tras_barra s ≡ some r → base s ≡ r
base-some s r e = rw (e, base) refl

base-none : (s : Texto) → tras_barra s ≡ none → base s ≡ s
base-none s e = rw (e, base) refl

base_dos : (a b : ℕ) (resto : Texto) → (b == b'/') ≡ true → base (a ∷ b ∷ resto) ≡ base resto
unfolding tras_barra
base_dos a b resto f = elim (Option-cases (tras_barra resto)) [
  | inl e ↦
      let t : tras_barra (a ∷ b ∷ resto) ≡ some resto = ground arith in
      base-some (a ∷ b ∷ resto) resto t ∙ sym (base-none resto e)
  | inr (r, e) ↦
      let t : tras_barra (a ∷ b ∷ resto) ≡ some r = ground arith in
      base-some (a ∷ b ∷ resto) r t ∙ sym (base-some resto r e)
]

base-saltear_prefijos : (s : Texto) → base (saltear_prefijos s) ≡ base s
unfolding saltear_prefijos
base-saltear_prefijos [] = refl
base-saltear_prefijos (a ∷ []) = refl
base-saltear_prefijos (a ∷ b ∷ resto) = elim (Bool-cases ((a == b'.') && (b == b'/'))) [
  | inr e ↦ rw (e, saltear_prefijos) refl
  | inl e ↦
      let f : (b == b'/') ≡ true = ground arith in
      rw (e, saltear_prefijos) (base-saltear_prefijos resto ∙ sym (base_dos a b resto f))
]

tras_barra-none : (s : Texto) → tiene b'/' s ≡ false → tras_barra s ≡ none
unfolding tras_barra tiene
tras_barra-none [] h = refl
tras_barra-none (c ∷ cs) h = ground (arith, tras_barra-none cs)

tras_barra-append : (d n : Texto) → tiene b'/' n ≡ false → tras_barra (d ++ b'/' ∷ n) ≡ some n
unfolding tras_barra
tras_barra-append [] n h = rw (tras_barra-none n h) refl
tras_barra-append (c ∷ cs) n h = rw (tras_barra-append cs n h) refl

tras_barra-termina :
    (d n : Texto) → tiene b'/' n ≡ false → termina_con_slash d ≡ true → tras_barra (d ++ n) ≡ some n
unfolding tras_barra termina_con_slash
tras_barra-termina [] n h t = absurd (cc t)
tras_barra-termina (c ∷ []) n h t = rw (tras_barra-none n h, t) refl
tras_barra-termina (c ∷ d ∷ cs) n h t = rw (tras_barra-termina (d ∷ cs) n h t) refl

sin_barra : (s : Texto) → tras_barra s ≡ none → tiene b'/' s ≡ false
unfolding tras_barra tiene
sin_barra [] h = refl
sin_barra (c ∷ cs) h = elim (Option-cases (tras_barra cs)) [
  | inl e ↦ ground (arith, sin_barra cs e)
  | inr (r, e) ↦ absurd (ground arith)
]

tras_barra_sound :
    (s r : Texto) → tras_barra s ≡ some r → (pre : Texto) × (s ≡ pre ++ r) × (tiene b'/' r ≡ false)
unfolding tras_barra tiene
tras_barra_sound [] r h = absurd (cc h)
tras_barra_sound (c ∷ cs) r h = elim (Option-cases (tras_barra cs)) [
  | inl e ↦ elim (Bool-cases (c == b'/')) [
    | inl f ↦
        let same : cs ≡ r = ground arith in
        let es : c ≡ b'/' = ground arith in (c ∷ [], ap (◌∷◌ c) same, rw (← same) (sin_barra cs e))
    | inr f ↦ absurd (ground arith)
  ]
  | inr (r', e) ↦
      let same : r' ≡ r = ground arith in
      let (pre, hecho, sin) = tras_barra_sound cs r' e in
      (c ∷ pre, rw (← same) (ap (◌∷◌ c) hecho), rw (← same) sin)
]

base_sound : (s : Texto) → (pre : Texto) × (s ≡ pre ++ base s) × (tiene b'/' (base s) ≡ false)
base_sound s = elim (Option-cases (tras_barra s)) [
  | inl e ↦ con s (base-none s e) ([], refl, sin_barra s e)
  | inr (r, e) ↦ con r (base-some s r e) (tras_barra_sound s r e)
]
  where
    con :
        (r : Texto)
        → base s ≡ r
        → (pre : Texto) × (s ≡ pre ++ r) × (tiene b'/' r ≡ false)
        → (pre : Texto) × (s ≡ pre ++ base s) × (tiene b'/' (base s) ≡ false)
    con r e p =
        subst (λ (r : Texto). (pre : Texto) × (s ≡ pre ++ r) × (tiene b'/' r ≡ false)) (sym e) p

-- The name of a script is what the path ends in, with no slash.
pub path_nombre_archivo_lem :
    (ruta : Texto)
    → (pre : Texto) × (ruta ≡ pre ++ path_nombre_archivo ruta)
      × (tiene b'/' (path_nombre_archivo ruta) ≡ false)
unfolding path_nombre_archivo
path_nombre_archivo_lem ruta =
    subst (λ (r : Texto). (pre : Texto) × (ruta ≡ pre ++ r) × (tiene b'/' r ≡ false))
      (sym (base-saltear_prefijos ruta)) (base_sound ruta)

-- The name of a script with no slash is found again in the path that joins a directory and the name.
pub path_nombre_archivo-path_unir_directorio_archivo :
    (directorio nombre : Texto)
    → tiene b'/' nombre ≡ false
    → path_nombre_archivo (path_unir_directorio_archivo directorio nombre) ≡ nombre
unfolding path_nombre_archivo path_unir_directorio_archivo
path_nombre_archivo-path_unir_directorio_archivo [] n h =
    base-saltear_prefijos n ∙ base-none n (tras_barra-none n h)
path_nombre_archivo-path_unir_directorio_archivo (c ∷ cs) n h =
    base-saltear_prefijos (path_unir_directorio_archivo (c ∷ cs) n)
    ∙ elim (Bool-cases (termina_con_slash (c ∷ cs))) [
      | inl t ↦
          rw (t, path_unir_directorio_archivo)
            (base-some ((c ∷ cs) ++ n) n (tras_barra-termina (c ∷ cs) n h t))
      | inr t ↦
          rw (t, path_unir_directorio_archivo)
            (base-some ((c ∷ cs) ++ b'/' ∷ n) n (tras_barra-append (c ∷ cs) n h))
    ]

-- The Worker finds a script where the Master does, in a directory whose name is not empty.
pub generar_path_query-path_unir_directorio_archivo :
    (directorio nombre : Texto)
    → directorio ≢ []
    → generar_path_query directorio nombre ≡ some (path_unir_directorio_archivo directorio nombre)
unfolding generar_path_query path_unir_directorio_archivo
generar_path_query-path_unir_directorio_archivo [] n h = absurd (h refl)
generar_path_query-path_unir_directorio_archivo (c ∷ cs) n h =
    elim (Bool-cases (termina_con_slash (c ∷ cs))) [ inl t ↦ rw (t) refl | inr t ↦ rw (t) refl ]

-- `next_qid` after a number of queries.
abbrev pub despues : ℕ → ℕ → ℕ
despues zero next_qid = next_qid
despues (suc n) next_qid = (generar_qid (despues n next_qid)).1

despues_lem : (n q : ℕ) → q < 2 ^ 32 → despues n q ≡ (q + n) % 2 ^ 32
unfolding generar_qid
despues_lem zero q h = omega arith
despues_lem (suc n) q h = omega (arith, despues_lem n q h)

-- Two queries have different numbers where fewer than 2 ^ 32 are made from the one to the other.
pub crear_query-despues :
    (next_qid n sock sock' : ℕ) (path path' : Texto) (prioridad prioridad' : ℤ)
    → next_qid < 2 ^ 32
    → 0 < n
    → n < 2 ^ 32
    → (crear_query (despues n next_qid) path prioridad sock).0.qid
      ≢ (crear_query next_qid path' prioridad' sock').0.qid
unfolding crear_query generar_qid
crear_query-despues q n sock sock' path path' pr pr' h pos small e =
    omega (arith, despues_lem n q h, e)
