-- ===== src/Worker/Instrucciones/Lectura.antt =====
-- worker/src/instrucciones.c: what is read from a line of a script.
use master_of_files.Base.{
  ℕ, zero, suc, ◌<◌, ◌≤◌, ◌≡◌, ◌≢◌, refl, Bool, true, false, ◌&&◌, not, none, some, [], ◌∷◌, ◌++◌,
  ◌==◌, take, drop, length, find_index, arith, sym, ◌∙◌, inl, inr, Bool-cases, Option-cases,
}
use master_of_files.Base.Texto.{Texto}
use master_of_files.Utils.Nombre.{split_file_tag}
use master_of_files.Worker.Instrucciones.{
  es_espacio, saltar, hasta, campo, parsear_instruccion, separar_file_tag,
}

separar_file_tag-some :
    (s : Texto) (i : ℕ)
    → find_index (λ c. c == b':') s ≡ some i
    → separar_file_tag s ≡ some (take i s, drop (suc i) s)
unfolding separar_file_tag
separar_file_tag-some s i e = rw (separar_file_tag, e) refl

separar_file_tag-none :
    (s : Texto) → find_index (λ c. c == b':') s ≡ none → separar_file_tag s ≡ none
unfolding separar_file_tag
separar_file_tag-none s e = rw (separar_file_tag, e) refl

-- The two functions of the repository that cut a name into file and tag agree.
pub separar_file_tag-split_file_tag :
    (filetag : Texto) → separar_file_tag filetag ≡ split_file_tag filetag
unfolding split_file_tag find_index
separar_file_tag-split_file_tag [] = separar_file_tag-none [] refl
separar_file_tag-split_file_tag (c ∷ cs) = elim (Bool-cases (c == b':')) [
  | inl e ↦ separar_file_tag-some (c ∷ cs) 0 (rw (e) refl) ∙ sym (rw (e, split_file_tag) refl)
  | inr e ↦ elim (Option-cases (find_index (λ x. x == b':') cs)) [
    | inl f ↦
        separar_file_tag-none (c ∷ cs) (rw (f, e) refl)
        ∙ sym (rw (e, ← separar_file_tag-split_file_tag cs, separar_file_tag-none cs f) refl)
    | inr (i, f) ↦
        separar_file_tag-some (c ∷ cs) (suc i) (rw (f, e) refl)
        ∙ sym (rw (e, ← separar_file_tag-split_file_tag cs, separar_file_tag-some cs i f) refl)
  ]
]

length-hasta : (fin : ℕ → Bool) (n : ℕ) (s : Texto) → length (hasta fin n s).0 ≤ n
unfolding hasta
length-hasta fin zero s = omega arith
length-hasta fin (suc n) [] = omega arith
length-hasta fin (suc n) (c ∷ cs) = elim (Bool-cases (fin c)) [
  | inl e ↦ rw (e) (omega arith)
  | inr e ↦ rw (e) (omega (arith, length-hasta fin n cs))
]

-- No byte of a word ends it.
abbrev pub ninguno : (ℕ → Bool) → Texto → Bool
ninguno fin [] = true
ninguno fin (c ∷ cs) = not (fin c) && ninguno fin cs

hasta-append :
    (fin : ℕ → Bool) (n x : ℕ) (w s : Texto)
    → ninguno fin w ≡ true
    → fin x ≡ true
    → length w ≤ n
    → hasta fin n (w ++ x ∷ s) ≡ (w, x ∷ s)
unfolding hasta
hasta-append fin zero x [] s h f le = refl
hasta-append fin (suc n) x [] s h f le = rw (f) refl
hasta-append fin zero x (c ∷ w) s h f le = absurd (omega arith)
hasta-append fin (suc n) x (c ∷ w) s h f le = elim (Bool-cases (fin c)) [
  | inl e ↦ absurd (cc (rw e at h))
  | inr e ↦ rw (e, hasta-append fin n x w s (rw e at h) f (omega arith)) refl
]

hasta_todo :
    (fin : ℕ → Bool) (n : ℕ) (w : Texto)
    → ninguno fin w ≡ true
    → length w ≤ n
    → hasta fin n w ≡ (w, [])
unfolding hasta
hasta_todo fin zero [] h le = refl
hasta_todo fin (suc n) [] h le = refl
hasta_todo fin zero (c ∷ w) h le = absurd (omega arith)
hasta_todo fin (suc n) (c ∷ w) h le = elim (Bool-cases (fin c)) [
  | inl e ↦ absurd (cc (rw e at h))
  | inr e ↦ rw (e, hasta_todo fin n w (rw e at h) (omega arith)) refl
]

-- No field of an instruction is longer than its buffer has room for, before the final zero.
pub parsear_instruccion_fits :
    (linea : Texto)
    → (length (parsear_instruccion linea).comando < 32)
      × (length (parsear_instruccion linea).arg1 < 128)
      × (length (parsear_instruccion linea).arg2 < 128)
      × (length (parsear_instruccion linea).arg3 < 256)
unfolding parsear_instruccion campo
parsear_instruccion_fits linea =
    let a = campo es_espacio 31 linea in
    let b = campo es_espacio 127 a.1 in
    let c = campo es_espacio 127 b.1 in
    (
      omega (arith, length-hasta es_espacio 31 (saltar linea)),
      omega (arith, length-hasta es_espacio 127 (saltar a.1)),
      omega (arith, length-hasta es_espacio 127 (saltar b.1)),
      omega (arith, length-hasta (λ x. x == 10) 255 (saltar c.1)),
    )

saltar_self : (w s : Texto) → w ≢ [] → ninguno es_espacio w ≡ true → saltar (w ++ s) ≡ w ++ s
unfolding saltar
saltar_self [] s ne h = absurd (ne refl)
saltar_self (c ∷ cs) s ne h = elim (Bool-cases (es_espacio c)) [
  | inl e ↦ absurd (cc (rw e at h))
  | inr e ↦ rw (e) refl
]

-- A word that a field of `n` bytes takes whole.
abbrev pub Palabra : ℕ → Texto → Type 0
Palabra n w = (w ≢ []) × (ninguno es_espacio w ≡ true) × (length w ≤ n)

campo-append :
    (n : ℕ) (w s : Texto) → Palabra n w → campo es_espacio n (w ++ b' ' ∷ s) ≡ (w, b' ' ∷ s)
unfolding campo
campo-append n w s (ne, h, le) =
    rw (saltar_self w (b' ' ∷ s) ne h) (hasta-append es_espacio n b' ' w s h refl le)

campo_blanco : (fin : ℕ → Bool) (n : ℕ) (s : Texto) → campo fin n (b' ' ∷ s) ≡ campo fin n s
unfolding campo saltar
campo_blanco fin n s = refl

campo_ultimo :
    (c : ℕ) (cs : Texto)
    → es_espacio c ≡ false
    → ninguno (λ x. x == 10) (c ∷ cs) ≡ true
    → length (c ∷ cs) ≤ 255
    → campo (λ x. x == 10) 255 (c ∷ cs) ≡ (c ∷ cs, [])
unfolding campo saltar
campo_ultimo c cs e h le = rw (e) (hasta_todo (λ x. x == 10) 255 (c ∷ cs) h le)

-- A line of a command, two arguments and a last one that goes to the end of the line, with spaces
-- between them, is read as these four, where each fits its buffer, none is empty, the first three have
-- no white space, and the last has no end of line and does not start with white space.
pub parsear_instruccion_lem :
    (c a b : Texto) (d : ℕ) (ds : Texto)
    → Palabra 31 c
    → Palabra 127 a
    → Palabra 127 b
    → es_espacio d ≡ false
    → ninguno (λ x. x == 10) (d ∷ ds) ≡ true
    → length (d ∷ ds) ≤ 255
    → parsear_instruccion (c ++ b' ' ∷ (a ++ b' ' ∷ (b ++ b' ' ∷ d ∷ ds)))
      ≡ record { comando = c; arg1 = a; arg2 = b; arg3 = d ∷ ds }
unfolding parsear_instruccion
parsear_instruccion_lem c a b d ds pc pa pb e h le =
    rw
      (
        campo-append 31 c (a ++ b' ' ∷ (b ++ b' ' ∷ d ∷ ds)) pc,
        campo_blanco es_espacio 127 (a ++ b' ' ∷ (b ++ b' ' ∷ d ∷ ds)),
        campo-append 127 a (b ++ b' ' ∷ d ∷ ds) pa,
        campo_blanco es_espacio 127 (b ++ b' ' ∷ d ∷ ds),
        campo-append 127 b (d ∷ ds) pb,
        campo_blanco (λ x. x == 10) 255 (d ∷ ds),
        campo_ultimo d ds e h le,
      )
      refl
