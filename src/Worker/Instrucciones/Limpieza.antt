-- ===== src/Worker/Instrucciones/Limpieza.antt =====
-- worker/src/instrucciones.c: what `limpiar_linea` leaves of a line.
use master_of_files.Base.{
  ℕ, ◌≡◌, refl, Bool, true, ◌&&◌, [], ◌∷◌, ◌++◌, if◌then◌else◌, sym, ap, ◌∙◌, inl, inr, ◌⊎◌,
  Bool-cases, append_assoc,
}
use master_of_files.Base.Texto.{Texto}
use master_of_files.Worker.Instrucciones.{
  es_blanco, es_final, cortar_final, cortar_inicio, limpiar_linea,
}

-- All the bytes of a text pass a test.
abbrev pub todos : (ℕ → Bool) → Texto → Bool
todos p [] = true
todos p (c ∷ cs) = p c && todos p cs

pub Texto-cases : (s : Texto) → (s ≡ []) ⊎ ((d : ℕ) × (ds : Texto) × (s ≡ d ∷ ds))
Texto-cases [] = inl refl
Texto-cases (d ∷ ds) = inr (d, ds, refl)

cortar_inicio_sound :
    (s : Texto) → (a : Texto) × (s ≡ a ++ cortar_inicio s) × (todos es_blanco a ≡ true)
unfolding cortar_inicio
cortar_inicio_sound [] = ([], refl, refl)
cortar_inicio_sound (c ∷ cs) = elim (Bool-cases (es_blanco c)) [
  | inr e ↦ ([], rw (e) refl, refl)
  | inl e ↦
      let (a, hecho, todo) = cortar_inicio_sound cs in
      (c ∷ a, rw (e) (ap (◌∷◌ c) hecho), rw (e) todo)
]

cortar_inicio_again : (s : Texto) → cortar_inicio (cortar_inicio s) ≡ cortar_inicio s
unfolding cortar_inicio
cortar_inicio_again [] = refl
cortar_inicio_again (c ∷ cs) = elim (Bool-cases (es_blanco c)) [
  | inr e ↦ rw (e, cortar_inicio) (rw (e) refl)
  | inl e ↦ rw (e, cortar_inicio) (cortar_inicio_again cs)
]

module _ (c : ℕ) (cs : Texto) where
  cortar_final-cons :
      (d : ℕ) (ds : Texto) → cortar_final cs ≡ d ∷ ds → cortar_final (c ∷ cs) ≡ c ∷ d ∷ ds
  unfolding cortar_final
  cortar_final-cons d ds e = rw (e) refl

  cortar_final_nil :
      cortar_final cs ≡ [] → cortar_final (c ∷ cs) ≡ (if es_final c then [] else c ∷ [])
  unfolding cortar_final
  cortar_final_nil e = rw (e) refl

-- The byte before the rest goes with it, or it stays.
cortar_final-cases :
    (c : ℕ) (cs : Texto)
    → ((cortar_final cs ≡ []) × (es_final c ≡ true) × (cortar_final (c ∷ cs) ≡ []))
      ⊎ (cortar_final (c ∷ cs) ≡ c ∷ cortar_final cs)
cortar_final-cases c cs = elim (Texto-cases (cortar_final cs)) [
  | inl e ↦ elim (Bool-cases (es_final c)) [
    | inl f ↦ inl (e, f, cortar_final_nil c cs e ∙ rw f refl)
    | inr f ↦ inr (cortar_final_nil c cs e ∙ rw (f, e) refl)
  ]
  | inr (x, xs, e) ↦ inr (cortar_final-cons c cs x xs e ∙ ap (◌∷◌ c) (sym e))
]

cortar_final_sound :
    (s : Texto) → (d : Texto) × (s ≡ cortar_final s ++ d) × (todos es_final d ≡ true)
unfolding cortar_final
cortar_final_sound [] = ([], refl, refl)
cortar_final_sound (c ∷ cs) =
    let (d, hecho, todo) = cortar_final_sound cs in
    elim (cortar_final-cases c cs) [
      | inl (e, f, g) ↦
          let same : cs ≡ d = hecho ∙ ap (λ (r : Texto). r ++ d) e in
          (c ∷ d, ap (◌∷◌ c) same ∙ ap (λ (r : Texto). r ++ c ∷ d) (sym g), rw (f) todo)
      | inr g ↦ (d, ap (◌∷◌ c) hecho ∙ ap (λ (r : Texto). r ++ d) (sym g), todo)
    ]

cortar_final_again : (s : Texto) → cortar_final (cortar_final s) ≡ cortar_final s
unfolding cortar_final
cortar_final_again [] = refl
cortar_final_again (c ∷ cs) = elim (Texto-cases (cortar_final cs)) [
  | inr (x, xs, e) ↦
      let g = cortar_final-cons c cs x xs e in
      ap cortar_final g
      ∙ cortar_final-cons c (x ∷ xs) x xs (ap cortar_final (sym e) ∙ cortar_final_again cs ∙ e)
      ∙ sym g
  | inl e ↦ elim (Bool-cases (es_final c)) [
    | inl f ↦
        let g : cortar_final (c ∷ cs) ≡ [] = cortar_final_nil c cs e ∙ rw f refl in
        ap cortar_final g ∙ sym g
    | inr f ↦
        let g : cortar_final (c ∷ cs) ≡ c ∷ [] = cortar_final_nil c cs e ∙ rw f refl in
        let k : cortar_final (c ∷ []) ≡ c ∷ [] = cortar_final_nil c [] refl ∙ rw f refl in
        ap cortar_final g ∙ k ∙ sym g
  ]
]

cortar_final-cortar_inicio :
    (s : Texto) → cortar_final s ≡ s → cortar_final (cortar_inicio s) ≡ cortar_inicio s
unfolding cortar_inicio
cortar_final-cortar_inicio [] h = h
cortar_final-cortar_inicio (c ∷ cs) h = elim (Bool-cases (es_blanco c)) [
  | inr e ↦ rw (e) h
  | inl e ↦ elim (cortar_final-cases c cs) [
    | inl (_, _, g) ↦ absurd (cc (g, h))
    | inr g ↦ rw (e) (cortar_final-cortar_inicio cs (cc (sym g ∙ h)))
  ]
]

-- What is left of a line is the line without some spaces and tabs at its front and some spaces, tabs and
-- bytes of a line's end at its back, and there is nothing more to cut at its front or at its back.
limpiar_linea_lem :
    (texto : Texto)
    → ((a d : Texto) × (texto ≡ a ++ (limpiar_linea texto ++ d))
        × (todos es_blanco a ≡ true)
        × (todos es_final d ≡ true))
      × (cortar_inicio (limpiar_linea texto) ≡ limpiar_linea texto)
      × (cortar_final (limpiar_linea texto) ≡ limpiar_linea texto)
unfolding limpiar_linea
limpiar_linea_lem texto =
    let (d, corta, final) = cortar_final_sound texto in
    let (a, saca, blanco) = cortar_inicio_sound (cortar_final texto) in
    (
      (
        a,
        d,
        corta ∙ ap (λ (r : Texto). r ++ d) saca ∙ append_assoc a (limpiar_linea texto) d,
        blanco,
        final,
      ),
      cortar_inicio_again (cortar_final texto),
      cortar_final-cortar_inicio (cortar_final texto) (cortar_final_again texto),
    )
