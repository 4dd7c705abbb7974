-- ===== src/Worker/Bucle/Reanudar.antt =====
-- worker/src/instrucciones.c: a query that is resumed at its program counter.
use master_of_files.Base.{
  ℕ, suc, ◌-◌, ◌^◌, ◌<◌, ◌≡◌, refl, inl, inr, Bool, false, Option, none, some, List, [], ◌∷◌, ◌++◌,
  ◌==◌, arith, sym, ◌∙◌, ap, Bool-cases, Option-cases, if◌then◌else◌, length, drop,
}
use master_of_files.Base.Texto.{Texto}
use master_of_files.Utils.Protocolo.{Conexion}
use master_of_files.Worker.Bucle.{Estado, ciclo_instruccion, procesar_desde, procesar_query}
use master_of_files.Worker.Bucle.Desalojo.{
  luego, procesar_desde-cons, procesar_desde-cancelada, procesar_desde-Igual,
}

drop-length-append {ℓ} : {A : Type ℓ} (xs ys : List A) → drop (length xs) (xs ++ ys) ≡ ys
drop-length-append [] ys = refl
drop-length-append (x ∷ xs) ys = drop-length-append xs ys

module _ (c : Conexion) (tiempo : ℕ → ℕ) (malloc : ℕ → Bool) (pila : Bool) where
  open c use {State}

  procesar_desde-append :
      (xs ys : List Texto) (s : Estado State) (q pc : ℕ)
      → procesar_desde c tiempo malloc pila (xs ++ ys) s q pc
        ≡ luego c tiempo malloc pila ys q (procesar_desde c tiempo malloc pila xs s q pc)
  unfolding procesar_desde
  procesar_desde-append [] ys s q pc = refl
  procesar_desde-append (x ∷ xs) ys s q pc = elim (Bool-cases s.query_cancelada) [
    | inl n ↦
        procesar_desde-cancelada c tiempo malloc pila (x ∷ xs ++ ys) s q pc n
        ∙ sym (procesar_desde-cancelada c tiempo malloc pila ys s q pc n)
        ∙ sym (
            ap (luego c tiempo malloc pila ys q)
              (procesar_desde-cancelada c tiempo malloc pila (x ∷ xs) s q pc n))
    | inr n ↦ elim (Option-cases (ciclo_instruccion c tiempo malloc pila s x q pc)) [
      | inl e ↦
          procesar_desde-cons c tiempo malloc pila x (xs ++ ys) s q pc n
          ∙ ap (luego c tiempo malloc pila (xs ++ ys) q) e
          ∙ sym (
              ap (luego c tiempo malloc pila ys q) (
                procesar_desde-cons c tiempo malloc pila x xs s q pc n
                ∙ ap (luego c tiempo malloc pila xs q) e))
      | inr ((pc', s'), e) ↦
          procesar_desde-cons c tiempo malloc pila x (xs ++ ys) s q pc n
          ∙ ap (luego c tiempo malloc pila (xs ++ ys) q) e
          ∙ procesar_desde-append xs ys s' q pc'
          ∙ sym (
              ap (luego c tiempo malloc pila ys q) (
                procesar_desde-cons c tiempo malloc pila x xs s q pc n
                ∙ ap (luego c tiempo malloc pila xs q) e))
    ]
  ]

  abbrev sin_pc : Option (ℕ × Estado State) → Option (Estado State)
  sin_pc o = elim o [ none ↦ none | some (pc, s) ↦ some s ]

  procesar_query-suc :
      (lineas : List Texto) (s : Estado State) (q n : ℕ)
      → procesar_query c tiempo malloc pila s (some lineas) q (suc n)
        ≡ sin_pc (procesar_desde c tiempo malloc pila (drop n lineas) s q (suc n))
  unfolding procesar_query
  procesar_query-suc lineas s q n =
      let e : suc n - 1 ≡ n = omega arith in
      let f : (if suc n == 0 then 1 else suc n) ≡ suc n = ground arith in
      ap (λ (k : ℕ). sin_pc (procesar_desde c tiempo malloc pila (drop (k - 1) lineas) s q k)) f
      ∙ ap (λ (k : ℕ). sin_pc (procesar_desde c tiempo malloc pila (drop k lineas) s q (suc n))) e

  abbrev retoma : List Texto → ℕ → ℕ → Option (Estado State) → Option (Estado State)
  retoma lineas q n o = elim o [
    | none ↦ none
    | some s' ↦ procesar_query c tiempo malloc pila s' (some lineas) q (suc n)
  ]

  -- Running a script from its start is running its first lines and then resuming it at the line after
  -- them, where no pause and no cancellation is asked for and the line's number fits `size_t`.
  pub procesar_query_resumes :
      (xs ys : List Texto) (s : Estado State) (q : ℕ)
      → s.desalojado ≡ false
      → s.query_cancelada ≡ false
      → suc (length xs) < 2 ^ 64
      → procesar_query c tiempo malloc pila s (some (xs ++ ys)) q 1
        ≡ (elim (procesar_query c tiempo malloc pila s (some xs) q 1) [
          | none ↦ none
          | some s' ↦ procesar_query c tiempo malloc pila s' (some (xs ++ ys)) q (suc (length xs))
        ])
  procesar_query_resumes xs ys s q d n small =
      procesar_query-suc (xs ++ ys) s q 0
      ∙ ap sin_pc (procesar_desde-append xs ys s q 1)
      ∙ medio
      ∙ sym (ap (retoma (xs ++ ys) q (length xs)) (procesar_query-suc xs s q 0))
    where
      antes : Option (ℕ × Estado State)
      antes = procesar_desde c tiempo malloc pila xs s q 1

      izq : Option (ℕ × Estado State) → Option (Estado State)
      izq o = sin_pc (luego c tiempo malloc pila ys q o)

      der : Option (ℕ × Estado State) → Option (Estado State)
      der o = retoma (xs ++ ys) q (length xs) (sin_pc o)

      medio : izq antes ≡ der antes
      medio = elim (Option-cases antes) [
        | inl e ↦ ap izq e ∙ sym (ap der e)
        | inr ((pc', s'), e) ↦
            let (i, cuenta) =
              procesar_desde-Igual c tiempo malloc pila xs s s' q 1 pc' d n (omega arith) e in
            let llega : pc' ≡ suc (length xs) = omega arith in
            ap izq e
            ∙ ap (λ (k : ℕ). sin_pc (procesar_desde c tiempo malloc pila ys s' q k)) llega
            ∙ ap
                (λ (l : List Texto).
                  sin_pc (procesar_desde c tiempo malloc pila l s' q (suc (length xs))))
                (sym (drop-length-append xs ys))
            ∙ sym (procesar_query-suc (xs ++ ys) s' q (length xs))
            ∙ sym (ap der e)
      ]
