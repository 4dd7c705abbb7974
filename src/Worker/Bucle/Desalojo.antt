-- ===== src/Worker/Bucle/Desalojo.antt =====
-- worker/src/worker.c: a Worker never pauses a query.
use master_of_files.Base.{
  ℕ, suc, ◌+◌, ◌%◌, ◌^◌, ◌≡◌, refl, inl, inr, Bool, true, false, Option, none, some, List, [], ◌∷◌,
  ◌++◌, arith, sym, ◌∙◌, ap, Bool-cases, Option-cases, if◌then◌else◌, ◌==◌, ◌||◌, length, drop, ◌<◌,
  ◌-◌,
}
use master_of_files.Base.Texto.{Texto}
use master_of_files.Utils.Protocolo.{Conexion, Rc, cero, menos_uno}
use master_of_files.Worker.Memoria.{Memoria}
use master_of_files.Worker.Instrucciones.{
  Instruccion, limpiar_linea, parsear_instruccion, separar_file_tag,
}
use master_of_files.Worker.Instrucciones.Numero.{parse_size_t_safe}
use master_of_files.Worker.Instrucciones.Limpieza.{Texto-cases}
use master_of_files.Worker.Instrucciones.Ejecucion.{
  Mensaje, op_resp_read_ok, op_resp_read_err, op_query_desalojada, op_fin_query, ejecutar_read,
  leido,
}
use master_of_files.Worker.Bucle.{
  Estado, Comando, vacia, create, truncate, write, read, tag, commit, flush, delete, fin,
  desconocida, con_escrito, con_leido, ejecutar_end, ejecutar_comando, ejecutar_instruccion,
  comando_de, avisar_desalojo, ciclo_linea, ciclo_instruccion, procesar_desde, procesar_query,
}

-- The messages of paused queries among those that a Worker has sent.
abbrev pub desalojos : List Mensaje → ℕ
desalojos [] = 0
desalojos (op_query_desalojada q pc ∷ ms) = suc (desalojos ms)
desalojos (op_resp_read_ok a b d ∷ ms) = desalojos ms
desalojos (op_resp_read_err ∷ ms) = desalojos ms
desalojos (op_fin_query q ∷ ms) = desalojos ms

desalojos-append : (ms ns : List Mensaje) → desalojos (ms ++ ns) ≡ desalojos ms + desalojos ns
desalojos-append [] ns = omega arith
desalojos-append (op_query_desalojada q pc ∷ ms) ns = omega (arith, desalojos-append ms ns)
desalojos-append (op_resp_read_ok a b d ∷ ms) ns = desalojos-append ms ns
desalojos-append (op_resp_read_err ∷ ms) ns = desalojos-append ms ns
desalojos-append (op_fin_query q ∷ ms) ns = desalojos-append ms ns

module _ (c : Conexion) (tiempo : ℕ → ℕ) (malloc : ℕ → Bool) (pila : Bool) where
  open c use {State}

  -- What an instruction keeps.
  abbrev Igual : Estado State → Estado State → Type 0
  Igual s s' =
      (s'.desalojado ≡ s.desalojado)
      × (s'.query_cancelada ≡ s.query_cancelada)
      × (desalojos s'.a_master ≡ desalojos s.a_master)

  con_escrito-Igual :
      (s s' : Estado State) (o : Option (Rc × Memoria State))
      → con_escrito c tiempo malloc pila s o ≡ some s'
      → Igual s s'
  con_escrito-Igual s s' none h = absurd (cc h)
  con_escrito-Igual s s' (some (rc, r)) h = ground arith

  con_leido-Igual :
      (s s' : Estado State) (o : Option (Rc × Memoria State × List Mensaje))
      → con_leido c tiempo malloc pila s o ≡ some s'
      → ((rc : Rc) (r : Memoria State) (ms : List Mensaje)
          → o ≡ some (rc, r, ms)
          → desalojos ms ≡ 0)
      → Igual s s'
  con_leido-Igual s s' none h z = absurd (cc h)
  con_leido-Igual s s' (some (rc, r, ms)) h z =
      ground (arith, z rc r ms refl, desalojos-append s.a_master ms)

  leido_sin :
      (nombre : Texto) (n : ℕ) (o : Option (Rc × List ℕ × Memoria State)) (rc : Rc)
      (r : Memoria State) (ms : List Mensaje)
      → leido nombre n o ≡ some (rc, r, ms)
      → desalojos ms ≡ 0
  leido_sin nombre n none rc r ms h = absurd (cc h)
  leido_sin nombre n (some (cero, d, r')) rc r ms h = ground arith
  leido_sin nombre n (some (menos_uno, d, r')) rc r ms h = ground arith

  ejecutar_read_sin :
      (m : Memoria State) (inst : Instruccion) (rc : Rc) (r : Memoria State) (ms : List Mensaje)
      → ejecutar_read c tiempo malloc m inst ≡ some (rc, r, ms)
      → desalojos ms ≡ 0
  unfolding ejecutar_read
  ejecutar_read_sin m inst rc r ms h = elim (Option-cases (separar_file_tag inst.arg1)) [
    | inl e ↦ nada (rw (e, ejecutar_read) at h)
    | inr ((f, t), e) ↦ elim (Option-cases (parse_size_t_safe inst.arg2)) [
      | inl e' ↦ nada (rw e' at (rw (e, ejecutar_read) at h))
      | inr (b, e') ↦ elim (Option-cases (parse_size_t_safe inst.arg3)) [
        | inl g ↦ nada (rw g at (rw e' at (rw (e, ejecutar_read) at h)))
        | inr (n, g) ↦
            let h' = rw g at (rw e' at (rw (e, ejecutar_read) at h)) in
            elim (Bool-cases ((n == 0) || malloc n)) [
              | inl z ↦ leido_sin inst.arg1 n _ rc r ms (rw z at h')
              | inr z ↦ nada (rw z at h')
            ]
      ]
    ]
  ]
    where
      nada :
          ◌≡◌ {A = Option (Rc × Memoria State × List Mensaje)}
            (some (menos_uno, m, []))
            (some (rc, r, ms))
          → desalojos ms ≡ 0
      nada h = ground arith

  ejecutar_comando-Igual :
      (k : Comando) (s s' : Estado State) (inst : Instruccion) (q : ℕ)
      → ejecutar_comando c tiempo malloc pila k s inst q ≡ some s'
      → Igual s s'
  unfolding ejecutar_comando ejecutar_end
  ejecutar_comando-Igual vacia s s' inst q h = ground arith
  ejecutar_comando-Igual create s s' inst q h = ground arith
  ejecutar_comando-Igual truncate s s' inst q h = ground arith
  ejecutar_comando-Igual write s s' inst q h = con_escrito-Igual s s' _ h
  ejecutar_comando-Igual read s s' inst q h =
      con_leido-Igual s s' _ h (ejecutar_read_sin s.memoria inst)
  ejecutar_comando-Igual tag s s' inst q h = ground arith
  ejecutar_comando-Igual commit s s' inst q h = ground arith
  ejecutar_comando-Igual flush s s' inst q h = ground arith
  ejecutar_comando-Igual delete s s' inst q h = ground arith
  ejecutar_comando-Igual fin s s' inst q h =
      ground (arith, desalojos-append s.a_master (op_fin_query q ∷ []))
  ejecutar_comando-Igual desconocida s s' inst q h = ground arith

  avisar_desalojo-false :
      (s : Estado State) (q pc : ℕ)
      → s.desalojado ≡ false
      → avisar_desalojo c tiempo malloc pila s q pc ≡ s
  unfolding avisar_desalojo
  avisar_desalojo-false s q pc d = rw (d) refl

  -- A line run with no pause asked for sends no message of a pause, and asks for none.
  ciclo_linea-Igual :
      (s s' : Estado State) (texto : Texto) (q pc pc' : ℕ)
      → s.desalojado ≡ false
      → ciclo_linea c tiempo malloc pila s texto q pc ≡ some (pc', s')
      → Igual s s' × (pc' ≡ (pc + 1) % 2 ^ 64)
  unfolding ciclo_linea ejecutar_instruccion
  ciclo_linea-Igual s s' texto q pc pc' d h =
      elim (Option-cases
        (ejecutar_comando c tiempo malloc pila (comando_de inst.comando) s1 inst q)) [
          | inl e ↦ absurd (cc (rw (e, ciclo_linea) at h))
          | inr (s2, e) ↦
              let i = ejecutar_comando-Igual (comando_de inst.comando) s1 s2 inst q e in
              let h' : some ((pc + 1) % 2 ^ 64, s2) ≡ some (pc', s') =
                rw (avisar_desalojo-false s2 q ((pc + 1) % 2 ^ 64) (i.0 ∙ d)) at
                  (rw (e, ciclo_linea) at h) in
              let fin : s2 ≡ s' = cc h' in
              let cuenta : (pc + 1) % 2 ^ 64 ≡ pc' = cc h' in (rw (← fin) i, sym cuenta)
        ]
    where
      inst : Instruccion
      inst = parsear_instruccion texto

      s1 : Estado State
      s1 = record s { memoria = record s.memoria { context_query_id = q } }

  ciclo_instruccion-Igual :
      (s s' : Estado State) (texto : Texto) (q pc pc' : ℕ)
      → s.desalojado ≡ false
      → s.query_cancelada ≡ false
      → ciclo_instruccion c tiempo malloc pila s texto q pc ≡ some (pc', s')
      → Igual s s' × (pc' ≡ (pc + 1) % 2 ^ 64)
  unfolding ciclo_instruccion
  ciclo_instruccion-Igual s s' texto q pc pc' d n h = elim (Texto-cases (limpiar_linea texto)) [
    | inl e ↦
        let h' : some ((pc + 1) % 2 ^ 64, s) ≡ some (pc', s') =
          rw e at (rw (n, ciclo_instruccion) at h) in
        let fin : s ≡ s' = cc h' in
        let cuenta : (pc + 1) % 2 ^ 64 ≡ pc' = cc h' in (rw (← fin) (refl, refl, refl), sym cuenta)
    | inr (x, xs, e) ↦
        ciclo_linea-Igual s s' (x ∷ xs) q pc pc' d (rw e at (rw (n, ciclo_instruccion) at h))
  ]

  Igual-trans : (s t u : Estado State) → Igual s t → Igual t u → Igual s u
  Igual-trans s t u a b = (b.0 ∙ a.0, b.1 ∙ a.1, b.2 ∙ a.2)

  abbrev pub luego : List Texto → ℕ → Option (ℕ × Estado State) → Option (ℕ × Estado State)
  luego ls q o = elim o [
    | none ↦ none
    | some (pc', s') ↦ procesar_desde c tiempo malloc pila ls s' q pc'
  ]

  pub procesar_desde-cons :
      (l : Texto) (ls : List Texto) (s : Estado State) (q pc : ℕ)
      → s.query_cancelada ≡ false
      → procesar_desde c tiempo malloc pila (l ∷ ls) s q pc
        ≡ luego ls q (ciclo_instruccion c tiempo malloc pila s l q pc)
  unfolding procesar_desde
  procesar_desde-cons l ls s q pc n =
      ap
        (λ (b : Bool).
          if b then some (pc, s) else luego ls q (ciclo_instruccion c tiempo malloc pila s l q pc))
        n

  pub procesar_desde-cancelada :
      (ls : List Texto) (s : Estado State) (q pc : ℕ)
      → s.query_cancelada ≡ true
      → procesar_desde c tiempo malloc pila ls s q pc ≡ some (pc, s)
  unfolding procesar_desde
  procesar_desde-cancelada [] s q pc n = refl
  procesar_desde-cancelada (l ∷ ls) s q pc n =
      ap
        (λ (b : Bool).
          if b then some (pc, s) else luego ls q (ciclo_instruccion c tiempo malloc pila s l q pc))
        n

  -- The lines of a query, with no pause and no cancellation asked for.
  pub procesar_desde-Igual :
      (lineas : List Texto) (s s' : Estado State) (q pc pc' : ℕ)
      → s.desalojado ≡ false
      → s.query_cancelada ≡ false
      → pc < 2 ^ 64
      → procesar_desde c tiempo malloc pila lineas s q pc ≡ some (pc', s')
      → Igual s s' × (pc' ≡ (pc + length lineas) % 2 ^ 64)
  unfolding procesar_desde
  procesar_desde-Igual [] s s' q pc pc' d n small h =
      let fin : s ≡ s' = cc h in
      let cuenta : pc ≡ pc' = cc h in (rw (← fin) (refl, refl, refl), omega arith)
  procesar_desde-Igual (l ∷ ls) s s' q pc pc' d n small h =
      elim (Option-cases (ciclo_instruccion c tiempo malloc pila s l q pc)) [
        | inl e ↦
            absurd (cc (sym (ap (luego ls q) e) ∙ sym (procesar_desde-cons l ls s q pc n) ∙ h))
        | inr ((pc1, s1), e) ↦
            let (i, cuenta) = ciclo_instruccion-Igual s s1 l q pc pc1 d n e in
            let (j, cuenta') =
              procesar_desde-Igual ls s1 s' q pc1 pc' (i.0 ∙ d) (i.1 ∙ n) (omega arith)
                (sym (ap (luego ls q) e) ∙ sym (procesar_desde-cons l ls s q pc n) ∙ h) in
            (Igual-trans s s1 s' i j, omega arith)
      ]

  -- A query that is run from its start or resumed sends no message of a pause.
  pub procesar_query_sin :
      (s s' : Estado State) (archivo : Option (List Texto)) (q pc : ℕ)
      → s.desalojado ≡ false
      → s.query_cancelada ≡ false
      → pc < 2 ^ 64
      → procesar_query c tiempo malloc pila s archivo q pc ≡ some s'
      → desalojos s'.a_master ≡ desalojos s.a_master
  unfolding procesar_query
  procesar_query_sin s s' none q pc d n small h = let fin : s ≡ s' = cc h in rw (← fin) refl
  procesar_query_sin s s' (some lineas) q pc d n small h =
      let pc1 : ℕ = if pc == 0 then 1 else pc in
      let small1 : pc1 < 2 ^ 64 = ground arith in
      elim (Option-cases (procesar_desde c tiempo malloc pila (drop (pc1 - 1) lineas) s q pc1)) [
        | inl e ↦ absurd (cc (rw (e, procesar_query) at h))
        | inr ((pc', t), e) ↦
            let (i, cuenta) =
              procesar_desde-Igual (drop (pc1 - 1) lineas) s t q pc1 pc' d n small1 e in
            let fin : t ≡ s' = cc (rw (e, procesar_query) at h) in rw (← fin) i.2
      ]
