-- ===== src/Utils/Envio.antt =====
-- utils/src/utils/hello.c: a packet is received as it was sent.
use master_of_files.Base.{
  ℕ, zero, suc, ◌+◌, ◌≤◌, ◌<◌, ◌≡◌, refl, false, some, List, [], ◌∷◌, ◌++◌, length, take, drop, ltb,
  arith, sym, ◌∙◌, ap, append_assoc, append-nil, length-append, take_of_length-le,
}
use master_of_files.Utils.Paquete.{
  Paquete, le4, leer_int, crear_paquete, agregar_a_paquete, serializar_paquete, recibir_operacion,
  recibir_buffer, es_negativo, campos_desde, recibir_paquete,
}

-- A packet with its code and its fields, added in their order.
abbrev pub agregar_todos : Paquete → List (List ℕ) → Paquete
agregar_todos p [] = p
agregar_todos p (v ∷ vs) = agregar_todos (agregar_a_paquete p v (length v)) vs

abbrev pub armar : ℕ → List (List ℕ) → Paquete
armar op vs = agregar_todos (record crear_paquete { codigo_operacion = op }) vs

abbrev pub plano : List (List ℕ) → List ℕ
plano [] = []
plano (v ∷ vs) = le4 (length v) ++ (v ++ plano vs)

leer_int-le4 : (n : ℕ) (xs : List ℕ) → n < 4294967296 → leer_int (le4 n ++ xs) ≡ some (n, xs)
unfolding leer_int
leer_int-le4 n xs h = ap (λ (m : ℕ). some (m, xs)) (omega arith)

take-append_self {ℓ} : {A : Type ℓ} (xs ys : List A) → take (length xs) (xs ++ ys) ≡ xs
take-append_self [] ys = refl
take-append_self (x ∷ xs) ys = ap (◌∷◌ x) (take-append_self xs ys)

drop-append_self {ℓ} : {A : Type ℓ} (xs ys : List A) → drop (length xs) (xs ++ ys) ≡ ys
drop-append_self [] ys = refl
drop-append_self (x ∷ xs) ys = drop-append_self xs ys

campos_desde-plano :
    (fuel : ℕ) (vs : List (List ℕ))
    → length (plano vs) ≤ fuel
    → length (plano vs) < 2147483648
    → campos_desde fuel (plano vs) ≡ some vs
unfolding campos_desde
campos_desde-plano fuel [] h small = refl
campos_desde-plano zero (v ∷ vs) h small = absurd (omega arith)
campos_desde-plano (suc fuel) (v ∷ vs) h small =
    rw (leer_int-le4 (length v) (v ++ plano vs) (omega (arith, mide)), campos_desde)
      (rw
        (
          no_negativo,
          cabe,
          drop-append_self v (plano vs),
          campos_desde-plano fuel vs (omega (arith, mide)) (omega (arith, mide)),
          take-append_self v (plano vs),
        )
        refl)
  where
    mide : length (v ++ plano vs) ≡ length v + length (plano vs)
    mide = length-append v (plano vs)

    no_negativo : es_negativo (length v) ≡ false
    no_negativo = ground (arith, mide)

    cabe : ltb (length (v ++ plano vs)) (length v) ≡ false
    cabe = ground (arith, mide)

paquete_eq :
    (op : ℕ) {m n : ℕ} {s t : List ℕ}
    → m ≡ n
    → s ≡ t
    → ◌≡◌ {A = Paquete}
        (record { codigo_operacion = op; size = m; stream = s })
        (record { codigo_operacion = op; size = n; stream = t })
paquete_eq op e f = cc (e, f)

agregar_todos_lem :
    (p : Paquete) (vs : List (List ℕ))
    → agregar_todos p vs
      ≡ record p { stream = p.stream ++ plano vs; size = p.size + length (plano vs) }
unfolding agregar_a_paquete
agregar_todos_lem p [] = paquete_eq p.codigo_operacion (omega arith) (sym (append-nil p.stream))
agregar_todos_lem p (v ∷ vs) =
    agregar_todos_lem (agregar_a_paquete p v (length v)) vs
    ∙ paquete_eq p.codigo_operacion (omega (arith, length-append v (plano vs)))
        (rw (append_assoc p.stream _ (plano vs), take_of_length-le (length v) v (omega arith)) refl)

armar_lem :
    (op : ℕ) (vs : List (List ℕ))
    → armar op vs ≡ record { codigo_operacion = op; size = length (plano vs); stream = plano vs }
armar_lem op vs =
    agregar_todos_lem (record crear_paquete { codigo_operacion = op }) vs
    ∙ paquete_eq op (omega arith) refl

serializar_paquete-armar :
    (op : ℕ) (vs : List (List ℕ))
    → serializar_paquete (armar op vs) ≡ le4 op ++ (le4 (length (plano vs)) ++ plano vs)
unfolding serializar_paquete
serializar_paquete-armar op vs =
    rw (armar_lem op vs, serializar_paquete)
      (rw (take_of_length-le (length (plano vs)) (plano vs) (omega arith)) refl)

-- What the packet of the fields `vs` under the code `op` puts in the socket is read back as that code
-- and these fields, with nothing taken of what follows, where the code is an `int` and the fields with
-- their lengths take less than 2 ^ 31 bytes.
pub recibir_paquete-serializar_paquete :
    (op : ℕ) (vs : List (List ℕ)) (resto : List ℕ)
    → op < 4294967296
    → length (plano vs) < 2147483648
    → (bytes : List ℕ) × (recibir_operacion (serializar_paquete (armar op vs) ++ resto)
        ≡ some (op, bytes))
      × (recibir_paquete bytes ≡ some (vs, resto))
unfolding recibir_operacion recibir_paquete recibir_buffer
recibir_paquete-serializar_paquete op vs resto h small = (
  le4 (length (plano vs)) ++ (plano vs ++ resto),
  rw (serializar_paquete-armar op vs)
      (rw (append_assoc (le4 (length (plano vs))) (plano vs) resto) (leer_int-le4 op _ h)),
  rw
      (
        leer_int-le4 (length (plano vs)) (plano vs ++ resto) (omega arith),
        recibir_paquete,
        recibir_buffer,
      )
      (rw
        (
          no_negativo,
          take-append_self (plano vs) resto,
          campos_desde-plano (length (plano vs)) vs (omega arith) small,
          drop-append_self (plano vs) resto,
        )
        refl),
)
  where
    no_negativo : es_negativo (length (plano vs)) ≡ false
    no_negativo = ground arith
