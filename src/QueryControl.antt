-- ===== src/QueryControl.antt =====
-- query_control/src/query_control.c: the loop that waits for the messages of the Master. A message is its code,
-- an `int`, and the C strings of its fields.
mod Tests
use master_of_files.Base.{
  ℕ, ◌≡◌, refl, Bool, true, false, ◌||◌, inl, inr, List, [], ◌∷◌, ◌==◌, if◌then◌else◌, Bool-cases,
  arith,
}
use master_of_files.Base.Texto.{Texto}
use master_of_files.Utils.Paquete.{es_negativo}

-- OP_MENSAJE is the first constant of its enumeration.
abbrev pub cod_mensaje : ℕ
cod_mensaje = 0

abbrev pub cod_fin_query : ℕ
cod_fin_query = 500

-- How the loop ends.
pub data Salida : Type 0 where
  cerrada mal_formada : Salida
  finalizada : Texto → Salida

abbrev pub mostrar : List Texto → List Texto × Salida → List Texto × Salida
mostrar [] resto = resto
mostrar (mensaje ∷ _) resto = (mensaje ∷ resto.0, resto.1)

abbrev pub terminar : List Texto → Salida
terminar [] = mal_formada
terminar (motivo ∷ _) = finalizada motivo

-- The reads that are shown, and the end. A socket with no more to read gives -1.
unfoldable pub esperar : List (ℕ × List Texto) → List Texto × Salida
esperar [] = ([], cerrada)
esperar ((cod_op, campos) ∷ ms) =
    let resto = esperar ms in
    if (cod_op == 0) || es_negativo cod_op
    then ([], cerrada)
    else if cod_op == cod_mensaje
    then mostrar campos resto
    else if cod_op == cod_fin_query
    then ([], terminar campos)
    else resto

-- Whatever the Master sends, no read is ever shown, and the first read ends the Query Control as if the Master
-- had closed the connection: the code of a read is 0, which the loop takes for a closed socket.
pub esperar-cod_mensaje :
    (ms : List (ℕ × List Texto)) (campos : List Texto)
    → ((esperar ms).0 ≡ []) × (esperar ((cod_mensaje, campos) ∷ ms) ≡ ([], cerrada))
unfolding esperar
esperar-cod_mensaje ms campos = (ninguna ms, refl)
  where
    ninguna : (ms : List (ℕ × List Texto)) → (esperar ms).0 ≡ []
    ninguna [] = refl
    ninguna ((cod_op, campos) ∷ ms) = elim (Bool-cases ((cod_op == 0) || es_negativo cod_op)) [
      | inl e ↦ rw (e) refl
      | inr e ↦
          let g : (cod_op == cod_mensaje) ≡ false = ground arith in
          elim (Bool-cases (cod_op == cod_fin_query)) [
            | inl f ↦ rw (e) (rw (g) (rw (f) refl))
            | inr f ↦ rw (e) (rw (g) (rw (f) (ninguna ms)))
          ]
    ]
