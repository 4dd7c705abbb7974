-- ===== src/Utils/Paquete.antt =====
-- utils/src/utils/hello.c: packets. A field is its bytes behind a length of four bytes, and a packet its
-- code and the size of its fields. A socket is the bytes that are left to read.
use master_of_files.Base.{
  ℕ, zero, suc, ◌+◌, ◌*◌, ◌/◌, ◌%◌, Option, none, some, List, [], ◌∷◌, ◌++◌, Bool, ◌||◌, leb,
  length, take, drop, ltb, if◌then◌else◌,
}

-- An `int` in the memory of a little-endian machine.
abbrev pub le4 : ℕ → List ℕ
le4 n = n % 256 ∷ n / 256 % 256 ∷ n / 65536 % 256 ∷ n / 16777216 % 256 ∷ []

-- `recv` or `memcpy` of an `int`; `none` where fewer bytes are left.
unfoldable pub leer_int : List ℕ → Option (ℕ × List ℕ)
leer_int (a ∷ b ∷ c ∷ d ∷ resto) = some (a + 256 * b + 65536 * c + 16777216 * d, resto)
leer_int _ = none

pub record Paquete : Type 0 where
  pub codigo_operacion : ℕ
  pub size : ℕ
  pub stream : List ℕ

-- `PAQUETE` of the enumeration of hello.h.
abbrev pub op_paquete : ℕ
op_paquete = 1

abbrev pub crear_paquete : Paquete
crear_paquete = record { codigo_operacion = op_paquete; size = 0; stream = [] }

unfoldable pub agregar_a_paquete : Paquete → List ℕ → ℕ → Paquete
agregar_a_paquete p valor tamanio = record p {
  stream = p.stream ++ (le4 tamanio ++ take tamanio valor);
  size = p.size + (tamanio + 4);
}

unfoldable pub serializar_paquete : Paquete → List ℕ
serializar_paquete p = le4 p.codigo_operacion ++ (le4 p.size ++ take p.size p.stream)

-- The code of the operation, with what is left in the socket; `none` stands for -1.
unfoldable pub recibir_operacion : List ℕ → Option (ℕ × List ℕ)
recibir_operacion bytes = leer_int bytes

-- `int` is signed: a length of 2 ^ 31 or more is a negative one.
abbrev pub es_negativo : ℕ → Bool
es_negativo n = leb 2147483648 n

-- The length that is read, the buffer and what is left in the socket. `none` stands for a negative
-- length, which `malloc` does not serve, and for a length that is not received.
unfoldable pub recibir_buffer : List ℕ → Option (ℕ × List ℕ × List ℕ)
recibir_buffer bytes = elim (leer_int bytes) [
  | none ↦ none
  | some (size, resto) ↦
      if es_negativo size then none else some (size, take size resto, drop size resto)
]

-- The loop of `recibir_paquete` over the buffer. `none` stands for a read past its end
-- or of a negative length; the fuel is the size, since each round takes four bytes and more.
unfoldable pub campos_desde : ℕ → List ℕ → Option (List (List ℕ))
campos_desde fuel [] = some []
campos_desde zero (x ∷ xs) = none
campos_desde (suc fuel) (x ∷ xs) = elim (leer_int (x ∷ xs)) [
  | none ↦ none
  | some (tamanio, resto) ↦
      if es_negativo tamanio || ltb (length resto) tamanio
      then none
      else elim (campos_desde fuel (drop tamanio resto)) [
        | none ↦ none
        | some cs ↦ some (take tamanio resto ∷ cs)
      ]
]

unfoldable pub recibir_paquete : List ℕ → Option (List (List ℕ) × List ℕ)
recibir_paquete bytes = elim (recibir_buffer bytes) [
  | none ↦ none
  | some (size, buffer, resto) ↦ elim (campos_desde size buffer) [
    | none ↦ none
    | some cs ↦ some (cs, resto)
  ]
]
