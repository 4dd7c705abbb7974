-- ===== src/Worker/Instrucciones.antt =====
-- worker/src/instrucciones.c: how a line of a script is cleaned and cut into words, and how an argument is
-- cut into file and tag. `sscanf`, `strchr` and `isspace` are the ones of the C library.
use master_of_files.Base.{
  ℕ, zero, suc, Bool, true, false, ◌&&◌, ◌||◌, not, Option, none, some, List, [], ◌∷◌, ◌++◌, ◌==◌,
  if◌then◌else◌, take, drop, find_index,
}
use master_of_files.Base.Texto.{Texto}
pub mod Lectura
pub mod Limpieza
pub mod Numero
pub mod Ejecucion
pub mod Relectura
pub mod Guardar
mod Tests

-- Space and tab, which are cut at the front; at the end the bytes of a line's end too.
abbrev pub es_blanco : ℕ → Bool
es_blanco c = (c == 32) || (c == 9)

abbrev pub es_final : ℕ → Bool
es_final c = (c == 10) || ((c == 13) || ((c == 32) || (c == 9)))

unfoldable pub cortar_final : Texto → Texto
cortar_final [] = []
cortar_final (c ∷ cs) = elim (cortar_final cs) [
  | [] ↦ if es_final c then [] else c ∷ []
  | d ∷ ds ↦ c ∷ d ∷ ds
]

unfoldable pub cortar_inicio : Texto → Texto
cortar_inicio [] = []
cortar_inicio (c ∷ cs) = let r = cortar_inicio cs in if es_blanco c then r else c ∷ cs

unfoldable pub limpiar_linea : Texto → Texto
limpiar_linea texto = cortar_inicio (cortar_final texto)

pub record Instruccion : Type 0 where
  pub comando : Texto
  pub arg1 : Texto
  pub arg2 : Texto
  pub arg3 : Texto

-- `isspace`.
abbrev pub es_espacio : ℕ → Bool
es_espacio c = (c == 32) || ((c == 9) || ((c == 10) || ((c == 11) || ((c == 12) || (c == 13)))))

unfoldable pub saltar : Texto → Texto
saltar [] = []
saltar (c ∷ cs) = let r = saltar cs in if es_espacio c then r else c ∷ cs

-- At most `n` bytes up to one that ends the field, and what is left.
unfoldable pub hasta : (ℕ → Bool) → ℕ → Texto → Texto × Texto
hasta fin zero s = ([], s)
hasta fin (suc n) [] = ([], [])
hasta fin (suc n) (c ∷ cs) =
    let r = hasta fin n cs in if fin c then ([], c ∷ cs) else (c ∷ r.0, r.1)

-- A field of the format, with the white space before it. A field that finds the end of the line stays
-- empty, and so do those behind it, as the buffers are when `sscanf` stops.
unfoldable pub campo : (ℕ → Bool) → ℕ → Texto → Texto × Texto
campo fin n s = hasta fin n (saltar s)

unfoldable pub parsear_instruccion : Texto → Instruccion
parsear_instruccion linea =
    let a = campo es_espacio 31 linea in
    let b = campo es_espacio 127 a.1 in
    let c = campo es_espacio 127 b.1 in
    let d = campo (λ x. x == 10) 255 c.1 in
    record { comando = a.0; arg1 = b.0; arg2 = c.0; arg3 = d.0 }

unfoldable pub separar_file_tag : Texto → Option (Texto × Texto)
separar_file_tag filetag = elim (find_index (λ c. c == b':') filetag) [
  | none ↦ none
  | some len_file ↦ some (take len_file filetag, drop (suc len_file) filetag)
]
