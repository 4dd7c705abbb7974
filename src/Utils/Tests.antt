-- ===== src/Utils/Tests.antt =====
-- utils/src/utils/hello.c: the theorems at concrete packets and names.
use master_of_files.Base.{ℕ, ◌≡◌, refl, false, none, some, List, [], ◌∷◌, ◌++◌, arith}
use master_of_files.Base.Texto.{codes, tiene}
use master_of_files.Utils.Nombre.{split_file_tag}
use master_of_files.Utils.Paquete.{recibir_operacion, recibir_paquete, serializar_paquete}
use master_of_files.Utils.Envio.{armar, recibir_paquete-serializar_paquete}

split_sin_tag : split_file_tag (codes "fs") ≡ none
unfolding split_file_tag
split_sin_tag = refl

split_dos_puntos : split_file_tag (codes "a:b:c") ≡ some (codes "a", codes "b:c")
unfolding split_file_tag
split_dos_puntos = refl

sin_dos_puntos : tiene b':' (codes "fs") ≡ false
unfolding tiene
sin_dos_puntos = refl

abbrev campos : List (List ℕ)
campos = codes "fs" ∷ [] ∷ (0 ∷ 1 ∷ 0 ∷ 0 ∷ []) ∷ []

recibir_paquete-serializar_paquete_example :
    (bytes : List ℕ) × (recibir_operacion (serializar_paquete (armar 35 campos) ++ 7 ∷ 8 ∷ [])
      ≡ some (35, bytes))
    × (recibir_paquete bytes ≡ some (campos, 7 ∷ 8 ∷ []))
recibir_paquete-serializar_paquete_example =
    recibir_paquete-serializar_paquete 35 campos (7 ∷ 8 ∷ []) (omega arith) (omega arith)
