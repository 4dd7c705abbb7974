-- ===== src/Worker/Instrucciones/Tests.antt =====
-- worker/src/instrucciones.c: the theorems at concrete lines.
use master_of_files.Base.{◌≡◌, ◌<◌, refl, some, none, [], ◌∷◌, ◌++◌, length, arith}
use master_of_files.Base.Texto.{Texto, codes}
use master_of_files.Worker.Instrucciones.{parsear_instruccion, campo, hasta, saltar}
use master_of_files.Worker.Instrucciones.Lectura.{
  Palabra, parsear_instruccion_lem, parsear_instruccion_fits,
}
use master_of_files.Worker.Instrucciones.{cortar_final, cortar_inicio, limpiar_linea}
use master_of_files.Worker.Instrucciones.Numero.{parse_size_t_safe, strtoul, parse_size_t_safe_lem}

parse_size_t_safe_lem_example :
    (parse_size_t_safe (codes "128") ≡ some 128)
    × (parse_size_t_safe (codes "128 b") ≡ none)
    × (parse_size_t_safe (codes "-128") ≡ some 18446744073709551488)
parse_size_t_safe_lem_example =
    parse_size_t_safe_lem b'1' b' ' (codes "28") (codes "b") refl refl (omega arith) (omega arith)

parse_vacio : parse_size_t_safe [] ≡ some 0
unfolding parse_size_t_safe strtoul saltar
parse_vacio = refl

lee :
    parsear_instruccion (codes "READ fs:v1  0 16")
    ≡ record { comando = codes "READ"; arg1 = codes "fs:v1"; arg2 = codes "0"; arg3 = codes "16" }
unfolding parsear_instruccion campo hasta saltar
lee = refl

corta :
    parsear_instruccion (codes "END")
    ≡ record { comando = codes "END"; arg1 = []; arg2 = []; arg3 = [] }
unfolding parsear_instruccion campo hasta saltar
corta = refl

es_write : Palabra 31 (codes "WRITE")
es_write = (λ e. cc e, refl, omega arith)

es_nombre : Palabra 127 (codes "fs:v1")
es_nombre = (λ e. cc e, refl, omega arith)

es_base : Palabra 127 (codes "0")
es_base = (λ e. cc e, refl, omega arith)

parsear_instruccion_lem_example : parsear_instruccion (codes "WRITE fs:v1 0 hola mundo") ≡ record {
  comando = codes "WRITE";
  arg1 = codes "fs:v1";
  arg2 = codes "0";
  arg3 = codes "hola mundo";
}
parsear_instruccion_lem_example =
    parsear_instruccion_lem (codes "WRITE") (codes "fs:v1") (codes "0") b'h' (codes "ola mundo")
      es_write es_nombre es_base refl refl (omega arith)

parsear_instruccion_fits_example :
    (length (parsear_instruccion (codes "TRUNCATE fs:v1 64")).comando < 32)
    × (length (parsear_instruccion (codes "TRUNCATE fs:v1 64")).arg1 < 128)
    × (length (parsear_instruccion (codes "TRUNCATE fs:v1 64")).arg2 < 128)
    × (length (parsear_instruccion (codes "TRUNCATE fs:v1 64")).arg3 < 256)
parsear_instruccion_fits_example = parsear_instruccion_fits (codes "TRUNCATE fs:v1 64")

abbrev linea : Texto
linea = 9 ∷ (codes "  END " ++ (13 ∷ 10 ∷ []))

limpia : limpiar_linea linea ≡ codes "END"
unfolding limpiar_linea cortar_inicio cortar_final
limpia = refl
