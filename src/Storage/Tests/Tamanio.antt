-- ===== src/Storage/Tests/Tamanio.antt =====
-- A TRUNCATE of an empty File:Tag to one block of two bytes.
use master_of_files.Base.{ℕ, zero, suc, ◌/◌, ◌<◌, ◌≡◌, refl, true, some, length, arith, find_index}
use master_of_files.Base.Int.{pos}
use master_of_files.Base.Texto.{codes, texto_eq}
use master_of_files.Storage.Nombres.{block_04d, crear_nombre_bloque_logico, itoa, digitos}
use master_of_files.Storage.Datos.{
  buscar_index_tag, buscar_index_file, index_tag, bitmap_encontrar_bloque_libre, link, enlace_de,
  hay_archivo, esta_en_array,
}
use master_of_files.Storage.Operaciones.{crear_tag, operacion_truncate_file, ajustar, agrandar}
use master_of_files.Storage.Tamanio.{Enlazables, Truncado, operacion_truncate_file-Truncado}
use master_of_files.Storage.Tests.{con_ab, estado_de}

con_ab_archivo :
    (bf : ℕ) → bf < length con_ab.bitmap → hay_archivo con_ab.archivos (block_04d bf) ≡ true
unfolding hay_archivo texto_eq block_04d itoa digitos
con_ab_archivo zero lt = refl
con_ab_archivo (suc zero) lt = refl
con_ab_archivo (suc (suc bf)) lt = absurd (omega arith)

con_ab-Enlazables : Enlazables con_ab (codes "a") (codes "b") (0 / 2)
unfolding enlace_de
con_ab-Enlazables = record { con_archivo = con_ab_archivo; sin_enlace = λ j le. refl }

crece :
    operacion_truncate_file con_ab (codes "a") (codes "b") 2
    ≡ some (pos 0, estado_de (operacion_truncate_file con_ab (codes "a") (codes "b") 2))
unfolding operacion_truncate_file buscar_index_tag buscar_index_file index_tag find_index texto_eq
    ajustar agrandar bitmap_encontrar_bloque_libre link hay_archivo enlace_de block_04d
    crear_nombre_bloque_logico itoa digitos esta_en_array
crece = refl

operacion_truncate_file-Truncado_example :
    Truncado (estado_de (operacion_truncate_file con_ab (codes "a") (codes "b") 2)) (0, 0) (2 / 2) 2
unfolding buscar_index_tag buscar_index_file index_tag find_index texto_eq
operacion_truncate_file-Truncado_example =
    operacion_truncate_file-Truncado con_ab
      (estado_de (operacion_truncate_file con_ab (codes "a") (codes "b") 2)) (codes "a") (codes "b")
      (0, 0) (crear_tag (codes "b")) 2 refl refl refl con_ab-Enlazables crece
