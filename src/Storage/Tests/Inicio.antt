-- ===== src/Storage/Tests/Inicio.antt =====
-- A start of Storage with FRESH_START: sixteen blocks of four bytes.
use master_of_files.Base.{◌/◌, arith}
use master_of_files.Storage.Inicio.{levantar}
use master_of_files.Storage.Inicio.Formateo.{Levantado, levantar-Levantado}

levantar-Levantado_example : Levantado (64 / 4) 4 (levantar 64 4)
levantar-Levantado_example = levantar-Levantado 64 4 (omega arith)
