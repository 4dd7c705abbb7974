-- ===== src/QueryControl/Tests.antt =====
-- A run of the Query Control: a read that it does not show, and an end that it does not see.
use master_of_files.Base.{◌≡◌, [], ◌∷◌}
use master_of_files.Base.Texto.{codes}
use master_of_files.QueryControl.{cod_mensaje, cod_fin_query, esperar, cerrada, esperar-cod_mensaje}

esperar-cod_mensaje_example :
    ((esperar ((cod_fin_query, codes "Finalizada OK" ∷ []) ∷ [])).0 ≡ [])
    × (esperar (
          (cod_mensaje, codes "Archivo a:b, contenido: hola" ∷ [])
          ∷ (cod_fin_query, codes "Finalizada OK" ∷ [])
          ∷ [])
        ≡ ([], cerrada))
esperar-cod_mensaje_example =
    esperar-cod_mensaje ((cod_fin_query, codes "Finalizada OK" ∷ []) ∷ [])
      (codes "Archivo a:b, contenido: hola" ∷ [])
