-- ===== src/Master/Tests/Rutas.antt =====
-- master/src/master_query.c: the theorems at concrete paths and queries.
use master_of_files.Base.{◌≡◌, ◌≢◌, refl, false, [], arith}
use master_of_files.Base.Int.{pos}
use master_of_files.Base.Texto.{codes, tiene}
use master_of_files.Master.Rutas.{saltear_prefijos, tras_barra, path_nombre_archivo, crear_query}
use master_of_files.Master.Nombres.{despues, crear_query-despues}

nombre : path_nombre_archivo (codes "././q/a.txt") ≡ codes "a.txt"
unfolding path_nombre_archivo saltear_prefijos tras_barra
nombre = refl

sin_barra : tiene b'/' (codes "a.txt") ≡ false
unfolding tiene
sin_barra = refl

hay_directorio : codes "/q" ≢ []
hay_directorio e = cc e

crear_query-despues_example :
    (crear_query (despues 2 7) (codes "a") (pos 1) 5).0.qid
    ≢ (crear_query 7 (codes "a") (pos 1) 4).0.qid
crear_query-despues_example =
    crear_query-despues 7 2 5 4 (codes "a") (codes "a") (pos 1) (pos 1) (omega arith) (omega arith)
      (omega arith)
