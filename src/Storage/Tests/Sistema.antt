-- ===== src/Storage/Tests/Sistema.antt =====
-- A Worker whose socket leads to the Storage of the other runs.
use master_of_files.Base.{
  ℕ, ◌+◌, ◌%◌, ◌^◌, ◌≡◌, refl, Bool, true, Option, none, some, List, [], ◌∷◌, arith, find_index,
}
use master_of_files.Base.Texto.{Texto, codes, texto_eq}
use master_of_files.Utils.Protocolo.{Rc, cero}
use master_of_files.Worker.Memoria.{
  Memoria, Ram, lru, inicializar_memoria, frame_matchea, compara, buscar_marco_libre,
}
use master_of_files.Worker.Paginas.{
  acceder_memoria, acceder_desde, traer_pagina, cargar_marco, lectura_pagina_storage, copiar,
}
use master_of_files.Utils.Nombre.{split_file_tag}
use master_of_files.Storage.Datos.{
  buscar_tag, buscar_index_tag, buscar_index_file, index_tag, enlace_de,
}
use master_of_files.Storage.Atencion.{atender_worker, storage_read_block}
use master_of_files.Worker.Instrucciones.{Instruccion, saltar, separar_file_tag}
use master_of_files.Worker.Instrucciones.Numero.{
  leer_digitos, ajuste, numero, strtoul, parse_size_t_safe,
}
use master_of_files.Worker.Instrucciones.Ejecucion.{
  Mensaje, op_resp_read_ok, ejecutar_write, ejecutar_read,
}
use master_of_files.Storage.Bloques.{Disco, operacion_read_bloque, get_contenido, archivo_de}
use master_of_files.Storage.Atencion.Servidor.{storage_server}
use master_of_files.Sistema.Lectura.{ejecutar_read-storage_server}
use master_of_files.Storage.Tests.Atencion.{diccionario, md5, disco, con_pagina-Sano}

abbrev D : Type 0
D = Disco (Texto → Option Texto)

abbrev info : Ram
info = record { tam_memoria = 2; page_size = 2; algoritmo = lru }

abbrev reloj : ℕ → ℕ
reloj t = 100 + t

abbrev todo : ℕ → Bool
todo n = true

abbrev escribe : Instruccion
escribe = record {
  comando = codes "WRITE";
  arg1 = codes "a:b";
  arg2 = codes "0";
  arg3 = codes "si";
}

abbrev relee : Instruccion
relee = record { comando = codes "READ"; arg1 = codes "a:b"; arg2 = codes "0"; arg3 = codes "2" }

abbrev vacia : Memoria D
vacia = record {
  page_size = 2;
  frames = [];
  algoritmo = lru;
  context_query_id = 0;
  puntero_reloj = 0;
  instante = 0;
  storage = disco;
}

abbrev o_vacia : Option (Memoria D) → Memoria D
o_vacia none = vacia
o_vacia (some r) = r

abbrev memoria : Memoria D
memoria = o_vacia (inicializar_memoria info true true disco)

abbrev memoria_de : Option (Rc × Memoria D) → Memoria D
memoria_de none = vacia
memoria_de (some (_, r)) = r

abbrev escrita : Memoria D
escrita =
    memoria_de
      (ejecutar_write (storage_server diccionario md5 true true) reloj todo memoria escribe)

inicia : inicializar_memoria info true true disco ≡ some memoria
unfolding inicializar_memoria
inicia = refl

escribe_ok :
    ejecutar_write (storage_server diccionario md5 true true) reloj todo memoria escribe
    ≡ some (cero, escrita)
unfolding inicializar_memoria ejecutar_write separar_file_tag find_index parse_size_t_safe strtoul
    saltar numero leer_digitos ajuste acceder_memoria acceder_desde traer_pagina frame_matchea
    compara buscar_marco_libre cargar_marco lectura_pagina_storage atender_worker storage_read_block
    split_file_tag texto_eq buscar_tag buscar_index_tag buscar_index_file index_tag
    operacion_read_bloque get_contenido enlace_de archivo_de copiar
escribe_ok = refl

ejecutar_read-storage_server_example :
    (rc : Rc) × (r'' : Memoria D) × (ms : List Mensaje) × (ejecutar_read
        (storage_server diccionario md5 true true)
        reloj
        todo
        escrita
        relee
      ≡ some (rc, r'', ms))
    × (rc ≡ cero → ms ≡ op_resp_read_ok (codes "a:b") (2 % 2 ^ 32) (some (codes "si")) ∷ [])
unfolding separar_file_tag find_index parse_size_t_safe strtoul saltar numero leer_digitos ajuste
ejecutar_read-storage_server_example =
    ejecutar_read-storage_server diccionario md5 true true reloj todo info disco (codes "a")
      (codes "b") 0 memoria escrita escribe relee (omega arith) (con_pagina-Sano, refl) inicia refl
      refl refl refl refl (omega arith) (omega arith) refl escribe_ok
