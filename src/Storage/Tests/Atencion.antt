-- ===== src/Storage/Tests/Atencion.antt =====
-- Runs of the handlers of Storage, with two physical blocks of two bytes.
use master_of_files.Base.{
  ℕ, zero, suc, ◌≡◌, refl, ◌⊎◌, inl, inr, true, false, Option, none, some, List, [], ◌∷◌, get_elem?,
  take, arith, find_index, if◌then◌else◌, Bool-cases, sym, ◌∙◌,
}
use master_of_files.Base.Int.{ℤ, pos, ◌+ℤ◌, ◌-ℤ◌}
use master_of_files.Base.Texto.{Texto, codes, texto_eq, texto_eq_sound, tiene}
use master_of_files.Utils.Protocolo.{
  op_resp_ok, op_resp_error, Pedido, op_st_read_block, op_st_write_block, op_create, op_truncate,
  Respuesta,
}
use master_of_files.Worker.Memoria.Clave.{Clave}
use master_of_files.Worker.Paginas.{file_tag}
use master_of_files.Storage.Datos.{
  BlockFisico, BlockLogico, Storage, work_in_progress, buscar_tag, buscar_index_tag,
  buscar_index_file, index_tag, enlace_de, bitmap_encontrar_bloque_libre, link, unlink, hay_archivo,
  buscar_index_block_fisico, esta_en_array,
}
use master_of_files.Utils.Nombre.{split_file_tag}
use master_of_files.Storage.Nombres.{block_04d, crear_nombre_bloque_logico, digitos, itoa}
use master_of_files.Storage.Operaciones.{
  operacion_create_file, operacion_truncate_file, ajustar, agrandar,
}
use master_of_files.Storage.Bloques.{
  Config, Disco, corta, entera, escribir_archivo_truncado, archivo_de, get_contenido,
  guardar_archivo, operacion_read_bloque, operacion_write_bloque, operacion_commit_tag,
  procesar_bloques, procesar_bloque_commit, reasignar_bloque_logico,
}
use master_of_files.Storage.Atencion.{
  solo, storage_create, storage_truncate, storage_write_block, storage_read_block, atender_worker,
}
use master_of_files.Storage.Atencion.Paginas.{bloque_de, pagina_de, Sano}
use master_of_files.Storage.Atencion.Refina.{respuesta_de, SoloPagina, atender_worker-pagina_de}
use master_of_files.Storage.Tests.{block0, vacio}
use master_of_files.Storage.Contadores.{refs}
use master_of_files.Storage.Contadores.Agrandar.{Contado}
use master_of_files.Storage.Contadores.Confirmar.{operacion_commit_tag-Contado}

-- A dictionary as a function.
abbrev pub diccionario : Config
diccionario = record {
  State = Texto → Option Texto;
  config_has_property = λ s k. elim (s k) [ none ↦ false | some v ↦ true ];
  config_get_string_value = λ s k. elim (s k) [ none ↦ [] | some v ↦ v ];
  config_set_value = λ s k v x. if texto_eq k x then some v else s x;
  config_remove_key = λ s k x. if texto_eq k x then none else s x;
}

abbrev pub md5 : List ℕ → Texto
md5 xs = xs

abbrev pub sin_hash : Texto → Option Texto
sin_hash x = none

abbrev pub bl0 : BlockLogico
bl0 = record { nombre_block = codes "000000.dat"; bloque_fisico_asociado = codes "block0001" }

abbrev pub con_pagina : Storage
con_pagina = record vacio {
  lista_files =
      record {
        name_file = codes "a";
        tags =
            record {
              name_tag = codes "b";
              metadata = record {
                tamanio_file = 2;
                blocks_fisicos_usados = codes "1" ∷ [];
                estado = work_in_progress;
              };
              lista_block_logicos = bl0 ∷ [];
            }
            ∷ [];
      }
      ∷ [];
  enlaces = ((codes "a", codes "b", codes "000000.dat"), codes "block0001") ∷ [];
}

abbrev pub disco : Disco (Texto → Option Texto)
disco = record { storage = con_pagina; hash_index = sin_hash }

uno_solo : (p : ℕ) (bl : BlockLogico) → get_elem? (bl0 ∷ []) p ≡ some bl → (p ≡ 0) × (bl ≡ bl0)
uno_solo zero bl h = (refl, cc h)
uno_solo (suc p) bl h = cc h

una_pagina :
    (k : Clave) (bl : BlockLogico)
    → bloque_de con_pagina k ≡ some bl
    → (k ≡ (codes "a", codes "b", 0)) × (bl ≡ bl0)
unfolding buscar_tag buscar_index_tag buscar_index_file index_tag find_index texto_eq
una_pagina (file, tag, p) bl h = elim (Bool-cases (texto_eq (codes "a") file)) [
  | inr e ↦ absurd (cc (rw e at h))
  | inl e ↦ elim (Bool-cases (texto_eq (codes "b") tag)) [
    | inr f ↦ absurd (cc (rw f at (rw e at h)))
    | inl f ↦
        let u : (p ≡ 0) × (bl ≡ bl0) = uno_solo p bl (rw f at (rw e at h)) in
        (cc (u.0, texto_eq_sound (codes "a") file e, texto_eq_sound (codes "b") tag f), u.1)
  ]
]

pub con_pagina-Sano : Sano con_pagina
unfolding enlace_de texto_eq
con_pagina-Sano = record {
  enlazada = λ k bl e. let u = una_pagina k bl e in rw (u.0, u.1) refl;
  propia = λ k l b b' e f q. (una_pagina k b e).0 ∙ sym (una_pagina l b' f).0;
  pocas = λ k bl e. let u = una_pagina k bl e in rw (u.0) (omega arith);
}

atender_worker-pagina_de_example :
    (atender_worker diccionario md5 true
        (corta 1)
        disco
        (op_st_read_block 4 (file_tag (codes "a") (codes "b")) 0)
      ≡ some (respuesta_de (pagina_de con_pagina (codes "a", codes "b", 0)), disco))
    × (r : Respuesta) × (d' : Disco (Texto → Option Texto)) × (atender_worker diccionario md5 true
          (corta 1)
          disco
          (op_st_write_block 4 (codes "a") (codes "b") 0 2 (7 ∷ 0 ∷ []))
        ≡ some (r, d'))
    × Sano d'.storage
    × (((r ≡ solo op_resp_error) × (d' ≡ disco))
        ⊎ ((r ≡ solo op_resp_ok) × SoloPagina disco d' (codes "a", codes "b", 0) (7 ∷ 0 ∷ []))
        ⊎ ((r ≡ solo op_resp_error)
            × (n : ℕ) × (corta 1 ≡ corta n)
            × SoloPagina disco d' (codes "a", codes "b", 0) (take n (7 ∷ 0 ∷ []))))
unfolding tiene
atender_worker-pagina_de_example =
    atender_worker-pagina_de diccionario md5 true (corta 1) disco 4 (codes "a") (codes "b") 0
      (7 ∷ 0 ∷ []) con_pagina-Sano refl refl

-- CREATE, TRUNCATE to a block, a write of it, and a read: the bytes of the write are not there, since
-- TRUNCATE links the block to one physical block and records another.
abbrev luego_de : Option (Respuesta × Disco (Texto → Option Texto)) → Disco (Texto → Option Texto)
luego_de none = disco
luego_de (some x) = x.1

abbrev pide :
    Disco (Texto → Option Texto) → Pedido → Option (Respuesta × Disco (Texto → Option Texto))
pide = atender_worker diccionario md5 true entera

abbrev truncada : Disco (Texto → Option Texto)
truncada = luego_de (
    pide
      (luego_de
        (pide record { storage = vacio; hash_index = sin_hash } (op_create 4 (codes "a:b"))))
      (op_truncate 4 (codes "a:b") (pos 2)))

abbrev escrita : Disco (Texto → Option Texto)
escrita = luego_de (pide truncada (op_st_write_block 4 (codes "a") (codes "b") 0 2 (7 ∷ 8 ∷ [])))

escritura_perdida :
    ((pide truncada (op_st_write_block 4 (codes "a") (codes "b") 0 2 (7 ∷ 8 ∷ [])))
      ≡ some (solo op_resp_ok, escrita))
    × (pide escrita (op_st_read_block 4 (codes "a:b") 0)
        ≡ some (record { op_resp = some op_resp_ok; datos = 0 ∷ 0 ∷ [] }, escrita))
unfolding atender_worker storage_create storage_truncate storage_write_block storage_read_block
    split_file_tag operacion_create_file operacion_truncate_file buscar_tag buscar_index_tag
    buscar_index_file find_index texto_eq index_tag ajustar agrandar bitmap_encontrar_bloque_libre
    link hay_archivo enlace_de archivo_de get_contenido guardar_archivo operacion_read_bloque
    operacion_write_bloque buscar_index_block_fisico esta_en_array block_04d
    crear_nombre_bloque_logico digitos itoa ◌+ℤ◌ escribir_archivo_truncado
escritura_perdida = (refl, refl)

-- A block whose digest the index knows under another physical block: COMMIT moves it there.
abbrev bloque1 : BlockFisico
bloque1 = record { path_block = codes "block0001"; blogico_asociados = pos 1 }

abbrev repetido : Disco (Texto → Option Texto)
repetido = record {
  storage = record con_pagina { lista_bloques_fisicos = block0 ∷ bloque1 ∷ [] };
  hash_index = λ k. if texto_eq k (0 ∷ []) then some (codes "block0000") else none;
}

repetido-distintos :
    (i j : ℕ) (a b : BlockFisico)
    → get_elem? repetido.storage.lista_bloques_fisicos i ≡ some a
    → get_elem? repetido.storage.lista_bloques_fisicos j ≡ some b
    → a.path_block ≡ b.path_block
    → i ≡ j
repetido-distintos zero zero a b e e' q = refl
repetido-distintos zero (suc zero) a b e e' q = ground arith
repetido-distintos (suc zero) zero a b e e' q = ground arith
repetido-distintos (suc zero) (suc zero) a b e e' q = refl
repetido-distintos (suc (suc i)) j a b e e' q = cc
repetido-distintos zero (suc (suc j)) a b e e' q = cc
repetido-distintos (suc zero) (suc (suc j)) a b e e' q = cc

repetido-contado :
    (i : ℕ) (b : BlockFisico)
    → get_elem? repetido.storage.lista_bloques_fisicos i ≡ some b
    → b.blogico_asociados ≡ pos (refs b.path_block repetido.storage.lista_files)
unfolding texto_eq
repetido-contado zero b e = let q : block0 ≡ b = cc e in rw⁻¹ q refl
repetido-contado (suc zero) b e = let q : bloque1 ≡ b = cc e in rw⁻¹ q refl
repetido-contado (suc (suc i)) b e = cc

repetido-Contado : Contado repetido.storage
repetido-Contado = record {
  distintos = repetido-distintos;
  primero = (block0, refl, refl);
  contado = repetido-contado;
}

abbrev commit_de : Option (ℤ × Disco (Texto → Option Texto)) → Disco (Texto → Option Texto)
commit_de none = disco
commit_de (some x) = x.1

abbrev confirmado : Disco (Texto → Option Texto)
confirmado = commit_de (operacion_commit_tag diccionario md5 repetido (codes "a") (codes "b"))

confirma :
    operacion_commit_tag diccionario md5 repetido (codes "a") (codes "b") ≡ some (pos 0, confirmado)
unfolding operacion_commit_tag buscar_index_tag buscar_index_file index_tag find_index texto_eq
    procesar_bloques procesar_bloque_commit get_contenido enlace_de archivo_de
confirma = refl

operacion_commit_tag-Contado_example : Contado confirmado.storage
operacion_commit_tag-Contado_example =
    operacion_commit_tag-Contado diccionario md5 repetido confirmado (codes "a") (codes "b") (pos 0)
      repetido-Contado confirma

-- The block has moved to `block0000`.
movido :
    bloque_de confirmado.storage (codes "a", codes "b", 0)
    ≡ some record { nombre_block = codes "000000.dat"; bloque_fisico_asociado = codes "block0000" }
unfolding operacion_commit_tag buscar_tag buscar_index_tag buscar_index_file index_tag find_index
    texto_eq procesar_bloques procesar_bloque_commit reasignar_bloque_logico get_contenido enlace_de
    archivo_de buscar_index_block_fisico link hay_archivo unlink ◌-ℤ◌
movido = refl
