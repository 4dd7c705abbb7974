-- ===== src/Storage/Tests.antt =====
-- Runs of the operations of Storage, with two physical blocks of two bytes.
mod Atencion
mod Sistema
mod Inicio
mod Reinicio
mod Tamanio
use master_of_files.Base.{
  ℕ, zero, suc, ◌%◌, ◌≡◌, refl, ◌≢◌, ◌⊎◌, true, false, Option, none, some, [], ◌∷◌, get_elem?,
  arith, find_index,
}
use master_of_files.Base.Int.{ℤ, pos, negsuc}
use master_of_files.Base.Texto.{Texto, codes, texto_eq}
use master_of_files.Storage.Nombres.{crear_nombre_bloque_logico, block_04d, itoa, digitos}
use master_of_files.Storage.Datos.{
  BlockFisico, Tag, Storage, commited, buscar_tag, buscar_index_tag, buscar_index_file, index_tag,
  bitmap_encontrar_bloque_libre, link, enlace_de, hay_archivo, esta_en_array,
}
use master_of_files.Storage.Operaciones.{
  crear_tag, operacion_create_file, operacion_truncate_file, operacion_tag_file, ajustar, agrandar,
}
use master_of_files.Storage.Contadores.Agrandar.{Contado}
use master_of_files.Storage.Contadores.Truncar.{operacion_truncate_file-Contado}
use master_of_files.Storage.Contadores.Etiquetar.{
  operacion_create_file-Contado, operacion_tag_file-Contado,
}
use master_of_files.Storage.Crear.{operacion_create_file_lem}

abbrev pub block0 : BlockFisico
block0 = record { path_block = codes "block0000"; blogico_asociados = pos 0 }

abbrev block1 : BlockFisico
block1 = record { path_block = codes "block0001"; blogico_asociados = pos 0 }

abbrev pub vacio : Storage
vacio = record {
  block_size = 2;
  cant_block = 2;
  lista_files = [];
  lista_bloques_fisicos = block0 ∷ block1 ∷ [];
  bitmap = true ∷ false ∷ [];
  archivos = (codes "block0000", 48 ∷ 48 ∷ []) ∷ (codes "block0001", 0 ∷ 0 ∷ []) ∷ [];
  enlaces = [];
}

vacio-distintos :
    (i j : ℕ) (a b : BlockFisico)
    → get_elem? vacio.lista_bloques_fisicos i ≡ some a
    → get_elem? vacio.lista_bloques_fisicos j ≡ some b
    → a.path_block ≡ b.path_block
    → i ≡ j
vacio-distintos zero zero a b e e' q = refl
vacio-distintos zero (suc zero) a b e e' q = ground arith
vacio-distintos (suc zero) zero a b e e' q = ground arith
vacio-distintos (suc zero) (suc zero) a b e e' q = refl
vacio-distintos (suc (suc i)) j a b e e' q = cc
vacio-distintos zero (suc (suc j)) a b e e' q = cc
vacio-distintos (suc zero) (suc (suc j)) a b e e' q = cc

vacio-contado :
    (i : ℕ) (b : BlockFisico)
    → get_elem? vacio.lista_bloques_fisicos i ≡ some b
    → b.blogico_asociados ≡ pos 0
vacio-contado zero b e = let q : block0 ≡ b = cc e in rw⁻¹ q refl
vacio-contado (suc zero) b e = let q : block1 ≡ b = cc e in rw⁻¹ q refl
vacio-contado (suc (suc i)) b e = cc

vacio-Contado : Contado vacio
vacio-Contado = record {
  distintos = vacio-distintos;
  primero = (block0, refl, refl);
  contado = vacio-contado;
}

operacion_create_file-Contado_example :
    Contado (operacion_create_file vacio (codes "a") (codes "b")).1
operacion_create_file-Contado_example =
    operacion_create_file-Contado vacio (codes "a") (codes "b") vacio-Contado

operacion_create_file_lem_example :
    ((t : Tag)
      → buscar_tag [] (codes "a") (codes "b") ≡ some t
      → operacion_create_file vacio (codes "a") (codes "b") ≡ (negsuc 0, vacio))
    × (buscar_tag [] (codes "a") (codes "b") ≡ none
        → (s' : Storage) × (operacion_create_file vacio (codes "a") (codes "b") ≡ (pos 0, s'))
          × (buscar_tag s'.lista_files (codes "a") (codes "b") ≡ some (crear_tag (codes "b")))
          × ((file' tag' : Texto)
              → (file' ≢ codes "a" ⊎ tag' ≢ codes "b")
              → buscar_tag s'.lista_files file' tag' ≡ buscar_tag [] file' tag'))
operacion_create_file_lem_example = operacion_create_file_lem vacio (codes "a") (codes "b")

-- A state with the empty File:Tag `a:b`.
abbrev pub con_ab : Storage
con_ab = record vacio {
  lista_files = record { name_file = codes "a"; tags = crear_tag (codes "b") ∷ [] } ∷ [];
}

creado : operacion_create_file vacio (codes "a") (codes "b") ≡ (pos 0, con_ab)
unfolding operacion_create_file buscar_index_tag buscar_index_file find_index texto_eq
creado = refl

con_ab-Contado : Contado con_ab
con_ab-Contado = record {
  distintos = vacio-distintos;
  primero = (block0, refl, refl);
  contado = vacio-contado;
}

abbrev pub estado_de : Option (ℤ × Storage) → Storage
estado_de none = vacio
estado_de (some r) = r.1

-- One block of two fits: the second finds no free one, and TRUNCATE gives up with what it has added.
truncado :
    operacion_truncate_file con_ab (codes "a") (codes "b") 4
    ≡ some (negsuc 0, estado_de (operacion_truncate_file con_ab (codes "a") (codes "b") 4))
unfolding operacion_truncate_file buscar_index_tag buscar_index_file index_tag find_index texto_eq
    ajustar agrandar bitmap_encontrar_bloque_libre link hay_archivo enlace_de block_04d
    crear_nombre_bloque_logico itoa digitos esta_en_array
truncado = refl

operacion_truncate_file-Contado_example :
    Contado (estado_de (operacion_truncate_file con_ab (codes "a") (codes "b") 4))
operacion_truncate_file-Contado_example =
    operacion_truncate_file-Contado con_ab
      (estado_de (operacion_truncate_file con_ab (codes "a") (codes "b") 4)) (codes "a") (codes "b")
      4 (negsuc 0) con_ab-Contado truncado

operacion_tag_file-Contado_example :
    Contado (operacion_tag_file con_ab (codes "a") (codes "b") (codes "a") (codes "c")).1
operacion_tag_file-Contado_example =
    operacion_tag_file-Contado con_ab (codes "a") (codes "b") (codes "a") (codes "c") con_ab-Contado
