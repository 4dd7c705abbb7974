-- ===== src/Storage/Datos.antt =====
-- storage/src/storage_gestion_estructuras.h and the searches of operaciones_storage.c and
-- storage_archivos.c: the lists of Storage in memory, its bitmap, and its hard links.
-- A hard link is the name of a physical block under the path of a logical one. The file of a physical
-- block is never removed, only written in place.
use master_of_files.Base.{
  ℕ, Bool, true, false, not, ◌&&◌, Option, none, some, List, [], ◌∷◌, get_elem?, set, find_index,
  modify, if◌then◌else◌,
}
use master_of_files.Base.Int.{ℤ, pos, ◌+ℤ◌, ◌-ℤ◌}
use master_of_files.Base.Texto.{Texto, texto_eq}

pub data Estado : Type 0 where
  work_in_progress commited : Estado

pub record BlockFisico : Type 0 where
  pub path_block : Texto
  pub blogico_asociados : ℤ

pub record BlockLogico : Type 0 where
  pub nombre_block : Texto
  pub bloque_fisico_asociado : Texto

pub record Metadata : Type 0 where
  pub tamanio_file : ℕ
  pub blocks_fisicos_usados : List Texto
  pub estado : Estado

pub record Tag : Type 0 where
  pub name_tag : Texto
  pub metadata : Metadata
  pub lista_block_logicos : List BlockLogico

pub record File : Type 0 where
  pub name_file : Texto
  pub tags : List Tag

-- The path of a logical block: its file, its tag and its name.
abbrev pub Ruta : Type 0
Ruta = Texto × Texto × Texto

pub record Storage : Type 0 where
  pub block_size : ℕ
  pub cant_block : ℕ
  pub lista_files : List File
  pub lista_bloques_fisicos : List BlockFisico
  pub bitmap : List Bool
  pub archivos : List (Texto × List ℕ)
  pub enlaces : List (Ruta × Texto)

unfoldable pub bitmap_encontrar_bloque_libre : List Bool → Option ℕ
bitmap_encontrar_bloque_libre = find_index not

abbrev pub bitmap_marcar_bloque_libre : Storage → ℕ → Storage
bitmap_marcar_bloque_libre s i = record s { bitmap = set s.bitmap i false }

abbrev pub bitmap_marcar_bloque_ocupado : Storage → ℕ → Storage
bitmap_marcar_bloque_ocupado s i = record s { bitmap = set s.bitmap i true }

unfoldable pub buscar_index_file : List File → Texto → Option ℕ
buscar_index_file files name = find_index (λ f. texto_eq f.name_file name) files

unfoldable pub index_tag : List Tag → Texto → Option ℕ
index_tag tags name = find_index (λ t. texto_eq t.name_tag name) tags

-- Where a File:Tag stands: the index of its file and of its tag there.
unfoldable pub buscar_index_tag : List File → Texto → Texto → Option (ℕ × ℕ)
buscar_index_tag files file tag = elim (buscar_index_file files file) [
  | none ↦ none
  | some i ↦ elim (get_elem? files i) [
    | none ↦ none
    | some f ↦ elim (index_tag f.tags tag) [ none ↦ none | some j ↦ some (i, j) ]
  ]
]

abbrev pub tag_de : Option File → ℕ → Option Tag
tag_de none j = none
tag_de (some f) j = get_elem? f.tags j

abbrev pub tag_en : List File → ℕ → ℕ → Option Tag
tag_en files i j = tag_de (get_elem? files i) j

unfoldable pub buscar_tag : List File → Texto → Texto → Option Tag
buscar_tag files file tag = elim (buscar_index_tag files file tag) [
  | none ↦ none
  | some (i, j) ↦ tag_en files i j
]

-- A change of what a `t_tag*` points to.
abbrev pub modify_tag : List File → ℕ → ℕ → (Tag → Tag) → List File
modify_tag files i j g = modify files i (λ f. record f { tags = modify f.tags j g })

unfoldable pub buscar_index_block_fisico : List BlockFisico → Texto → Option ℕ
buscar_index_block_fisico bfs name = find_index (λ b. texto_eq b.path_block name) bfs

abbrev pub sumar_asociado : BlockFisico → BlockFisico
sumar_asociado b = record b { blogico_asociados = b.blogico_asociados +ℤ pos 1 }

abbrev pub restar_asociado : BlockFisico → BlockFisico
restar_asociado b = record b { blogico_asociados = b.blogico_asociados -ℤ pos 1 }

unfoldable pub esta_en_array : List Texto → Texto → Bool
esta_en_array [] valor = false
esta_en_array (x ∷ xs) valor = if texto_eq x valor then true else esta_en_array xs valor

abbrev pub ruta_eq : Ruta → Ruta → Bool
ruta_eq a b = texto_eq a.0 b.0 && (texto_eq a.1 b.1 && texto_eq a.2 b.2)

-- What a path links to, and whether the file of a physical block is there.
unfoldable pub enlace_de : List (Ruta × Texto) → Ruta → Option Texto
enlace_de [] r = none
enlace_de ((q, b) ∷ es) r = if ruta_eq q r then some b else enlace_de es r

unfoldable pub hay_archivo : List (Texto × List ℕ) → Texto → Bool
hay_archivo [] name = false
hay_archivo ((b, c) ∷ cs) name = if texto_eq b name then true else hay_archivo cs name

-- `link`: it fails with ENOENT where the file is not there, and with EEXIST where the path is. The folder of the
-- path is taken to be there.
pub data Link : Type 0 where
  enoent eexist : Link
  hecho : List (Ruta × Texto) → Link

unfoldable pub link : Storage → Texto → Ruta → Link
link s bf r =
    if hay_archivo s.archivos bf
    then elim (enlace_de s.enlaces r) [ none ↦ hecho ((r, bf) ∷ s.enlaces) | some b ↦ eexist ]
    else enoent

-- `unlink` of a path.
unfoldable pub unlink : List (Ruta × Texto) → Ruta → List (Ruta × Texto)
unlink [] r = []
unlink ((q, b) ∷ es) r = let resto = unlink es r in if ruta_eq q r then resto else (q, b) ∷ resto

-- The removal of the folder of a File:Tag.
unfoldable pub eliminar_carpeta : List (Ruta × Texto) → Texto → Texto → List (Ruta × Texto)
eliminar_carpeta [] file tag = []
eliminar_carpeta ((q, b) ∷ es) file tag =
    let resto = eliminar_carpeta es file tag in
    if texto_eq q.0 file && texto_eq q.1 tag then resto else (q, b) ∷ resto

-- The file of a physical block, truncated and filled with zeros.
unfoldable pub vaciar_archivo : List (Texto × List ℕ) → Texto → List ℕ → List (Texto × List ℕ)
vaciar_archivo [] name ceros = []
vaciar_archivo ((b, c) ∷ fs) name ceros =
    let resto = vaciar_archivo fs name ceros in
    if texto_eq b name then (b, ceros) ∷ resto else (b, c) ∷ resto
