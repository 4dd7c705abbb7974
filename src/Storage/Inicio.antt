-- ===== src/Storage/Inicio.antt =====
-- storage/src/storage.c and f_fresh_stat.c: the start of Storage with FRESH_START, when every file and
-- folder is made. The two sizes of the superblock are not negative.
pub mod Formateo
use master_of_files.Base.{
  ℕ, zero, suc, ◌+◌, ◌-◌, ◌*◌, ◌/◌, Bool, false, List, [], ◌∷◌, ◌==◌, if◌then◌else◌, set, replicate,
  modify,
}
use master_of_files.Base.Int.{pos}
use master_of_files.Base.Texto.{Texto, codes}
use master_of_files.Storage.Nombres.{block_04d}
use master_of_files.Storage.Datos.{
  commited, BlockFisico, Tag, Storage, Ruta, bitmap_marcar_bloque_ocupado, sumar_asociado, Link,
  enoent, eexist, hecho, link,
}
use master_of_files.Storage.Operaciones.{crear_file, crear_tag, agregar_tag}

-- The physical blocks from number `i` on, and their files: the first is full of the character 0, the
-- others are zeros.
unfoldable pub bloques_desde : ℕ → ℕ → List BlockFisico
bloques_desde i zero = []
bloques_desde i (suc n) =
    record { path_block = block_04d i; blogico_asociados = pos 0 } ∷ bloques_desde (suc i) n

pub archivos_desde : ℕ → ℕ → ℕ → List (Texto × List ℕ)
archivos_desde size_block i zero = []
archivos_desde size_block i (suc n) =
    (block_04d i, replicate size_block (if i == 0 then b'0' else 0))
    ∷ archivos_desde size_block (suc i) n

unfoldable pub iniciar_bloques_fisicos : ℕ → ℕ → List BlockFisico × List (Texto × List ℕ)
iniciar_bloques_fisicos count_block size_block =
    (bloques_desde 0 count_block, archivos_desde size_block 0 count_block)

-- The bits of the whole bytes that hold one bit for each block.
abbrev pub crear_bitmap_vacio : ℕ → List Bool
crear_bitmap_vacio cant_block = replicate ((cant_block + 7) / 8 * 8) false

abbrev pub block_logico_inicial : Texto
block_logico_inicial = codes "000000.dat"

abbrev pub block_fisico_inicial : Texto
block_fisico_inicial = codes "block0000"

-- A link that fails is only logged.
abbrev pub enlaces_tras : Link → List (Ruta × Texto) → List (Ruta × Texto)
enlaces_tras enoent es = es
enlaces_tras eexist es = es
enlaces_tras (hecho es') es = es'

abbrev pub linkear_block_inicial : Storage → Texto → Texto → Storage
linkear_block_inicial s file tag = record s {
  enlaces = enlaces_tras (link s block_fisico_inicial (file, tag, block_logico_inicial)) s.enlaces;
}

-- The loop that frees the bits of `n` blocks from number `i` on.
pub liberar_desde : List Bool → ℕ → ℕ → List Bool
liberar_desde bits i zero = bits
liberar_desde bits i (suc n) = liberar_desde (set bits i false) (suc i) n

-- The tag BASE of initial_file, with one block under the first physical one.
abbrev pub tag_inicial : ℕ → Tag
tag_inicial block_size = record (crear_tag (codes "BASE")) {
  metadata = record {
    tamanio_file = block_size;
    blocks_fisicos_usados = codes "0" ∷ [];
    estado = commited;
  };
  lista_block_logicos =
      record { nombre_block = block_logico_inicial; bloque_fisico_asociado = block_fisico_inicial }
      ∷ [];
}

-- What `fresh_start_true` leaves, with the blocks and the bitmap.
abbrev pub fresh_start_true : ℕ → ℕ → Storage
fresh_start_true cant_block block_size =
    let (bloques, archivos) = iniciar_bloques_fisicos cant_block block_size in
    record {
      block_size = block_size;
      cant_block = cant_block;
      lista_files = [];
      lista_bloques_fisicos = bloques;
      bitmap = crear_bitmap_vacio cant_block;
      archivos = archivos;
      enlaces = [];
    }

-- The start with a number of blocks, and with the one that the superblock gives.
unfoldable pub levantar_bloques : ℕ → ℕ → Storage
levantar_bloques cant_block block_size =
    let s0 = crear_file (fresh_start_true cant_block block_size) (codes "initial_file") in
    let s1 = linkear_block_inicial s0 (codes "initial_file") (codes "BASE") in
    let s2 = agregar_tag s1 0 (tag_inicial block_size) in
    let s3 : Storage = record s2 {
      lista_bloques_fisicos = modify s2.lista_bloques_fisicos 0 sumar_asociado;
    } in
    let s4 = bitmap_marcar_bloque_ocupado (bitmap_marcar_bloque_ocupado s3 0) 0 in
    record s4 { bitmap = liberar_desde s4.bitmap 1 (cant_block - 1) }

unfoldable pub levantar : ℕ → ℕ → Storage
levantar fs_size block_size = levantar_bloques (fs_size / block_size) block_size
