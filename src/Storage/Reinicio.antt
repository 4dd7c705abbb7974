-- ===== src/Storage/Reinicio.antt =====
-- storage/src/storage.c and f_fresh_stat.c: the start of Storage without FRESH_START, which reads the
-- File:Tags from their folders. What a folder holds is data, in the order in which `readdir` gives it.
pub mod Recuento
use master_of_files.Base.{
  ℕ, zero, suc, ◌+◌, ◌*◌, ◌/◌, Bool, true, false, Option, none, some, List, [], ◌∷◌, ◌++◌,
  if◌then◌else◌, get_elem?, set, take, replicate, modify,
}
use master_of_files.Base.Int.{ℤ, pos, negsuc}
use master_of_files.Base.Texto.{Texto}
use master_of_files.Storage.Nombres.{block_04d}
use master_of_files.Storage.Datos.{
  BlockFisico, BlockLogico, Metadata, Tag, File, Storage, Ruta, buscar_index_block_fisico,
  sumar_asociado,
}
use master_of_files.Storage.Bloques.{Config, Disco, get_contenido, hash_de}
use master_of_files.Storage.Inicio.{bloques_desde, crear_bitmap_vacio}

-- The folder of a tag, with the metadata that `crear_metadata` reads there, and of a file; a folder that cannot
-- be opened is `none`.
pub record CarpetaTag : Type 0 where
  pub name_tag : Texto
  pub metadata : Metadata
  pub logical_blocks : Option (List Texto)

pub record CarpetaFile : Type 0 where
  pub name_file : Texto
  pub tags : Option (List CarpetaTag)

-- The loop over what a folder lists.
abbrev pub listado {ℓ} : {A : Type ℓ} → Option (List A) → List A
listado none = []
listado (some xs) = xs

-- A loop that builds a list and changes a state, and may not return.
pub recorrer {ℓ ℓ' ℓ''} :
    {S : Type ℓ} {A : Type ℓ'} {B : Type ℓ''}
    → (S → A → Option (S × B))
    → S
    → List A
    → Option (S × List B)
recorrer f s [] = some (s, [])
recorrer f s (a ∷ xs) = elim (f s a) [
  | none ↦ none
  | some (s1, b) ↦ elim (recorrer f s1 xs) [ none ↦ none | some (s2, bs) ↦ some (s2, b ∷ bs) ]
]

-- The names of the blocks, whose counters start at 0.
abbrev pub iniciar_bloques_fisicos_existentes : ℕ → List BlockFisico
iniciar_bloques_fisicos_existentes count_block = bloques_desde 0 count_block

-- The bits of the file, cut or filled with zeros up to its size.
abbrev pub abrir_bitmap : List Bool → ℕ → List Bool
abrir_bitmap bits cant_block =
    take ((cant_block + 7) / 8 * 8) (bits ++ crear_bitmap_vacio cant_block)

abbrev pub positivo : ℤ → Bool
positivo (pos zero) = false
positivo (pos (suc n)) = true
positivo (negsuc n) = false

-- The loop that sets each bit from the counter of its block.
pub sincronizar : List Bool → ℕ → List BlockFisico → List Bool
sincronizar bits i [] = bits
sincronizar bits i (b ∷ bs) = sincronizar (set bits i (positivo b.blogico_asociados)) (suc i) bs

module _ (c : Config) (md5 : List ℕ → Texto) where
  open c use {State, config_has_property, config_get_string_value}

  unfoldable pub buscar_bf_asociado : State → List BlockFisico → Texto → Option ℕ
  buscar_bf_asociado hash_index bfs hash =
      if config_has_property hash_index hash
      then buscar_index_block_fisico bfs (config_get_string_value hash_index hash)
      else none

  -- `none` also where the file cannot be read, whose length the source asks through a null pointer.
  unfoldable pub bf_asociado : Disco State → List BlockFisico → Ruta → Option ℕ
  bf_asociado d bfs r = elim (get_contenido d.storage r) [
    | none ↦ none
    | some contenido ↦ buscar_bf_asociado d.hash_index bfs (hash_de c md5 contenido)
  ]

  -- A logical block; `none` where no physical block is found, whose counter the source adds to through a null
  -- pointer.
  abbrev pub cargar_bl :
      Disco State
      → Texto
      → Texto
      → List BlockFisico
      → Texto
      → Option (List BlockFisico × BlockLogico)
  cargar_bl d file tag bfs nombre = elim (bf_asociado d bfs (file, tag, nombre)) [
    | none ↦ none
    | some i ↦ elim (get_elem? bfs i) [
      | none ↦ none
      | some bf ↦ some (
        modify bfs i sumar_asociado,
        record { nombre_block = nombre; bloque_fisico_asociado = bf.path_block },
      )
    ]
  ]

  abbrev pub cargar_tag :
      Disco State → Texto → List BlockFisico → CarpetaTag → Option (List BlockFisico × Tag)
  cargar_tag d file bfs t =
      elim (recorrer (cargar_bl d file t.name_tag) bfs (listado t.logical_blocks)) [
        | none ↦ none
        | some (bfs', bls) ↦ some (
          bfs',
          record { name_tag = t.name_tag; metadata = t.metadata; lista_block_logicos = bls },
        )
      ]

  abbrev pub cargar_file :
      Disco State → List BlockFisico → CarpetaFile → Option (List BlockFisico × File)
  cargar_file d bfs f = elim (recorrer (cargar_tag d f.name_file) bfs (listado f.tags)) [
    | none ↦ none
    | some (bfs', tags) ↦ some (bfs', record { name_file = f.name_file; tags = tags })
  ]

  unfoldable pub fresh_start_false :
      Disco State
      → List BlockFisico
      → Option (List CarpetaFile)
      → Option (List BlockFisico × List File)
  fresh_start_false d bfs files = recorrer (cargar_file d) bfs (listado files)

  -- The start: what the disk holds, with the lists that it makes of it.
  unfoldable pub relevantar : Disco State → Option (List CarpetaFile) → Option Storage
  relevantar d files =
      let s = d.storage in
      elim (fresh_start_false d (iniciar_bloques_fisicos_existentes s.cant_block) files) [
        | none ↦ none
        | some (bfs, fs) ↦ some (record s {
          lista_files = fs;
          lista_bloques_fisicos = bfs;
          bitmap = sincronizar (abrir_bitmap s.bitmap s.cant_block) 0 bfs;
        })
      ]
