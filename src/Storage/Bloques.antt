-- ===== src/Storage/Bloques.antt =====
-- storage/src/operaciones_storage.c and f_fresh_stat.c: READ and WRITE of a logical block, and COMMIT of a
-- File:Tag. The digest is the parameter `md5`, and the dictionary of the hash index that the library keeps
-- in memory is the parameter `Config`.
use master_of_files.Base.{
  ℕ, Bool, Option, none, some, List, [], ◌∷◌, ◌++◌, ltb, if◌then◌else◌, length, take, drop,
  replicate, modify,
}
use master_of_files.Base.Int.{ℤ, pos, negsuc}
use master_of_files.Base.Texto.{Texto, cadena, texto_eq}
use master_of_files.Storage.Datos.{
  work_in_progress, commited, BlockLogico, Tag, Storage, Ruta, bitmap_marcar_bloque_libre, tag_en,
  buscar_index_tag, buscar_tag, buscar_index_block_fisico, restar_asociado, enlace_de, enoent,
  eexist, hecho, link, unlink,
}
use master_of_files.Storage.Operaciones.{con_tag, sumar_en, queda_libre}

-- `t_config` of the commons library.
pub record Config : Type 1 where
  pub State : Type 0
  pub config_has_property : State → Texto → Bool
  pub config_get_string_value : State → Texto → Texto
  pub config_set_value : State → Texto → Texto → State
  pub config_remove_key : State → Texto → State

pub record Disco (Indice : Type 0) : Type 0 where
  pub storage : Storage
  pub hash_index : Indice

-- The bytes of the file of a physical block.
unfoldable pub archivo_de : List (Texto × List ℕ) → Texto → Option (List ℕ)
archivo_de [] name = none
archivo_de ((b, c) ∷ cs) name =
    let rest = archivo_de cs name in if texto_eq b name then some c else rest

-- A file written from its start with mode "wb", which makes it where it is not there.
unfoldable pub guardar_archivo : List (Texto × List ℕ) → Texto → List ℕ → List (Texto × List ℕ)
guardar_archivo [] name buffer = (name, buffer) ∷ []
guardar_archivo ((b, c) ∷ cs) name buffer =
    let rest = (b, c) ∷ guardar_archivo cs name buffer in
    if texto_eq b name then (b, buffer) ∷ cs else rest

-- How the write of a block ends: the file does not open, `fwrite` writes that many bytes and no more, or all.
pub data Escribe : Type 0 where
  no_abre : Escribe
  corta : ℕ → Escribe
  entera : Escribe

-- What was written stays in the file also where the write is cut short.
unfoldable pub escribir_archivo_truncado :
    List (Texto × List ℕ) → Texto → List ℕ → Escribe → ℤ × List (Texto × List ℕ)
escribir_archivo_truncado fs name buffer no_abre = (negsuc 0, fs)
escribir_archivo_truncado fs name buffer (corta n) =
    (negsuc 0, guardar_archivo fs name (take n buffer))
escribir_archivo_truncado fs name buffer entera = (pos 0, guardar_archivo fs name buffer)

-- The index after a write with that result.
abbrev pub indice_tras {ℓ} : {I : Type ℓ} → ℤ → I → I → I
indice_tras (pos n) antes nuevo = nuevo
indice_tras (negsuc n) antes nuevo = antes

-- The file that a path links to, `none` for a null pointer.
unfoldable pub get_contenido : Storage → Ruta → Option (List ℕ)
get_contenido s r = elim (enlace_de s.enlaces r) [ none ↦ none | some b ↦ archivo_de s.archivos b ]

unfoldable pub operacion_read_bloque : Storage → Texto → Texto → Texto → Option (List ℕ)
operacion_read_bloque s file tag nombre = get_contenido s (file, tag, nombre)

-- `memcpy` to the start of a buffer.
abbrev pub sobre : List ℕ → List ℕ → List ℕ
sobre xs ys = xs ++ drop (length xs) ys

-- The buffer of a write: zeros, under the text that was there, under the new bytes.
abbrev pub armar_buffer : ℕ → List ℕ → List ℕ → ℕ → List ℕ
armar_buffer block_size original contenido len =
    sobre (take len contenido) (sobre (take block_size (cadena original)) (replicate block_size 0))

-- The counter of the old block, which becomes free where nothing names it.
abbrev pub soltar_viejo : Storage → Texto → Storage
soltar_viejo s viejo = elim (buscar_index_block_fisico s.lista_bloques_fisicos viejo) [
  | none ↦ s
  | some i ↦
      let s' : Storage = record s {
        lista_bloques_fisicos = modify s.lista_bloques_fisicos i restar_asociado;
      } in
      if queda_libre s'.lista_bloques_fisicos i then bitmap_marcar_bloque_libre s' i else s'
]

-- The link of the logical block goes to the other physical block; the result of `link` is not read.
abbrev pub enlazar_nuevo : Storage → Ruta → Texto → Storage
enlazar_nuevo s r nuevo = elim (link s nuevo r) [
  | enoent ↦ s
  | eexist ↦ s
  | hecho es ↦ record s { enlaces = es }
]

unfoldable pub reasignar_bloque_logico :
    Storage → Texto → Texto → BlockLogico → Texto → Texto → BlockLogico × Storage
reasignar_bloque_logico s file tag bl nuevo viejo =
    let r : Ruta = (file, tag, bl.nombre_block) in
    let s' =
      soltar_viejo (enlazar_nuevo (record s { enlaces = unlink s.enlaces r }) r nuevo) viejo in
    (
      record bl { bloque_fisico_asociado = nuevo },
      record s' { lista_bloques_fisicos = sumar_en s'.lista_bloques_fisicos nuevo },
    )

abbrev pub cerrar : Tag → Tag
cerrar t = record t { metadata = record t.metadata { estado = commited } }

abbrev pub con_bloques : List BlockLogico → Tag → Tag
con_bloques bls t = record t { lista_block_logicos = bls }

module _ (c : Config) (md5 : List ℕ → Texto) where
  open c use {
    State, config_has_property, config_get_string_value, config_set_value, config_remove_key,
  }

  abbrev pub hash_de : List ℕ → Texto
  hash_de contenido = md5 (cadena contenido ++ 0 ∷ [])

  -- `hay_buffer` says whether `malloc` gave one, and `escritura` how the write of the file ends. The
  -- new line of the hash index goes to its file, which `config_save` then writes from memory, without it.
  unfoldable pub operacion_write_bloque :
      Disco State → Texto → Texto → BlockLogico → List ℕ → ℕ → Bool → Escribe → ℤ × Disco State
  operacion_write_bloque d file tag bl contenido len hay_buffer escritura =
      let s = d.storage in
      elim (buscar_tag s.lista_files file tag) [
        | none ↦ (negsuc 0, d)
        | some _ ↦ elim (get_contenido s (file, tag, bl.nombre_block)) [
          | none ↦ (negsuc 0, d)
          | some original ↦
              if ltb s.block_size len
              then (negsuc 0, d)
              else elim (buscar_index_block_fisico s.lista_bloques_fisicos
                  bl.bloque_fisico_asociado) [
                    | none ↦ (negsuc 0, d)
                    | some _ ↦
                        if hay_buffer
                        then (let (rc, archivos) =
                              escribir_archivo_truncado s.archivos bl.bloque_fisico_asociado
                                (armar_buffer s.block_size original contenido len) escritura in
                            (
                              rc,
                              record d {
                                storage = record s { archivos = archivos };
                                hash_index =
                                    indice_tras rc d.hash_index
                                      (config_remove_key d.hash_index (hash_de original));
                              },
                            ))
                        else (negsuc 0, d)
                  ]
        ]
      ]

  -- `none` where the block has no file, whose length the source asks through a null pointer.
  unfoldable pub procesar_bloque_commit :
      Disco State → Texto → Texto → BlockLogico → Option (BlockLogico × Disco State)
  procesar_bloque_commit d file tag bl =
      elim (get_contenido d.storage (file, tag, bl.nombre_block)) [
        | none ↦ none
        | some contenido ↦
            let hash = hash_de contenido in
            if config_has_property d.hash_index hash
            then (let existente = config_get_string_value d.hash_index hash in
                if texto_eq existente bl.bloque_fisico_asociado
                then some (bl, d)
                else (let (bl', s') =
                      reasignar_bloque_logico d.storage file tag bl existente
                        bl.bloque_fisico_asociado in
                    some (bl', record d { storage = s' })))
            else some (
              bl,
              record d {
                hash_index = config_set_value d.hash_index hash bl.bloque_fisico_asociado;
              },
            )
      ]

  -- The loop over the logical blocks of the tag.
  unfoldable pub procesar_bloques :
      List BlockLogico → Disco State → Texto → Texto → Option (List BlockLogico × Disco State)
  procesar_bloques [] d file tag = some ([], d)
  procesar_bloques (bl ∷ bls) d file tag = elim (procesar_bloque_commit d file tag bl) [
    | none ↦ none
    | some (bl', d') ↦ elim (procesar_bloques bls d' file tag) [
      | none ↦ none
      | some (bls', d'') ↦ some (bl' ∷ bls', d'')
    ]
  ]

  unfoldable pub operacion_commit_tag : Disco State → Texto → Texto → Option (ℤ × Disco State)
  operacion_commit_tag d file tag = elim (buscar_index_tag d.storage.lista_files file tag) [
    | none ↦ some (negsuc 0, d)
    | some p ↦ elim (tag_en d.storage.lista_files p.0 p.1) [
      | none ↦ some (negsuc 0, d)
      | some t ↦ elim t.metadata.estado [
        | commited ↦ some (pos 1, d)
        | work_in_progress ↦
            let d' = record d { storage = con_tag d.storage p cerrar } in
            elim (procesar_bloques t.lista_block_logicos d' file tag) [
              | none ↦ none
              | some (bls, d'') ↦
                  some (pos 0, record d'' { storage = con_tag d''.storage p (con_bloques bls) })
            ]
      ]
    ]
  ]
