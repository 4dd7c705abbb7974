-- ===== src/Storage/Operaciones.antt =====
-- storage/src/operaciones_storage.c and f_fresh_stat.c: CREATE, TRUNCATE, TAG and DELETE of a File:Tag.
-- A result is the code of the source with the new state. Sizes are the unsigned words that the source
-- divides by the block size.
use mathlib.Core.Option
use master_of_files.Base.{
  ℕ, zero, suc, ◌-◌, ◌/◌, ◌%◌, Bool, true, false, not, ◌&&◌, Option, none, some, List, [], ◌∷◌,
  ◌++◌, ltb, ◌==◌, if◌then◌else◌, length, get_elem?, take, replicate, modify,
}
use master_of_files.Base.Int.{ℤ, pos, negsuc}
use master_of_files.Base.Texto.{Texto, codes}
use master_of_files.Storage.Nombres.{itoa, atoi, crear_nombre_bloque_logico, block_04d, name_bloque}
use master_of_files.Storage.Datos.{
  work_in_progress, commited, BlockFisico, BlockLogico, Tag, Storage, bitmap_encontrar_bloque_libre,
  bitmap_marcar_bloque_libre, bitmap_marcar_bloque_ocupado, buscar_index_file, buscar_index_tag,
  tag_en, buscar_tag, modify_tag, buscar_index_block_fisico, sumar_asociado, restar_asociado,
  esta_en_array, enoent, eexist, hecho, link, unlink, eliminar_carpeta, vaciar_archivo,
}

abbrev pub crear_file : Storage → Texto → Storage
crear_file s name = record s {
  lista_files = s.lista_files ++ (record { name_file = name; tags = [] } ∷ []);
}

-- What `crear_tag` makes of the metadata that it has just written.
abbrev pub crear_tag : Texto → Tag
crear_tag name = record {
  name_tag = name;
  metadata = record { tamanio_file = 0; blocks_fisicos_usados = []; estado = work_in_progress };
  lista_block_logicos = [];
}

abbrev pub agregar_tag : Storage → ℕ → Tag → Storage
agregar_tag s i t = record s {
  lista_files = modify s.lista_files i (λ f. record f { tags = f.tags ++ (t ∷ []) });
}

abbrev pub asigar_tag_a_file : Storage → Texto → ℕ → Storage
asigar_tag_a_file s tag index = agregar_tag s index (crear_tag tag)

unfoldable pub operacion_create_file : Storage → Texto → Texto → ℤ × Storage
operacion_create_file s file tag = elim (buscar_index_tag s.lista_files file tag) [
  | some p ↦ (negsuc 0, s)
  | none ↦
      let s' = crear_file s file in
      elim (buscar_index_file s'.lista_files file) [
        | none ↦ (negsuc 0, s')
        | some i ↦ (pos 0, asigar_tag_a_file s' tag i)
      ]
]

-- A change of the tag that stands at `p`.
abbrev pub con_tag : Storage → ℕ × ℕ → (Tag → Tag) → Storage
con_tag s p g = record s { lista_files = modify_tag s.lista_files p.0 p.1 g }

-- The new logical block goes to the end of the list, under `block0000` whatever block was linked.
abbrev pub agregar_bl : Texto → Tag → Tag
agregar_bl nombre t = record t {
  lista_block_logicos =
      t.lista_block_logicos
      ++ (record { nombre_block = nombre; bloque_fisico_asociado = codes "block0000" } ∷ []);
  metadata = record t.metadata {
    blocks_fisicos_usados =
        (if esta_en_array t.metadata.blocks_fisicos_usados (codes "0")
          then t.metadata.blocks_fisicos_usados
          else t.metadata.blocks_fisicos_usados ++ (itoa 0 ∷ []));
  };
}

-- The loop that adds `n` blocks from number `nro`; `false` where no physical block is free.
unfoldable pub agrandar : ℕ → ℕ → Storage → Texto → Texto → ℕ × ℕ → Bool × Storage
agrandar zero nro s file tag p = (true, s)
agrandar (suc n) nro s file tag p = elim (bitmap_encontrar_bloque_libre s.bitmap) [
  | none ↦ (false, s)
  | some bf ↦
      let nombre = crear_nombre_bloque_logico nro in
      let s' = bitmap_marcar_bloque_ocupado s bf in
      elim (link s' (block_04d bf) (file, tag, nombre)) [
        | enoent ↦ agrandar n (suc nro) (bitmap_marcar_bloque_libre s' bf) file tag p
        | eexist ↦ agrandar n (suc nro) (bitmap_marcar_bloque_libre s' bf) file tag p
        | hecho es ↦
            agrandar n (suc nro)
              (record (con_tag s' p (agregar_bl nombre)) {
                enlaces = es;
                lista_bloques_fisicos = modify s'.lista_bloques_fisicos 0 sumar_asociado;
              })
              file tag p
      ]
]

-- The last element of a list, and the rest.
unfoldable pub ultimo {ℓ} : {A : Type ℓ} → List A → Option (List A × A)
ultimo xs = elim (get_elem? xs (length xs - 1)) [
  | none ↦ none
  | some x ↦ some (take (length xs - 1) xs, x)
]

-- `blogico_asociados == 0 && index_bf != 0` after the decrement.
abbrev pub queda_libre : List BlockFisico → ℕ → Bool
queda_libre bfs i = elim (get_elem? bfs i) [
  | none ↦ false
  | some b ↦ elim (b.blogico_asociados) [ pos n ↦ (n == 0) && not (i == 0) | negsuc n ↦ false ]
]

-- The loop that frees `n` blocks from the end. `none`: `bitmap_marcar_bloque_libre` is called with its
-- lock held, and never returns.
unfoldable pub achicar : ℕ → Storage → Texto → Texto → ℕ × ℕ → Option Storage
achicar zero s file tag p = some s
achicar (suc n) s file tag p = elim (tag_en s.lista_files p.0 p.1) [
  | none ↦ none
  | some t ↦ elim (ultimo t.lista_block_logicos) [
    | none ↦ achicar n s file tag p
    | some (resto, bl) ↦
        let s' = con_tag s p (λ t. record t { lista_block_logicos = resto }) in
        elim (buscar_index_block_fisico s.lista_bloques_fisicos bl.bloque_fisico_asociado) [
          | none ↦ achicar n s' file tag p
          | some i ↦
              let s'' : Storage = record s' {
                enlaces = unlink s'.enlaces (file, tag, bl.nombre_block);
                lista_bloques_fisicos = modify s'.lista_bloques_fisicos i restar_asociado;
              } in
              elim (queda_libre s''.lista_bloques_fisicos i) [
                | true ↦ none
                | false ↦ achicar n s'' file tag p
              ]
        ]
  ]
]

abbrev pub con_tamanio : ℕ → Tag → Tag
con_tamanio bytes t = record t {
  metadata = record t.metadata {
    tamanio_file = bytes;
    blocks_fisicos_usados = (if bytes == 0 then [] else t.metadata.blocks_fisicos_usados);
  };
}

-- The two loops, as the number of blocks grows or shrinks.
unfoldable pub ajustar : Storage → Texto → Texto → ℕ × ℕ → ℕ → ℕ → ℕ → Option (ℤ × Storage)
ajustar s file tag p actuales nuevos bytes =
    if ltb actuales nuevos
    then (let (hay, s') = agrandar (nuevos - actuales) actuales s file tag p in
        if hay then some (pos 0, con_tag s' p (con_tamanio bytes)) else some (negsuc 0, s'))
    else Option.map (λ s'. (pos 0, con_tag s' p (con_tamanio bytes)))
        (achicar (actuales - nuevos) s file tag p)

unfoldable pub operacion_truncate_file : Storage → Texto → Texto → ℕ → Option (ℤ × Storage)
operacion_truncate_file s file tag bytes =
    if bytes % s.block_size == 0
    then elim (buscar_index_tag s.lista_files file tag) [
      | none ↦ some (pos 1, s)
      | some p ↦ elim (tag_en s.lista_files p.0 p.1) [
        | none ↦ some (pos 1, s)
        | some t ↦ elim t.metadata.estado [
          | commited ↦ some (negsuc 0, s)
          | work_in_progress ↦
              ajustar s file tag p (t.metadata.tamanio_file / s.block_size) (bytes / s.block_size)
                bytes
        ]
      ]
    ]
    else some (negsuc 0, s)

-- `linkear_bl_a_bf`, which takes a path that is there for a success.
abbrev pub linkear_bl_a_bf : Storage → Texto → Texto → Texto → Texto → Option Storage
linkear_bl_a_bf s file tag bl bf = elim (link s bf (file, tag, bl)) [
  | enoent ↦ none
  | eexist ↦ some s
  | hecho es ↦ some (record s { enlaces = es })
]

-- One more logical block under the physical block of this name, if there is one.
abbrev pub sumar_en : List BlockFisico → Texto → List BlockFisico
sumar_en bfs name = elim (buscar_index_block_fisico bfs name) [
  | none ↦ bfs
  | some i ↦ modify bfs i sumar_asociado
]

-- The loop that copies the logical blocks into the new tag.
unfoldable pub copiar_bls : List BlockLogico → Storage → Texto → Texto → List BlockLogico × Storage
copiar_bls [] s file tag = ([], s)
copiar_bls (bl ∷ bls) s file tag =
    elim (linkear_bl_a_bf s file tag bl.nombre_block bl.bloque_fisico_asociado) [
      | none ↦ copiar_bls bls s file tag
      | some s' ↦
          let bfs = sumar_en s'.lista_bloques_fisicos bl.bloque_fisico_asociado in
          let (resto, s'') = copiar_bls bls (record s' { lista_bloques_fisicos = bfs }) file tag in
          (bl ∷ resto, s'')
    ]

-- The file of the copy, made where it is not there.
abbrev pub asegurar_file : Storage → Texto → Storage
asegurar_file s file = elim (buscar_index_file s.lista_files file) [
  | none ↦ crear_file s file
  | some i ↦ s
]

unfoldable pub operacion_tag_file : Storage → Texto → Texto → Texto → Texto → ℤ × Storage
operacion_tag_file s file_o tag_o file_d tag_d = elim (buscar_tag s.lista_files file_o tag_o) [
  | none ↦ (negsuc 0, s)
  | some t ↦
      let (bls, s') = copiar_bls t.lista_block_logicos (asegurar_file s file_d) file_d tag_d in
      elim (buscar_index_file s'.lista_files file_d) [
        | none ↦ (negsuc 0, s')
        | some i ↦ (
          pos 0,
          agregar_tag s' i (record {
            name_tag = tag_d;
            metadata = record {
              tamanio_file = t.metadata.tamanio_file;
              blocks_fisicos_usados = t.metadata.blocks_fisicos_usados;
              estado = work_in_progress;
            };
            lista_block_logicos = bls;
          }),
        )
      ]
]

-- The loop over the blocks of the metadata, from the last one.
unfoldable pub liberar_bloques : List Texto → Storage → Storage
liberar_bloques [] s = s
liberar_bloques (x ∷ xs) s =
    let nro = atoi x in
    let nombre = name_bloque s.cant_block nro in
    elim (buscar_index_block_fisico s.lista_bloques_fisicos nombre) [
      | none ↦ liberar_bloques xs s
      | some i ↦
          let s' : Storage = record s {
            lista_bloques_fisicos = modify s.lista_bloques_fisicos i restar_asociado;
          } in
          elim (queda_libre s'.lista_bloques_fisicos i) [
            | false ↦ liberar_bloques xs s'
            | true ↦ liberar_bloques xs (record (bitmap_marcar_bloque_libre s' nro) {
              archivos = vaciar_archivo s'.archivos nombre (replicate s'.block_size 0);
            })
          ]
    ]

unfoldable pub reverse {ℓ} : {A : Type ℓ} → List A → List A
reverse [] = []
reverse (x ∷ xs) = reverse xs ++ (x ∷ [])

abbrev pub quitar {ℓ} : {A : Type ℓ} → List A → ℕ → List A
quitar [] i = []
quitar (x ∷ xs) zero = xs
quitar (x ∷ xs) (suc i) = x ∷ quitar xs i

unfoldable pub operacion_eliminar_tag : Storage → Texto → Texto → Storage
operacion_eliminar_tag s file tag = elim (buscar_index_tag s.lista_files file tag) [
  | none ↦ s
  | some p ↦ elim (tag_en s.lista_files p.0 p.1) [
    | none ↦ s
    | some t ↦
        let s' = liberar_bloques (reverse t.metadata.blocks_fisicos_usados) s in
        record s' {
          enlaces = eliminar_carpeta s'.enlaces file tag;
          lista_files = modify s'.lista_files p.0 (λ f. record f { tags = quitar f.tags p.1 });
        }
  ]
]
