-- ===== src/Storage/Atencion.antt =====
-- storage/src/atencion_worker.c: the handler of each request of a Worker, with the operation that it calls.
-- A request is its fields, which the packet of a Worker always has; the reply is what goes to the socket.
pub mod Paginas
pub mod Refina
pub mod Servidor
use master_of_files.Base.{
  ℕ, suc, ◌-◌, ◌%◌, ◌^◌, Bool, false, Option, none, some, List, [], ◌==◌, ltb, if◌then◌else◌, take,
  get_elem?,
}
use master_of_files.Base.Int.{ℤ, pos, negsuc}
use master_of_files.Base.Texto.{Texto}
use master_of_files.Utils.Protocolo.{
  op_resp_ok, op_resp_error, Pedido, op_st_read_block, op_st_write_block, op_create, op_truncate,
  op_tag, op_commit, op_flush, op_delete, Respuesta,
}
use master_of_files.Utils.Nombre.{split_file_tag}
use master_of_files.Storage.Datos.{Storage, buscar_tag}
use master_of_files.Storage.Operaciones.{
  operacion_create_file, operacion_truncate_file, operacion_tag_file, operacion_eliminar_tag,
}
use master_of_files.Storage.Bloques.{
  Config, Disco, Escribe, operacion_read_bloque, operacion_write_bloque, operacion_commit_tag,
}

abbrev pub solo : ℕ → Respuesta
solo op = record { op_resp = some op; datos = [] }

abbrev pub es_cero : ℤ → Bool
es_cero (pos n) = n == 0
es_cero (negsuc n) = false

-- The reply to the result of an operation, which is 0 where it worked.
abbrev pub codigo_de : ℤ → Respuesta
codigo_de rc = if es_cero rc then solo op_resp_ok else solo op_resp_error

-- COMMIT takes 1, for a File:Tag that was committed before, as a success.
abbrev pub segun_commit : ℤ → Respuesta
segun_commit (pos n) = if ltb n 2 then solo op_resp_ok else solo op_resp_error
segun_commit (negsuc n) = solo op_resp_error

-- An `int` next to a `uint32_t`.
abbrev pub sin_signo : ℤ → ℕ
sin_signo (pos n) = n % 2 ^ 32
sin_signo (negsuc n) = (2 ^ 32 - suc n % 2 ^ 32) % 2 ^ 32

-- The `int` that the bytes of a `uint32_t` make is not negative.
abbrev pub no_negativo : ℕ → Bool
no_negativo n = ltb n (2 ^ 31)

module _ (c : Config) (md5 : List ℕ → Texto) (hay_buffer : Bool) (escritura : Escribe) where
  open c use {State}

  abbrev pub con_storage : Disco State → Storage → Disco State
  con_storage d s = record d { storage = s }

  unfoldable pub storage_create : Disco State → Texto → Respuesta × Disco State
  storage_create d ft = elim (split_file_tag ft) [
    | none ↦ (solo op_resp_error, d)
    | some (file, tag) ↦
        let (rc, s) = operacion_create_file d.storage file tag in (codigo_de rc, con_storage d s)
  ]

  -- `none`: TRUNCATE never returns.
  unfoldable pub storage_truncate : Disco State → Texto → ℤ → Option (Respuesta × Disco State)
  storage_truncate d ft tamanio = elim (split_file_tag ft) [
    | none ↦ some (solo op_resp_error, d)
    | some (file, tag) ↦ elim (operacion_truncate_file d.storage file tag (sin_signo tamanio)) [
      | none ↦ none
      | some (rc, s) ↦ some (codigo_de rc, con_storage d s)
    ]
  ]

  unfoldable pub storage_tag : Disco State → Texto → Texto → Respuesta × Disco State
  storage_tag d origen destino = elim (split_file_tag origen) [
    | none ↦ (solo op_resp_error, d)
    | some (file_o, tag_o) ↦ elim (split_file_tag destino) [
      | none ↦ (solo op_resp_error, d)
      | some (file_d, tag_d) ↦
          let (rc, s) = operacion_tag_file d.storage file_o tag_o file_d tag_d in
          (codigo_de rc, con_storage d s)
    ]
  ]

  unfoldable pub storage_delete : Disco State → Texto → Texto → Respuesta × Disco State
  storage_delete d file tag =
      (solo op_resp_ok, con_storage d (operacion_eliminar_tag d.storage file tag))

  -- `none`: the digest of a block that has no file.
  unfoldable pub storage_commit : Disco State → Texto → Option (Respuesta × Disco State)
  storage_commit d ft = elim (split_file_tag ft) [
    | none ↦ some (solo op_resp_error, d)
    | some (file, tag) ↦ elim (operacion_commit_tag c md5 d file tag) [
      | none ↦ none
      | some (rc, d') ↦ some (segun_commit rc, d')
    ]
  ]

  unfoldable pub storage_flush : Disco State → Texto → Texto → Respuesta × Disco State
  storage_flush d file tag = elim (buscar_tag d.storage.lista_files file tag) [
    | none ↦ (solo op_resp_error, d)
    | some _ ↦ (solo op_resp_ok, d)
  ]

  -- The bytes of a block up to the block size. The source sends as many also from a file that is shorter, the
  -- rest from beyond its buffer; those bytes are not modelled.
  unfoldable pub storage_read_block : Disco State → Texto → ℕ → Respuesta × Disco State
  storage_read_block d ft nro_pag = elim (split_file_tag ft) [
    | none ↦ (solo op_resp_error, d)
    | some (file, tag) ↦ elim (buscar_tag d.storage.lista_files file tag) [
      | none ↦ (solo op_resp_error, d)
      | some t ↦
          if no_negativo nro_pag
          then elim (get_elem? t.lista_block_logicos nro_pag) [
            | none ↦ (solo op_resp_error, d)
            | some bl ↦ elim (operacion_read_bloque d.storage file tag bl.nombre_block) [
              | none ↦ (solo op_resp_error, d)
              | some contenido ↦ (
                record { op_resp = some op_resp_ok; datos = take d.storage.block_size contenido },
                d,
              )
            ]
          ]
          else (solo op_resp_error, d)
    ]
  ]

  unfoldable pub storage_write_block :
      Disco State → Texto → Texto → ℕ → ℕ → List ℕ → Respuesta × Disco State
  storage_write_block d file tag nro_pag len contenido =
      elim (buscar_tag d.storage.lista_files file tag) [
        | none ↦ (solo op_resp_error, d)
        | some t ↦ elim (get_elem? t.lista_block_logicos nro_pag) [
          | none ↦ (solo op_resp_error, d)
          | some bl ↦
              if ltb d.storage.block_size len
              then (solo op_resp_error, d)
              else (let (rc, d') =
                    operacion_write_bloque c md5 d file tag bl contenido len hay_buffer escritura in
                  (codigo_de rc, d'))
        ]
      ]

  -- The dispatch on the code of a request.
  unfoldable pub atender_worker : Disco State → Pedido → Option (Respuesta × Disco State)
  atender_worker d (op_st_read_block qid ft nro_pag) = some (storage_read_block d ft nro_pag)
  atender_worker d (op_st_write_block qid file tag nro_pag len contenido) =
      some (storage_write_block d file tag nro_pag len contenido)
  atender_worker d (op_create qid ft) = some (storage_create d ft)
  atender_worker d (op_truncate qid ft tamanio) = storage_truncate d ft tamanio
  atender_worker d (op_tag qid origen destino) = some (storage_tag d origen destino)
  atender_worker d (op_commit qid ft) = storage_commit d ft
  atender_worker d (op_flush qid file tag) = some (storage_flush d file tag)
  atender_worker d (op_delete qid file tag) = some (storage_delete d file tag)
