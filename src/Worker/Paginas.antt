-- ===== src/Worker/Paginas.antt =====
-- worker/src/memoria_Interna.c: the part of the internal memory that talks to Storage. Page faults
-- (`traer_pagina`), access by bytes (`acceder_memoria`) and the flushes, over the socket `c` and the
-- clock `tiempo`.
pub mod Vista
pub mod Paso
pub mod Descarga
pub mod Cambios
pub mod Traer
pub mod Copia
pub mod Octetos
pub mod Flush
pub mod Inicio
pub mod Ronda
pub mod Acceso
use master_of_files.Base.{
  ℕ, zero, suc, ◌+◌, ◌-◌, ◌/◌, ◌%◌, ◌^◌, Bool, true, false, not, ◌&&◌, Option, none, some, List, [],
  ◌∷◌, ◌++◌, ltb, leb, ◌==◌, if◌then◌else◌, length, get_elem?, take, drop, find_index, modify,
}
use master_of_files.Base.Texto.{Texto}
use master_of_files.Utils.Protocolo.{
  op_st_read_block, op_st_write_block, Respuesta, Conexion, op_resp_ok, Rc, cero, menos_uno,
  si_cero,
}
use master_of_files.Worker.Memoria.{
  Marco, Memoria, compara, frame_matchea, buscar_marco_libre, elegir_algoritmo,
}

abbrev pub file_tag : Texto → Texto → Texto
file_tag file tag = file ++ b':' ∷ tag

-- The bytes that `recv` leaves in the page when the stream ends after `datos`.
abbrev pub recibido : ℕ → List ℕ → List ℕ → List ℕ
recibido n datos out = take n datos ++ drop (length datos) out

-- What `lectura_pagina_storage` makes of the reply: its result, and the page that it filled.
abbrev pub leer_respuesta : ℕ → Respuesta → List ℕ → Rc × List ℕ
leer_respuesta page_size r out = elim r.op_resp [
  | none ↦ (menos_uno, out)
  | some op ↦
      if op == op_resp_ok
      then (
        if leb page_size (length r.datos) then cero else menos_uno,
        recibido page_size r.datos out,
      )
      else (menos_uno, out)
]

abbrev pub escribir_respuesta : Respuesta → Rc
escribir_respuesta r = elim r.op_resp [
  | none ↦ menos_uno
  | some op ↦ if op == op_resp_ok then cero else menos_uno
]

abbrev pub limpiar : Marco → Marco
limpiar f = record f { dirty = false; m = 0 }

abbrev pub sin_nombre : Marco → Marco
sin_nombre f = record f { file = none; tag = none }

abbrev pub tocar : ℕ → Marco → Marco
tocar t f = record f { u = 1; last_used = t }

abbrev pub asignar : Texto → Texto → ℕ → ℕ → Marco → Marco
asignar file tag nro_pag t f = record f {
  libre = false;
  file = some file;
  tag = some tag;
  pagina = nro_pag;
  dirty = false;
  u = 1;
  m = 0;
  last_used = t;
}

-- A frame in use whose names are those of a file:tag and whose page is modified.
pub sucio_de : Texto → Texto → Marco → Bool
sucio_de file tag f = not f.libre && (compara f.file file && (compara f.tag tag && f.dirty))

abbrev pub segun {ℓ} : {A : Type ℓ} → Option Marco → A → (Marco → A) → A
segun none z k = z
segun (some f) z k = k f

-- What `frames[i]` gives to `k`; `z` stands for an index out of range, which the source never uses.
abbrev pub marco_en {ℓ} : {A : Type ℓ} → List Marco → ℕ → A → (Marco → A) → A
marco_en frames i z k = segun (get_elem? frames i) z k

abbrev pub cambiar : {State : Type 0} → Memoria State → ℕ → (Marco → Marco) → Memoria State
cambiar r i g = record r { frames = modify r.frames i g }

module _ (c : Conexion) (tiempo : ℕ → ℕ) where
  open c use {State, pedir}

  unfoldable pub lectura_pagina_storage :
      Memoria State → Texto → Texto → ℕ → List ℕ → Rc × List ℕ × Memoria State
  lectura_pagina_storage r file tag nro_pag out =
      let (resp, s) =
        pedir r.storage (op_st_read_block r.context_query_id (file_tag file tag) nro_pag) in
      let (rc, pagina) = leer_respuesta r.page_size resp out in
      (rc, pagina, record r { storage = s })

  unfoldable pub escribir_pagina_storage :
      Memoria State → Texto → Texto → ℕ → List ℕ → ℕ → Rc × Memoria State
  escribir_pagina_storage r file tag nro_pag entrada len =
      let (resp, s) =
        pedir r.storage
          (op_st_write_block r.context_query_id file tag nro_pag len (take len entrada)) in
      (escribir_respuesta resp, record r { storage = s })

  -- Writes a modified frame back. One with no name would make the source read through NULL; no
  -- operation leaves a modified frame without its names.
  unfoldable pub flush_marco : Memoria State → ℕ → Marco → Rc × Memoria State
  flush_marco r i f = elim f.file [
    | none ↦ (menos_uno, r)
    | some file ↦ elim f.tag [
      | none ↦ (menos_uno, r)
      | some tag ↦
          let (rc, r') = escribir_pagina_storage r file tag f.pagina f.base r.page_size in
          si_cero rc (cero, cambiar r' i limpiar) (menos_uno, r')
    ]
  ]

  unfoldable pub flush_frame : Memoria State → ℕ → Rc × Memoria State
  flush_frame r i =
      marco_en r.frames i (cero, r)
        λ f. if not f.libre && f.dirty then flush_marco r i f else (cero, r)

  -- The tail of `traer_pagina`: the page is read into frame `marco`, which takes its new identity.
  unfoldable pub cargar_marco : Memoria State → Texto → Texto → ℕ → ℕ → Option ℕ × Memoria State
  cargar_marco r file tag nro_pag marco =
      let (rc, pagina, r') =
        lectura_pagina_storage r file tag nro_pag (marco_en r.frames marco [] (λ f. f.base)) in
      let leido = cambiar r' marco (λ f. record f { base = pagina }) in
      si_cero rc
        (
          some marco,
          record (cambiar leido marco (asignar file tag nro_pag (tiempo r.instante))) {
            instante = suc r.instante;
          },
        )
        (none, leido)

  unfoldable pub reemplazar_marco : Memoria State → Texto → Texto → ℕ → ℕ → Option ℕ × Memoria State
  reemplazar_marco r file tag nro_pag victima =
      let (rc, r') = flush_frame r victima in
      si_cero rc (cargar_marco (cambiar r' victima sin_nombre) file tag nro_pag victima) (none, r')

  unfoldable pub traer_pagina : Memoria State → Texto → Texto → ℕ → Option ℕ × Memoria State
  traer_pagina r file tag nro_pag =
      elim (find_index (λ f. frame_matchea f file tag nro_pag) r.frames) [
        | some i ↦
            (some i, record (cambiar r i (tocar (tiempo r.instante))) { instante = suc r.instante })
        | none ↦ elim (buscar_marco_libre r.frames) [
          | some marco ↦ cargar_marco r file tag nro_pag marco
          | none ↦
              let (victima, r') = elegir_algoritmo r in
              elim victima [ none ↦ (none, r') | some v ↦ reemplazar_marco r' file tag nro_pag v ]
        ]
      ]

  -- One chunk of `acceder_memoria` within frame `marco`: the memory, and the bytes copied out.
  unfoldable pub copiar : Memoria State → ℕ → ℕ → ℕ → Bool → List ℕ → Memoria State × List ℕ
  copiar r marco offset chunk escribir entrada =
      let t = tiempo r.instante in
      if escribir
      then (
        record (cambiar r marco λ f. record f {
          base = take offset f.base ++ (take chunk entrada ++ drop (offset + chunk) f.base);
          dirty = true;
          m = 1;
          u = 1;
          last_used = t;
        }) { instante = suc r.instante },
        [],
      )
      else (
        record (cambiar r marco (tocar t)) { instante = suc r.instante },
        marco_en r.frames marco [] (λ f. take chunk (drop offset f.base)),
      )

  -- The loop of `acceder_memoria` at the address `base + desplaz`, with the input that is left and
  -- the output so far. `none` means that the fuel ran out.
  unfoldable pub acceder_desde :
      ℕ
      → Memoria State
      → Texto
      → Texto
      → ℕ
      → ℕ
      → Bool
      → List ℕ
      → List ℕ
      → Option (Rc × List ℕ × Memoria State)
  acceder_desde fuel r file tag dir zero escribir entrada salida = some (cero, salida, r)
  acceder_desde zero r file tag dir (suc restante) escribir entrada salida = none
  acceder_desde (suc fuel) r file tag dir (suc restante) escribir entrada salida =
      let nro_pag = (dir % 2 ^ 64 / r.page_size) % 2 ^ 32 in
      let offset = dir % 2 ^ 64 % r.page_size in
      let chunk =
        (if ltb (suc restante) (r.page_size - offset)
          then suc restante
          else r.page_size - offset) in
      let (marco, r') = traer_pagina r file tag nro_pag in
      elim marco [
        | none ↦ some (menos_uno, salida, r')
        | some i ↦
            let (r'', leido) = copiar r' i offset chunk escribir entrada in
            acceder_desde fuel r'' file tag (dir + chunk) (suc restante - chunk) escribir
              (drop chunk entrada) (salida ++ leido)
      ]

  -- A positive page size makes each round advance, so the size is fuel enough.
  unfoldable pub acceder_memoria :
      Memoria State → Texto → Texto → ℕ → ℕ → Bool → List ℕ → Option (Rc × List ℕ × Memoria State)
  acceder_memoria r file tag base size escribir entrada =
      acceder_desde size r file tag base size escribir entrada []

  -- The loop of `flush_filetag`, from frame `i` with the rounds left.
  unfoldable pub flush_desde : ℕ → ℕ → Memoria State → Texto → Texto → Rc × Memoria State
  flush_desde zero i r file tag = (cero, r)
  flush_desde (suc n) i r file tag = elim (marco_en r.frames i false (sucio_de file tag)) [
    | false ↦ flush_desde n (suc i) r file tag
    | true ↦
        let (rc, r') = marco_en r.frames i (menos_uno, r) (flush_marco r i) in
        let rest = flush_desde n (suc i) r' file tag in si_cero rc rest (menos_uno, r')
  ]

  pub flush_filetag : Memoria State → Texto → Texto → Rc × Memoria State
  flush_filetag r file tag = flush_desde (length r.frames) 0 r file tag

  abbrev pub nombre_sucio : Marco → Option (Texto × Texto)
  nombre_sucio f =
      if not f.libre && f.dirty
      then (elim f.file [
        | none ↦ none
        | some file ↦ elim f.tag [ none ↦ none | some tag ↦ some (file, tag) ]
      ])
      else none

  pub flush_todos_desde : ℕ → ℕ → Memoria State → Rc × Memoria State
  flush_todos_desde zero i r = (cero, r)
  flush_todos_desde (suc n) i r = elim (marco_en r.frames i none nombre_sucio) [
    | none ↦ flush_todos_desde n (suc i) r
    | some (file, tag) ↦
        let (rc, r') = flush_filetag r file tag in
        let rest = flush_todos_desde n (suc i) r' in si_cero rc rest (menos_uno, r')
  ]

  pub flush_todos_filetags_modificados : Memoria State → Rc × Memoria State
  flush_todos_filetags_modificados r = flush_todos_desde (length r.frames) 0 r
