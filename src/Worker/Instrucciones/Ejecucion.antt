-- ===== src/Worker/Instrucciones/Ejecucion.antt =====
-- worker/src/instrucciones.c: one function per instruction, over the memory and the socket to Storage.
-- What goes to the Master is a list of messages. `malloc` says whether so many bytes can be had.
use master_of_files.Base.{
  ℕ, zero, suc, ◌-◌, ◌/◌, ◌%◌, ◌^◌, Bool, true, false, not, ◌&&◌, ◌||◌, Option, none, some, List,
  [], ◌∷◌, ◌==◌, leb, if◌then◌else◌, length,
}
use master_of_files.Base.Int.{ℤ, pos, negsuc}
use master_of_files.Base.Texto.{Texto}
use master_of_files.Utils.Protocolo.{
  Pedido, op_create, op_truncate, op_tag, op_commit, op_flush, op_delete, Conexion, Rc, cero,
  menos_uno, si_cero,
}
use master_of_files.Worker.Memoria.{Marco, Memoria, compara}
use master_of_files.Worker.Paginas.{
  escribir_respuesta, marco_en, cambiar, flush_frame, flush_filetag, acceder_memoria,
}
use master_of_files.Worker.Instrucciones.{Instruccion, saltar, separar_file_tag}
use master_of_files.Worker.Instrucciones.Numero.{leer_digitos, parse_size_t_safe}

-- What a Worker sends to the Master. A read has its name, its size as an `int` and, where the size is
-- not zero, its bytes.
pub data Mensaje : Type 0 where
  op_resp_read_ok : Texto → ℕ → Option (List ℕ) → Mensaje
  op_resp_read_err : Mensaje
  op_query_desalojada : ℕ → ℕ → Mensaje
  op_fin_query : ℕ → Mensaje

-- `atoi`; a number that is no `int` is undefined in the source and exact here.
abbrev pub opuesto : ℕ → ℤ
opuesto zero = pos zero
opuesto (suc n) = negsuc n

unfoldable pub atoi : Texto → ℤ
atoi txt = elim (saltar txt) [
  | [] ↦ pos 0
  | c ∷ cs ↦
      if c == b'-'
      then opuesto (leer_digitos 0 cs).0
      else if c == b'+'
      then pos (leer_digitos 0 cs).0
      else pos (leer_digitos 0 (c ∷ cs)).0
]

-- `tamanio % block_size != 0`.
abbrev pub es_multiplo : ℤ → ℕ → Bool
es_multiplo (pos n) block_size = n % block_size == 0
es_multiplo (negsuc n) block_size = suc n % block_size == 0

-- `(uint32_t) (tamanio / block_size)`.
abbrev pub paginas_validas : ℤ → ℕ → ℕ
paginas_validas (pos n) block_size = n / block_size % 2 ^ 32
paginas_validas (negsuc n) block_size = (2 ^ 32 - suc n / block_size % 2 ^ 32) % 2 ^ 32

abbrev pub liberar : Marco → Marco
liberar f = record f { libre = true; file = none; tag = none; dirty = false; u = 0; m = 0 }

-- A frame in use that holds a page of the file:tag from `pagina` on.
pub de_filetag : Texto → Texto → ℕ → Marco → Bool
de_filetag file tag pagina f =
    not f.libre && (compara f.file file && (compara f.tag tag && leb pagina f.pagina))

-- The global of worker.c, which nothing sets.
abbrev pub frame_count : ℕ
frame_count = 0

-- `pila` says whether the byte `arg1[1]` that an empty argument leaves on the stack is zero.
abbrev pub sin_segundo : Bool → Texto → Bool
sin_segundo pila [] = pila
sin_segundo pila (a ∷ []) = true
sin_segundo pila (a ∷ b ∷ _) = false

abbrev pub vacio : Texto → Bool
vacio [] = true
vacio (_ ∷ _) = false

-- `none` stands for an access that does not end, as in `acceder_memoria`.
abbrev pub escrito :
    {State : Type 0} → Option (Rc × List ℕ × Memoria State) → Option (Rc × Memoria State)
escrito none = none
escrito (some (rc, _, r)) = some (rc, r)

-- The messages of a read, by its result.
abbrev pub respuesta_read : Texto → ℕ → Rc → List ℕ → List Mensaje
respuesta_read nombre tamanio cero datos =
    op_resp_read_ok nombre (tamanio % 2 ^ 32) (if tamanio == 0 then none else some datos) ∷ []
respuesta_read nombre tamanio menos_uno datos = op_resp_read_err ∷ []

abbrev pub leido :
    {State : Type 0}
    → Texto
    → ℕ
    → Option (Rc × List ℕ × Memoria State)
    → Option (Rc × Memoria State × List Mensaje)
leido nombre tamanio none = none
leido nombre tamanio (some (rc, datos, r)) = some (rc, r, respuesta_read nombre tamanio rc datos)

module _ (c : Conexion) (tiempo : ℕ → ℕ) where
  open c use {State, pedir}

  -- A request whose reply is a code.
  abbrev pub pide : Memoria State → Pedido → Rc × Memoria State
  pide r p =
      let (resp, s) = pedir r.storage p in (escribir_respuesta resp, record r { storage = s })

  unfoldable pub ejecutar_create : Bool → Memoria State → Instruccion → Rc × Memoria State
  ejecutar_create pila r inst =
      if sin_segundo pila inst.arg1
      then (menos_uno, r)
      else pide r (op_create r.context_query_id inst.arg1)

  -- The loop of TRUNCATE over the frames, from frame `i` with the rounds left: a page beyond the end is
  -- written back, and its frame is released whatever came of that.
  unfoldable pub liberar_desde : ℕ → ℕ → Memoria State → Texto → Texto → ℕ → Memoria State
  liberar_desde zero i r file tag validas = r
  liberar_desde (suc n) i r file tag validas =
      elim (marco_en r.frames i false (de_filetag file tag validas)) [
        | false ↦ liberar_desde n (suc i) r file tag validas
        | true ↦
            let r' = (flush_frame c tiempo r i).1 in
            liberar_desde n (suc i) (cambiar r' i liberar) file tag validas
      ]

  unfoldable pub ejecutar_truncate : Memoria State → Instruccion → Rc × Memoria State
  ejecutar_truncate r inst =
      let tamanio = atoi inst.arg2 in
      if vacio inst.arg1 || vacio inst.arg2
      then (menos_uno, r)
      else if es_multiplo tamanio r.page_size
      then (let (rc, r') = pide r (op_truncate r.context_query_id inst.arg1 tamanio) in
          si_cero rc
            (elim (separar_file_tag inst.arg1) [
              | none ↦ (menos_uno, r')
              | some (file, tag) ↦ (
                cero,
                liberar_desde frame_count 0 r' file tag (paginas_validas tamanio r.page_size),
              )
            ])
            (menos_uno, r'))
      else (menos_uno, r)

  unfoldable pub ejecutar_write :
      (ℕ → Bool) → Memoria State → Instruccion → Option (Rc × Memoria State)
  ejecutar_write malloc r inst = elim (separar_file_tag inst.arg1) [
    | none ↦ some (menos_uno, r)
    | some (file, tag) ↦ elim (parse_size_t_safe inst.arg2) [
      | none ↦ some (menos_uno, r)
      | some base ↦
          let tam = length inst.arg3 in
          if vacio inst.arg3
          then some (menos_uno, r)
          else if malloc tam
          then escrito (acceder_memoria c tiempo r file tag base tam true inst.arg3)
          else some (menos_uno, r)
    ]
  ]

  unfoldable pub ejecutar_read :
      (ℕ → Bool) → Memoria State → Instruccion → Option (Rc × Memoria State × List Mensaje)
  ejecutar_read malloc r inst = elim (separar_file_tag inst.arg1) [
    | none ↦ some (menos_uno, r, [])
    | some (file, tag) ↦ elim (parse_size_t_safe inst.arg2) [
      | none ↦ some (menos_uno, r, [])
      | some base ↦ elim (parse_size_t_safe inst.arg3) [
        | none ↦ some (menos_uno, r, [])
        | some tamanio ↦
            if (tamanio == 0) || malloc tamanio
            then leido inst.arg1 tamanio (acceder_memoria c tiempo r file tag base tamanio false [])
            else some (menos_uno, r, [])
      ]
    ]
  ]

  unfoldable pub ejecutar_tag : Memoria State → Instruccion → Rc × Memoria State
  ejecutar_tag r inst = elim (separar_file_tag inst.arg1) [
    | none ↦ (menos_uno, r)
    | some _ ↦ elim (separar_file_tag inst.arg2) [
      | none ↦ (menos_uno, r)
      | some _ ↦ pide r (op_tag r.context_query_id inst.arg1 inst.arg2)
    ]
  ]

  unfoldable pub ejecutar_commit : Memoria State → Instruccion → Rc × Memoria State
  ejecutar_commit r inst = elim (separar_file_tag inst.arg1) [
    | none ↦ (menos_uno, r)
    | some (file, tag) ↦
        let (rc, r') = flush_filetag c tiempo r file tag in
        si_cero rc (pide r' (op_commit r'.context_query_id inst.arg1)) (menos_uno, r')
  ]

  unfoldable pub ejecutar_flush : Memoria State → Instruccion → Rc × Memoria State
  ejecutar_flush r inst = elim (separar_file_tag inst.arg1) [
    | none ↦ (menos_uno, r)
    | some (file, tag) ↦
        let (rc, r') = flush_filetag c tiempo r file tag in
        si_cero rc (pide r' (op_flush r'.context_query_id file tag)) (menos_uno, r')
  ]

  -- The loop of DELETE over the frames.
  unfoldable pub soltar_desde : ℕ → ℕ → Memoria State → Texto → Texto → Memoria State
  soltar_desde zero i r file tag = r
  soltar_desde (suc n) i r file tag = elim (marco_en r.frames i false (de_filetag file tag 0)) [
    | false ↦ soltar_desde n (suc i) r file tag
    | true ↦ soltar_desde n (suc i) (cambiar r i liberar) file tag
  ]

  unfoldable pub ejecutar_delete : Memoria State → Instruccion → Rc × Memoria State
  ejecutar_delete r inst = elim (separar_file_tag inst.arg1) [
    | none ↦ (menos_uno, r)
    | some (file, tag) ↦
        let (rc, r') = flush_filetag c tiempo r file tag in
        let r'' = soltar_desde frame_count 0 r' file tag in
        si_cero rc (pide r'' (op_delete r''.context_query_id file tag)) (menos_uno, r')
  ]
