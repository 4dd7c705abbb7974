-- ===== src/Worker/Memoria.antt =====
-- worker/src/memoria_Interna.c and memoria_interna.h: the frames of a Worker's internal memory,
-- page faults, replacement by LRU or CLOCK-M, access by bytes and the flushes.
-- `base` is the content of the frame's bytes, `none` stands for a NULL name and for a frame
-- number of -1. The clock is the argument `tiempo`, read at the instants 0, 1, 2, ...
pub mod Clave
pub mod Victima
pub mod Reloj
pub mod Clockm
use master_of_files.Base.{
  ℕ, zero, suc, ◌+◌, ◌-◌, ◌/◌, ◌%◌, ◌^◌, Bool, true, false, not, ◌&&◌, Option, none, some, List, [],
  ◌∷◌, ◌++◌, ltb, ◌==◌, if◌then◌else◌, length, get_elem?, set, take, drop, replicate, find_index,
  modify,
}
use master_of_files.Base.Texto.{Texto, texto_eq}
use master_of_files.Utils.Protocolo.{
  Pedido, op_st_read_block, op_st_write_block, Respuesta, Conexion, op_resp_ok, Rc, cero, menos_uno,
}

pub data Reemplazo : Type 0 where
  lru clockm : Reemplazo

pub record Ram : Type 0 where
  pub tam_memoria : ℕ
  pub page_size : ℕ
  pub algoritmo : Reemplazo

pub record Marco : Type 0 where
  pub libre : Bool
  pub base : List ℕ
  pub file : Option Texto
  pub tag : Option Texto
  pub pagina : ℕ
  pub dirty : Bool
  pub u : ℕ
  pub m : ℕ
  pub last_used : ℕ

-- The globals of the file, the instant of the clock and the state behind the socket.
pub record Memoria (State : Type 0) : Type 0 where
  pub page_size : ℕ
  pub frames : List Marco
  pub algoritmo : Reemplazo
  pub context_query_id : ℕ
  pub puntero_reloj : ℕ
  pub instante : ℕ
  pub storage : State

abbrev pub marco_inicial : ℕ → Marco
marco_inicial n = record {
  libre = true;
  base = replicate n 0;
  file = none;
  tag = none;
  pagina = 0;
  dirty = false;
  u = 0;
  m = 0;
  last_used = 0;
}

-- The two flags say whether `malloc` and `calloc` succeed. The query id -1 of the source is 0 here.
unfoldable pub inicializar_memoria :
    {State : Type 0} → Ram → Bool → Bool → State → Option (Memoria State)
inicializar_memoria info hay_memoria hay_tabla s =
    if hay_memoria && hay_tabla
    then some (record {
      page_size = info.page_size;
      frames = replicate (info.tam_memoria / info.page_size) (marco_inicial info.page_size);
      algoritmo = info.algoritmo;
      context_query_id = 0;
      puntero_reloj = 0;
      instante = 0;
      storage = s;
    })
    else none

-- `a && strcmp(a, b) == 0`.
unfoldable pub compara : Option Texto → Texto → Bool
compara none b = false
compara (some a) b = texto_eq a b

-- The tests of the source, each of which returns `false`, in one conjunction.
unfoldable pub frame_matchea : Marco → Texto → Texto → ℕ → Bool
frame_matchea f file tag nro_pag =
    not f.libre && ((f.pagina == nro_pag) && (compara f.file file && compara f.tag tag))

unfoldable pub buscar_marco_libre : List Marco → Option ℕ
buscar_marco_libre = find_index (λ f. f.libre)

-- The loop of `algoritmo_LRU` from frame `i`, over its variables `victima` and `peor`.
unfoldable pub lru_desde : ℕ → List Marco → Option ℕ → ℕ → Option ℕ
lru_desde i [] victima peor = victima
lru_desde i (f ∷ fs) victima peor =
    let mejor = not f.libre && ltb f.last_used peor in
    lru_desde (suc i) fs (if mejor then some i else victima) (if mejor then f.last_used else peor)

unfoldable pub algoritmo_lru : List Marco → Option ℕ
algoritmo_lru frames = lru_desde 0 frames none (2 ^ 64 - 1)

abbrev pub prueba : List Marco → ℕ → (Marco → Bool) → Bool
prueba frames i p = elim (get_elem? frames i) [ none ↦ false | some f ↦ p f ]

-- `for (k = k; k < FRAMES; k++)` over the frames from the hand of the clock, with the rounds left:
-- the first frame that passes the test.
unfoldable pub vuelta : (Marco → Bool) → List Marco → ℕ → ℕ → ℕ → Option ℕ
vuelta p frames puntero zero k = none
vuelta p frames puntero (suc n) k =
    let i = (puntero + k) % length frames in
    elim (prueba frames i p) [ true ↦ some i | false ↦ vuelta p frames puntero n (suc k) ]

-- A frame in use with these bits.
abbrev pub clase : ℕ → ℕ → Marco → Bool
clase u m f = not f.libre && ((f.u == u) && (f.m == m))

abbrev pub bajar_u : Marco → Marco
bajar_u f = if not f.libre && (f.u == 1) then record f { u = 0 } else f

-- The second round looks for (0, 1) and clears the use bits that it passes.
unfoldable pub segunda_vuelta : List Marco → ℕ → ℕ → ℕ → Option ℕ × List Marco
segunda_vuelta frames puntero zero k = (none, frames)
segunda_vuelta frames puntero (suc n) k =
    let i = (puntero + k) % length frames in
    elim (prueba frames i (clase 0 1)) [
      | true ↦ (some i, frames)
      | false ↦ segunda_vuelta (modify frames i bajar_u) puntero n (suc k)
    ]

-- What the third round does with the frames of the second. The results are the victim, the hand
-- of the clock and the frames.
unfoldable pub tercera_vuelta : List Marco → ℕ → Option ℕ × ℕ × List Marco
tercera_vuelta frames puntero = elim (vuelta (λ f. not f.libre) frames puntero (length frames) 0) [
  | some i ↦ (some i, (i + 1) % length frames, frames)
  | none ↦ (none, puntero, frames)
]

abbrev pub tras_segunda : ℕ → Option ℕ × List Marco → Option ℕ × ℕ × List Marco
tras_segunda puntero (some i, frames) = (some i, (i + 1) % length frames, frames)
tras_segunda puntero (none, frames) = tercera_vuelta frames puntero

unfoldable pub algoritmo_clockm : List Marco → ℕ → Option ℕ × ℕ × List Marco
algoritmo_clockm frames puntero = elim (vuelta (clase 0 0) frames puntero (length frames) 0) [
  | some i ↦ (some i, (i + 1) % length frames, frames)
  | none ↦ tras_segunda puntero (segunda_vuelta frames puntero (length frames) 0)
]

unfoldable pub elegir_algoritmo : {State : Type 0} → Memoria State → Option ℕ × Memoria State
elegir_algoritmo r = elim r.algoritmo [
  | lru ↦ (algoritmo_lru r.frames, r)
  | clockm ↦
      let (victima, puntero, frames) = algoritmo_clockm r.frames r.puntero_reloj in
      (victima, record r { puntero_reloj = puntero; frames = frames })
]
