-- ===== src/Master/Rutas.antt =====
-- master/src/master_query.c: the names of scripts, the numbers of queries and a new query; and
-- `generar_path_query` of worker/src/instrucciones.c, which joins a directory and a name as the Master does.
use master_of_files.Base.{
  ℕ, ◌+◌, ◌%◌, ◌^◌, Bool, false, ◌&&◌, Option, none, some, [], ◌∷◌, ◌++◌, ◌==◌, if◌then◌else◌,
}
use master_of_files.Base.Int.{ℤ}
use master_of_files.Base.Texto.{Texto}
use master_of_files.Master.Datos.{ready, Query}

unfoldable pub saltear_prefijos : Texto → Texto
saltear_prefijos [] = []
saltear_prefijos (a ∷ []) = a ∷ []
saltear_prefijos (a ∷ b ∷ resto) =
    let s = saltear_prefijos resto in if (a == b'.') && (b == b'/') then s else a ∷ b ∷ resto

-- `strrchr(ruta, '/') + 1`.
unfoldable pub tras_barra : Texto → Option Texto
tras_barra [] = none
tras_barra (c ∷ cs) = elim (tras_barra cs) [
  | some r ↦ some r
  | none ↦ if c == b'/' then some cs else none
]

-- `base ? base + 1 : ruta`.
abbrev pub base : Texto → Texto
base ruta = elim (tras_barra ruta) [ some r ↦ r | none ↦ ruta ]

unfoldable pub path_nombre_archivo : Texto → Texto
path_nombre_archivo ruta = base (saltear_prefijos ruta)

-- The test of the last byte of a directory.
unfoldable pub termina_con_slash : Texto → Bool
termina_con_slash [] = false
termina_con_slash (c ∷ []) = c == b'/'
termina_con_slash (c ∷ d ∷ cs) = termina_con_slash (d ∷ cs)

unfoldable pub path_unir_directorio_archivo : Texto → Texto → Texto
path_unir_directorio_archivo [] nombre = nombre
path_unir_directorio_archivo (c ∷ cs) nombre =
    if termina_con_slash (c ∷ cs) then (c ∷ cs) ++ nombre else (c ∷ cs) ++ b'/' ∷ nombre

-- `none` stands for the read before the start of an empty directory.
unfoldable pub generar_path_query : Texto → Texto → Option Texto
generar_path_query [] nombre = none
generar_path_query (c ∷ cs) nombre =
    if termina_con_slash (c ∷ cs)
    then some ((c ∷ cs) ++ nombre)
    else some ((c ∷ cs) ++ b'/' ∷ nombre)

-- The number and the next value of `next_qid`, a `uint32_t`.
unfoldable pub generar_qid : ℕ → ℕ × ℕ
generar_qid next_qid = (next_qid, (next_qid + 1) % 2 ^ 32)

unfoldable pub crear_query : ℕ → Texto → ℤ → ℕ → Query × ℕ
crear_query next_qid path prioridad sock =
    let (qid, next_qid') = generar_qid next_qid in
    (
      record {
        qid = qid;
        pc = 0;
        path = path_nombre_archivo path;
        prioridad = prioridad;
        estado_actual = ready;
        socket_query = sock;
        worker_asignado = none;
      },
      next_qid',
    )
