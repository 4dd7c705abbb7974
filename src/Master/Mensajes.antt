-- ===== src/Master/Mensajes.antt =====
-- master/src/master.c, and manejar_desconexion_worker of master_planificacion.c and enviar_fin_query of
-- master_query.c: what each message of a Worker or of a Query Control does to the Master. `hay_paquete`
-- says whether a packet could be made.
use master_of_files.Base.{
  ℕ, zero, suc, ◌-◌, Bool, true, Option, none, some, List, [], ◌∷◌, ◌++◌, ◌==◌, ltb, if◌then◌else◌,
  get_elem?, take,
}
use master_of_files.Base.Int.{ℤ}
use master_of_files.Base.Texto.{Texto, cadena, codes}
use master_of_files.Utils.Paquete.{leer_int, es_negativo}
use master_of_files.Master.Datos.{ready, exit, Worker, Master, escribir}
use master_of_files.Master.Planificacion.{
  buscar_worker_por_socket, registrar_worker_libre, agregar_query_ready_fifo,
}
use master_of_files.Master.Rutas.{crear_query}

-- What goes to a Query Control, and to the socket with the number.
pub data Aviso : Type 0 where
  op_mensaje : Texto → Aviso
  op_fin_query : Texto → Aviso

pub record Sistema : Type 0 where
  pub master : Master
  pub next_qid : ℕ
  pub queries_activas : List ℕ
  pub avisos : List (ℕ × Aviso)

-- The request of an eviction that comes with a change, as in `agregar_query_ready_fifo`.
abbrev pub Efecto : Type 0
Efecto = Sistema × Option (ℕ × ℕ)

abbrev pub con_master : Sistema → Master → Sistema
con_master s m = record s { master = m }

-- The query is marked, told of its end and released. The lists of the states are not there: nothing makes
-- them, so that the removals do nothing. A closed socket is (uint32_t) -1. The notice is recorded
-- also where its send fails.
unfoldable pub enviar_fin_query : Sistema → ℕ → Texto → Bool → Sistema
enviar_fin_query s q motivo hay_paquete =
    let socket = (s.master.query q).socket_query in
    if ltb 0 socket
    then record s {
      master = record s.master {
        query =
            escribir s.master.query q
              (λ x. record x { estado_actual = exit; socket_query = 4294967295 });
      };
      avisos = (if hay_paquete then s.avisos ++ (socket, op_fin_query motivo) ∷ [] else s.avisos);
    }
    else con_master s (record s.master {
      query = escribir s.master.query q (λ x. record x { estado_actual = exit });
    })

-- `list_remove_element`. A pointer to a Worker is its index, so those behind it move down.
abbrev pub quitar {ℓ} : {A : Type ℓ} → List A → ℕ → List A
quitar [] i = []
quitar (x ∷ xs) zero = xs
quitar (x ∷ xs) (suc i) = x ∷ quitar xs i

abbrev pub bajar : ℕ → Option ℕ → Option ℕ
bajar i none = none
bajar i (some j) = if j == i then none else if ltb i j then some (j - 1) else some j

abbrev pub sin_worker : Master → ℕ → Master
sin_worker m i = record m {
  workers = quitar m.workers i;
  query = λ a. record (m.query a) { worker_asignado = bajar i (m.query a).worker_asignado };
}

-- The part for the Worker at index `i`, which runs `ejecutando`.
unfoldable pub desconectar : Sistema → ℕ → Option ℕ → Bool → Sistema
desconectar s i none hay_paquete = con_master s (sin_worker s.master i)
desconectar s i (some q) hay_paquete =
    let m = record s.master {
      query =
          escribir s.master.query q
            (λ x. record x { estado_actual = exit; worker_asignado = none });
    } in
    let s' =
      enviar_fin_query (con_master s m) q (codes "Cancelada por desconexion del Worker")
        hay_paquete in
    con_master s' (sin_worker s'.master i)

abbrev pub con_worker {ℓ} : {B : Type ℓ} → Sistema → ℕ → B → (ℕ → Worker → B) → B
con_worker s sock z k = elim (buscar_worker_por_socket s.master.workers sock) [
  | none ↦ z
  | some i ↦ elim (get_elem? s.master.workers i) [ none ↦ z | some w ↦ k i w ]
]

unfoldable pub manejar_desconexion_worker : Sistema → ℕ → Bool → Sistema
manejar_desconexion_worker s sock hay_paquete =
    con_worker s sock s λ i w. desconectar s i w.ejecutando hay_paquete

-- A Worker that says hello.
unfoldable pub conectar_worker : Sistema → ℕ → ℕ → Sistema
conectar_worker s sock id_worker = con_master s (record s.master {
  workers =
      s.master.workers
      ++ record { socket = sock; id = id_worker; libre = true; ejecutando = none } ∷ [];
  sem_workers = suc s.master.sem_workers;
})

-- `snprintf` of a read, in a buffer that has room for `tamanio` bytes of it.
abbrev pub mensaje_lectura : Texto → ℕ → List ℕ → Texto
mensaje_lectura filetag tamanio buffer =
    codes "Archivo " ++ (filetag ++ (codes ", contenido: " ++ cadena (take tamanio buffer)))

-- The message of a read from its fields, `none` where there are fewer than three. A negative size is
-- undefined here, and gives no message.
unfoldable pub leer_lectura : List (List ℕ) → Option Texto
leer_lectura [] = none
leer_lectura (_ ∷ []) = none
leer_lectura (_ ∷ _ ∷ []) = none
leer_lectura (filetag ∷ tamanio ∷ buffer ∷ _) = elim (leer_int tamanio) [
  | none ↦ none
  | some (n, _) ↦ if es_negativo n then none else some (mensaje_lectura (cadena filetag) n buffer)
]

unfoldable pub atender_read_ok : Sistema → ℕ → List (List ℕ) → Sistema
atender_read_ok s sock campos = con_worker s sock s λ i w. elim w.ejecutando [
  | none ↦ s
  | some q ↦ elim (leer_lectura campos) [
    | none ↦ s
    | some texto ↦ record s {
      avisos = s.avisos ++ ((s.master.query q).socket_query, op_mensaje texto) ∷ [];
    }
  ]
]

-- The number of the query in the first field.
abbrev pub leer_qid : List (List ℕ) → Option ℕ
leer_qid [] = none
leer_qid (x ∷ _) = elim (leer_int x) [ none ↦ none | some (n, _) ↦ some n ]

unfoldable pub atender_fin_query : Sistema → ℕ → List (List ℕ) → Bool → Sistema
atender_fin_query s sock campos hay_paquete = con_worker s sock s λ i w. elim w.ejecutando [
  | none ↦ s
  | some q ↦ elim (leer_qid campos) [
    | none ↦ s
    | some qid ↦
        if qid == (s.master.query q).qid
        then enviar_fin_query (con_master s (registrar_worker_libre s.master i)) q
            (codes "Finalizada OK") hay_paquete
        else s
  ]
]

module _ (list_sort : (ℕ → ℕ → Bool) → List ℕ → List ℕ) where
  abbrev pub encolar : Sistema → Master → ℕ → Efecto
  encolar s m q =
      let (m', pedido) = agregar_query_ready_fifo list_sort m q in (con_master s m', pedido)

  -- A Query Control that sends its path: the query is made at the address `q`.
  unfoldable pub conectar_query : Sistema → ℕ → Texto → ℤ → ℕ → Efecto
  conectar_query s q path prioridad sock =
      let (nueva, next) = crear_query s.next_qid path prioridad sock in
      encolar (record s { next_qid = next; queries_activas = s.queries_activas ++ q ∷ [] })
        (record s.master { query = escribir s.master.query q (λ _. nueva) }) q

  unfoldable pub atender_desalojada : Sistema → ℕ → ℕ → ℕ → Efecto
  atender_desalojada s sock qid pc =
      con_worker s sock (s, none)
        λ i w. elim w.ejecutando [
          | none ↦ (s, none)
          | some q ↦
              if (s.master.query q).qid == qid
              then encolar s
                  (registrar_worker_libre
                    (record s.master {
                      query = escribir s.master.query q (λ x. record x {
                        pc = pc;
                        estado_actual = ready;
                        worker_asignado = none;
                      });
                    })
                    i)
                  q
              else (s, none)
        ]
