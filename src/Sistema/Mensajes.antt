-- ===== src/Sistema/Mensajes.antt =====
-- worker/src/instrucciones.c and master/src/master.c: the packets of a Worker's messages, and what the Master
-- does with them.
use master_of_files.Base.{
  ℕ, ◌+◌, ◌/◌, ◌<◌, ◌≡◌, refl, ◌^◌, Bool, true, false, none, some, List, [], ◌∷◌, ◌++◌, ◌==◌,
  length, get_elem?, arith, ◌∙◌, ap, Bool-cases, inl, inr, take_of_length-le, length-append,
}
use master_of_files.Base.Texto.{Texto, codes, cadena, tiene}
use master_of_files.Utils.Paquete.{
  le4, leer_int, es_negativo, serializar_paquete, recibir_operacion, recibir_paquete,
}
use master_of_files.Utils.Envio.{armar, plano, recibir_paquete-serializar_paquete}
use master_of_files.Worker.Instrucciones.Ejecucion.{
  Mensaje, op_resp_read_ok, op_resp_read_err, op_query_desalojada, op_fin_query,
}
use master_of_files.Master.Datos.{Worker}
use master_of_files.Master.Planificacion.{buscar_worker_por_socket, registrar_worker_libre}
use master_of_files.Master.Mensajes.{
  op_mensaje, Sistema, con_master, enviar_fin_query, con_worker, mensaje_lectura, leer_lectura,
  atender_read_ok, atender_fin_query,
}

-- The code of a message and the fields of its packet, as they are added.
abbrev pub op_de : Mensaje → ℕ
op_de (op_resp_read_ok _ _ _) = 1020
op_de op_resp_read_err = 1021
op_de (op_query_desalojada _ _) = 302
op_de (op_fin_query _) = 500

abbrev pub campos_de : Mensaje → List (List ℕ)
campos_de (op_resp_read_ok nombre tamanio none) = (nombre ++ 0 ∷ []) ∷ le4 tamanio ∷ []
campos_de (op_resp_read_ok nombre tamanio (some datos)) =
    (nombre ++ 0 ∷ []) ∷ le4 tamanio ∷ datos ∷ []
campos_de op_resp_read_err = []
campos_de (op_query_desalojada qid pc) = le4 qid ∷ (le4 pc ++ le4 (pc / 4294967296)) ∷ []
campos_de (op_fin_query qid) = le4 qid ∷ []

cadena-append : (s : Texto) (xs : List ℕ) → tiene 0 s ≡ false → cadena (s ++ 0 ∷ xs) ≡ s
unfolding tiene
cadena-append [] xs h = refl
cadena-append (c ∷ s) xs h = elim (Bool-cases (c == 0)) [
  | inl e ↦ absurd (ground arith)
  | inr e ↦ rw (e) (ap (◌∷◌ c) (cadena-append s xs (ground arith)))
]

length-plano :
    (v : List ℕ) (vs : List (List ℕ)) → length (plano (v ∷ vs)) ≡ 4 + (length v + length (plano vs))
length-plano v vs = omega (arith, length-append v (plano vs))

leer_int-le4_nil : (n : ℕ) → n < 4294967296 → leer_int (le4 n) ≡ some (n, [])
unfolding leer_int
leer_int-le4_nil n h = ap (λ (m : ℕ). some (m, [])) (omega arith)

con_worker-some {ℓ} :
    {B : Type ℓ} (s : Sistema) (sock i : ℕ) (w : Worker) (z : B) (k : ℕ → Worker → B)
    → buscar_worker_por_socket s.master.workers sock ≡ some i
    → get_elem? s.master.workers i ≡ some w
    → con_worker s sock z k ≡ k i w
con_worker-some s sock i w z k e f = rw (e, con_worker) (rw (f) refl)

-- The text of a read that the Master makes of its three fields.
leer_lectura-campos_de :
    (nombre : Texto) (datos : List ℕ)
    → tiene 0 nombre ≡ false
    → length datos < 2 ^ 31
    → leer_lectura (campos_de (op_resp_read_ok nombre (length datos) (some datos)))
      ≡ some (codes "Archivo " ++ (nombre ++ (codes ", contenido: " ++ cadena datos)))
unfolding leer_lectura
leer_lectura-campos_de nombre datos n h =
    let cabe : es_negativo (length datos) ≡ false = ground arith in
    rw (leer_int-le4_nil (length datos) (omega arith), leer_lectura) (rw (cabe) (ap some texto))
  where
    texto :
        mensaje_lectura (cadena (nombre ++ 0 ∷ [])) (length datos) datos
        ≡ codes "Archivo " ++ (nombre ++ (codes ", contenido: " ++ cadena datos))
    texto =
        ap (λ (x : Texto). mensaje_lectura x (length datos) datos) (cadena-append nombre [] n)
        ∙ ap (λ (x : List ℕ). codes "Archivo " ++ (nombre ++ (codes ", contenido: " ++ cadena x)))
            (take_of_length-le (length datos) datos (omega arith))

module _ (s : Sistema) (sock i : ℕ) (w : Worker) (q : ℕ)
    (esta : buscar_worker_por_socket s.master.workers sock ≡ some i)
    (es : get_elem? s.master.workers i ≡ some w) (corre : w.ejecutando ≡ some q) where
  llega_lectura :
      (nombre : Texto) (datos : List ℕ)
      → tiene 0 nombre ≡ false
      → length datos < 2 ^ 31
      → atender_read_ok s sock (campos_de (op_resp_read_ok nombre (length datos) (some datos)))
        ≡ record s {
          avisos =
              s.avisos
              ++ (
                (s.master.query q).socket_query,
                op_mensaje
                    (codes "Archivo " ++ (nombre ++ (codes ", contenido: " ++ cadena datos))),
              )
                ∷ [];
        }
  unfolding atender_read_ok
  llega_lectura nombre datos n h =
      rw (esta, atender_read_ok, con_worker)
        (rw (es) (rw (corre) (rw (leer_lectura-campos_de nombre datos n h) refl)))

  llega_vacia :
      (nombre : Texto) → atender_read_ok s sock (campos_de (op_resp_read_ok nombre 0 none)) ≡ s
  unfolding atender_read_ok leer_lectura
  llega_vacia nombre = rw (esta, atender_read_ok, con_worker) (rw (es) (rw (corre) refl))

  llega_fin :
      (hay_paquete : Bool)
      → (s.master.query q).qid < 2 ^ 32
      → atender_fin_query s sock (campos_de (op_fin_query (s.master.query q).qid)) hay_paquete
        ≡ enviar_fin_query
            (con_master s (registrar_worker_libre s.master i))
            q
            (codes "Finalizada OK")
            hay_paquete
  unfolding atender_fin_query
  llega_fin hay_paquete h =
      let mismo : ((s.master.query q).qid == (s.master.query q).qid) ≡ true = ground arith in
      rw (esta, atender_fin_query, con_worker)
        (rw (es) (
          rw (corre)
            (rw (leer_int-le4_nil (s.master.query q).qid (omega arith)) (rw (mismo) refl))))

  -- A READ from the Worker to the Query Control: what the Worker puts in the socket is read by the Master as
  -- the same message, with nothing taken of what follows, and goes to the socket of the query that the Worker
  -- runs as a text with the name and the bytes up to the first zero. The name is a C string and the two are
  -- less than 2 ^ 30 bytes. The answer of a READ of no bytes is read too, but nothing goes to the Query
  -- Control.
  pub atender_read_ok-serializar_paquete :
      (nombre : Texto) (datos resto : List ℕ)
      → tiene 0 nombre ≡ false
      → length nombre + length datos < 2 ^ 30
      → let m = op_resp_read_ok nombre (length datos) (some datos) in
        let vacia = op_resp_read_ok nombre 0 none in
        (bytes : List ℕ) × (bytes' : List ℕ) × (recibir_operacion
            (serializar_paquete (armar (op_de m) (campos_de m)) ++ resto)
          ≡ some (op_de m, bytes))
        × (recibir_paquete bytes ≡ some (campos_de m, resto))
        × (atender_read_ok s sock (campos_de m) ≡ record s {
          avisos =
              s.avisos
              ++ (
                (s.master.query q).socket_query,
                op_mensaje
                    (codes "Archivo " ++ (nombre ++ (codes ", contenido: " ++ cadena datos))),
              )
                ∷ [];
        })
        × (recibir_operacion (serializar_paquete (armar (op_de vacia) (campos_de vacia)) ++ resto)
            ≡ some (op_de vacia, bytes'))
        × (recibir_paquete bytes' ≡ some (campos_de vacia, resto))
        × (atender_read_ok s sock (campos_de vacia) ≡ s)
  atender_read_ok-serializar_paquete nombre datos resto n h =
      let (bytes, op, lee) =
        recibir_paquete-serializar_paquete 1020
          (campos_de (op_resp_read_ok nombre (length datos) (some datos))) resto (omega arith)
          (omega (arith, mide_nombre, mide)) in
      let (bytes', op', lee') =
        recibir_paquete-serializar_paquete 1020 (campos_de (op_resp_read_ok nombre 0 none)) resto
          (omega arith) (omega (arith, mide_nombre, mide')) in
      (
        bytes,
        bytes',
        op,
        lee,
        llega_lectura nombre datos n (omega arith),
        op',
        lee',
        llega_vacia nombre,
      )
    where
      mide_nombre : length (nombre ++ 0 ∷ []) ≡ length nombre + 1
      mide_nombre = length-append nombre (0 ∷ [])

      mide :
          length (plano (campos_de (op_resp_read_ok nombre (length datos) (some datos))))
          ≡ 16 + length (nombre ++ 0 ∷ []) + length datos
      mide =
          let a = length-plano (nombre ++ 0 ∷ []) (le4 (length datos) ∷ datos ∷ []) in
          let b = length-plano (le4 (length datos)) (datos ∷ []) in
          let z = length-plano datos [] in omega arith

      mide' :
          length (plano (campos_de (op_resp_read_ok nombre 0 none)))
          ≡ 12 + length (nombre ++ 0 ∷ [])
      mide' = length-plano (nombre ++ 0 ∷ []) (le4 0 ∷ []) ∙ omega arith
