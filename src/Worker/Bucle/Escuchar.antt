-- ===== src/Worker/Bucle/Escuchar.antt =====
-- worker/src/worker.c: the main loop, and its table of paths.
use master_of_files.Base.{
  ℕ, ◌%◌, ◌^◌, ◌≡◌, ◌≢◌, refl, inl, inr, Bool, true, false, Option, none, some, List, [], ◌∷◌, ◌++◌,
  ◌==◌, arith, ◌∙◌, ap, Bool-cases, Option-cases, append-nil,
}
use master_of_files.Base.Texto.{Texto}
use master_of_files.Utils.Protocolo.{Conexion}
use master_of_files.Master.Rutas.{generar_path_query}
use master_of_files.Worker.Bucle.{
  Estado, add_path_for_qid, get_path_for_qid, remove_path_for_qid, empezar, procesar_query, Orden,
  op_enviar_path, op_query_desconectada, op_desalojar_query, op_reanudar_query, otra, atender,
  escuchar,
}
use master_of_files.Worker.Bucle.Desalojo.{desalojos, procesar_query_sin}

module _ (c : Conexion) (tiempo : ℕ → ℕ) (malloc : ℕ → Bool) (pila : Bool)
    (abrir : Texto → Option (List Texto)) (path_queries : Texto) where
  open c use {State}

  atender_sin :
      (s s' : Estado State) (o : Orden)
      → atender c tiempo malloc pila abrir path_queries s o ≡ some s'
      → desalojos s'.a_master ≡ desalojos s.a_master
  unfolding atender
  atender_sin s s' (op_enviar_path q pc nombre) h =
      elim (Option-cases (generar_path_query path_queries nombre)) [
        | inl e ↦ absurd (cc (rw (e, atender) at h))
        | inr (path, e) ↦
            procesar_query_sin c tiempo malloc pila _ s' (abrir path) q (pc % 2 ^ 64) refl refl
              (omega arith) (rw (e, atender) at h)
      ]
  atender_sin s s' (op_query_desconectada q) h =
      let fin : record s { query_cancelada = true } ≡ s' = cc h in rw (← fin) refl
  atender_sin s s' (op_desalojar_query q) h =
      let fin : record s { desalojado = true } ≡ s' = cc h in rw (← fin) refl
  atender_sin s s' (op_reanudar_query q pc) h =
      elim (Option-cases (get_path_for_qid s.lista_query_paths q)) [
        | inl e ↦ let fin : s ≡ s' = cc (rw (e, atender) at h) in rw (← fin) refl
        | inr (path, e) ↦
            let corre =
              procesar_query c tiempo malloc pila (empezar c tiempo malloc pila s pc) (abrir path) q
                (pc % 2 ^ 64) in
            elim (Option-cases corre) [
              | inl f ↦ absurd (cc (rw f at (rw (e, atender) at h)))
              | inr (t, f) ↦
                  let fin : record t {
                    lista_query_paths = remove_path_for_qid t.lista_query_paths q;
                  }
                      ≡ s' =
                    cc (rw f at (rw (e, atender) at h)) in
                  rw (← fin) (
                    procesar_query_sin c tiempo malloc pila _ t (abrir path) q (pc % 2 ^ 64) refl
                      refl (omega arith) f)
            ]
      ]
  atender_sin s s' otra h = let fin : s ≡ s' = cc h in rw (← fin) refl

  -- Whatever the Master sends, and in whatever order, a Worker never answers that a query was paused: it
  -- reads a message only between two queries, and clears the request of a pause when it starts one.
  pub escuchar-desalojos :
      (os : List Orden) (s s' : Estado State)
      → escuchar c tiempo malloc pila abrir path_queries os s ≡ some s'
      → desalojos s'.a_master ≡ desalojos s.a_master
  unfolding escuchar
  escuchar-desalojos [] s s' h = let fin : s ≡ s' = cc h in rw (← fin) refl
  escuchar-desalojos (o ∷ os) s s' h =
      elim (Option-cases (atender c tiempo malloc pila abrir path_queries s o)) [
        | inl e ↦ absurd (cc (rw (e, escuchar) at h))
        | inr (t, e) ↦ escuchar-desalojos os t s' (rw (e, escuchar) at h) ∙ atender_sin s t o e
      ]

get_path_for_qid-append :
    (paths qs : List (ℕ × Texto)) (qid : ℕ)
    → get_path_for_qid paths qid ≡ none
    → get_path_for_qid (paths ++ qs) qid ≡ get_path_for_qid qs qid
unfolding get_path_for_qid
get_path_for_qid-append [] qs qid h = refl
get_path_for_qid-append ((q, p) ∷ paths) qs qid h = elim (Bool-cases (q == qid)) [
  | inl e ↦ absurd (cc (rw e at h))
  | inr e ↦ rw (e) (get_path_for_qid-append paths qs qid (rw e at h))
]

get_path_for_qid-add_ne :
    (paths : List (ℕ × Texto)) (qid otro : ℕ) (path : Texto)
    → qid ≢ otro
    → get_path_for_qid (add_path_for_qid paths qid path) otro ≡ get_path_for_qid paths otro
unfolding get_path_for_qid add_path_for_qid
get_path_for_qid-add_ne [] qid otro path n =
    let e : (qid == otro) ≡ false = ground arith in rw (e) refl
get_path_for_qid-add_ne ((q, p) ∷ paths) qid otro path n = elim (Bool-cases (q == otro)) [
  | inl e ↦ rw (e) refl
  | inr e ↦ rw (e) (get_path_for_qid-add_ne paths qid otro path n)
]

remove_path_for_qid-append :
    (paths qs : List (ℕ × Texto)) (qid : ℕ)
    → get_path_for_qid paths qid ≡ none
    → remove_path_for_qid (paths ++ qs) qid ≡ paths ++ remove_path_for_qid qs qid
unfolding get_path_for_qid remove_path_for_qid
remove_path_for_qid-append [] qs qid h = refl
remove_path_for_qid-append ((q, p) ∷ paths) qs qid h = elim (Bool-cases (q == qid)) [
  | inl e ↦ absurd (cc (rw e at h))
  | inr e ↦ rw (e) (ap (◌∷◌ (q, p)) (remove_path_for_qid-append paths qs qid (rw e at h)))
]

-- The path of a query that has none is found once it is added, the other queries' paths are found as
-- before, and removing it gives the table as it was.
add_path_for_qid_lem :
    (paths : List (ℕ × Texto)) (qid : ℕ) (path : Texto)
    → get_path_for_qid paths qid ≡ none
    → (get_path_for_qid (add_path_for_qid paths qid path) qid ≡ some path)
      × ((otro : ℕ)
          → qid ≢ otro
          → get_path_for_qid (add_path_for_qid paths qid path) otro ≡ get_path_for_qid paths otro)
      × (remove_path_for_qid (add_path_for_qid paths qid path) qid ≡ paths)
unfolding add_path_for_qid get_path_for_qid remove_path_for_qid
add_path_for_qid_lem paths qid path h = (
  get_path_for_qid-append paths ((qid, path) ∷ []) qid h ∙ uno,
  λ otro n. get_path_for_qid-add_ne paths qid otro path n,
  remove_path_for_qid-append paths ((qid, path) ∷ []) qid h
      ∙ ap (λ qs. paths ++ qs) saca
      ∙ append-nil paths,
)
  where
    mismo : (qid == qid) ≡ true
    mismo = ground arith

    uno : get_path_for_qid ((qid, path) ∷ []) qid ≡ some path
    uno = rw (mismo, get_path_for_qid) refl

    saca : remove_path_for_qid ((qid, path) ∷ []) qid ≡ []
    saca = rw (mismo, remove_path_for_qid) refl
