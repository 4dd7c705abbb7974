-- ===== src/Worker/Paginas/Acceso.antt =====
-- worker/src/memoria_Interna.c: `acceder_memoria`, the loop that reads and writes bytes across pages.
use master_of_files.Base.{
  ℕ, zero, suc, ◌+◌, ◌-◌, ◌*◌, ◌^◌, ◌≤◌, ◌<◌, ◌≡◌, refl, inl, inr, Bool, true, false, Option, some,
  List, [], drop, ◌++◌, length, arith, sym, ◌∙◌, ap, length-drop, append_assoc, append-nil,
  Option-cases,
}
use master_of_files.Base.Texto.{Texto, tiene}
use master_of_files.Utils.Protocolo.{Conexion, Rc, cero, menos_uno}
use master_of_files.Worker.Memoria.{Memoria}
use master_of_files.Worker.Paginas.{acceder_desde, acceder_memoria}
use master_of_files.Worker.Paginas.Vista.{PageStore, vista, Coherente}
use master_of_files.Worker.Paginas.Descarga.{Invisible, Invisible-trans}
use master_of_files.Worker.Paginas.Octetos.{
  Escrito, Leido, Escrito-nil, Escrito-append, Leido-append,
}
use master_of_files.Worker.Paginas.Ronda.{
  trozo, ronda, traida, copiada, fallo, sigue, trae_lem, escribe_ronda, lee_ronda,
}

module _ {c : Conexion} {tam : ℕ} (w : PageStore c tam) (file tag : Texto) where
  open c use {State}

  -- What a call that writes leaves: a prefix of the input is written, all of it on success, and
  -- nothing else changes.
  abbrev pub Escribe :
      Memoria State → ℕ → ℕ → List ℕ → Option (Rc × List ℕ × Memoria State) → Type 0
  Escribe r dir size entrada o =
      (rc : Rc) × (salida : List ℕ) × (r' : Memoria State) × (hecho : ℕ) × (o
        ≡ some (rc, salida, r'))
      × Coherente w r'
      × (hecho ≤ size)
      × (rc ≡ cero → hecho ≡ size)
      × Escrito tam (vista w r) (vista w r') file tag dir hecho entrada

  -- What a call that reads leaves: a prefix of the bytes, all of them on success, and no change that
  -- a program sees.
  abbrev pub Lee : Memoria State → ℕ → ℕ → List ℕ → Option (Rc × List ℕ × Memoria State) → Type 0
  Lee r dir size salida o =
      (rc : Rc) × (datos : List ℕ) × (r' : Memoria State) × (hecho : ℕ) × (o
        ≡ some (rc, salida ++ datos, r'))
      × Invisible w r r'
      × (hecho ≤ size)
      × (rc ≡ cero → hecho ≡ size)
      × Leido tam (vista w r) file tag dir hecho datos

module _ {c : Conexion} {tam : ℕ} (w : PageStore c tam) (tiempo : ℕ → ℕ) (file tag : Texto)
    (pos : 0 < tam) (nombre : tiene b':' file ≡ false) where
  open c use {State}

  acceder_desde_nil :
      (fuel : ℕ) (r : Memoria State) (dir : ℕ) (escribir : Bool) (entrada salida : List ℕ)
      → acceder_desde c tiempo fuel r file tag dir 0 escribir entrada salida
        ≡ some (cero, salida, r)
  unfolding acceder_desde
  acceder_desde_nil zero r dir escribir entrada salida = refl
  acceder_desde_nil (suc fuel) r dir escribir entrada salida = refl

  desde-Escribe :
      (fuel : ℕ) (r : Memoria State) (dir n : ℕ) (entrada salida : List ℕ)
      → Coherente w r
      → n ≤ fuel
      → dir + n ≤ tam * 2 ^ 32
      → dir + n ≤ 2 ^ 64
      → n ≤ length entrada
      → Escribe w file tag r dir n entrada
          (acceder_desde c tiempo fuel r file tag dir n true entrada salida)
  desde-Escribe fuel r dir zero entrada salida v lf small small' full = (
    cero,
    salida,
    r,
    0,
    acceder_desde_nil fuel r dir true entrada salida,
    v,
    omega arith,
    λ e. refl,
    Escrito-nil tam pos file tag (vista w r) (vista w r) dir entrada (λ k. refl),
  )
  desde-Escribe zero r dir (suc n) entrada salida v lf small small' full = absurd (omega arith)
  desde-Escribe (suc fuel) r dir (suc n) entrada salida v lf small small' full =
      let t = trozo r.page_size dir (suc n) in
      let paso =
        ronda w tiempo file tag pos nombre fuel r dir n entrada salida v (omega arith)
          (omega arith) in
      let avanza : 0 < t = paso.avanza in
      let cabe : t ≤ suc n = paso.cabe in
      elim (Option-cases (traida w tiempo file tag pos nombre fuel r dir n entrada salida).0) [
        | inl e ↦
            let (seen, has) =
              trae_lem w tiempo file tag pos nombre fuel r dir n entrada salida v (omega arith)
                (omega arith) in
            (
              menos_uno,
              salida,
              _,
              0,
              fallo w tiempo file tag pos nombre fuel r dir n entrada salida true e,
              seen.0,
              omega arith,
              λ q. absurd (cc q),
              Escrito-nil tam pos file tag _ _ dir entrada seen.1,
            )
        | inr (i, e) ↦
            let (v', one) =
              escribe_ronda w tiempo file tag pos nombre fuel r dir n entrada salida v (omega arith)
                (omega arith) i e (omega arith) in
            let (rc, out, r', hecho, q, v'', le, done, rest) =
              desde-Escribe fuel
                (copiada w tiempo file tag pos nombre fuel r dir n entrada salida i true).0
                (dir + t) (suc n - t) (drop t entrada) _ v' (omega arith) (omega arith)
                (omega arith) (omega (arith, length-drop t entrada)) in
            (
              rc,
              out,
              r',
              t + hecho,
              sigue w tiempo file tag pos nombre fuel r dir n entrada salida true i e ∙ q,
              v'',
              omega arith,
              λ z. let d = done z in omega arith,
              Escrito-append tam pos file tag _ _ _ dir t hecho entrada one rest,
            )
      ]

  desde-Lee :
      (fuel : ℕ) (r : Memoria State) (dir n : ℕ) (entrada salida : List ℕ)
      → Coherente w r
      → n ≤ fuel
      → dir + n ≤ tam * 2 ^ 32
      → dir + n ≤ 2 ^ 64
      → Lee w file tag r dir n salida
          (acceder_desde c tiempo fuel r file tag dir n false entrada salida)
  desde-Lee fuel r dir zero entrada salida v lf small small' = (
    cero,
    [],
    r,
    0,
    acceder_desde_nil fuel r dir false entrada salida
        ∙ ap (λ (s : List ℕ). some (cero, s, r)) (sym (append-nil salida)),
    (v, λ k. refl),
    omega arith,
    λ e. refl,
    (refl, λ j h. absurd (omega arith)),
  )
  desde-Lee zero r dir (suc n) entrada salida v lf small small' = absurd (omega arith)
  desde-Lee (suc fuel) r dir (suc n) entrada salida v lf small small' =
      let t = trozo r.page_size dir (suc n) in
      let paso =
        ronda w tiempo file tag pos nombre fuel r dir n entrada salida v (omega arith)
          (omega arith) in
      let avanza : 0 < t = paso.avanza in
      let cabe : t ≤ suc n = paso.cabe in
      elim (Option-cases (traida w tiempo file tag pos nombre fuel r dir n entrada salida).0) [
        | inl e ↦
            let (seen, has) =
              trae_lem w tiempo file tag pos nombre fuel r dir n entrada salida v (omega arith)
                (omega arith) in
            (
              menos_uno,
              [],
              _,
              0,
              fallo w tiempo file tag pos nombre fuel r dir n entrada salida false e
                  ∙ ap
                      (λ (s : List ℕ). some (
                        menos_uno,
                        s,
                        (traida w tiempo file tag pos nombre fuel r dir n entrada salida).1,
                      ))
                      (sym (append-nil salida)),
              seen,
              omega arith,
              λ q. absurd (cc q),
              (refl, λ j h. absurd (omega arith)),
            )
        | inr (i, e) ↦
            let (seen, one) =
              lee_ronda w tiempo file tag pos nombre fuel r dir n entrada salida v (omega arith)
                (omega arith) i e in
            let r2 = (copiada w tiempo file tag pos nombre fuel r dir n entrada salida i false).0 in
            let xs = (copiada w tiempo file tag pos nombre fuel r dir n entrada salida i false).1 in
            let (rc, ys, r', hecho, q, seen', le, done, rest) =
              desde-Lee fuel r2 (dir + t) (suc n - t) (drop t entrada) (salida ++ xs) seen.0
                (omega arith) (omega arith) (omega arith) in
            (
              rc,
              xs ++ ys,
              r',
              t + hecho,
              sigue w tiempo file tag pos nombre fuel r dir n entrada salida false i e
                  ∙ q
                  ∙ ap (λ (s : List ℕ). some (rc, s, r')) (append_assoc salida xs ys),
              Invisible-trans w r r2 r' seen seen',
              omega arith,
              λ z. let d = done z in omega arith,
              Leido-append tam pos file tag (vista w r) (vista w r2) dir t hecho xs ys seen.1 one
                  rest,
            )
      ]

  -- A write by bytes at an address, within the words of the machine, always ends. It keeps the
  -- invariant and writes a prefix of the input to the addresses from `base` on, the whole of it where
  -- it returns 0, whatever the page faults and the replies of Storage; no other byte of any page
  -- that a program sees changes.
  pub acceder_memoria-Escribe :
      (r : Memoria State) (base size : ℕ) (entrada : List ℕ)
      → Coherente w r
      → base + size ≤ tam * 2 ^ 32
      → base + size ≤ 2 ^ 64
      → size ≤ length entrada
      → Escribe w file tag r base size entrada
          (acceder_memoria c tiempo r file tag base size true entrada)
  unfolding acceder_memoria
  acceder_memoria-Escribe r base size entrada v small small' full =
      desde-Escribe size r base size entrada [] v (omega arith) small small' full

  -- A read by bytes at an address, within the words of the machine, always ends. It changes no page
  -- that a program sees, keeps the invariant, and gives a prefix of the bytes at the addresses from
  -- `base` on, all of them where it returns 0.
  pub acceder_memoria-Lee :
      (r : Memoria State) (base size : ℕ) (entrada : List ℕ)
      → Coherente w r
      → base + size ≤ tam * 2 ^ 32
      → base + size ≤ 2 ^ 64
      → Lee w file tag r base size [] (acceder_memoria c tiempo r file tag base size false entrada)
  unfolding acceder_memoria
  acceder_memoria-Lee r base size entrada v small small' =
      desde-Lee size r base size entrada [] v (omega arith) small small'
