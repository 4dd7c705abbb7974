-- ===== src/Storage/Contadores/Confirmar.antt =====
-- storage/src/operaciones_storage.c: COMMIT keeps the counters of the physical blocks.
use master_of_files.Base.{
  ℕ, ◌+◌, ◌≡◌, refl, inl, inr, some, List, [], ◌∷◌, modify, arith, sym, ◌∙◌, ap, subst, Bool-cases,
  Option-cases,
}
use master_of_files.Base.Int.{ℤ}
use master_of_files.Base.Texto.{Texto, texto_eq}
use master_of_files.Storage.Datos.{
  BlockLogico, Tag, Storage, Ruta, tag_en, modify_tag, buscar_index_tag, buscar_index_block_fisico,
  restar_asociado, link, unlink,
}
use master_of_files.Storage.Operaciones.{con_tag, queda_libre}
use master_of_files.Storage.Bloques.{
  Config, Disco, get_contenido, hash_de, soltar_viejo, enlazar_nuevo, reasignar_bloque_logico,
  procesar_bloque_commit, procesar_bloques, cerrar, con_bloques, operacion_commit_tag,
}
use master_of_files.Storage.Contadores.{
  es, refs_bls, refs, refs-modify_tag, Cuenta, Cuenta-same, Cuenta-restar,
  buscar_index_block_fisico_sound, buscar_index_block_fisico-none,
}
use master_of_files.Storage.Contadores.Agrandar.{Contado, Link-cases, tag_en-modify_tag}
use master_of_files.Storage.Contadores.Etiquetar.{sumar_en-Cuenta}
use master_of_files.Storage.Contadores.Truncar.{Estado-cases}

enlazar_nuevo_keeps :
    (s : Storage) (r : Ruta) (nuevo : Texto)
    → ((enlazar_nuevo s r nuevo).lista_bloques_fisicos ≡ s.lista_bloques_fisicos)
      × ((enlazar_nuevo s r nuevo).lista_files ≡ s.lista_files)
enlazar_nuevo_keeps s r nuevo = elim (Link-cases (link s nuevo r)) [
  | inl e ↦ rw (e, enlazar_nuevo) (refl, refl)
  | inr (inl e) ↦ rw (e, enlazar_nuevo) (refl, refl)
  | inr (inr (ls, e)) ↦ rw (e, enlazar_nuevo) (refl, refl)
]

soltar_viejo-Cuenta :
    (s : Storage) (viejo : Texto) (n n1 : Texto → ℕ)
    → Cuenta s.lista_bloques_fisicos n
    → ((name : Texto) → n name ≡ n1 name + es viejo name)
    → Cuenta (soltar_viejo s viejo).lista_bloques_fisicos n1
      × ((soltar_viejo s viejo).lista_files ≡ s.lista_files)
soltar_viejo-Cuenta s viejo n n1 v h =
    elim (Option-cases (buscar_index_block_fisico s.lista_bloques_fisicos viejo)) [
      | inl e ↦
          rw (e, soltar_viejo)
            (
              Cuenta-same s.lista_bloques_fisicos n n1 v (λ i b at.
                  let z = buscar_index_block_fisico-none s.lista_bloques_fisicos viejo i b e at in
                  omega (arith, h b.path_block)),
              refl,
            )
      | inr (i, e) ↦
          let (b, at, q) = buscar_index_block_fisico_sound s.lista_bloques_fisicos viejo i e in
          let w : Cuenta (modify s.lista_bloques_fisicos i restar_asociado) n1 =
            Cuenta-restar s.lista_bloques_fisicos n n1 i b v at (λ name. h name ∙ rw q refl) in
          elim (Bool-cases (queda_libre (modify s.lista_bloques_fisicos i restar_asociado) i)) [
            | inl f ↦ rw (e, soltar_viejo) (rw (f) (w, refl))
            | inr f ↦ rw (e, soltar_viejo) (rw (f) (w, refl))
          ]
    ]

reasignar_bloque_logico-Cuenta :
    (s : Storage) (file tag : Texto) (bl : BlockLogico) (nuevo viejo : Texto) (n n1 : Texto → ℕ)
    → Cuenta s.lista_bloques_fisicos n
    → ((name : Texto) → n name ≡ n1 name + es viejo name)
    → let s' = (reasignar_bloque_logico s file tag bl nuevo viejo).1 in
      Cuenta s'.lista_bloques_fisicos (λ name. n1 name + es nuevo name)
      × (s'.lista_files ≡ s.lista_files)
unfolding reasignar_bloque_logico
reasignar_bloque_logico-Cuenta s file tag bl nuevo viejo n n1 v h =
    let r : Ruta = (file, tag, bl.nombre_block) in
    let s0 : Storage = record s { enlaces = unlink s.enlaces r } in
    let (bfs, files) = enlazar_nuevo_keeps s0 r nuevo in
    let (w, keep) =
      soltar_viejo-Cuenta (enlazar_nuevo s0 r nuevo) viejo n n1
        (subst (λ x. Cuenta x n) (sym bfs) v) h in
    (
      sumar_en-Cuenta (soltar_viejo (enlazar_nuevo s0 r nuevo) viejo).lista_bloques_fisicos n1 nuevo
          w,
      keep ∙ files,
    )

module _ (c : Config) (md5 : List ℕ → Texto) where
  open c use {State, config_has_property, config_get_string_value, config_set_value}

  procesar_bloque_commit-Cuenta :
      (d d' : Disco State) (file tag : Texto) (bl bl' : BlockLogico) (n n1 : Texto → ℕ)
      → Cuenta d.storage.lista_bloques_fisicos n
      → ((name : Texto) → n name ≡ n1 name + es bl.bloque_fisico_asociado name)
      → procesar_bloque_commit c md5 d file tag bl ≡ some (bl', d')
      → Cuenta d'.storage.lista_bloques_fisicos
          (λ name. n1 name + es bl'.bloque_fisico_asociado name)
        × (d'.storage.lista_files ≡ d.storage.lista_files)
  unfolding procesar_bloque_commit reasignar_bloque_logico
  procesar_bloque_commit-Cuenta d d' file tag bl bl' n n1 v h e =
      elim (Option-cases (get_contenido d.storage (file, tag, bl.nombre_block))) [
        | inl f ↦ absurd (cc (rw (f, procesar_bloque_commit) at e))
        | inr (contenido, f) ↦
            let hash = hash_de c md5 contenido in
            let existente = config_get_string_value d.hash_index hash in
            elim (Bool-cases (config_has_property d.hash_index hash)) [
              | inr g ↦ llega _ (igual, refl) (rw (g) at (rw (f, procesar_bloque_commit) at e))
              | inl g ↦ elim (Bool-cases (texto_eq existente bl.bloque_fisico_asociado)) [
                | inl k ↦
                    llega _ (igual, refl)
                      (rw (k) at (rw (g) at (rw (f, procesar_bloque_commit) at e)))
                | inr k ↦
                    llega _
                      (reasignar_bloque_logico-Cuenta d.storage file tag bl existente
                        bl.bloque_fisico_asociado n n1 v h)
                      (rw (k) at (rw (g) at (rw (f, procesar_bloque_commit) at e)))
              ]
            ]
      ]
    where
      Bien : BlockLogico × Disco State → Type 0
      Bien x =
          Cuenta x.1.storage.lista_bloques_fisicos
            (λ name. n1 name + es x.0.bloque_fisico_asociado name)
          × (x.1.storage.lista_files ≡ d.storage.lista_files)

      llega : (x : BlockLogico × Disco State) → Bien x → some x ≡ some (bl', d') → Bien (bl', d')
      llega x w q = let q' : x ≡ (bl', d') = cc q in subst Bien q' w

      igual :
          Cuenta d.storage.lista_bloques_fisicos
            (λ name. n1 name + es bl.bloque_fisico_asociado name)
      igual = Cuenta-same d.storage.lista_bloques_fisicos n _ v (λ i b at. sym (h b.path_block))

  procesar_bloques-Cuenta :
      (bls bls' : List BlockLogico) (d d' : Disco State) (file tag : Texto) (n m : Texto → ℕ)
      → Cuenta d.storage.lista_bloques_fisicos n
      → ((name : Texto) → n name ≡ m name + refs_bls name bls)
      → procesar_bloques c md5 bls d file tag ≡ some (bls', d')
      → Cuenta d'.storage.lista_bloques_fisicos (λ name. m name + refs_bls name bls')
        × (d'.storage.lista_files ≡ d.storage.lista_files)
  unfolding procesar_bloques
  procesar_bloques-Cuenta [] bls' d d' file tag n m v h e =
      let nada : [] ≡ bls' = cc e in
      let igual : d ≡ d' = cc e in
      (
        subst
            (λ (x : Disco State).
              Cuenta x.storage.lista_bloques_fisicos (λ name. m name + refs_bls name bls'))
            igual
            (subst
              (λ (xs : List BlockLogico).
                Cuenta d.storage.lista_bloques_fisicos (λ name. m name + refs_bls name xs))
              nada
              (Cuenta-same d.storage.lista_bloques_fisicos n _ v (λ i b at. sym (h b.path_block)))),
        ap (λ (x : Disco State). x.storage.lista_files) (sym igual),
      )
  procesar_bloques-Cuenta (bl ∷ bls) bls' d d' file tag n m v h e =
      elim (Option-cases (procesar_bloque_commit c md5 d file tag bl)) [
        | inl f ↦ absurd (cc (rw (f, procesar_bloques) at e))
        | inr ((x, d1), f) ↦ elim (Option-cases (procesar_bloques c md5 bls d1 file tag)) [
          | inl g ↦ absurd (cc (rw (g) at (rw (f, procesar_bloques) at e)))
          | inr ((xs, d2), g) ↦
              let (w, keep) =
                procesar_bloque_commit-Cuenta d d1 file tag bl x n
                  (λ name. m name + refs_bls name bls) v (λ name. omega (arith, h name)) f in
              let (w', keep') =
                procesar_bloques-Cuenta bls xs d1 d2 file tag _
                  (λ name. m name + es x.bloque_fisico_asociado name) w (λ name. omega arith) g in
              let cuenta : Cuenta d2.storage.lista_bloques_fisicos
                  (λ name. m name + refs_bls name (x ∷ xs)) =
                Cuenta-same d2.storage.lista_bloques_fisicos _ _ w' (λ i b at. omega arith) in
              let fin : some (x ∷ xs, d2) ≡ some (bls', d') =
                rw (g) at (rw (f, procesar_bloques) at e) in
              let lista : x ∷ xs ≡ bls' = cc fin in
              let igual : d2 ≡ d' = cc fin in
              (
                subst
                    (λ (z : Disco State).
                      Cuenta z.storage.lista_bloques_fisicos (λ name. m name + refs_bls name bls'))
                    igual
                    (subst
                      (λ (ys : List BlockLogico).
                        Cuenta d2.storage.lista_bloques_fisicos (λ name. m name + refs_bls name ys))
                      lista cuenta),
                ap (λ (z : Disco State). z.storage.lista_files) (sym igual) ∙ keep' ∙ keep,
              )
        ]
      ]

  -- COMMIT keeps the counters: where each physical block counts the logical blocks of all files under its
  -- name before it, it does so after, on every branch that returns, whatever the hash index holds and
  -- whichever blocks it joins.
  pub operacion_commit_tag-Contado :
      (d d' : Disco State) (file tag : Texto) (rc : ℤ)
      → Contado d.storage
      → operacion_commit_tag c md5 d file tag ≡ some (rc, d')
      → Contado d'.storage
  unfolding operacion_commit_tag
  operacion_commit_tag-Contado d d' file tag rc v e =
      elim (Option-cases (buscar_index_tag d.storage.lista_files file tag)) [
        | inl f ↦ let q : d ≡ d' = cc (rw (f, operacion_commit_tag) at e) in rw⁻¹ q v
        | inr (p, f) ↦ elim (Option-cases (tag_en d.storage.lista_files p.0 p.1)) [
          | inl g ↦ let q : d ≡ d' = cc (rw (g) at (rw (f, operacion_commit_tag) at e)) in rw⁻¹ q v
          | inr (t, g) ↦ elim (Estado-cases t.metadata.estado) [
            | inr cerrado ↦
                let q : d ≡ d' =
                  cc (rw (cerrado) at (rw (g) at (rw (f, operacion_commit_tag) at e))) in
                rw⁻¹ q v
            | inl abierto ↦
                let d1 : Disco State = record d { storage = con_tag d.storage p cerrar } in
                elim (Option-cases (procesar_bloques c md5 t.lista_block_logicos d1 file tag)) [
                  | inl k ↦ absurd (
                      cc (
                        rw (k) at
                          (rw (abierto) at (rw (g) at (rw (f, operacion_commit_tag) at e)))))
                  | inr ((bls, d2), k) ↦
                      let q : record d2 { storage = con_tag d2.storage p (con_bloques bls) } ≡ d' =
                        cc (
                          rw (k) at
                            (rw (abierto) at (rw (g) at (rw (f, operacion_commit_tag) at e)))) in
                      rw⁻¹ q (cerrado_bien d d2 file tag p t bls v g k)
                ]
          ]
        ]
      ]
    where
      cerrado_bien :
          (d d2 : Disco State) (file tag : Texto) (p : ℕ × ℕ) (t : Tag) (bls : List BlockLogico)
          → Contado d.storage
          → tag_en d.storage.lista_files p.0 p.1 ≡ some t
          → procesar_bloques c md5 t.lista_block_logicos
              (record d { storage = con_tag d.storage p cerrar })
              file
              tag
            ≡ some (bls, d2)
          → Contado (con_tag d2.storage p (con_bloques bls))
      cerrado_bien d d2 file tag p t bls v g k =
          let files = d.storage.lista_files in
          let resto : Texto → ℕ = λ name. refs name (modify_tag files p.0 p.1 (con_bloques [])) in
          let (w, keep) =
            procesar_bloques-Cuenta t.lista_block_logicos bls
              (record d { storage = con_tag d.storage p cerrar }) d2 file tag
              (λ name. refs name files) resto v
              (λ name. omega (arith, refs-modify_tag name files p.0 p.1 (con_bloques []) t g)) k in
          Cuenta-same d2.storage.lista_bloques_fisicos _ _ w (λ i b at.
            let a =
              refs-modify_tag b.path_block (modify_tag files p.0 p.1 cerrar) p.0 p.1
                (con_bloques bls) (cerrar t) (tag_en-modify_tag files p.0 p.1 cerrar t g) in
            let u = refs-modify_tag b.path_block files p.0 p.1 cerrar t g in
            let z = refs-modify_tag b.path_block files p.0 p.1 (con_bloques []) t g in
            ap (λ fs. refs b.path_block (modify_tag fs p.0 p.1 (con_bloques bls))) keep
            ∙ omega arith)
