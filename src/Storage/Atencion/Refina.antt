-- ===== src/Storage/Atencion/Refina.antt =====
-- storage/src/atencion_worker.c: READ_BLOCK and WRITE_BLOCK against the map of the pages.
use master_of_files.Base.{
  ℕ, zero, suc, ◌≡◌, refl, ◌≢◌, ◌⊎◌, inl, inr, Bool, true, false, Option, none, some, List, [], ◌∷◌,
  ◌++◌, ltb, length, take, get_elem?, arith, ◌∙◌, ap, subst, Bool-cases, Option-cases,
}
use master_of_files.Base.Int.{ℤ, pos, negsuc}
use master_of_files.Base.Texto.{Texto, tiene}
use master_of_files.Utils.Protocolo.{
  op_resp_ok, op_resp_error, op_st_read_block, op_st_write_block, Respuesta,
}
use master_of_files.Utils.Nombre.{split_file_tag_made}
use master_of_files.Worker.Memoria.Clave.{Clave}
use master_of_files.Worker.Paginas.{file_tag}
use master_of_files.Storage.Datos.{BlockLogico, Tag, buscar_tag, buscar_index_block_fisico}
use master_of_files.Storage.Bloques.{
  Config, Disco, Escribe, no_abre, corta, entera, get_contenido, armar_buffer, hash_de,
  operacion_read_bloque, operacion_write_bloque, escribir_archivo_truncado,
}
use master_of_files.Storage.Atencion.{
  solo, codigo_de, no_negativo, storage_read_block, storage_write_block, atender_worker,
}
use master_of_files.Storage.Atencion.Paginas.{
  bloque_de, pagina_de, Sano, escrito_en, escrito_en-Sano, pagina_de-escrito, pagina_de-otra,
}

pub take-take-append {ℓ} :
    {A : Type ℓ} (n : ℕ) (xs zs : List A) → length xs ≡ n → take n (take n xs ++ zs) ≡ xs
take-take-append zero [] zs l = refl
take-take-append zero (x ∷ xs) zs l = absurd (omega arith)
take-take-append (suc n) [] zs l = absurd (omega arith)
take-take-append (suc n) (x ∷ xs) zs l = ap (◌∷◌ x) (take-take-append n xs zs (omega arith))

-- The first `m` bytes of a buffer of `n` bytes at most start as the bytes under it.
take-take-take {ℓ} :
    {A : Type ℓ} (n m : ℕ) (xs zs : List A)
    → length xs ≡ n
    → take n (take m (take n xs ++ zs)) ≡ take m xs
take-take-take zero zero [] zs l = refl
take-take-take zero (suc m) [] zs l = refl
take-take-take zero m (x ∷ xs) zs l = absurd (omega arith)
take-take-take (suc n) zero xs zs l = refl
take-take-take (suc n) (suc m) [] zs l = absurd (omega arith)
take-take-take (suc n) (suc m) (x ∷ xs) zs l = ap (◌∷◌ x) (take-take-take n m xs zs (omega arith))

abbrev pub respuesta_de : Option (List ℕ) → Respuesta
respuesta_de none = solo op_resp_error
respuesta_de (some xs) = record { op_resp = some op_resp_ok; datos = xs }

Escribe-cases : (e : Escribe) → (e ≡ no_abre) ⊎ ((n : ℕ) × (e ≡ corta n)) ⊎ (e ≡ entera)
Escribe-cases no_abre = inl refl
Escribe-cases (corta n) = inr (inl (n, refl))
Escribe-cases entera = inr (inr refl)

-- The page `k` of `d` is the bytes `xs` in `d'`, and every other page is as before.
abbrev pub SoloPagina : {I : Type 0} → Disco I → Disco I → Clave → List ℕ → Type 0
SoloPagina d d' k xs =
    (pagina_de d'.storage k ≡ some xs)
    × ((l : Clave) → l ≢ k → pagina_de d'.storage l ≡ pagina_de d.storage l)

module _ (c : Config) (md5 : List ℕ → Texto) (hay_buffer : Bool) (escritura : Escribe) where
  open c use {State, config_remove_key}

  pub storage_read_block-pagina_de :
      (d : Disco State) (file tag : Texto) (p : ℕ)
      → Sano d.storage
      → tiene b':' file ≡ false
      → storage_read_block c md5 hay_buffer escritura d (file_tag file tag) p
        ≡ (respuesta_de (pagina_de d.storage (file, tag, p)), d)
  unfolding storage_read_block pagina_de operacion_read_bloque
  storage_read_block-pagina_de d file tag p v n =
      rw (split_file_tag_made file tag n, storage_read_block)
        (elim (Option-cases (buscar_tag d.storage.lista_files file tag)) [
          | inl e ↦ rw (e, pagina_de) refl
          | inr (t, e) ↦ elim (Option-cases (get_elem? t.lista_block_logicos p)) [
            | inl f ↦
                rw (e, pagina_de)
                  (elim (Bool-cases (no_negativo p)) [
                    | inl g ↦ rw (g, f) refl
                    | inr g ↦ rw (g, f) refl
                  ])
            | inr (bl, f) ↦
                let esta : bloque_de d.storage (file, tag, p) ≡ some bl = rw (e) f in
                let pocas = v.pocas (file, tag, p) bl esta in
                let g : no_negativo p ≡ true = ground arith in
                rw (e, pagina_de)
                  (rw (g) (
                    rw (f)
                      (elim (Option-cases (get_contenido d.storage (file, tag, bl.nombre_block))) [
                        | inl h ↦ rw (h) refl
                        | inr (xs, h) ↦ rw (h) refl
                      ])))
          ]
        ])

  -- A write in its three cases.
  pub data Escritura (d : Disco State) (k : Clave) (len : ℕ) (contenido : List ℕ)
      (r : Respuesta × Disco State) : Type 0 where
    rechazada : r ≡ (solo op_resp_error, d) → Escritura d k len contenido r
    cortada :
        (bl : BlockLogico) (original : List ℕ) (n : ℕ)
        → escritura ≡ corta n
        → bloque_de d.storage k ≡ some bl
        → r ≡ (
          solo op_resp_error,
          record d {
            storage =
                escrito_en d.storage bl.bloque_fisico_asociado
                  (take n (armar_buffer d.storage.block_size original contenido len));
          },
        )
        → Escritura d k len contenido r
    hecha :
        (bl : BlockLogico) (original : List ℕ) (indice : State)
        → bloque_de d.storage k ≡ some bl
        → r ≡ (
          solo op_resp_ok,
          record {
            storage =
                escrito_en d.storage bl.bloque_fisico_asociado
                  (armar_buffer d.storage.block_size original contenido len);
            hash_index = indice;
          },
        )
        → Escritura d k len contenido r

  operacion_write_bloque-cases :
      (d : Disco State) (file tag : Texto) (len : ℕ) (contenido : List ℕ) (t : Tag)
      (bl : BlockLogico)
      → buscar_tag d.storage.lista_files file tag ≡ some t
      → ltb d.storage.block_size len ≡ false
      → (operacion_write_bloque c md5 d file tag bl contenido len hay_buffer escritura
          ≡ (negsuc 0, d))
        ⊎ ((original : List ℕ) × (indice : State) × (operacion_write_bloque c md5 d file tag bl
                contenido len hay_buffer escritura
              ≡ (
                pos 0,
                record {
                  storage =
                      escrito_en d.storage bl.bloque_fisico_asociado
                        (armar_buffer d.storage.block_size original contenido len);
                  hash_index = indice;
                },
              )))
        ⊎ ((original : List ℕ) × (n : ℕ) × (escritura ≡ corta n)
            × (operacion_write_bloque c md5 d file tag bl contenido len hay_buffer escritura ≡ (
              negsuc 0,
              record d {
                storage =
                    escrito_en d.storage bl.bloque_fisico_asociado
                      (take n (armar_buffer d.storage.block_size original contenido len));
              },
            )))
  unfolding operacion_write_bloque escribir_archivo_truncado
  operacion_write_bloque-cases d file tag len contenido t bl e cabe =
      elim (Option-cases (get_contenido d.storage (file, tag, bl.nombre_block))) [
        | inl g ↦ inl (rw (e, operacion_write_bloque) (rw (g) refl))
        | inr (original, g) ↦
            elim (Option-cases (
              buscar_index_block_fisico d.storage.lista_bloques_fisicos
                bl.bloque_fisico_asociado)) [
                  | inl h ↦ inl (rw (e, operacion_write_bloque) (rw (g) (rw (cabe, h) refl)))
                  | inr (i, h) ↦ elim (Bool-cases hay_buffer) [
                    | inr falta ↦ inl (
                        rw (e, operacion_write_bloque)
                          (rw (g) (rw (cabe) (rw (h) (rw (falta) refl)))))
                    | inl si ↦ elim (Escribe-cases escritura) [
                      | inl q ↦ inl (
                          rw (e, operacion_write_bloque)
                            (rw (g) (rw (cabe) (rw (h) (rw (si, q) refl)))))
                      | inr (inl (n, q)) ↦ inr (
                          inr (
                            original,
                            n,
                            q,
                            rw (e, operacion_write_bloque)
                                (rw (g) (rw (cabe) (rw (h) (rw (si, q) refl)))),
                          ))
                      | inr (inr q) ↦ inr (
                          inl (
                            original,
                            config_remove_key d.hash_index (hash_de c md5 original),
                            rw (e, operacion_write_bloque)
                                (rw (g) (rw (cabe) (rw (h) (rw (si, q) refl)))),
                          ))
                    ]
                  ]
                ]
      ]

  abbrev responde : ℤ × Disco State → Respuesta × Disco State
  responde x = (codigo_de x.0, x.1)

  pub storage_write_block-Escritura :
      (d : Disco State) (file tag : Texto) (p len : ℕ) (contenido : List ℕ)
      → Escritura d
          (file, tag, p)
          len
          contenido
          (storage_write_block c md5 hay_buffer escritura d file tag p len contenido)
  unfolding storage_write_block
  storage_write_block-Escritura d file tag p len contenido =
      elim (Option-cases (buscar_tag d.storage.lista_files file tag)) [
        | inl e ↦ rechazada (rw (e, storage_write_block) refl)
        | inr (t, e) ↦ elim (Option-cases (get_elem? t.lista_block_logicos p)) [
          | inl f ↦ rechazada (rw (e, storage_write_block) (rw (f) refl))
          | inr (bl, f) ↦ elim (Bool-cases (ltb d.storage.block_size len)) [
            | inl g ↦ rechazada (rw (e, storage_write_block) (rw (f) (rw (g) refl)))
            | inr g ↦
                let llama =
                  operacion_write_bloque c md5 d file tag bl contenido len hay_buffer escritura in
                let entra : storage_write_block c md5 hay_buffer escritura d file tag p len
                      contenido
                    ≡ responde llama =
                  rw (e, storage_write_block) (rw (f) (rw (g) refl)) in
                elim (operacion_write_bloque-cases d file tag len contenido t bl e g) [
                  | inl falta ↦ rechazada (entra ∙ ap responde falta)
                  | inr (inl (original, indice, si)) ↦
                      hecha bl original indice (rw (e) f) (entra ∙ ap responde si)
                  | inr (inr (original, n, q, si)) ↦
                      cortada bl original n q (rw (e) f) (entra ∙ ap responde si)
                ]
          ]
        ]
      ]

  escrito_en-SoloPagina :
      (d : Disco State) (k : Clave) (bl : BlockLogico) (buffer : List ℕ) (indice : State)
      → Sano d.storage
      → bloque_de d.storage k ≡ some bl
      → SoloPagina d
          (record {
            storage = escrito_en d.storage bl.bloque_fisico_asociado buffer;
            hash_index = indice;
          })
          k
          (take d.storage.block_size buffer)
  escrito_en-SoloPagina d k bl buffer indice v esta = (
    pagina_de-escrito d.storage v bl.bloque_fisico_asociado buffer k bl esta refl,
    λ l ne.
        pagina_de-otra d.storage v bl.bloque_fisico_asociado buffer l
          (λ b f q. ne (v.propia l k b bl f esta q)),
  )

  -- READ_BLOCK and WRITE_BLOCK refine a map from file, tag and page to bytes, in the states where every
  -- logical block is linked to the physical block that it names and no other page names it. A read answers
  -- what the map holds and an error where it holds nothing, and changes nothing; of a file shorter than a block
  -- only its own bytes count. A write of a whole block always answers, and leaves such a state. Where it
  -- answers OK the map changes at that page alone, to the bytes that were sent. Where it answers with an error
  -- nothing changes, unless the write of the file was cut short: then the page alone changes, to as many of
  -- those bytes as were written. The file's name has no colon.
  pub atender_worker-pagina_de :
      (d : Disco State) (qid : ℕ) (file tag : Texto) (p : ℕ) (datos : List ℕ)
      → Sano d.storage
      → tiene b':' file ≡ false
      → length datos ≡ d.storage.block_size
      → (atender_worker c md5 hay_buffer escritura d (op_st_read_block qid (file_tag file tag) p)
          ≡ some (respuesta_de (pagina_de d.storage (file, tag, p)), d))
        × (r : Respuesta) × (d' : Disco State) × (atender_worker c md5 hay_buffer escritura d
              (op_st_write_block qid file tag p d.storage.block_size datos)
            ≡ some (r, d'))
        × Sano d'.storage
        × (((r ≡ solo op_resp_error) × (d' ≡ d))
            ⊎ ((r ≡ solo op_resp_ok) × SoloPagina d d' (file, tag, p) datos)
            ⊎ ((r ≡ solo op_resp_error)
                × (n : ℕ) × (escritura ≡ corta n)
                × SoloPagina d d' (file, tag, p) (take n datos)))
  unfolding atender_worker
  atender_worker-pagina_de d qid file tag p datos v n l =
      let lee = ap some (storage_read_block-pagina_de d file tag p v n) in
      elim (storage_write_block-Escritura d file tag p d.storage.block_size datos) [
        | rechazada e ↦ (lee, solo op_resp_error, d, ap some e, v, inl (refl, refl))
        | cortada bl original m q esta e ↦
            let buffer = armar_buffer d.storage.block_size original datos d.storage.block_size in
            let a = bl.bloque_fisico_asociado in
            let d' : Disco State = record d { storage = escrito_en d.storage a (take m buffer) } in
            (
              lee,
              solo op_resp_error,
              d',
              ap some e,
              escrito_en-Sano d.storage v a (take m buffer),
              inr (
                  inr (
                    refl,
                    m,
                    q,
                    subst (SoloPagina d d' (file, tag, p))
                        (take-take-take d.storage.block_size m datos _ l)
                        (escrito_en-SoloPagina d (file, tag, p) bl (take m buffer) d.hash_index v
                          esta),
                  )),
            )
        | hecha bl original indice esta e ↦
            let buffer = armar_buffer d.storage.block_size original datos d.storage.block_size in
            let a = bl.bloque_fisico_asociado in
            let d' : Disco State = record {
              storage = escrito_en d.storage a buffer;
              hash_index = indice;
            } in
            (
              lee,
              solo op_resp_ok,
              d',
              ap some e,
              escrito_en-Sano d.storage v a buffer,
              inr (
                  inl (
                    refl,
                    subst (SoloPagina d d' (file, tag, p))
                        (take-take-append d.storage.block_size datos _ l)
                        (escrito_en-SoloPagina d (file, tag, p) bl buffer indice v esta),
                  )),
            )
      ]
