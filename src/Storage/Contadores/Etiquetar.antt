-- ===== src/Storage/Contadores/Etiquetar.antt =====
-- storage/src/operaciones_storage.c: CREATE and TAG keep the counters of the physical blocks.

use master_of_files.Base.{
  ℕ, ◌+◌, ◌≡◌, refl, inl, inr, none, some, List, [], ◌∷◌, ◌++◌, get_elem?, arith, sym, ◌∙◌, ap,
  Option-cases, find_index_sound, find_index-none, get_elem?-append_right, length, ◌≢◌,
}
use master_of_files.Base.Texto.{Texto, texto_eq, texto_eq_refl}
use master_of_files.Storage.Datos.{
  BlockFisico, BlockLogico, Tag, File, Storage, buscar_index_file, buscar_index_tag, buscar_tag,
  buscar_index_block_fisico, link,
}
use master_of_files.Storage.Operaciones.{
  crear_file, crear_tag, agregar_tag, operacion_create_file, linkear_bl_a_bf, sumar_en, copiar_bls,
  asegurar_file, operacion_tag_file,
}
use master_of_files.Storage.Contadores.{
  es, sumar-append, sumar-modify, refs_bls, refs_tags, refs, Cuenta, Cuenta-same, Cuenta-sumar,
  buscar_index_block_fisico_sound, buscar_index_block_fisico-none,
}
use master_of_files.Storage.Contadores.Agrandar.{Contado, Link-cases}

-- The new file has no tags.
refs-crear_file :
    (s : Storage) (name file : Texto)
    → refs name (crear_file s file).lista_files ≡ refs name s.lista_files
refs-crear_file s name file =
    sumar-append (λ (f : File). refs_tags name f.tags) s.lista_files _ ∙ omega arith

refs-agregar_tag :
    (s : Storage) (name : Texto) (i : ℕ) (t : Tag) (f : File)
    → get_elem? s.lista_files i ≡ some f
    → refs name (agregar_tag s i t).lista_files
      ≡ refs name s.lista_files + refs_bls name t.lista_block_logicos
refs-agregar_tag s name i t f e =
    let a =
      sumar-modify (λ (f : File). refs_tags name f.tags) s.lista_files i
        (λ f. record f { tags = f.tags ++ (t ∷ []) }) f e in
    let b = sumar-append (λ (t : Tag). refs_bls name t.lista_block_logicos) f.tags (t ∷ []) in
    omega arith

pub sumar_en-Cuenta :
    (bfs : List BlockFisico) (n : Texto → ℕ) (nombre : Texto)
    → Cuenta bfs n
    → Cuenta (sumar_en bfs nombre) (λ name. n name + es nombre name)
sumar_en-Cuenta bfs n nombre v = elim (Option-cases (buscar_index_block_fisico bfs nombre)) [
  | inl no_esta ↦
      rw (no_esta, sumar_en)
        (Cuenta-same bfs n _ v
          (λ i b at. omega (arith, buscar_index_block_fisico-none bfs nombre i b no_esta at)))
  | inr (i, esta) ↦
      let (b, at, q) = buscar_index_block_fisico_sound bfs nombre i esta in
      rw (esta, sumar_en) (Cuenta-sumar bfs n _ i b v at (λ name. rw q refl))
]

linkear_keeps :
    (s s' : Storage) (file tag bl bf : Texto)
    → linkear_bl_a_bf s file tag bl bf ≡ some s'
    → (s'.lista_bloques_fisicos ≡ s.lista_bloques_fisicos) × (s'.lista_files ≡ s.lista_files)
linkear_keeps s s' file tag bl bf h = elim (Link-cases (link s bf (file, tag, bl))) [
  | inl mal ↦ absurd (cc (rw (mal, linkear_bl_a_bf) at h))
  | inr (inl esta) ↦
      let q : s ≡ s' = cc (rw (esta, linkear_bl_a_bf) at h) in
      (
        ap (λ (z : Storage). z.lista_bloques_fisicos) (sym q),
        ap (λ (z : Storage). z.lista_files) (sym q),
      )
  | inr (inr (ls, ok)) ↦
      let q : record s { enlaces = ls } ≡ s' = cc (rw (ok, linkear_bl_a_bf) at h) in
      (
        ap (λ (z : Storage). z.lista_bloques_fisicos) (sym q),
        ap (λ (z : Storage). z.lista_files) (sym q),
      )
]

-- The loop counts the blocks that it copies before their tag is in its file.
copiar_bls-Cuenta :
    (bls : List BlockLogico) (s : Storage) (file tag : Texto) (n : Texto → ℕ)
    → Cuenta s.lista_bloques_fisicos n
    → Cuenta
        (copiar_bls bls s file tag).1.lista_bloques_fisicos
        (λ name. n name + refs_bls name (copiar_bls bls s file tag).0)
      × ((copiar_bls bls s file tag).1.lista_files ≡ s.lista_files)
unfolding copiar_bls
copiar_bls-Cuenta [] s file tag n v =
    (Cuenta-same s.lista_bloques_fisicos n _ v (λ i b at. omega arith), refl)
copiar_bls-Cuenta (bl ∷ bls) s file tag n v =
    elim (Option-cases (linkear_bl_a_bf s file tag bl.nombre_block bl.bloque_fisico_asociado)) [
      | inl mal ↦ rw (mal, copiar_bls) (copiar_bls-Cuenta bls s file tag n v)
      | inr (s', ok) ↦
          let (bfs, files) =
            linkear_keeps s s' file tag bl.nombre_block bl.bloque_fisico_asociado ok in
          let v' =
            sumar_en-Cuenta s'.lista_bloques_fisicos n bl.bloque_fisico_asociado (rw bfs v) in
          let (w, keep) =
            copiar_bls-Cuenta bls
              (record s' {
                lista_bloques_fisicos = sumar_en s'.lista_bloques_fisicos bl.bloque_fisico_asociado;
              })
              file tag (λ name. n name + es bl.bloque_fisico_asociado name) v' in
          rw (ok, copiar_bls) (Cuenta-same _ _ _ w (λ i b at. omega arith), keep ∙ files)
    ]

asegurar_file-Contado : (s : Storage) (file : Texto) → Contado s → Contado (asegurar_file s file)
asegurar_file-Contado s file v = elim (Option-cases (buscar_index_file s.lista_files file)) [
  | inl no_esta ↦
      rw (no_esta, asegurar_file)
        (Cuenta-same s.lista_bloques_fisicos _ _ v (λ i b at. refs-crear_file s b.path_block file))
  | inr (i, esta) ↦ rw (esta, asegurar_file) v
]

-- An index that the search gives is that of a file.
buscar_index_file_sound :
    (fs : List File) (file : Texto) (i : ℕ)
    → buscar_index_file fs file ≡ some i
    → (f : File) × (get_elem? fs i ≡ some f)
unfolding buscar_index_file
buscar_index_file_sound fs file i e =
    let (f, at, q) = find_index_sound (λ (f : File). texto_eq f.name_file file) fs i e in (f, at)

pub crear_file_found :
    (s : Storage) (file : Texto) → buscar_index_file (crear_file s file).lista_files file ≢ none
unfolding buscar_index_file
crear_file_found s file e =
    let q =
      find_index-none (λ (f : File). texto_eq f.name_file file) (crear_file s file).lista_files
        (length s.lista_files + 0) (record { name_file = file; tags = [] }) e
        (get_elem?-append_right s.lista_files (record { name_file = file; tags = [] } ∷ []) 0) in
    absurd (cc (q, texto_eq_refl file))

asegurar_file_found :
    (s : Storage) (file : Texto) → buscar_index_file (asegurar_file s file).lista_files file ≢ none
asegurar_file_found s file e = elim (Option-cases (buscar_index_file s.lista_files file)) [
  | inl no_esta ↦ crear_file_found s file (rw (no_esta, asegurar_file) at e)
  | inr (i, esta) ↦ absurd (cc (esta, rw (esta, asegurar_file) at e))
]

-- TAG keeps the counters: a copy adds one to the counter of each block that it names, and nothing else
-- changes them. This holds on every branch, also where a hard link fails and its block is left out.
pub operacion_tag_file-Contado :
    (s : Storage) (file_o tag_o file_d tag_d : Texto)
    → Contado s
    → Contado (operacion_tag_file s file_o tag_o file_d tag_d).1
unfolding operacion_tag_file
operacion_tag_file-Contado s file_o tag_o file_d tag_d v =
    elim (Option-cases (buscar_tag s.lista_files file_o tag_o)) [
      | inl no_esta ↦ rw (no_esta, operacion_tag_file) v
      | inr (t, esta) ↦
          let s0 = asegurar_file s file_d in
          let (w, keep) =
            copiar_bls-Cuenta t.lista_block_logicos s0 file_d tag_d
              (λ name. refs name s0.lista_files) (asegurar_file-Contado s file_d v) in
          let s1 = (copiar_bls t.lista_block_logicos s0 file_d tag_d).1 in
          elim (Option-cases (buscar_index_file s1.lista_files file_d)) [
            | inl sin_file ↦ absurd (
                asegurar_file_found s file_d
                  (ap (λ fs. buscar_index_file fs file_d) (sym keep) ∙ sin_file))
            | inr (i, hay) ↦
                let (f, at) = buscar_index_file_sound s1.lista_files file_d i hay in
                rw (esta, operacion_tag_file)
                  (rw (hay, operacion_tag_file)
                    (Cuenta-same s1.lista_bloques_fisicos _ _ w (λ k b e.
                      refs-agregar_tag s1 b.path_block i _ f at
                      ∙ ap
                          (λ fs.
                            refs b.path_block fs
                            + refs_bls b.path_block
                                (copiar_bls t.lista_block_logicos s0 file_d tag_d).0)
                          keep)))
          ]
    ]

-- CREATE keeps the counters.
pub operacion_create_file-Contado :
    (s : Storage) (file tag : Texto) → Contado s → Contado (operacion_create_file s file tag).1
unfolding operacion_create_file
operacion_create_file-Contado s file tag v =
    elim (Option-cases (buscar_index_tag s.lista_files file tag)) [
      | inr (p, esta) ↦ rw (esta, operacion_create_file) v
      | inl no_esta ↦
          let s1 = crear_file s file in
          elim (Option-cases (buscar_index_file s1.lista_files file)) [
            | inl sin_file ↦
                rw (no_esta, operacion_create_file)
                  (rw (sin_file, operacion_create_file)
                    (Cuenta-same s.lista_bloques_fisicos _ _ v
                      (λ i b at. refs-crear_file s b.path_block file)))
            | inr (i, hay) ↦
                let (f, at) = buscar_index_file_sound s1.lista_files file i hay in
                rw (no_esta, operacion_create_file)
                  (rw (hay, operacion_create_file)
                    (Cuenta-same s.lista_bloques_fisicos _ _ v (λ k b e.
                      let a = refs-agregar_tag s1 b.path_block i (crear_tag tag) f at in
                      omega (arith, refs-crear_file s b.path_block file))))
          ]
    ]
