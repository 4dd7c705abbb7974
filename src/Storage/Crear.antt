-- ===== src/Storage/Crear.antt =====
-- storage/src/operaciones_storage.c: CREATE of a File:Tag, against a map from names to tags.
use mathlib.Core.Option
use master_of_files.Base.{
  ℕ, ◌≡◌, refl, ◌≢◌, ◌⊎◌, inl, inr, Bool, false, Option, none, some, List, [], ◌∷◌, ◌++◌,
  if◌then◌else◌, sym, ◌∙◌, ap, Bool-cases, Option-cases, find_index, find_index_sound, hallar,
  en_indice, o_si_no, en_indice-find_index, hallar-append, hallar-modify_self, hallar-modify_ne,
}
use master_of_files.Base.Int.{pos, negsuc}
use master_of_files.Base.Texto.{Texto, texto_eq, texto_eq_sound, texto_eq_refl}
use master_of_files.Storage.Datos.{
  Tag, File, Storage, buscar_index_file, index_tag, buscar_index_tag, buscar_tag,
}
use master_of_files.Storage.Contadores.Etiquetar.{crear_file_found}
use master_of_files.Storage.Operaciones.{
  crear_file, crear_tag, asigar_tag_a_file, operacion_create_file,
}

abbrev es_file : Texto → File → Bool
es_file name f = texto_eq f.name_file name

abbrev es_tag : Texto → Tag → Bool
es_tag name t = texto_eq t.name_tag name

-- The first tag of this name in the first file of that name.
abbrev tag_del : Texto → Option File → Option Tag
tag_del tag none = none
tag_del tag (some f) = hallar (es_tag tag) f.tags

buscar_tag_lem :
    (fs : List File) (file tag : Texto)
    → buscar_tag fs file tag ≡ tag_del tag (hallar (es_file file) fs)
unfolding buscar_tag buscar_index_tag buscar_index_file index_tag
buscar_tag_lem fs file tag = elim (Option-cases (find_index (es_file file) fs)) [
  | inl e ↦
      rw (e, buscar_tag)
        (ap (tag_del tag) (ap (en_indice fs) (sym e) ∙ en_indice-find_index (es_file file) fs))
  | inr (i, e) ↦
      let (f, at, q) = find_index_sound (es_file file) fs i e in
      let found = ap (en_indice fs) (sym e) ∙ en_indice-find_index (es_file file) fs in
      let goal : hallar (es_tag tag) f.tags ≡ tag_del tag (hallar (es_file file) fs) =
        ap (tag_del tag) (sym at ∙ found) in
      let inner : (o : Option ℕ)
          → find_index (es_tag tag) f.tags ≡ o
          → en_indice f.tags o ≡ tag_del tag (hallar (es_file file) fs) =
        (λ o e'.
          ap (en_indice f.tags) (sym e') ∙ en_indice-find_index (es_tag tag) f.tags ∙ goal) in
      elim (Option-cases (find_index (es_tag tag) f.tags)) [
        | inl e' ↦ rw (e, buscar_tag) (rw (at, buscar_tag) (rw (e', buscar_tag) (inner none e')))
        | inr (j, e') ↦
            rw (e, buscar_tag)
              (rw (at, buscar_tag) (rw (e', buscar_tag) (rw (at, buscar_tag) (inner (some j) e'))))
      ]
]

buscar_tag_of_none :
    (fs : List File) (file tag : Texto)
    → buscar_index_tag fs file tag ≡ none
    → buscar_tag fs file tag ≡ none
unfolding buscar_tag
buscar_tag_of_none fs file tag e = rw (e, buscar_tag) refl

-- Two searches agree: no tag is found where no index is.
buscar_tag-none :
    (fs : List File) (file tag : Texto)
    → buscar_tag fs file tag ≡ none
    → buscar_index_tag fs file tag ≡ none
unfolding buscar_tag buscar_index_tag buscar_index_file index_tag
buscar_tag-none fs file tag h = elim (Option-cases (find_index (es_file file) fs)) [
  | inl e ↦ rw (e, buscar_index_tag) refl
  | inr (i, e) ↦
      let (f, at, q) = find_index_sound (es_file file) fs i e in
      elim (Option-cases (find_index (es_tag tag) f.tags)) [
        | inl e' ↦
            rw (e, buscar_index_tag) (rw (at, buscar_index_tag) (rw (e', buscar_index_tag) refl))
        | inr (j, e') ↦
            let (t, at', q') = find_index_sound (es_tag tag) f.tags j e' in
            absurd (cc (at', rw at at (rw e' at (rw at at (rw (e, buscar_tag) at h)))))
      ]
]

o_si_no-none {ℓ} : {A : Type ℓ} (o : Option A) → o_si_no o none ≡ o
o_si_no-none none = refl
o_si_no-none (some x) = refl

-- A search by another name does not see the new file, and one by its name sees it last.
es_file_new : (file file' : Texto) → file' ≢ file → texto_eq file file' ≡ false
es_file_new file file' ne = elim (Bool-cases (texto_eq file file')) [
  | inl q ↦ absurd (ne (sym (texto_eq_sound file file' q)))
  | inr q ↦ q
]

module _ (s : Storage) (file tag : Texto) (i : ℕ)
    (at : buscar_index_file (crear_file s file).lista_files file ≡ some i) where
  creado : Storage
  creado = asigar_tag_a_file (crear_file s file) tag i

  con_nuevo : File → File
  con_nuevo f = record f { tags = f.tags ++ (crear_tag tag ∷ []) }

  -- The file of that name, before and after.
  mismo_file :
      hallar (es_file file) creado.lista_files
      ≡ Option.map con_nuevo (
          o_si_no
            (hallar (es_file file) s.lista_files)
            (some (record { name_file = file; tags = [] })))
  unfolding creado con_nuevo buscar_index_file
  mismo_file =
      hallar-modify_self (es_file file) (crear_file s file).lista_files i con_nuevo (λ x. refl) at
      ∙ ap (Option.map con_nuevo) (
          hallar-append (es_file file) s.lista_files (record { name_file = file; tags = [] } ∷ [])
          ∙ ap
              (λ t.
                o_si_no (hallar (es_file file) s.lista_files)
                  (if t then some (record { name_file = file; tags = [] }) else none))
              (texto_eq_refl file))

  otro_file :
      (file' : Texto)
      → file' ≢ file
      → hallar (es_file file') creado.lista_files ≡ hallar (es_file file') s.lista_files
  unfolding creado con_nuevo buscar_index_file
  otro_file file' ne =
      hallar-modify_ne (es_file file') (crear_file s file).lista_files i con_nuevo (λ x. refl)
        (λ x e.
          let (f, e', q) = find_index_sound (es_file file) (crear_file s file).lista_files i at in
          let fx : f ≡ x = cc (e, e') in
          ap (es_file file') (sym fx)
          ∙ ap (λ (n : Texto). texto_eq n file') (texto_eq_sound f.name_file file q)
          ∙ es_file_new file file' ne)
      ∙ hallar-append (es_file file') s.lista_files (record { name_file = file; tags = [] } ∷ [])
      ∙ ap
          (λ t.
            o_si_no (hallar (es_file file') s.lista_files)
              (if t then some (record { name_file = file; tags = [] }) else none))
          (es_file_new file file' ne)
      ∙ o_si_no-none (hallar (es_file file') s.lista_files)

  -- What a search finds after CREATE.
  tag_del_nuevo :
      (tag' : Texto) (o : Option File)
      → tag_del tag'
          (Option.map con_nuevo (o_si_no o (some (record { name_file = file; tags = [] }))))
        ≡ o_si_no (tag_del tag' o) (hallar (es_tag tag') (crear_tag tag ∷ []))
  unfolding con_nuevo
  tag_del_nuevo tag' none = refl
  tag_del_nuevo tag' (some f) = hallar-append (es_tag tag') f.tags (crear_tag tag ∷ [])

  creado_tag :
      (tag' : Texto)
      → buscar_tag creado.lista_files file tag'
        ≡ o_si_no (buscar_tag s.lista_files file tag') (hallar (es_tag tag') (crear_tag tag ∷ []))
  creado_tag tag' =
      buscar_tag_lem creado.lista_files file tag'
      ∙ ap (tag_del tag') mismo_file
      ∙ tag_del_nuevo tag' (hallar (es_file file) s.lista_files)
      ∙ ap (λ o. o_si_no o (hallar (es_tag tag') (crear_tag tag ∷ [])))
          (sym (buscar_tag_lem s.lista_files file tag'))

  creado_otro :
      (file' tag' : Texto)
      → (file' ≢ file ⊎ tag' ≢ tag)
      → buscar_tag creado.lista_files file' tag' ≡ buscar_tag s.lista_files file' tag'
  creado_otro file' tag' other = elim (Bool-cases (texto_eq file' file)) [
    | inl q ↦
        let same = texto_eq_sound file' file q in
        let ne : tag' ≢ tag = (λ e. elim other [ inl n ↦ n same | inr n ↦ n e ]) in
        ap (λ (n : Texto). buscar_tag creado.lista_files n tag') same
        ∙ creado_tag tag'
        ∙ ap
            (λ t.
              o_si_no (buscar_tag s.lista_files file tag')
                (if t then some (crear_tag tag) else none))
            (es_file_new tag tag' ne)
        ∙ o_si_no-none (buscar_tag s.lista_files file tag')
        ∙ ap (λ (n : Texto). buscar_tag s.lista_files n tag') (sym same)
    | inr q ↦
        let ne : file' ≢ file = (λ e. cc (q, e, texto_eq_refl file)) in
        buscar_tag_lem creado.lista_files file' tag'
        ∙ ap (tag_del tag') (otro_file file' ne)
        ∙ sym (buscar_tag_lem s.lista_files file' tag')
  ]

-- CREATE of a File:Tag that is not there always succeeds: the tag is then found, empty and open, and
-- every other File:Tag is found as before. One that is there is refused with -1, and nothing changes.
pub operacion_create_file_lem :
    (s : Storage) (file tag : Texto)
    → ((t : Tag)
        → buscar_tag s.lista_files file tag ≡ some t
        → operacion_create_file s file tag ≡ (negsuc 0, s))
      × (buscar_tag s.lista_files file tag ≡ none
          → (s' : Storage) × (operacion_create_file s file tag ≡ (pos 0, s'))
            × (buscar_tag s'.lista_files file tag ≡ some (crear_tag tag))
            × ((file' tag' : Texto)
                → (file' ≢ file ⊎ tag' ≢ tag)
                → buscar_tag s'.lista_files file' tag' ≡ buscar_tag s.lista_files file' tag'))
unfolding operacion_create_file creado
operacion_create_file_lem s file tag = (
  λ t h. elim (Option-cases (buscar_index_tag s.lista_files file tag)) [
    | inl e ↦ absurd (cc (h, buscar_tag_of_none s.lista_files file tag e))
    | inr (p, e) ↦ rw (e, operacion_create_file) refl
  ],
  λ h.
      let e = buscar_tag-none s.lista_files file tag h in
      elim (Option-cases (buscar_index_file (crear_file s file).lista_files file)) [
        | inl sin_file ↦ absurd (crear_file_found s file sin_file)
        | inr (i, at) ↦ (
          creado s file tag i at,
          rw (e, operacion_create_file) (rw (at, operacion_create_file) refl),
          creado_tag s file tag i at tag
              ∙ ap (λ o. o_si_no o (hallar (es_tag tag) (crear_tag tag ∷ []))) h
              ∙ ap (λ t. if t then some (crear_tag tag) else none) (texto_eq_refl tag),
          creado_otro s file tag i at,
        )
      ],
)
