-- ===== src/Storage/Contadores/Achicar.antt =====
-- storage/src/operaciones_storage.c: the blocks that TRUNCATE frees keep the counters.

use master_of_files.Base.{
  ℕ, zero, suc, ◌+◌, ◌-◌, ◌≡◌, inl, inr, none, some, List, [], ◌∷◌, ◌++◌, length, get_elem?,
  get_elem?-lt, take, modify, arith, ◌∙◌, ap, Bool-cases, Option-cases,
}
use master_of_files.Base.Texto.{Texto}
use master_of_files.Storage.Datos.{
  restar_asociado, BlockLogico, Tag, File, Storage, tag_en, modify_tag, buscar_index_block_fisico,
}
use master_of_files.Storage.Operaciones.{ultimo, queda_libre, achicar}
use master_of_files.Storage.Contadores.{
  es, sumar-append, refs_bls, refs, refs-modify_tag, Cuenta, Cuenta-same, Cuenta-restar,
  buscar_index_block_fisico_sound, buscar_index_block_fisico-none,
}
use master_of_files.Storage.Contadores.Agrandar.{Contado, Sigue, tag_en-modify_tag}

take-last :
    {A : Type 0} (xs : List A) (i : ℕ) (x : A)
    → get_elem? xs i ≡ some x
    → length xs ≡ suc i
    → xs ≡ take i xs ++ (x ∷ [])
take-last [] i x e l = cc
take-last (y ∷ []) zero x e l = ground arith
take-last (y ∷ z ∷ xs) zero x e l = absurd (omega arith)
take-last (y ∷ xs) (suc i) x e l = ap (◌∷◌ y) (take-last xs i x e (omega arith))

pub ultimo_sound :
    {A : Type 0} (xs r : List A) (x : A) → ultimo xs ≡ some (r, x) → xs ≡ r ++ (x ∷ [])
unfolding ultimo
ultimo_sound xs r x e = elim (Option-cases (get_elem? xs (length xs - 1))) [
  | inl out ↦ absurd (ground arith)
  | inr (y, at) ↦
      let lt = get_elem?-lt xs (length xs - 1) y at in
      let whole = take-last xs (length xs - 1) y at (omega arith) in
      let same : (take (length xs - 1) xs, y) ≡ (r, x) = ground arith in
      whole ∙ ap (λ (q : _ × _). q.0 ++ (q.1 ∷ [])) same
]

-- The last logical block leaves its tag.
module _ (s : Storage) (p : ℕ × ℕ) (t : Tag) (resto : List BlockLogico) (bl : BlockLogico)
    (v : Contado s) (e : tag_en s.lista_files p.0 p.1 ≡ some t)
    (last : ultimo t.lista_block_logicos ≡ some (resto, bl)) where
  menos : List File
  menos = modify_tag s.lista_files p.0 p.1 (λ t. record t { lista_block_logicos = resto })

  refs-menos :
      (name : Texto) → refs name s.lista_files ≡ refs name menos + es bl.bloque_fisico_asociado name
  unfolding menos
  refs-menos name =
      let a =
        refs-modify_tag name s.lista_files p.0 p.1 (λ t. record t { lista_block_logicos = resto }) t
          e in
      let b = ap (refs_bls name) (ultimo_sound t.lista_block_logicos resto bl last) in
      let c =
        sumar-append (λ (x : BlockLogico). es x.bloque_fisico_asociado name) resto (bl ∷ []) in
      omega arith

  menos-Contado :
      buscar_index_block_fisico s.lista_bloques_fisicos bl.bloque_fisico_asociado ≡ none
      → Cuenta s.lista_bloques_fisicos (λ name. refs name menos)
  menos-Contado no_esta =
      Cuenta-same s.lista_bloques_fisicos (λ name. refs name s.lista_files)
        (λ name. refs name menos) v
        (λ i b at.
          let z =
            buscar_index_block_fisico-none s.lista_bloques_fisicos bl.bloque_fisico_asociado i b
              no_esta at in
          omega (arith, refs-menos b.path_block))

  restar-Contado :
      (i : ℕ)
      → buscar_index_block_fisico s.lista_bloques_fisicos bl.bloque_fisico_asociado ≡ some i
      → Cuenta (modify s.lista_bloques_fisicos i restar_asociado) (λ name. refs name menos)
  restar-Contado i esta =
      let (b, at, q) =
        buscar_index_block_fisico_sound s.lista_bloques_fisicos bl.bloque_fisico_asociado i esta in
      Cuenta-restar s.lista_bloques_fisicos (λ name. refs name s.lista_files)
        (λ name. refs name menos) i b v at (λ name. refs-menos name ∙ rw q)

pub achicar-Sigue :
    (n : ℕ) (s s' : Storage) (file tag : Texto) (p : ℕ × ℕ)
    → Sigue s p
    → achicar n s file tag p ≡ some s'
    → Sigue s' p
unfolding achicar menos
achicar-Sigue zero s s' file tag p v h = let q : s ≡ s' = cc h in rw⁻¹ q v
achicar-Sigue (suc n) s s' file tag p (v, t, e) h =
    elim (Option-cases (ultimo t.lista_block_logicos)) [
      | inl vacio ↦ achicar-Sigue n s s' file tag p (v, t, e) (rw vacio at (rw (e, achicar) at h))
      | inr ((resto, bl), last) ↦
          let keep =
            tag_en-modify_tag s.lista_files p.0 p.1 (λ t. record t { lista_block_logicos = resto })
              t e in
          elim (Option-cases
            (buscar_index_block_fisico s.lista_bloques_fisicos bl.bloque_fisico_asociado)) [
              | inl no_esta ↦
                  achicar-Sigue n _ s' file tag p
                    (menos-Contado s p t resto bl v e last no_esta, _, keep)
                    (rw no_esta at (rw last at (rw (e, achicar) at h)))
              | inr (i, esta) ↦
                  elim (Bool-cases
                    (queda_libre (modify s.lista_bloques_fisicos i restar_asociado) i)) [
                      | inl libre ↦
                          absurd (cc (rw libre at (rw esta at (rw last at (rw (e, achicar) at h)))))
                      | inr usado ↦
                          achicar-Sigue n _ s' file tag p
                            (restar-Contado s p t resto bl v e last i esta, _, keep)
                            (rw usado at (rw esta at (rw last at (rw (e, achicar) at h))))
                    ]
            ]
    ]
