-- ===== src/Storage/Contadores/Agrandar.antt =====
-- storage/src/operaciones_storage.c: the blocks that TRUNCATE adds keep the counters.
use mathlib.Core.Option
use master_of_files.Base.{
  ℕ, zero, suc, ◌≡◌, refl, ◌⊎◌, inl, inr, Option, some, List, [], ◌∷◌, get_elem?, modify,
  get_elem?-modify_self, arith, ◌∙◌, ap, Option-cases,
}
use master_of_files.Base.Texto.{Texto, codes}
use master_of_files.Storage.Nombres.{block_04d, crear_nombre_bloque_logico}
use master_of_files.Storage.Datos.{
  sumar_asociado, BlockLogico, Tag, File, Storage, tag_de, tag_en, modify_tag,
  bitmap_encontrar_bloque_libre, bitmap_marcar_bloque_ocupado, Link, enoent, eexist, hecho, link,
}
use master_of_files.Storage.Operaciones.{agregar_bl, agrandar}
use master_of_files.Storage.Contadores.{
  es, sumar-append, refs, refs-modify_tag, Cuenta, Cuenta-sumar,
}

-- The invariant of the state.
abbrev pub Contado : Storage → Type 0
Contado s = Cuenta s.lista_bloques_fisicos (λ name. refs name s.lista_files)

pub tag_en-modify_tag :
    (fs : List File) (i j : ℕ) (g : Tag → Tag) (t : Tag)
    → tag_en fs i j ≡ some t
    → tag_en (modify_tag fs i j g) i j ≡ some (g t)
tag_en-modify_tag fs i j g t e = elim (Option-cases (get_elem? fs i)) [
  | inl out ↦ absurd (ground arith)
  | inr (f, at) ↦
      let here : get_elem? f.tags j ≡ some t = ground arith in
      ap (λ o. tag_de o j) (get_elem?-modify_self fs i (λ f. record f { tags = modify f.tags j g }))
      ∙ ap
          (λ (o : Option File).
            tag_de (Option.map (λ (f : File). record f { tags = modify f.tags j g }) o) j)
          at
      ∙ get_elem?-modify_self f.tags j g
      ∙ ap (Option.map g) here
]

-- A step of a loop: the invariant, and the tag that it works on.
abbrev pub Sigue : Storage → ℕ × ℕ → Type 0
Sigue s p = Contado s × (t : Tag) × (tag_en s.lista_files p.0 p.1 ≡ some t)

pub Link-cases : (l : Link) → (l ≡ enoent) ⊎ (l ≡ eexist) ⊎ ((ls : _) × (l ≡ hecho ls))
Link-cases enoent = inl refl
Link-cases eexist = inr (inl refl)
Link-cases (hecho ls) = inr (inr (ls, refl))

-- One more logical block under block 0.
agregar_bl-Sigue :
    (s : Storage) (nombre : Texto) (p : ℕ × ℕ) (t : Tag)
    → Contado s
    → tag_en s.lista_files p.0 p.1 ≡ some t
    → Cuenta
        (modify s.lista_bloques_fisicos 0 sumar_asociado)
        (λ name. refs name (modify_tag s.lista_files p.0 p.1 (agregar_bl nombre)))
agregar_bl-Sigue s nombre p t v e =
    let (b, at, q) = v.primero in
    Cuenta-sumar s.lista_bloques_fisicos (λ name. refs name s.lista_files) _ 0 b v at
      (λ name.
        let a = refs-modify_tag name s.lista_files p.0 p.1 (agregar_bl nombre) t e in
        let c =
          sumar-append (λ (x : BlockLogico). es x.bloque_fisico_asociado name) t.lista_block_logicos
            (record { nombre_block = nombre; bloque_fisico_asociado = codes "block0000" } ∷ []) in
        rw q (omega arith))

pub agrandar-Sigue :
    (n nro : ℕ) (s : Storage) (file tag : Texto) (p : ℕ × ℕ)
    → Sigue s p
    → Sigue (agrandar n nro s file tag p).1 p
unfolding agrandar
agrandar-Sigue zero nro s file tag p v = v
agrandar-Sigue (suc n) nro s file tag p (v, t, e) =
    elim (Option-cases (bitmap_encontrar_bloque_libre s.bitmap)) [
      | inl lleno ↦ rw (lleno, agrandar) (v, t, e)
      | inr (bf, libre) ↦
          let nombre = crear_nombre_bloque_logico nro in
          let s' = bitmap_marcar_bloque_ocupado s bf in
          elim (Link-cases (link s' (block_04d bf) (file, tag, nombre))) [
            | inl mal ↦
                rw (libre, agrandar)
                  (rw (mal, agrandar) (agrandar-Sigue n (suc nro) _ file tag p (v, t, e)))
            | inr (inl mal) ↦
                rw (libre, agrandar)
                  (rw (mal, agrandar) (agrandar-Sigue n (suc nro) _ file tag p (v, t, e)))
            | inr (inr (ls, ok)) ↦
                rw (libre, agrandar)
                  (rw (ok, agrandar)
                    (agrandar-Sigue n (suc nro) _ file tag p (
                      agregar_bl-Sigue s nombre p t v e,
                      agregar_bl nombre t,
                      tag_en-modify_tag s.lista_files p.0 p.1 (agregar_bl nombre) t e,
                    )))
          ]
    ]
