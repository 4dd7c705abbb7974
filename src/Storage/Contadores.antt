-- ===== src/Storage/Contadores.antt =====
-- storage/src/operaciones_storage.c: the counter of a physical block (`blogico_asociados`) and the
-- logical blocks that name it.
pub mod Agrandar
pub mod Achicar
pub mod Truncar
pub mod Etiquetar
pub mod Confirmar
use mathlib.Core.Option
use master_of_files.Base.{
  ℕ, zero, suc, ◌+◌, ◌≤◌, ◌<◌, ◌≡◌, refl, ◌≢◌, inl, inr, true, false, Option, none, some, List, [],
  ◌∷◌, ◌++◌, if◌then◌else◌, length, get_elem?, modify, modify-cases, get_elem?-modify_self,
  get_elem?-modify_ne, ℕ_discrete, arith, sym, ◌∙◌, ap, Bool-cases, Option-cases, find_index,
  find_index_sound, find_index-none,
}
use master_of_files.Base.Int.{ℤ, pos, negsuc, ◌+ℤ◌, ◌-ℤ◌, pos_part, neg_part}
use master_of_files.Base.Texto.{Texto, codes, texto_eq, texto_eq_sound, texto_eq_refl}
use master_of_files.Storage.Datos.{
  BlockFisico, BlockLogico, Tag, File, tag_en, modify_tag, buscar_index_block_fisico,
  sumar_asociado, restar_asociado,
}

abbrev pub sumar {ℓ} : {A : Type ℓ} → (A → ℕ) → List A → ℕ
sumar f [] = 0
sumar f (x ∷ xs) = f x + sumar f xs

module _ {ℓ} {A : Type ℓ} (f : A → ℕ) where
  pub sumar-append : (xs ys : List A) → sumar f (xs ++ ys) ≡ sumar f xs + sumar f ys
  sumar-append [] ys = omega arith
  sumar-append (x ∷ xs) ys = omega (arith, sumar-append xs ys)

  pub sumar-modify :
      (xs : List A) (i : ℕ) (g : A → A) (x : A)
      → get_elem? xs i ≡ some x
      → sumar f (modify xs i g) + f x ≡ sumar f xs + f (g x)
  sumar-modify [] i g x e = cc
  sumar-modify (y ∷ xs) zero g x e = let q : y ≡ x = cc e in rw q (omega arith)
  sumar-modify (y ∷ xs) (suc i) g x e = omega (arith, sumar-modify xs i g x e)

-- 1 where the two names are one.
abbrev pub es : Texto → Texto → ℕ
es a b = if texto_eq a b then 1 else 0

-- The logical blocks under a physical one: in a list, in a tag and in all files.
abbrev pub refs_bls : Texto → List BlockLogico → ℕ
refs_bls name bls = sumar (λ (b : BlockLogico). es b.bloque_fisico_asociado name) bls

abbrev pub refs_tags : Texto → List Tag → ℕ
refs_tags name ts = sumar (λ (t : Tag). refs_bls name t.lista_block_logicos) ts

abbrev pub refs : Texto → List File → ℕ
refs name fs = sumar (λ (f : File). refs_tags name f.tags) fs

pub refs-modify_tag :
    (name : Texto) (fs : List File) (i j : ℕ) (g : Tag → Tag) (t : Tag)
    → tag_en fs i j ≡ some t
    → refs name (modify_tag fs i j g) + refs_bls name t.lista_block_logicos
      ≡ refs name fs + refs_bls name (g t).lista_block_logicos
refs-modify_tag name fs i j g t e = elim (Option-cases (get_elem? fs i)) [
  | inl out ↦ absurd (ground arith)
  | inr (f, at) ↦
      let here : get_elem? f.tags j ≡ some t = ground arith in
      let a =
        sumar-modify (λ (f : File). refs_tags name f.tags) fs i
          (λ f. record f { tags = modify f.tags j g }) f at in
      let b = sumar-modify (λ (t : Tag). refs_bls name t.lista_block_logicos) f.tags j g t here in
      omega arith
]

-- Each physical block has a name of its own, block 0 is `block0000`, and the counter of a block is the
-- number of logical blocks under it.
pub record Cuenta (bfs : List BlockFisico) (n : Texto → ℕ) : Type 0 where
  pub distintos :
      (i j : ℕ) (a b : BlockFisico)
      → get_elem? bfs i ≡ some a
      → get_elem? bfs j ≡ some b
      → a.path_block ≡ b.path_block
      → i ≡ j
  pub primero : (b : BlockFisico) × (get_elem? bfs 0 ≡ some b) × (b.path_block ≡ codes "block0000")
  pub contado :
      (i : ℕ) (b : BlockFisico)
      → get_elem? bfs i ≡ some b
      → b.blogico_asociados ≡ pos (n b.path_block)

pub buscar_index_block_fisico_sound :
    (bfs : List BlockFisico) (name : Texto) (i : ℕ)
    → buscar_index_block_fisico bfs name ≡ some i
    → (b : BlockFisico) × (get_elem? bfs i ≡ some b) × (b.path_block ≡ name)
unfolding buscar_index_block_fisico
buscar_index_block_fisico_sound bfs name i e =
    let (b, at, q) = find_index_sound (λ (b : BlockFisico). texto_eq b.path_block name) bfs i e in
    (b, at, texto_eq_sound b.path_block name q)

pub buscar_index_block_fisico-none :
    (bfs : List BlockFisico) (name : Texto) (i : ℕ) (b : BlockFisico)
    → buscar_index_block_fisico bfs name ≡ none
    → get_elem? bfs i ≡ some b
    → es name b.path_block ≡ 0
unfolding buscar_index_block_fisico
buscar_index_block_fisico-none bfs name i b e at = elim (Bool-cases (texto_eq name b.path_block)) [
  | inr ne ↦ rw ne
  | inl same ↦
      let q = find_index-none (λ (b : BlockFisico). texto_eq b.path_block name) bfs i b e at in
      absurd (cc (q, texto_eq_sound name b.path_block same, texto_eq_refl name))
]

-- A counter that goes up with one more logical block under its block, or down with one less.
module _ (bfs : List BlockFisico) (n n' : Texto → ℕ) (v : Cuenta bfs n) where
  pub Cuenta-same :
      ((i : ℕ) (b : BlockFisico) → get_elem? bfs i ≡ some b → n' b.path_block ≡ n b.path_block)
      → Cuenta bfs n'
  Cuenta-same h = record {
    distintos = v.distintos;
    primero = v.primero;
    contado = λ i b e. v.contado i b e ∙ ap pos (sym (h i b e));
  }

  module _ (i : ℕ) (b : BlockFisico) (g : BlockFisico → BlockFisico) (at : get_elem? bfs i ≡ some b)
      (path : (x : BlockFisico) → (g x).path_block ≡ x.path_block)
      (here : (g b).blogico_asociados ≡ pos (n' b.path_block))
      (rest : (x : BlockFisico)
        → es b.path_block x.path_block ≡ 0
        → n' x.path_block ≡ n x.path_block) where
    antes :
        (j : ℕ) (x : BlockFisico)
        → get_elem? (modify bfs i g) j ≡ some x
        → (y : BlockFisico) × (get_elem? bfs j ≡ some y) × (x.path_block ≡ y.path_block)
    antes j x e = elim (modify-cases bfs i j g x e) [
      | inl (same, y, e', made) ↦ (y, e', ap (λ (z : BlockFisico). z.path_block) made ∙ path y)
      | inr (ne, e') ↦ (x, e', refl)
    ]

    Cuenta-modify : Cuenta (modify bfs i g) n'
    Cuenta-modify = record {
      distintos = λ j k x y ex ey q.
          let (x', ex', qx) = antes j x ex in
          let (y', ey', qy) = antes k y ey in v.distintos j k x' y' ex' ey' (sym qx ∙ q ∙ qy);
      primero = elim (ℕ_discrete i 0) [
        | yes same ↦
            let (b0, e, q) = v.primero in
            (
              g b0,
              ap (λ (k : ℕ). get_elem? (modify bfs k g) 0) same
                  ∙ get_elem?-modify_self bfs 0 g
                  ∙ ap (Option.map g) e,
              path b0 ∙ q,
            )
        | no ne ↦ let (b0, e, q) = v.primero in (b0, get_elem?-modify_ne bfs g ne ∙ e, q)
      ];
      contado = λ j x e. elim (modify-cases bfs i j g x e) [
        | inl (same, y, e', made) ↦
            let yb : b ≡ y = cc (same, at, e') in
            ap (λ (z : BlockFisico). z.blogico_asociados) (made ∙ ap g (sym yb))
            ∙ here
            ∙ ap (λ (z : Texto). pos (n' z))
                (sym (ap (λ (z : BlockFisico). z.path_block) (made ∙ ap g (sym yb)) ∙ path b))
        | inr (ne, e') ↦
            v.contado j x e'
            ∙ ap pos (
                sym (
                  rest x (elim (Bool-cases (texto_eq b.path_block x.path_block)) [
                    | inr other ↦ rw other
                    | inl same ↦ absurd (
                        ne (
                          v.distintos i j b x at e'
                            (texto_eq_sound b.path_block x.path_block same)))
                  ])))
      ];
    }

mas_uno : (a : ℤ) (n m : ℕ) → a ≡ pos n → m ≡ n + 1 → a +ℤ pos 1 ≡ pos m
unfolding ◌+ℤ◌
mas_uno a n m e h = rw (e, h) (ground arith)

menos_uno : (a : ℤ) (n m : ℕ) → a ≡ pos n → n ≡ m + 1 → a -ℤ pos 1 ≡ pos m
unfolding ◌-ℤ◌
menos_uno a n m e h = rw (e, h) (ground arith)

pub Cuenta-sumar :
    (bfs : List BlockFisico) (n n' : Texto → ℕ) (i : ℕ) (b : BlockFisico)
    → Cuenta bfs n
    → get_elem? bfs i ≡ some b
    → ((name : Texto) → n' name ≡ n name + es b.path_block name)
    → Cuenta (modify bfs i sumar_asociado) n'
Cuenta-sumar bfs n n' i b v at h =
    Cuenta-modify bfs n n' v i b sumar_asociado at (λ x. refl)
      (mas_uno b.blogico_asociados (n b.path_block) (n' b.path_block) (v.contado i b at) (
        h b.path_block
        ∙ ap (λ t. n b.path_block + (if t then 1 else 0)) (texto_eq_refl b.path_block)))
      (λ x z. omega (arith, h x.path_block))

pub Cuenta-restar :
    (bfs : List BlockFisico) (n n' : Texto → ℕ) (i : ℕ) (b : BlockFisico)
    → Cuenta bfs n
    → get_elem? bfs i ≡ some b
    → ((name : Texto) → n name ≡ n' name + es b.path_block name)
    → Cuenta (modify bfs i restar_asociado) n'
Cuenta-restar bfs n n' i b v at h =
    Cuenta-modify bfs n n' v i b restar_asociado at (λ x. refl)
      (menos_uno b.blogico_asociados (n b.path_block) (n' b.path_block) (v.contado i b at) (
        h b.path_block
        ∙ ap (λ t. n' b.path_block + (if t then 1 else 0)) (texto_eq_refl b.path_block)))
      (λ x z. omega (arith, h x.path_block))
