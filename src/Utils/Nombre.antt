-- ===== src/Utils/Nombre.antt =====
-- utils/src/utils/hello.c: `split_file_tag`.
use master_of_files.Base.{
  ◌≡◌, refl, false, Option, none, some, [], ◌∷◌, ◌++◌, ◌==◌, if◌then◌else◌, arith, Bool-cases, inl,
  inr, Option-cases,
}
use master_of_files.Base.Texto.{Texto, tiene}

-- The name up to the first colon, and what follows it; `none` where there is no colon.
unfoldable pub split_file_tag : Texto → Option (Texto × Texto)
split_file_tag [] = none
split_file_tag (c ∷ cs) =
    if c == b':'
    then some ([], cs)
    else elim (split_file_tag cs) [ none ↦ none | some (file, tag) ↦ some (c ∷ file, tag) ]

-- A name that was made of a file with no colon and a tag is split into the two.
pub split_file_tag_made :
    (file tag : Texto)
    → tiene b':' file ≡ false
    → split_file_tag (file ++ b':' ∷ tag) ≡ some (file, tag)
unfolding split_file_tag tiene
split_file_tag_made [] tag h = refl
split_file_tag_made (c ∷ cs) tag h = elim (Bool-cases (c == b':')) [
  | inl e ↦ absurd (ground arith)
  | inr e ↦ rw (e, split_file_tag_made cs tag (ground arith)) refl
]

-- What a name is split into makes the name again, and its file has no colon.
pub split_file_tag_sound :
    (name file tag : Texto)
    → split_file_tag name ≡ some (file, tag)
    → (name ≡ file ++ b':' ∷ tag) × (tiene b':' file ≡ false)
unfolding split_file_tag tiene
split_file_tag_sound [] file tag h = cc
split_file_tag_sound (c ∷ cs) file tag h = elim (Bool-cases (c == b':')) [
  | inl e ↦ ground arith
  | inr e ↦ elim (Option-cases (split_file_tag cs)) [
    | inl n ↦ absurd (ground arith)
    | inr ((f, t), s) ↦ ground (arith, split_file_tag_sound cs f t s)
  ]
]
