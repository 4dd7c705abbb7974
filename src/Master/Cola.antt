-- ===== src/Master/Cola.antt =====
-- master/src/master_planificacion.c: the READY queue under priorities, over what `list_sort` of the
-- commons library documents.
use master_of_files.Base.{ℕ, suc, ◌≡◌, ◌↔◌, Bool, true, false, some, List, get_elem?}
use master_of_files.Master.Datos.{Master}

-- An address stands somewhere in a queue.
abbrev pub Esta : ℕ → List ℕ → Type 0
Esta a xs = (k : ℕ) × (get_elem? xs k ≡ some a)

-- What the library documents: the same elements, none right before one that should go before it, where
-- the comparison never holds both ways.
pub record Ordena (list_sort : (ℕ → ℕ → Bool) → List ℕ → List ℕ) : Type 0 where
  pub mismos : (cmp : ℕ → ℕ → Bool) (xs : List ℕ) (a : ℕ) → Esta a (list_sort cmp xs) ↔ Esta a xs
  pub en_orden :
      (cmp : ℕ → ℕ → Bool) (xs : List ℕ) (j a b : ℕ)
      → ((x y : ℕ) → cmp x y ≡ true → cmp y x ≡ false)
      → get_elem? (list_sort cmp xs) j ≡ some a
      → get_elem? (list_sort cmp xs) (suc j) ≡ some b
      → cmp b a ≡ false
