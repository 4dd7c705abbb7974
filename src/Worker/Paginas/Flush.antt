-- ===== src/Worker/Paginas/Flush.antt =====
-- worker/src/memoria_Interna.c: the flush of a file:tag (`flush_filetag`).

use master_of_files.Base.{ℕ, ◌+◌, ◌≤◌, ◌<◌, ◌≡◌, true, false, some, List, get_elem?}
use master_of_files.Base.Texto.{Texto}
use master_of_files.Utils.Protocolo.{Conexion, Rc, cero}
use master_of_files.Worker.Memoria.{Marco, Memoria}
use master_of_files.Worker.Paginas.{sucio_de}
use master_of_files.Worker.Paginas.Vista.{PageStore}
use master_of_files.Worker.Paginas.Descarga.{Invisible}

module _ {c : Conexion} {tam : ℕ} (w : PageStore c tam) (tiempo : ℕ → ℕ) (file tag : Texto) where
  open c use {State}

  -- No frame from `i` on, for `n` frames, has unsaved changes of the file:tag.
  abbrev pub Guardado : List Marco → ℕ → ℕ → Type 0
  Guardado fs i n =
      (j : ℕ) (f : Marco)
      → i ≤ j
      → j < i + n
      → get_elem? fs j ≡ some f
      → sucio_de file tag f ≡ false

  -- What a flush keeps of the frames: those without unsaved changes stay so.
  abbrev pub Conserva : List Marco → List Marco → Type 0
  Conserva fs gs =
      (j : ℕ) (g : Marco)
      → get_elem? gs j ≡ some g
      → sucio_de file tag g ≡ true
      → (f : Marco) × (get_elem? fs j ≡ some f) × (sucio_de file tag f ≡ true)

  -- The result of the loop from frame `i`.
  abbrev pub Vacia : Memoria State → ℕ → ℕ → Rc × Memoria State → Type 0
  Vacia r i n (rc, r') =
      Invisible w r r' × (rc ≡ cero → Guardado r'.frames i n × Conserva r.frames r'.frames)
