-- ===== src/Worker/Paginas/Vista.antt =====
-- worker/src/memoria_Interna.c: the pages that a program sees through the internal memory. The
-- frames stand in front of what Storage holds; a page in a frame hides the one in Storage.
use master_of_files.Base.{
  ℕ, ◌≤◌, ◌≡◌, sym, ◌∙◌, ◌≢◌, inl, inr, true, false, Option, none, some, List, take, length,
  get_elem?, modify, modify-cases, ap, find_index, find_index_sound, find_index-none, Option-cases,
}
use master_of_files.Base.Texto.{Texto, tiene}
use master_of_files.Utils.Protocolo.{Conexion, op_st_read_block, op_st_write_block, op_resp_ok}
use master_of_files.Worker.Memoria.{Marco, Memoria, frame_matchea}
use master_of_files.Worker.Memoria.Clave.{Clave, clave, frame_matchea→clave, clave→frame_matchea}
use master_of_files.Worker.Paginas.{file_tag}

-- What the memory relies on: Storage as a map of pages of `tam` bytes. A read changes no page and
-- gives the page that is held; a write that is confirmed replaces that page alone, and one that is
-- not changes nothing. The name of a read is `file:tag`, which is read up to its first colon.
-- `Sano` is the state of Storage in which it works so.
pub record PageStore (c : Conexion) (tam : ℕ) : Type 1 where
  pub Sano : c.State → Type 0
  pub contenido : c.State → Clave → Option (List ℕ)
  pub leer-Sano :
      (s : c.State) (q p : ℕ) (file tag : Texto)
      → Sano s
      → Sano (c.pedir s (op_st_read_block q (file_tag file tag) p)).1
  pub leer-contenido :
      (s : c.State) (q p : ℕ) (file tag : Texto) (k : Clave)
      → Sano s
      → contenido (c.pedir s (op_st_read_block q (file_tag file tag) p)).1 k ≡ contenido s k
  pub leer_ok :
      (s : c.State) (q p : ℕ) (file tag : Texto)
      → Sano s
      → tiene b':' file ≡ false
      → let r = (c.pedir s (op_st_read_block q (file_tag file tag) p)).0 in
        r.op_resp ≡ some op_resp_ok
        → tam ≤ length r.datos
        → contenido s (file, tag, p) ≡ some (take tam r.datos)
  pub escribir-Sano :
      (s : c.State) (q p n : ℕ) (file tag : Texto) (datos : List ℕ)
      → Sano s
      → Sano (c.pedir s (op_st_write_block q file tag p n datos)).1
  pub escribir_ok :
      (s : c.State) (q p : ℕ) (file tag : Texto) (datos : List ℕ)
      → Sano s
      → length datos ≡ tam
      → (c.pedir s (op_st_write_block q file tag p tam datos)).0.op_resp ≡ some op_resp_ok
      → contenido (c.pedir s (op_st_write_block q file tag p tam datos)).1 (file, tag, p)
        ≡ some datos
  pub escribir_otra :
      (s : c.State) (q p n : ℕ) (file tag : Texto) (datos : List ℕ) (k : Clave)
      → Sano s
      → k ≢ (file, tag, p)
      → contenido (c.pedir s (op_st_write_block q file tag p n datos)).1 k ≡ contenido s k
  pub escribir_mal :
      (s : c.State) (q p n : ℕ) (file tag : Texto) (datos : List ℕ) (k : Clave)
      → Sano s
      → (c.pedir s (op_st_write_block q file tag p n datos)).0.op_resp ≢ some op_resp_ok
      → contenido (c.pedir s (op_st_write_block q file tag p n datos)).1 k ≡ contenido s k

module _ {c : Conexion} {tam : ℕ} (w : PageStore c tam) where
  open c use {State}

  -- The page `k` as a program sees it: in its frame, or else in Storage.
  abbrev pub vista : Memoria State → Clave → Option (List ℕ)
  vista r k = elim (find_index (λ f. frame_matchea f k.0 k.1 k.2) r.frames) [
    | none ↦ w.contenido r.storage k
    | some i ↦ elim (get_elem? r.frames i) [ none ↦ none | some f ↦ some f.base ]
  ]

  abbrev pub Unicas : List Marco → Type 0
  Unicas fs =
      (i j : ℕ) (f g : Marco) (k : Clave)
      → get_elem? fs i ≡ some f
      → get_elem? fs j ≡ some g
      → clave f ≡ some k
      → clave g ≡ some k
      → i ≡ j

  abbrev pub Ausente : List Marco → Clave → Type 0
  Ausente fs k = (i : ℕ) (f : Marco) → get_elem? fs i ≡ some f → clave f ≢ some k

  -- A change of one frame that takes over no page.
  pub modify-Ausente :
      (fs : List Marco) (i : ℕ) (g : Marco → Marco) (k : Clave)
      → ((f : Marco) → clave (g f) ≡ some k → clave f ≡ some k)
      → Ausente fs k
      → Ausente (modify fs i g) k
  modify-Ausente fs i g k keep absent j h e q = elim (modify-cases fs i j g h e) [
    | inl (same, x, at, made) ↦ absent j x at (keep x (ap clave (sym made) ∙ q))
    | inr (n, at) ↦ absent j h at q
  ]

  -- The two ways in which a page is seen.
  pub data Ve (r : Memoria State) (k : Clave) (o : Option (List ℕ)) : Type 0 where
    en :
        (i : ℕ) (f : Marco)
        → get_elem? r.frames i ≡ some f
        → clave f ≡ some k
        → o ≡ some f.base
        → Ve r k o
    fuera : Ausente r.frames k → o ≡ w.contenido r.storage k → Ve r k o

  pub Ausente-of_none :
      (fs : List Marco) (k : Clave)
      → find_index (λ f. frame_matchea f k.0 k.1 k.2) fs ≡ none
      → Ausente fs k
  Ausente-of_none fs k e i f g h =
      let a = find_index-none (λ f. frame_matchea f k.0 k.1 k.2) fs i f e g in
      cc (a, clave→frame_matchea f k h)

  pub Ve-total : (r : Memoria State) (k : Clave) → Ve r k (vista r k)
  Ve-total r k = elim (Option-cases (find_index (λ f. frame_matchea f k.0 k.1 k.2) r.frames)) [
    | inl e ↦ fuera (Ausente-of_none r.frames k e) (rw (e, vista))
    | inr (i, e) ↦
        let (f, g, m) = find_index_sound (λ f. frame_matchea f k.0 k.1 k.2) r.frames i e in
        en i f g (frame_matchea→clave f k.0 k.1 k.2 m) (rw (e, vista) (rw g))
  ]

  pub Ve-unique :
      (r : Memoria State) (k : Clave) (o : Option (List ℕ))
      → Unicas r.frames
      → Ve r k o
      → vista r k ≡ o
  Ve-unique r k o u (en i f g h e) = go (Ve-total r k)
    where
      go : Ve r k (vista r k) → vista r k ≡ o
      go (en j f' g' h' e') = let same = u i j f f' k g g' h h' in cc (same, g, g', e, e')
      go (fuera a e') = absurd (a i f g h)
  Ve-unique r k o u (fuera a e) = go (Ve-total r k)
    where
      go : Ve r k (vista r k) → vista r k ≡ o
      go (en j f' g' h' e') = absurd (a j f' g' h')
      go (fuera a' e') = e' ∙ sym e

  -- The invariant of the memory: frames of one page each, no page in two frames, an unmodified
  -- frame holds what Storage holds, and a modified one in use has its names.
  pub record Coherente (r : Memoria State) : Type 0 where
    pub sano : w.Sano r.storage
    pub tamano : r.page_size ≡ tam
    pub medidas : (i : ℕ) (f : Marco) → get_elem? r.frames i ≡ some f → length f.base ≡ tam
    pub unicas : Unicas r.frames
    pub limpias :
        (i : ℕ) (f : Marco) (k : Clave)
        → get_elem? r.frames i ≡ some f
        → clave f ≡ some k
        → f.dirty ≡ false
        → w.contenido r.storage k ≡ some f.base
    pub nombradas :
        (i : ℕ) (f : Marco)
        → get_elem? r.frames i ≡ some f
        → f.libre ≡ false
        → f.dirty ≡ true
        → (k : Clave) × (clave f ≡ some k)
