-- ===== src/Worker/Paginas/Copia.antt =====
-- worker/src/memoria_Interna.c: what a copy of bytes into a frame, or out of it, does to the pages
-- that a program sees.
use mathlib.Core.Option
use master_of_files.Base.{
  ℕ, ◌+◌, ◌≤◌, ◌≡◌, refl, ◌≢◌, inl, inr, true, false, some, List, take, drop, length, get_elem?,
  modify, modify-cases, get_elem?-modify_self, get_elem?-modify_ne, ℕ_discrete, arith, sym, ◌∙◌, ap,
  pegar, length-pegar,
}
use master_of_files.Utils.Protocolo.{Conexion}
use master_of_files.Worker.Memoria.{Marco, Memoria}
use master_of_files.Worker.Memoria.Clave.{Clave, clave}
use master_of_files.Worker.Paginas.{tocar, copiar}
use master_of_files.Worker.Paginas.Vista.{
  PageStore, vista, Ve, en, fuera, Ve-total, Ve-unique, Coherente,
}
use master_of_files.Worker.Paginas.Cambios.{tocar-Paso}
use master_of_files.Worker.Paginas.Descarga.{Invisible, Paso-Invisible}

module _ {c : Conexion} {tam : ℕ} (w : PageStore c tam) where
  open c use {State}

  -- A page in a frame is seen there.
  pub vista_en :
      (r : Memoria State) (i : ℕ) (f : Marco) (k : Clave)
      → Coherente w r
      → get_elem? r.frames i ≡ some f
      → clave f ≡ some k
      → vista w r k ≡ some f.base
  vista_en r i f k v at q = Ve-unique w r k (some f.base) v.unicas (en i f at q refl)

  module _ (r r' : Memoria State) (i : ℕ) (f : Marco) (g : Marco → Marco) (k : Clave)
      (v : Coherente w r) (at : get_elem? r.frames i ≡ some f) (q : clave f ≡ some k)
      (kk : (x : Marco) → clave (g x) ≡ clave x) (dd : (g f).dirty ≡ true)
      (size : length (g f).base ≡ tam) (marcos : r'.frames ≡ modify r.frames i g)
      (mismo : r'.page_size ≡ r.page_size) (s : r'.storage ≡ r.storage) where
    aqui : get_elem? r'.frames i ≡ some (g f)
    aqui =
        ap (λ fs. get_elem? fs i) marcos ∙ get_elem?-modify_self r.frames i g ∙ ap (Option.map g) at

    -- A frame of the new memory has the key of the old one in its place.
    antes :
        (j : ℕ) (h : Marco)
        → get_elem? r'.frames j ≡ some h
        → (x : Marco) × (get_elem? r.frames j ≡ some x) × (clave h ≡ clave x)
    antes j h e = elim (modify-cases r.frames i j g h (rw (← marcos) e)) [
      | inl (same, x, e', made) ↦ (x, e', ap clave made ∙ kk x)
      | inr (n, e') ↦ (h, e', refl)
    ]

    otra : (j : ℕ) → i ≢ j → get_elem? r'.frames j ≡ get_elem? r.frames j
    otra j n = ap (λ fs. get_elem? fs j) marcos ∙ get_elem?-modify_ne r.frames g n

    escrito-Coherente : Coherente w r'
    escrito-Coherente = record {
      sano = rw s v.sano;
      tamano = mismo ∙ v.tamano;
      medidas = λ j h e. elim (ℕ_discrete i j) [
        | yes same ↦
            let gh : g f ≡ h = cc (same, aqui, e) in
            ap (λ (z : Marco). length z.base) (sym gh) ∙ size
        | no n ↦ v.medidas j h (sym (otra j n) ∙ e)
      ];
      unicas = λ a b x y k' ea eb ka kb.
          let (x', ea', qa) = antes a x ea in
          let (y', eb', qb) = antes b y eb in
          v.unicas a b x' y' k' ea' eb' (sym qa ∙ ka) (sym qb ∙ kb);
      limpias = λ j h k' e q' d. elim (ℕ_discrete i j) [
        | yes same ↦
            let gh : g f ≡ h = cc (same, aqui, e) in
            let d' = ap (λ (z : Marco). z.dirty) gh in absurd (cc (d', dd, d))
        | no n ↦ rw s (v.limpias j h k' (sym (otra j n) ∙ e) q' d)
      ];
      nombradas = λ j h e l d. elim (ℕ_discrete i j) [
        | yes same ↦ let gh : g f ≡ h = cc (same, aqui, e) in (k, ap clave (sym gh) ∙ kk f ∙ q)
        | no n ↦ v.nombradas j h (sym (otra j n) ∙ e) l d
      ];
    }

    otra-Ve : (k' : Clave) → k' ≢ k → Ve w r k' (vista w r k') → Ve w r' k' (vista w r k')
    otra-Ve k' n (en j h e q' o) = elim (ℕ_discrete i j) [
      | yes same ↦ let fh : f ≡ h = cc (same, at, e) in absurd (n (cc (fh, q, q')))
      | no m ↦ en j h (otra j m ∙ e) q' o
    ]
    otra-Ve k' n (fuera absent o) =
        fuera (λ j h e q'. let (x, e', same) = antes j h e in absent j x e' (sym same ∙ q'))
          (rw s o)

    -- A change of the bytes of a frame changes its page, and no other.
    pub escrito_lem :
        Coherente w r'
        × (vista w r' k ≡ some (g f).base)
        × ((k' : Clave) → k' ≢ k → vista w r' k' ≡ vista w r k')
    escrito_lem = (
      escrito-Coherente,
      vista_en r' i (g f) k escrito-Coherente aqui (kk f ∙ q),
      λ k' n.
          Ve-unique w r' k' (vista w r k') escrito-Coherente.unicas
            (otra-Ve k' n (Ve-total w r k')),
    )

  module _ (tiempo : ℕ → ℕ) (r : Memoria State) (i : ℕ) (f : Marco) (k : Clave) (v : Coherente w r)
      (at : get_elem? r.frames i ≡ some f) (q : clave f ≡ some k) (offset chunk : ℕ)
      (entrada : List ℕ) where
    -- A write of a chunk replaces those bytes of the page.
    pub copiar-escribe :
        offset + chunk ≤ tam
        → chunk ≤ length entrada
        → let r' = (copiar c tiempo r i offset chunk true entrada).0 in
          Coherente w r'
          × (vista w r' k ≡ some (pegar offset chunk entrada f.base))
          × ((k' : Clave) → k' ≢ k → vista w r' k' ≡ vista w r k')
    unfolding copiar clave
    copiar-escribe fits full =
        escrito_lem r _ i f _ k v at q (λ x. refl) refl
          (length-pegar offset chunk entrada f.base (omega (arith, v.medidas i f at)) full
            ∙ v.medidas i f at)
          refl refl refl

    -- A read is not seen, and gives the bytes of the page.
    pub copiar-lee :
        Invisible w r (copiar c tiempo r i offset chunk false entrada).0
        × ((copiar c tiempo r i offset chunk false entrada).1 ≡ take chunk (drop offset f.base))
    unfolding copiar clave
    copiar-lee = (
      Paso-Invisible w v (
          tocar-Paso w r _ i f (tocar (tiempo r.instante)) v at refl refl refl refl refl refl refl),
      rw at,
    )
