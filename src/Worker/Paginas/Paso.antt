-- ===== src/Worker/Paginas/Paso.antt =====
-- worker/src/memoria_Interna.c: a change of one frame, and of what Storage holds of its page, that no
-- program can see. Each operation of the memory is a sequence of such changes.
use master_of_files.Base.{
  ℕ, ◌≡◌, ◌∙◌, sym, ◌≢◌, ◌⊎◌, inl, inr, true, false, some, length, get_elem?, modify,
  get_elem?-modify_self, get_elem?-modify_ne, Bool-cases, ap, ℕ_discrete,
}
use mathlib.Core.Option
use master_of_files.Utils.Protocolo.{Conexion}
use master_of_files.Worker.Memoria.{Marco, Memoria, frame_matchea}
use master_of_files.Worker.Memoria.Clave.{Clave, clave, frame_matchea→clave, clave→frame_matchea}
use master_of_files.Worker.Paginas.Vista.{
  PageStore, vista, Ve, en, fuera, Ve-total, Ve-unique, Unicas, Ausente, Coherente,
}

module _ {c : Conexion} {tam : ℕ} (w : PageStore c tam) where
  open c use {State}

  -- Frame `i`, which was `f`, becomes `g f`. Its old page stays there or is in Storage; a page that
  -- it takes over was the one in Storage.
  pub record Paso (r r' : Memoria State) (i : ℕ) (f : Marco) (g : Marco → Marco) : Type 0 where
    pub lugar : get_elem? r.frames i ≡ some f
    pub marcos : r'.frames ≡ modify r.frames i g
    pub mismo_tamano : r'.page_size ≡ r.page_size
    pub sano : w.Sano r'.storage
    pub resto : (k : Clave) → clave f ≢ some k → w.contenido r'.storage k ≡ w.contenido r.storage k
    pub medida : length (g f).base ≡ tam
    pub viejo :
        (k : Clave)
        → clave f ≡ some k
        → ((clave (g f) ≡ some k) × ((g f).base ≡ f.base))
          ⊎ ((clave (g f) ≢ some k) × (w.contenido r'.storage k ≡ some f.base))
    pub nuevo :
        (k : Clave)
        → clave (g f) ≡ some k
        → (clave f ≡ some k) ⊎ (Ausente w r.frames k × (w.contenido r.storage k ≡ some (g f).base))
    pub limpia :
        (k : Clave)
        → clave (g f) ≡ some k
        → (g f).dirty ≡ false
        → w.contenido r'.storage k ≡ some (g f).base
    pub nombrada : (g f).libre ≡ false → (g f).dirty ≡ true → (k : Clave) × (clave (g f) ≡ some k)

  module _ {r r' : Memoria State} {i : ℕ} {f : Marco} {g : Marco → Marco} (v : Coherente w r)
      (p : Paso r r' i f g) where
    pub nuevo_marco : get_elem? r'.frames i ≡ some (g f)
    nuevo_marco =
        ap (λ fs. get_elem? fs i) p.marcos
        ∙ get_elem?-modify_self r.frames i g
        ∙ ap (Option.map g) p.lugar

    otro_marco : (j : ℕ) → i ≢ j → get_elem? r'.frames j ≡ get_elem? r.frames j
    otro_marco j n = ap (λ fs. get_elem? fs j) p.marcos ∙ get_elem?-modify_ne r.frames g n

    -- A frame of the new memory is the changed one, or an old one elsewhere.
    marco_de :
        (j : ℕ) (h : Marco)
        → get_elem? r'.frames j ≡ some h
        → ((i ≡ j) × (h ≡ g f)) ⊎ ((i ≢ j) × (get_elem? r.frames j ≡ some h))
    marco_de j h e = elim (ℕ_discrete i j) [
      | yes q ↦ inl (q, cc (q, nuevo_marco, e))
      | no n ↦ inr (n, sym (otro_marco j n) ∙ e)
    ]

    ajena :
        (j : ℕ) (h : Marco) (k : Clave)
        → i ≢ j
        → get_elem? r.frames j ≡ some h
        → clave h ≡ some k
        → clave f ≢ some k
    ajena j h k n e q q' = n (v.unicas i j f h k p.lugar e q' q)

    Paso-Unicas : Unicas w r'.frames
    Paso-Unicas a b x y k ea eb ka kb = elim (marco_de a x ea) [
      | inl (ia, ga) ↦ elim (marco_de b y eb) [
        | inl (ib, gb) ↦ sym ia ∙ ib
        | inr (nb, eb') ↦ elim (p.nuevo k (ap clave (sym ga) ∙ ka)) [
          | inl old ↦ absurd (ajena b y k nb eb' kb old)
          | inr (absent, s) ↦ absurd (absent b y eb' kb)
        ]
      ]
      | inr (na, ea') ↦ elim (marco_de b y eb) [
        | inl (ib, gb) ↦ elim (p.nuevo k (ap clave (sym gb) ∙ kb)) [
          | inl old ↦ absurd (ajena a x k na ea' ka old)
          | inr (absent, s) ↦ absurd (absent a x ea' ka)
        ]
        | inr (nb, eb') ↦ v.unicas a b x y k ea' eb' ka kb
      ]
    ]

    -- The change keeps the invariant.
    pub Paso-Coherente : Coherente w r'
    Paso-Coherente = record {
      sano = p.sano;
      tamano = p.mismo_tamano ∙ v.tamano;
      medidas = λ j h e. elim (marco_de j h e) [
        | inl (q, same) ↦ ap (λ (z : Marco). length z.base) same ∙ p.medida
        | inr (n, e') ↦ v.medidas j h e'
      ];
      unicas = Paso-Unicas;
      limpias = λ j h k e q d. elim (marco_de j h e) [
        | inl (_, same) ↦
            p.limpia k (ap clave (sym same) ∙ q) (ap (λ (z : Marco). z.dirty) (sym same) ∙ d)
            ∙ ap (λ (z : Marco). some z.base) (sym same)
        | inr (n, e') ↦ p.resto k (ajena j h k n e' q) ∙ v.limpias j h k e' q d
      ];
      nombradas = λ j h e l d. elim (marco_de j h e) [
        | inl (_, same) ↦
            let (k, q) =
              p.nombrada (ap (λ (z : Marco). z.libre) (sym same) ∙ l)
                (ap (λ (z : Marco). z.dirty) (sym same) ∙ d) in
            (k, ap clave same ∙ q)
        | inr (n, e') ↦ v.nombradas j h e' l d
      ];
    }

    pub sin_clave :
        (k : Clave)
        → clave (g f) ≢ some k
        → (clave f ≡ some k ⊎ Ausente w r.frames k)
        → Ausente w r'.frames k
    sin_clave k n old j h e q = elim (marco_de j h e) [
      | inl (_, same) ↦ n (ap clave (sym same) ∙ q)
      | inr (m, e') ↦ elim old [ inl here ↦ ajena j h k m e' q here | inr absent ↦ absent j h e' q ]
    ]

    Paso-Ve : (k : Clave) → Ve w r k (vista w r k) → Ve w r' k (vista w r k)
    Paso-Ve k (en j h e q o) = elim (ℕ_discrete i j) [
      | no n ↦ en j h (otro_marco j n ∙ e) q o
      | yes same ↦
          let fh : f ≡ h = cc (same, p.lugar, e) in
          elim (p.viejo k (ap clave fh ∙ q)) [
            | inl (stay, content) ↦
                en i (g f) nuevo_marco stay
                  (o ∙ ap (λ (z : Marco). some z.base) (sym fh) ∙ ap some (sym content))
            | inr (gone, written) ↦
                fuera (sin_clave k gone (inl (ap clave fh ∙ q)))
                  (o ∙ ap (λ (z : Marco). some z.base) (sym fh) ∙ sym written)
          ]
    ]
    Paso-Ve k (fuera absent o) = elim (Bool-cases (frame_matchea (g f) k.0 k.1 k.2)) [
      | inl hit ↦
          let q = frame_matchea→clave (g f) k.0 k.1 k.2 hit in
          elim (p.nuevo k q) [
            | inl old ↦ absurd (absent i f p.lugar old)
            | inr (_, held) ↦ en i (g f) nuevo_marco q (o ∙ held)
          ]
      | inr miss ↦
          fuera (sin_clave k (λ q. cc (miss, clave→frame_matchea (g f) k q)) (inr absent))
            (o ∙ sym (p.resto k (absent i f p.lugar)))
    ]

    -- No program sees the change.
    pub vista-Paso : (k : Clave) → vista w r' k ≡ vista w r k
    vista-Paso k = Ve-unique w r' k (vista w r k) Paso-Unicas (Paso-Ve k (Ve-total w r k))
