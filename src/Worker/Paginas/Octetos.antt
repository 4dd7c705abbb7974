-- ===== src/Worker/Paginas/Octetos.antt =====
-- worker/src/memoria_Interna.c: the bytes that `acceder_memoria` reads and writes. An address of a file:tag is a page and
-- an offset, and the program sees one run of bytes whatever the frames do.

use master_of_files.Base.{
  ℕ, ◌+◌, ◌-◌, ◌*◌, ◌/◌, ◌%◌, ◌≤◌, ◌<◌, ◌≡◌, ◌≢◌, ◌⊎◌, inl, inr, Option, none, some, List, take,
  drop, ◌++◌, length, get_elem?, ℕ_discrete, dec_lt, arith, sym, ◌∙◌, ap, pegar,
  get_elem?-pegar_before, get_elem?-pegar_in, get_elem?-pegar_after, get_elem?-drop, get_elem?-take,
  length-drop, length-take, length-append, get_elem?-append_left, get_elem?-append_right, pagina_de,
  direccion_de,
}
use master_of_files.Base.Texto.{Texto}
use master_of_files.Worker.Memoria.Clave.{Clave}

-- The byte at an offset of a page, and at an address of a file:tag.
abbrev pub octeto : Option (List ℕ) → ℕ → Option ℕ
octeto none o = none
octeto (some b) o = get_elem? b o

abbrev pub Vista : Type 0
Vista = Clave → Option (List ℕ)

abbrev pub byte_en : ℕ → Vista → Texto → Texto → ℕ → Option ℕ
byte_en tam V file tag a = octeto (V (file, tag, a / tam)) (a % tam)

-- The `n` bytes of the file:tag from `dir` are those of `datos`, and nothing else has changed.
pub record Escrito (tam : ℕ) (V V' : Vista) (file tag : Texto) (dir n : ℕ) (datos : List ℕ)
    : Type 0 where
  pub dentro : (j : ℕ) → j < n → byte_en tam V' file tag (dir + j) ≡ get_elem? datos j
  pub antes : (a : ℕ) → a < dir → byte_en tam V' file tag a ≡ byte_en tam V file tag a
  pub tras : (a : ℕ) → dir + n ≤ a → byte_en tam V' file tag a ≡ byte_en tam V file tag a
  pub ajeno : (k : Clave) → (k.0 ≢ file ⊎ k.1 ≢ tag) → V' k ≡ V k

-- `datos` are the `n` bytes of the file:tag from `dir`.
abbrev pub Leido : ℕ → Vista → Texto → Texto → ℕ → ℕ → List ℕ → Type 0
Leido tam V file tag dir n datos =
    (length datos ≡ n) × ((j : ℕ) → j < n → get_elem? datos j ≡ byte_en tam V file tag (dir + j))

module _ (tam : ℕ) (pos : 0 < tam) (file tag : Texto) where
  pub Escrito-nil :
      (V V' : Vista) (dir : ℕ) (datos : List ℕ)
      → ((k : Clave) → V' k ≡ V k)
      → Escrito tam V V' file tag dir 0 datos
  Escrito-nil V V' dir datos same = record {
    dentro = λ j h. absurd (omega arith);
    antes = λ a h. ap (λ z. octeto z (a % tam)) (same (file, tag, a / tam));
    tras = λ a h. ap (λ z. octeto z (a % tam)) (same (file, tag, a / tam));
    ajeno = λ k n. same k;
  }

  pub Escrito-append :
      (V V1 V2 : Vista) (dir m n : ℕ) (datos : List ℕ)
      → Escrito tam V V1 file tag dir m datos
      → Escrito tam V1 V2 file tag (dir + m) n (drop m datos)
      → Escrito tam V V2 file tag dir (m + n) datos
  Escrito-append V V1 V2 dir m n datos p q = record {
    dentro = λ j h. elim (dec_lt j m) [
      | yes lt ↦ q.antes (dir + j) (omega arith) ∙ p.dentro j lt
      | no ge ↦
          let at : dir + j ≡ dir + m + (j - m) = omega arith in
          ap (byte_en tam V2 file tag) at
          ∙ q.dentro (j - m) (omega arith)
          ∙ get_elem?-drop m datos (j - m)
          ∙ ap (λ (i : ℕ). get_elem? datos i) (omega arith)
    ];
    antes = λ a h. q.antes a (omega arith) ∙ p.antes a h;
    tras = λ a h. q.tras a (omega arith) ∙ p.tras a (omega arith);
    ajeno = λ k n. q.ajeno k n ∙ p.ajeno k n;
  }

  module _ (dir n : ℕ) (fits : dir % tam + n ≤ tam) where
    -- The address of byte `j` of a chunk that stays in one page.
    en_pagina : (j : ℕ) → j < n → ((dir + j) / tam ≡ dir / tam) × ((dir + j) % tam ≡ dir % tam + j)
    en_pagina j h =
        let (e, lt) = direccion_de tam dir pos in
        pagina_de tam (dir + j) (dir / tam) (dir % tam + j) (omega arith)
          (ap (λ (x : ℕ). x + j) e ∙ omega arith)

    byte_en_pagina :
        (V : Vista) (j : ℕ)
        → j < n
        → byte_en tam V file tag (dir + j) ≡ octeto (V (file, tag, dir / tam)) (dir % tam + j)
    byte_en_pagina V j h =
        let (p, o) = en_pagina j h in
        ap (λ (x : ℕ). octeto (V (file, tag, x)) ((dir + j) % tam)) p
        ∙ ap (λ (x : ℕ). octeto (V (file, tag, dir / tam)) x) o

    byte_de_pagina :
        (V : Vista) (b : List ℕ) (a : ℕ)
        → V (file, tag, dir / tam) ≡ some b
        → a / tam ≡ dir / tam
        → byte_en tam V file tag a ≡ get_elem? b (a % tam)
    byte_de_pagina V b a e p =
        ap (λ (x : ℕ). octeto (V (file, tag, x)) (a % tam)) p
        ∙ ap (λ (z : Option (List ℕ)). octeto z (a % tam)) e

    distancia :
        (a : ℕ)
        → a / tam ≡ dir / tam
        → (a < dir → a % tam < dir % tam) × (dir + n ≤ a → dir % tam + n ≤ a % tam)
    distancia a p =
        let (e, lt) = direccion_de tam dir pos in
        let (e', lt') = direccion_de tam a pos in
        let e'' : a ≡ dir / tam * tam + a % tam = e' ∙ ap (λ (x : ℕ). x * tam + a % tam) p in
        (λ h. omega arith, λ h. omega arith)

    module _ (V V' : Vista) (datos b : List ℕ) (size : length b ≡ tam) (full : n ≤ length datos)
        (old : V (file, tag, dir / tam) ≡ some b)
        (new : V' (file, tag, dir / tam) ≡ some (pegar (dir % tam) n datos b))
        (rest : (k : Clave) → k ≢ (file, tag, dir / tam) → V' k ≡ V k) where
      room : dir % tam + n ≤ length b
      room = omega arith

      en_otra : (a : ℕ) → a / tam ≢ dir / tam → byte_en tam V' file tag a ≡ byte_en tam V file tag a
      en_otra a ne = ap (λ z. octeto z (a % tam)) (rest (file, tag, a / tam) (λ q. ne (cc q)))

      fuera_de :
          (a : ℕ)
          → ((a % tam < dir % tam) ⊎ (dir % tam + n ≤ a % tam))
          → a / tam ≡ dir / tam
          → byte_en tam V' file tag a ≡ byte_en tam V file tag a
      fuera_de a (inl h) p =
          byte_de_pagina V' _ a new p
          ∙ get_elem?-pegar_before (dir % tam) n datos b room full (a % tam) h
          ∙ sym (byte_de_pagina V b a old p)
      fuera_de a (inr h) p =
          let i = a % tam - (dir % tam + n) in
          let at : a % tam ≡ dir % tam + n + i = omega arith in
          byte_de_pagina V' _ a new p
          ∙ ap (λ (x : ℕ). get_elem? (pegar (dir % tam) n datos b) x) at
          ∙ get_elem?-pegar_after (dir % tam) n datos b room full i
          ∙ ap (λ (x : ℕ). get_elem? b x) (sym at)
          ∙ sym (byte_de_pagina V b a old p)

      -- One chunk.
      pub Escrito-pegar : Escrito tam V V' file tag dir n datos
      Escrito-pegar = record {
        dentro = λ j h.
            byte_en_pagina V' j h
            ∙ ap (λ z. octeto z (dir % tam + j)) new
            ∙ get_elem?-pegar_in (dir % tam) n datos b room full j h;
        antes = λ a h. elim (ℕ_discrete (a / tam) (dir / tam)) [
          | yes p ↦ fuera_de a (inl ((distancia a p).0 h)) p
          | no ne ↦ en_otra a ne
        ];
        tras = λ a h. elim (ℕ_discrete (a / tam) (dir / tam)) [
          | yes p ↦ fuera_de a (inr ((distancia a p).1 h)) p
          | no ne ↦ en_otra a ne
        ];
        ajeno = λ k ne. rest k (λ q. elim ne [ inl x ↦ x (cc q) | inr x ↦ x (cc q) ]);
      }

    pub Leido-pagina :
        (V : Vista) (b : List ℕ)
        → length b ≡ tam
        → V (file, tag, dir / tam) ≡ some b
        → Leido tam V file tag dir n (take n (drop (dir % tam) b))
    Leido-pagina V b size old = (
      omega (arith, length-take n (drop (dir % tam) b), length-drop (dir % tam) b),
      λ j h.
          get_elem?-take n (drop (dir % tam) b) j h
          ∙ get_elem?-drop (dir % tam) b j
          ∙ sym (byte_en_pagina V j h ∙ ap (λ z. octeto z (dir % tam + j)) old),
    )

  pub Leido-append :
      (V V1 : Vista) (dir m n : ℕ) (xs ys : List ℕ)
      → ((k : Clave) → V1 k ≡ V k)
      → Leido tam V file tag dir m xs
      → Leido tam V1 file tag (dir + m) n ys
      → Leido tam V file tag dir (m + n) (xs ++ ys)
  Leido-append V V1 dir m n xs ys same (lx, px) (ly, py) = (
    omega (arith, length-append xs ys),
    λ j h. elim (dec_lt j m) [
      | yes lt ↦ get_elem?-append_left xs ys j (omega arith) ∙ px j lt
      | no ge ↦
          let at : j ≡ length xs + (j - m) = omega arith in
          let to : dir + m + (j - m) ≡ dir + j = omega arith in
          ap (λ (i : ℕ). get_elem? (xs ++ ys) i) at
          ∙ get_elem?-append_right xs ys (j - m)
          ∙ py (j - m) (omega arith)
          ∙ ap (byte_en tam V1 file tag) to
          ∙ ap (λ z. octeto z ((dir + j) % tam)) (same (file, tag, (dir + j) / tam))
    ],
  )
