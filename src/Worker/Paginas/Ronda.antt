-- ===== src/Worker/Paginas/Ronda.antt =====
-- worker/src/memoria_Interna.c: one round of the loop of `acceder_memoria`.
use native.Mathlib.Nat.{mod-eq_of_lt, div-lt_iff_lt-mul}
use master_of_files.Base.{
  ℕ, suc, ◌+◌, ◌-◌, ◌*◌, ◌/◌, ◌%◌, ◌^◌, ◌≤◌, ◌<◌, ◌≡◌, true, false, Option, none, some, List, take,
  drop, ◌++◌, length, get_elem?, arith, sym, ◌∙◌, ap, subst, pegar, if◌then◌else◌, ltb,
  direccion_de, Bool,
}
use master_of_files.Base.Texto.{Texto, tiene}
use master_of_files.Utils.Protocolo.{Conexion, Rc, cero, menos_uno}
use master_of_files.Worker.Memoria.{Marco, Memoria}
use master_of_files.Worker.Memoria.Clave.{clave}
use master_of_files.Worker.Paginas.{traer_pagina, copiar, acceder_desde}
use master_of_files.Worker.Paginas.Vista.{PageStore, vista, Coherente}
use master_of_files.Worker.Paginas.Descarga.{Invisible, Invisible-trans}
use master_of_files.Worker.Paginas.Traer.{traer_pagina-Trae}
use master_of_files.Worker.Paginas.Copia.{vista_en, copiar-escribe, copiar-lee}
use master_of_files.Worker.Paginas.Octetos.{Escrito, Leido, Escrito-pegar, Leido-pagina}

-- The page, the offset and the chunk of one round, as the source computes them.
abbrev pagina_en : ℕ → ℕ → ℕ
pagina_en tam dir = (dir % 2 ^ 64 / tam) % 2 ^ 32

abbrev offset_en : ℕ → ℕ → ℕ
offset_en tam dir = dir % 2 ^ 64 % tam

abbrev pub trozo : ℕ → ℕ → ℕ → ℕ
trozo tam dir restante =
    if ltb restante (tam - offset_en tam dir) then restante else tam - offset_en tam dir

-- Within the bounds the two words of the machine do not wrap, and a chunk stays in its page.
pub record Ronda (ps tam dir n : ℕ) : Type 0 where
  pub pagina : pagina_en ps dir ≡ dir / tam
  pub offset : offset_en ps dir ≡ dir % tam
  pub avanza : 0 < trozo ps dir (suc n)
  pub cabe : trozo ps dir (suc n) ≤ suc n
  pub entra : dir % tam + trozo ps dir (suc n) ≤ tam

Ronda-tam : (tam dir n : ℕ) → 0 < tam → dir < tam * 2 ^ 32 → dir < 2 ^ 64 → Ronda tam tam dir n
Ronda-tam tam dir n pos h h' =
    let small : dir % 2 ^ 64 ≡ dir = mod-eq_of_lt h' in
    let offset : offset_en tam dir ≡ dir % tam = ap (λ (x : ℕ). x % tam) small in
    let (e, lt) = direccion_de tam dir pos in
    record {
      pagina =
          ap (λ (x : ℕ). (x / tam) % 2 ^ 32) small
          ∙ mod-eq_of_lt ((div-lt_iff_lt-mul pos).1 (omega arith));
      offset = offset;
      avanza = ground arith;
      cabe = ground arith;
      entra = ground arith;
    }

ronda_lem :
    (ps tam dir n : ℕ) → ps ≡ tam → 0 < tam → dir < tam * 2 ^ 32 → dir < 2 ^ 64 → Ronda ps tam dir n
ronda_lem ps tam dir n e pos h h' =
    subst (λ (t : ℕ). Ronda t tam dir n) (sym e) (Ronda-tam tam dir n pos h h')

module _ {c : Conexion} {tam : ℕ} (w : PageStore c tam) (tiempo : ℕ → ℕ) (file tag : Texto)
    (pos : 0 < tam) (nombre : tiene b':' file ≡ false) where
  open c use {State}

  -- What a call that writes leaves: a prefix of the input is written, all of it on success, and
  -- nothing else changes.
  abbrev pub Escribe :
      Memoria State → ℕ → ℕ → List ℕ → Option (Rc × List ℕ × Memoria State) → Type 0
  Escribe r dir size entrada o =
      (rc : Rc) × (salida : List ℕ) × (r' : Memoria State) × (hecho : ℕ) × (o
        ≡ some (rc, salida, r'))
      × Coherente w r'
      × (hecho ≤ size)
      × (rc ≡ cero → hecho ≡ size)
      × Escrito tam (vista w r) (vista w r') file tag dir hecho entrada

  -- What a call that reads leaves: a prefix of the bytes, all of them on success, and no change that
  -- a program sees.
  abbrev pub Lee : Memoria State → ℕ → ℕ → List ℕ → Option (Rc × List ℕ × Memoria State) → Type 0
  Lee r dir size salida o =
      (rc : Rc) × (datos : List ℕ) × (r' : Memoria State) × (hecho : ℕ) × (o
        ≡ some (rc, salida ++ datos, r'))
      × Invisible w r r'
      × (hecho ≤ size)
      × (rc ≡ cero → hecho ≡ size)
      × Leido tam (vista w r) file tag dir hecho datos

  module _ (fuel : ℕ) (r : Memoria State) (dir n : ℕ) (entrada salida : List ℕ) where
    pub traida : Option ℕ × Memoria State
    traida = traer_pagina c tiempo r file tag (pagina_en r.page_size dir)

    pub copiada : ℕ → Bool → Memoria State × List ℕ
    copiada i escribir =
        copiar c tiempo traida.1 i (offset_en r.page_size dir) (trozo r.page_size dir (suc n))
          escribir entrada

    pub fallo :
        (escribir : Bool)
        → traida.0 ≡ none
        → acceder_desde c tiempo (suc fuel) r file tag dir (suc n) escribir entrada salida
          ≡ some (menos_uno, salida, traida.1)
    unfolding acceder_desde traida
    fallo escribir e = rw (e, acceder_desde)

    pub sigue :
        (escribir : Bool) (i : ℕ)
        → traida.0 ≡ some i
        → acceder_desde c tiempo (suc fuel) r file tag dir (suc n) escribir entrada salida
          ≡ acceder_desde c tiempo fuel
              (copiada i escribir).0
              file
              tag
              (dir + trozo r.page_size dir (suc n))
              (suc n - trozo r.page_size dir (suc n))
              escribir
              (drop (trozo r.page_size dir (suc n)) entrada)
              (salida ++ (copiada i escribir).1)
    unfolding acceder_desde traida copiada
    sigue escribir i e = rw (e, acceder_desde)

    module _ (v : Coherente w r) (small : dir < tam * 2 ^ 32) (small' : dir < 2 ^ 64) where
      pub ronda : Ronda r.page_size tam dir n
      ronda = ronda_lem r.page_size tam dir n v.tamano pos small small'

      pub trae_lem :
          Invisible w r traida.1
          × ((i : ℕ)
              → traida.0 ≡ some i
              → (f : Marco) × (get_elem? traida.1.frames i ≡ some f)
                × (clave f ≡ some (file, tag, pagina_en r.page_size dir)))
      unfolding traida
      trae_lem = traer_pagina-Trae w tiempo r (file, tag, pagina_en r.page_size dir) v nombre

      -- One round of a write.
      pub escribe_ronda :
          (i : ℕ)
          → traida.0 ≡ some i
          → trozo r.page_size dir (suc n) ≤ length entrada
          → Coherente w (copiada i true).0
            × Escrito tam
                (vista w r)
                (vista w (copiada i true).0)
                file
                tag
                dir
                (trozo r.page_size dir (suc n))
                entrada
      unfolding copiada
      escribe_ronda i e full =
          let (seen, has) = trae_lem in
          let (f, at, q) = has i e in
          let off : offset_en r.page_size dir ≡ dir % tam = ronda.offset in
          let (v', new, rest) =
            copiar-escribe w tiempo traida.1 i f (file, tag, pagina_en r.page_size dir) seen.0 at q
              (offset_en r.page_size dir) (trozo r.page_size dir (suc n)) entrada
              (subst (λ (x : ℕ). x + trozo r.page_size dir (suc n) ≤ tam) (sym off) ronda.entra)
              full in
          let old =
            sym (seen.1 (file, tag, pagina_en r.page_size dir))
            ∙ vista_en w traida.1 i f (file, tag, pagina_en r.page_size dir) seen.0 at q in
          (
            v',
            Escrito-pegar tam pos file tag dir (trozo r.page_size dir (suc n)) ronda.entra
                (vista w r) _ entrada f.base (seen.0.medidas i f at) full
                (ap (λ (x : ℕ). vista w r (file, tag, x)) (sym ronda.pagina) ∙ old)
                (ap (λ (x : ℕ). vista w (copiada i true).0 (file, tag, x)) (sym ronda.pagina)
                  ∙ new
                  ∙ ap (λ (x : ℕ). some (pegar x (trozo r.page_size dir (suc n)) entrada f.base))
                      off)
                (λ k ne.
                  rest k (λ e. ne (e ∙ ap (λ (x : ℕ). (file, tag, x)) ronda.pagina)) ∙ seen.1 k),
          )

      -- One round of a read.
      pub lee_ronda :
          (i : ℕ)
          → traida.0 ≡ some i
          → Invisible w r (copiada i false).0
            × Leido tam (vista w r) file tag dir (trozo r.page_size dir (suc n)) (copiada i false).1
      unfolding copiada
      lee_ronda i e =
          let (seen, has) = trae_lem in
          let (f, at, q) = has i e in
          let (seen', got) =
            copiar-lee w tiempo traida.1 i f (file, tag, pagina_en r.page_size dir) seen.0 at q
              (offset_en r.page_size dir) (trozo r.page_size dir (suc n)) entrada in
          let old =
            sym (seen.1 (file, tag, pagina_en r.page_size dir))
            ∙ vista_en w traida.1 i f (file, tag, pagina_en r.page_size dir) seen.0 at q in
          (
            Invisible-trans w r traida.1 _ seen seen',
            subst (Leido tam (vista w r) file tag dir (trozo r.page_size dir (suc n)))
                (ap (λ (x : ℕ). take (trozo r.page_size dir (suc n)) (drop x f.base))
                    (sym ronda.offset)
                  ∙ sym got)
                (Leido-pagina tam pos file tag dir (trozo r.page_size dir (suc n)) ronda.entra
                  (vista w r) f.base (seen.0.medidas i f at)
                  (ap (λ (x : ℕ). vista w r (file, tag, x)) (sym ronda.pagina) ∙ old)),
          )
