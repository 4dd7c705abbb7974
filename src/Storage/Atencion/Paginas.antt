-- ===== src/Storage/Atencion/Paginas.antt =====
-- storage/src/atencion_worker.c: the pages that the requests of a Worker read and write, as a map from file,
-- tag and number to bytes.
use master_of_files.Base.{
  ℕ, zero, suc, ◌<◌, ◌≡◌, refl, ◌≢◌, inl, inr, ◌^◌, true, false, Option, none, some, List, [], ◌∷◌,
  if◌then◌else◌, take, get_elem?, sym, ◌∙◌, ap, Bool-cases, Option-cases,
}
use master_of_files.Base.Texto.{Texto, texto_eq, texto_eq_sound, texto_eq_refl}
use master_of_files.Worker.Memoria.Clave.{Clave}
use master_of_files.Storage.Datos.{BlockLogico, Tag, Storage, buscar_tag, enlace_de}
use master_of_files.Storage.Bloques.{archivo_de, guardar_archivo, get_contenido}

-- The logical block of a page.
abbrev pub bloque_en : Option Tag → ℕ → Option BlockLogico
bloque_en none p = none
bloque_en (some t) p = get_elem? t.lista_block_logicos p

abbrev pub bloque_de : Storage → Clave → Option BlockLogico
bloque_de s k = bloque_en (buscar_tag s.lista_files k.0 k.1) k.2

abbrev pub hasta_tam : ℕ → Option (List ℕ) → Option (List ℕ)
hasta_tam n none = none
hasta_tam n (some xs) = some (take n xs)

-- The map: what the link of the page's logical block leads to.
abbrev pub pagina_por : Storage → Clave → Option BlockLogico → Option (List ℕ)
pagina_por s k none = none
pagina_por s k (some bl) = hasta_tam s.block_size (get_contenido s (k.0, k.1, bl.nombre_block))

unfoldable pub pagina_de : Storage → Clave → Option (List ℕ)
pagina_de s k = pagina_por s k (bloque_de s k)

-- The states in which a write of a page is found by a read of it and of no other: every logical block is
-- linked to the physical block that it names, which no other page names. Pages are counted in an `int`.
pub record Sano (s : Storage) : Type 0 where
  pub enlazada :
      (k : Clave) (bl : BlockLogico)
      → bloque_de s k ≡ some bl
      → enlace_de s.enlaces (k.0, k.1, bl.nombre_block) ≡ some bl.bloque_fisico_asociado
  pub propia :
      (k l : Clave) (b b' : BlockLogico)
      → bloque_de s k ≡ some b
      → bloque_de s l ≡ some b'
      → b.bloque_fisico_asociado ≡ b'.bloque_fisico_asociado
      → k ≡ l
  pub pocas : (k : Clave) (bl : BlockLogico) → bloque_de s k ≡ some bl → k.2 < 2 ^ 31

pub archivo_de-guardar_archivo :
    (fs : List (Texto × List ℕ)) (a b : Texto) (buffer : List ℕ)
    → archivo_de (guardar_archivo fs a buffer) b
      ≡ (if texto_eq a b then some buffer else archivo_de fs b)
unfolding archivo_de guardar_archivo
archivo_de-guardar_archivo [] a b buffer = refl
archivo_de-guardar_archivo ((x, c) ∷ fs) a b buffer = elim (Bool-cases (texto_eq x a)) [
  | inl e ↦
      let igual : texto_eq x b ≡ texto_eq a b =
        ap (λ (z : Texto). texto_eq z b) (texto_eq_sound x a e) in
      elim (Bool-cases (texto_eq a b)) [
        | inl f ↦ let g : texto_eq x b ≡ true = igual ∙ f in rw (e, f) (rw (g, archivo_de) refl)
        | inr f ↦ let g : texto_eq x b ≡ false = igual ∙ f in rw (e, f) (rw (g, archivo_de) refl)
      ]
  | inr e ↦ elim (Bool-cases (texto_eq x b)) [
    | inl f ↦
        let q : x ≡ b = texto_eq_sound x b f in
        elim (Bool-cases (texto_eq a b)) [
          | inl g ↦ absurd (cc (e, texto_eq_sound a b g))
          | inr g ↦ rw (e, f, g) refl
        ]
    | inr f ↦ rw (e, f) (archivo_de-guardar_archivo fs a b buffer)
  ]
]

abbrev pub escrito_en : Storage → Texto → List ℕ → Storage
escrito_en s a buffer = record s { archivos = guardar_archivo s.archivos a buffer }

-- A page of a state where the files alone were written.
module _ (s : Storage) (v : Sano s) (a : Texto) (buffer : List ℕ) where
  pub escrito_en-Sano : Sano (escrito_en s a buffer)
  escrito_en-Sano = record { enlazada = v.enlazada; propia = v.propia; pocas = v.pocas }

  pub pagina_de-escrito :
      (k : Clave) (bl : BlockLogico)
      → bloque_de s k ≡ some bl
      → bl.bloque_fisico_asociado ≡ a
      → pagina_de (escrito_en s a buffer) k ≡ some (take s.block_size buffer)
  unfolding pagina_de get_contenido
  pagina_de-escrito k bl e q =
      rw (e, pagina_de)
        (rw (v.enlazada k bl e, get_contenido)
          (rw
            (
              archivo_de-guardar_archivo s.archivos a bl.bloque_fisico_asociado buffer,
              q,
              texto_eq_refl a,
            )
            refl))

  pub pagina_de-otra :
      (k : Clave)
      → ((bl : BlockLogico) → bloque_de s k ≡ some bl → bl.bloque_fisico_asociado ≢ a)
      → pagina_de (escrito_en s a buffer) k ≡ pagina_de s k
  unfolding pagina_de get_contenido
  pagina_de-otra k n = elim (Option-cases (bloque_de s k)) [
    | inl e ↦ rw (e, pagina_de) refl
    | inr (bl, e) ↦
        let ne : texto_eq a bl.bloque_fisico_asociado ≡ false =
          elim (Bool-cases (texto_eq a bl.bloque_fisico_asociado)) [
            | inl f ↦ absurd (n bl e (sym (texto_eq_sound a bl.bloque_fisico_asociado f)))
            | inr f ↦ f
          ] in
        rw (e, pagina_de)
          (rw (v.enlazada k bl e, get_contenido)
            (rw (archivo_de-guardar_archivo s.archivos a bl.bloque_fisico_asociado buffer, ne)
              refl))
  ]

take-take {ℓ} : {A : Type ℓ} (n : ℕ) (xs : List A) → take n (take n xs) ≡ take n xs
take-take zero xs = refl
take-take (suc n) [] = refl
take-take (suc n) (x ∷ xs) = ap (◌∷◌ x) (take-take n xs)

hasta_tam-take :
    (n : ℕ) (o : Option (List ℕ)) (xs : List ℕ) → hasta_tam n o ≡ some xs → take n xs ≡ xs
hasta_tam-take n none xs h = cc
hasta_tam-take n (some ys) xs h =
    let e : take n ys ≡ xs = cc h in ap (take n) (sym e) ∙ take-take n ys ∙ e

-- A page is no longer than a block.
pub pagina_de-take :
    (s : Storage) (k : Clave) (xs : List ℕ) → pagina_de s k ≡ some xs → take s.block_size xs ≡ xs
unfolding pagina_de
pagina_de-take s k xs h = elim (Option-cases (bloque_de s k)) [
  | inl e ↦ absurd (cc (rw (e, pagina_de) at h))
  | inr (bl, e) ↦ hasta_tam-take s.block_size _ xs (rw (e, pagina_de) at h)
]
