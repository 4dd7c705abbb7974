-- ===== src/Storage/Tamanio.antt =====
-- storage/src/operaciones_storage.c: TRUNCATE, the size of a tag and the number of its logical blocks.

use master_of_files.Base.{
  ℕ, zero, suc, ◌+◌, ◌-◌, ◌%◌, ◌/◌, ◌≤◌, ◌<◌, ◌≡◌, refl, inl, inr, true, false, none, some, List,
  [], ◌∷◌, ltb, ◌==◌, not, length, length-append, length-set, get_elem?-lt, find_index_sound,
  get_elem?, modify, arith, ◌∙◌, ap, Bool-cases, Option-cases,
}
use master_of_files.Base.Int.{pos}
use master_of_files.Base.Texto.{Texto, texto_eq, texto_eq_sound, texto_eq_refl}
use master_of_files.Storage.Nombres.{block_04d, crear_nombre_bloque_logico}
use master_of_files.Storage.Nombres.Numeros.{crear_nombre_bloque_logico_injective}
use master_of_files.Storage.Datos.{
  restar_asociado, Tag, Storage, tag_en, buscar_index_tag, buscar_index_block_fisico,
  bitmap_encontrar_bloque_libre, bitmap_marcar_bloque_ocupado, Ruta, hay_archivo, enlace_de, hecho,
  link,
}
use master_of_files.Storage.Operaciones.{
  con_tag, agregar_bl, agrandar, ultimo, queda_libre, achicar, con_tamanio, ajustar,
  operacion_truncate_file,
}
use master_of_files.Storage.Contadores.Agrandar.{tag_en-modify_tag}
use master_of_files.Storage.Contadores.Achicar.{ultimo_sound}
use master_of_files.Storage.Contadores.Truncar.{Estado-cases}

hay_ultimo :
    {A : Type 0} (x : A) (xs : List A) → (y : A) × (get_elem? (x ∷ xs) (length xs) ≡ some y)
hay_ultimo x [] = (x, refl)
hay_ultimo x (y ∷ xs) = hay_ultimo y xs

ultimo-none : {A : Type 0} (xs : List A) → ultimo xs ≡ none → length xs ≡ 0
unfolding ultimo
ultimo-none [] e = refl
ultimo-none (x ∷ xs) e =
    let (y, at) = hay_ultimo x xs in
    let z : length (x ∷ xs) - 1 ≡ length xs = omega arith in
    let abierto = rw (z, ultimo) at e in absurd (cc (rw (at) at abierto))

-- The tag at `p` has `k` logical blocks.
abbrev Tiene : Storage → ℕ × ℕ → ℕ → Type 0
Tiene s p k =
    (t : Tag) × (tag_en s.lista_files p.0 p.1 ≡ some t) × (length t.lista_block_logicos ≡ k)

-- Every bit of the bitmap stands for a physical block with a file, and no path of the tag from logical block
-- `nro` on is taken.
pub record Enlazables (s : Storage) (file tag : Texto) (nro : ℕ) : Type 0 where
  pub con_archivo : (bf : ℕ) → bf < length s.bitmap → hay_archivo s.archivos (block_04d bf) ≡ true
  pub sin_enlace :
      (j : ℕ) → nro ≤ j → enlace_de s.enlaces (file, tag, crear_nombre_bloque_logico j) ≡ none

link-hecho :
    (s : Storage) (bf : Texto) (r : Ruta)
    → hay_archivo s.archivos bf ≡ true
    → enlace_de s.enlaces r ≡ none
    → link s bf r ≡ hecho ((r, bf) ∷ s.enlaces)
unfolding link
link-hecho s bf r h e = rw (h, link) (rw (e) refl)

-- A link of a block leaves the paths of the blocks after it free.
enlace_de-otro :
    (es : List (Ruta × Texto)) (file tag bf : Texto) (i j : ℕ)
    → i < j
    → enlace_de es (file, tag, crear_nombre_bloque_logico j) ≡ none
    → enlace_de
        (((file, tag, crear_nombre_bloque_logico i), bf) ∷ es)
        (file, tag, crear_nombre_bloque_logico j)
      ≡ none
unfolding enlace_de
enlace_de-otro es file tag bf i j menor e =
    let a = crear_nombre_bloque_logico i in
    let b = crear_nombre_bloque_logico j in
    let distinto : texto_eq a b ≡ false = elim (Bool-cases (texto_eq a b)) [
      | inr q ↦ q
      | inl q ↦
          let igual = crear_nombre_bloque_logico_injective i j (texto_eq_sound a b q) in
          absurd (omega arith)
    ] in
    rw (texto_eq_refl file, texto_eq_refl tag, distinto) e

-- The loop that adds, where each link can be made: it adds as many as it is asked for.
agrandar-Tiene :
    (n nro : ℕ) (s : Storage) (file tag : Texto) (p : ℕ × ℕ) (k : ℕ)
    → Tiene s p k
    → Enlazables s file tag nro
    → (agrandar n nro s file tag p).0 ≡ true
    → Tiene (agrandar n nro s file tag p).1 p (k + n)
unfolding agrandar bitmap_encontrar_bloque_libre
agrandar-Tiene zero nro s file tag p k (t, e, l) v hay = (t, e, omega arith)
agrandar-Tiene (suc n) nro s file tag p k (t, e, l) v hay =
    elim (Option-cases (bitmap_encontrar_bloque_libre s.bitmap)) [
      | inl lleno ↦ absurd (cc (rw (lleno, agrandar) at hay))
      | inr (bf, libre) ↦
          let nombre = crear_nombre_bloque_logico nro in
          let s' = bitmap_marcar_bloque_ocupado s bf in
          let (b, at, _) = find_index_sound not s.bitmap bf libre in
          let ok =
            link-hecho s' (block_04d bf) (file, tag, nombre)
              (v.con_archivo bf (get_elem?-lt s.bitmap bf b at)) (v.sin_enlace nro (omega arith)) in
          let suma : suc k + n ≡ k + suc n = omega arith in
          rw (← suma) (
            rw (libre, agrandar)
              (rw (ok, agrandar)
                (agrandar-Tiene n (suc nro) _ file tag p (suc k)
                  (
                    agregar_bl nombre t,
                    tag_en-modify_tag s.lista_files p.0 p.1 (agregar_bl nombre) t e,
                    omega (arith, length-append t.lista_block_logicos _),
                  )
                  (record {
                    con_archivo =
                        λ i lt. v.con_archivo i (omega (arith, length-set s.bitmap bf true));
                    sin_enlace = λ j lt.
                        enlace_de-otro s.enlaces file tag (block_04d bf) nro j lt
                          (v.sin_enlace j (omega arith));
                  })
                  (rw (ok, agrandar) at (rw (libre, agrandar) at hay)))))
    ]

achicar-Tiene :
    (n : ℕ) (s s' : Storage) (file tag : Texto) (p : ℕ × ℕ) (k : ℕ)
    → Tiene s p k
    → achicar n s file tag p ≡ some s'
    → Tiene s' p (k - n)
unfolding achicar
achicar-Tiene zero s s' file tag p k (t, e, l) h =
    let q : s ≡ s' = cc h in rw⁻¹ q (t, e, omega arith)
achicar-Tiene (suc n) s s' file tag p k (t, e, l) h =
    elim (Option-cases (ultimo t.lista_block_logicos)) [
      | inl vacio ↦
          let cero : k - n ≡ k - suc n = omega (arith, ultimo-none t.lista_block_logicos vacio) in
          rw (← cero)
            (achicar-Tiene n s s' file tag p k (t, e, l) (rw vacio at (rw (e, achicar) at h)))
      | inr ((resto, bl), last) ↦
          let keep =
            tag_en-modify_tag s.lista_files p.0 p.1 (λ t. record t { lista_block_logicos = resto })
              t e in
          let largo =
            ap length (ultimo_sound t.lista_block_logicos resto bl last)
            ∙ length-append resto (bl ∷ []) in
          let menos : k - 1 - n ≡ k - suc n = omega arith in
          rw (← menos)
            (elim (Option-cases
              (buscar_index_block_fisico s.lista_bloques_fisicos bl.bloque_fisico_asociado)) [
                | inl no_esta ↦
                    achicar-Tiene n _ s' file tag p (k - 1) (_, keep, omega arith)
                      (rw no_esta at (rw last at (rw (e, achicar) at h)))
                | inr (i, esta) ↦
                    elim (Bool-cases
                      (queda_libre (modify s.lista_bloques_fisicos i restar_asociado) i)) [
                        | inl libre ↦
                            absurd
                              (cc (rw libre at (rw esta at (rw last at (rw (e, achicar) at h)))))
                        | inr usado ↦
                            achicar-Tiene n _ s' file tag p (k - 1) (_, keep, omega arith)
                              (rw usado at (rw esta at (rw last at (rw (e, achicar) at h))))
                      ]
              ])
    ]

-- The tag at `p` has that size and that many logical blocks.
abbrev pub Truncado : Storage → ℕ × ℕ → (nuevos bytes : ℕ) → Type 0
Truncado s p nuevos bytes =
    (t : Tag) × (tag_en s.lista_files p.0 p.1 ≡ some t)
    × (t.metadata.tamanio_file ≡ bytes)
    × (length t.lista_block_logicos ≡ nuevos)

ajustar-Truncado :
    (s s' : Storage) (file tag : Texto) (p : ℕ × ℕ) (actuales nuevos bytes : ℕ)
    → Tiene s p actuales
    → Enlazables s file tag actuales
    → ajustar s file tag p actuales nuevos bytes ≡ some (pos 0, s')
    → Truncado s' p nuevos bytes
unfolding ajustar
ajustar-Truncado s s' file tag p actuales nuevos bytes (t, e, l) v h =
    elim (Bool-cases (ltb actuales nuevos)) [
      | inl crece ↦
          let r = agrandar (nuevos - actuales) actuales s file tag p in
          elim (Bool-cases r.0) [
            | inl hay ↦
                let q : con_tag r.1 p (con_tamanio bytes) ≡ s' =
                  cc (rw hay at (rw (crece, ajustar) at h)) in
                let menor : actuales < nuevos = ground arith in
                let (u, f, m) =
                  agrandar-Tiene (nuevos - actuales) actuales s file tag p actuales (t, e, l) v
                    hay in
                rw⁻¹ q (
                  con_tamanio bytes u,
                  tag_en-modify_tag r.1.lista_files p.0 p.1 (con_tamanio bytes) u f,
                  refl,
                  omega arith,
                )
            | inr no_hay ↦ absurd (cc (rw no_hay at (rw (crece, ajustar) at h)))
          ]
      | inr baja ↦ elim (Option-cases (achicar (actuales - nuevos) s file tag p)) [
        | inl nunca ↦ absurd (cc (rw nunca at (rw (baja, ajustar) at h)))
        | inr (s1, a) ↦
            let (u, f, m) =
              achicar-Tiene (actuales - nuevos) s s1 file tag p actuales (t, e, l) a in
            let q : con_tag s1 p (con_tamanio bytes) ≡ s' =
              cc (rw a at (rw (baja, ajustar) at h)) in
            let no_menor : nuevos ≤ actuales = ground arith in
            rw⁻¹ q (
              con_tamanio bytes u,
              tag_en-modify_tag s1.lista_files p.0 p.1 (con_tamanio bytes) u f,
              refl,
              omega arith,
            )
      ]
    ]

-- A TRUNCATE that returns 0, of a File:Tag with as many logical blocks as its size takes, where every bit of
-- the bitmap stands for a physical block with a file and the paths of the blocks to add are free: the size is
-- the new one and there are as many blocks as it takes, whether it grows or shrinks.
pub operacion_truncate_file-Truncado :
    (s s' : Storage) (file tag : Texto) (p : ℕ × ℕ) (t : Tag) (bytes : ℕ)
    → buscar_index_tag s.lista_files file tag ≡ some p
    → tag_en s.lista_files p.0 p.1 ≡ some t
    → length t.lista_block_logicos ≡ t.metadata.tamanio_file / s.block_size
    → Enlazables s file tag (t.metadata.tamanio_file / s.block_size)
    → operacion_truncate_file s file tag bytes ≡ some (pos 0, s')
    → Truncado s' p (bytes / s.block_size) bytes
unfolding operacion_truncate_file
operacion_truncate_file-Truncado s s' file tag p t bytes esta e l v h =
    elim (Bool-cases (bytes % s.block_size == 0)) [
      | inr no_es ↦ absurd (cc (rw (no_es, operacion_truncate_file) at h))
      | inl multiplo ↦
          let entra = rw e at (rw esta at (rw (multiplo, operacion_truncate_file) at h)) in
          elim (Estado-cases t.metadata.estado) [
            | inl abierto ↦
                ajustar-Truncado s s' file tag p _ _ bytes (t, e, l) v (rw abierto at entra)
            | inr cerrado ↦ absurd (cc (rw cerrado at entra))
          ]
    ]
