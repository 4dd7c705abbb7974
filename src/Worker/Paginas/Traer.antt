-- ===== src/Worker/Paginas/Traer.antt =====
-- worker/src/memoria_Interna.c: page faults. `traer_pagina` finds or loads a page, with or without a
-- victim, and no program can see that it did.

use master_of_files.Base.{
  ℕ, suc, ◌≤◌, ◌≡◌, refl, ◌⊎◌, inl, inr, true, false, Option, none, some, List, take, length,
  get_elem?, modify, modify-none, arith, Option-cases, sym, ◌∙◌, ap, subst, find_index,
  find_index_sound,
}
use master_of_files.Base.Texto.{tiene}
use master_of_files.Utils.Protocolo.{Respuesta, Conexion, op_st_read_block, cero, si_cero}
use master_of_files.Worker.Memoria.{
  Marco, Memoria, Reemplazo, lru, clockm, frame_matchea, buscar_marco_libre, elegir_algoritmo,
  algoritmo_clockm, bajar_u,
}
use master_of_files.Worker.Memoria.Clave.{Clave, clave, frame_matchea→clave}
use master_of_files.Worker.Memoria.Victima.{algoritmo_lru_oldest}
use master_of_files.Worker.Memoria.Reloj.{Baja, igual, baja}
use master_of_files.Worker.Memoria.Clockm.{algoritmo_clockm-Baja, algoritmo_clockm_occupied}
use master_of_files.Worker.Paginas.{
  file_tag, leer_respuesta, tocar, asignar, sin_nombre, cambiar, lectura_pagina_storage,
  flush_frame, cargar_marco, reemplazar_marco, traer_pagina,
}
use master_of_files.Worker.Paginas.Vista.{
  PageStore, Ausente, Ausente-of_none, modify-Ausente, Coherente,
}
use master_of_files.Worker.Paginas.Paso.{Paso, nuevo_marco, sin_clave}
use master_of_files.Worker.Paginas.Cambios.{
  con_base, length-leer_respuesta, leer_respuesta_ok, con_base-Paso, asignar-Paso, sin_nombre-Paso,
  tocar-Paso,
}
use master_of_files.Worker.Paginas.Descarga.{
  Rc-cases, Invisible, Invisible-trans, Paso-Invisible, quieto, flush_frame-Invisible,
}

clave-asignar : (k : Clave) (t : ℕ) (f : Marco) → clave (asignar k.0 k.1 k.2 t f) ≡ some k
unfolding clave
clave-asignar k t f = refl

clave-sin_nombre : (f : Marco) → clave (sin_nombre f) ≡ none
unfolding clave
clave-sin_nombre f = ground arith

clave-libre : (f : Marco) → f.libre ≡ true → clave f ≡ none
unfolding clave
clave-libre f h = ground arith

clave-bajar_u :
    (f : Marco)
    → (clave (bajar_u f) ≡ clave f)
      × ((bajar_u f).base ≡ f.base)
      × ((bajar_u f).dirty ≡ f.dirty)
      × ((bajar_u f).libre ≡ f.libre)
unfolding clave
clave-bajar_u f = ground arith

clave-tocar : (f : Marco) (t : ℕ) → clave (tocar t f) ≡ clave f
unfolding clave
clave-tocar f t = refl

marco_libre_sound :
    (fs : List Marco) (i : ℕ)
    → buscar_marco_libre fs ≡ some i
    → (f : Marco) × (get_elem? fs i ≡ some f) × (f.libre ≡ true)
unfolding buscar_marco_libre
marco_libre_sound fs i e = find_index_sound (λ f. f.libre) fs i e

Reemplazo-cases : (a : Reemplazo) → (a ≡ lru) ⊎ (a ≡ clockm)
Reemplazo-cases lru = inl refl
Reemplazo-cases clockm = inr refl

module _ {c : Conexion} {tam : ℕ} (w : PageStore c tam) (tiempo : ℕ → ℕ) where
  open c use {State, pedir}

  -- What a page fault promises of its result: no program sees it, and a frame that it returns holds
  -- the page.
  abbrev pub Trae : Memoria State → Clave → Option ℕ × Memoria State → Type 0
  Trae r k o =
      Invisible w r o.1
      × ((i : ℕ)
          → o.0 ≡ some i
          → (f : Marco) × (get_elem? o.1.frames i ≡ some f) × (clave f ≡ some k))

  module _ (r : Memoria State) (k : Clave) (i : ℕ) (f : Marco) (v : Coherente w r)
      (at : get_elem? r.frames i ≡ some f) (vacio : clave f ≡ none)
      (limpio : f.libre ≡ false → f.dirty ≡ false) (absent : Ausente w r.frames k)
      (nombre : tiene b':' k.0 ≡ false) where
    lectura : Respuesta × State
    lectura = pedir r.storage (op_st_read_block r.context_query_id (file_tag k.0 k.1) k.2)

    leida : List ℕ
    leida = (leer_respuesta r.page_size lectura.0 f.base).1

    leido : Memoria State
    leido = cambiar (record r { storage = lectura.1 }) i (con_base leida)

    cargado : Memoria State
    cargado = record (cambiar leido i (asignar k.0 k.1 k.2 (tiempo r.instante))) {
      instante = suc r.instante;
    }

    cargar_marco_lem :
        cargar_marco c tiempo r k.0 k.1 k.2 i
        ≡ si_cero (leer_respuesta r.page_size lectura.0 f.base).0 (some i, cargado) (none, leido)
    unfolding cargar_marco lectura_pagina_storage lectura leida leido cargado
    cargar_marco_lem = rw (at, cargar_marco)

    base_size : length f.base ≡ r.page_size
    base_size = v.medidas i f at ∙ sym v.tamano

    leido-Paso : Paso w r leido i f (con_base leida)
    unfolding leido lectura leida
    leido-Paso =
        con_base-Paso w r leido i f leida v at vacio limpio
          (length-leer_respuesta r.page_size lectura.0 f.base base_size ∙ v.tamano) refl refl
          (w.leer-Sano r.storage r.context_query_id k.2 k.0 k.1 v.sano)
          (λ k'. w.leer-contenido r.storage r.context_query_id k.2 k.0 k.1 k' v.sano)

    leido-Invisible : Invisible w r leido
    leido-Invisible = Paso-Invisible w v leido-Paso

    cargado-Paso :
        (leer_respuesta r.page_size lectura.0 f.base).0 ≡ cero
        → Paso w leido cargado i (con_base leida f) (asignar k.0 k.1 k.2 (tiempo r.instante))
    unfolding leido lectura leida cargado clave
    cargado-Paso ok =
        let (op, size, whole) = leer_respuesta_ok r.page_size lectura.0 f.base base_size ok in
        let held =
          w.leer_ok r.storage r.context_query_id k.2 k.0 k.1 v.sano nombre op
            (subst (λ n. n ≤ length lectura.0.datos) v.tamano size) in
        asignar-Paso w leido cargado i (tiempo r.instante) (con_base leida f) k leido-Invisible.0
          (nuevo_marco w v leido-Paso) vacio
          (sin_clave w v leido-Paso k (λ q. absurd (cc (q, vacio))) (inr absent))
          (w.leer-contenido r.storage r.context_query_id k.2 k.0 k.1 k v.sano
            ∙ held
            ∙ sym (ap some (whole ∙ ap (λ (n : ℕ). take n lectura.0.datos) v.tamano)))
          refl refl refl

    pub cargar_marco-Trae : Trae r k (cargar_marco c tiempo r k.0 k.1 k.2 i)
    cargar_marco-Trae = elim (Rc-cases (leer_respuesta r.page_size lectura.0 f.base).0) [
      | inl ok ↦
          let p = cargado-Paso ok in
          rw (cargar_marco_lem, ok)
            (
              Invisible-trans w r leido cargado leido-Invisible
                  (Paso-Invisible w leido-Invisible.0 p),
              λ j e.
                  let same : i ≡ j = ground arith in
                  (
                    asignar k.0 k.1 k.2 (tiempo r.instante) (con_base leida f),
                    rw (← same) (nuevo_marco w leido-Invisible.0 p),
                    clave-asignar k (tiempo r.instante) (con_base leida f),
                  ),
            )
      | inr mal ↦ rw (cargar_marco_lem, mal) (leido-Invisible, λ j e. absurd (cc e))
    ]

  -- The victim is written back, loses its names and is loaded with the new page.
  reemplazar_marco-Trae :
      (r : Memoria State) (k : Clave) (i : ℕ) (f : Marco)
      → Coherente w r
      → get_elem? r.frames i ≡ some f
      → Ausente w r.frames k
      → tiene b':' k.0 ≡ false
      → Trae r k (reemplazar_marco c tiempo r k.0 k.1 k.2 i)
  unfolding reemplazar_marco
  reemplazar_marco-Trae r k i f v at absent nombre =
      let (seen, done) = flush_frame-Invisible w tiempo r i f v at in
      elim (Rc-cases (flush_frame c tiempo r i).0) [
        | inl ok ↦
            let (g, at', limpio, keep) = done ok in
            let r' = (flush_frame c tiempo r i).1 in
            let r'' = cambiar r' i sin_nombre in
            let p = sin_nombre-Paso w r' r'' i g seen.0 at' limpio refl refl refl in
            let hidden = Paso-Invisible w seen.0 p in
            let absent' =
              modify-Ausente w r'.frames i sin_nombre k (λ x q. absurd (cc (q, clave-sin_nombre x)))
                (keep k absent) in
            let (load, has) =
              cargar_marco-Trae r'' k i (sin_nombre g) hidden.0 (nuevo_marco w seen.0 p)
                (clave-sin_nombre g) limpio absent' nombre in
            rw (ok, reemplazar_marco)
              (Invisible-trans w r r'' _ (Invisible-trans w r r' r'' seen hidden) load, has)
        | inr mal ↦ rw (mal, reemplazar_marco) (seen, λ j e. absurd (cc e))
      ]

  Baja-Invisible :
      (r : Memoria State) (puntero : ℕ) {gs : List Marco}
      → Coherente w r
      → Baja r.frames gs
      → Invisible w r (record r { puntero_reloj = puntero; frames = gs })
  Baja-Invisible r puntero v igual = quieto w r _ v refl refl v.sano (λ k. refl)
  Baja-Invisible r puntero v (baja {gs} b i) =
      let before = Baja-Invisible r puntero v b in
      let s = record r { puntero_reloj = puntero; frames = gs } in
      let t = record r { puntero_reloj = puntero; frames = modify gs i bajar_u } in
      elim (Option-cases (get_elem? gs i)) [
        | inl out ↦ rw (modify-none gs i bajar_u out) before
        | inr (f, at) ↦
            let (kk, bb, dd, ll) = clave-bajar_u f in
            Invisible-trans w r s t before (
              Paso-Invisible w before.0
                (tocar-Paso w s t i f bajar_u before.0 at kk bb dd ll refl refl refl))
      ]

  Baja-Ausente : {fs gs : List Marco} (k : Clave) → Baja fs gs → Ausente w fs k → Ausente w gs k
  Baja-Ausente k igual a = a
  Baja-Ausente k (baja {gs} b i) a =
      modify-Ausente w gs i bajar_u k (λ f q. sym (clave-bajar_u f).0 ∙ q) (Baja-Ausente k b a)

  -- What the choice of a victim leaves.
  abbrev Elige : Memoria State → Option ℕ × Memoria State → Type 0
  Elige r (victima, r') =
      Invisible w r r'
      × ((k : Clave) → Ausente w r.frames k → Ausente w r'.frames k)
      × ((i : ℕ) → victima ≡ some i → (f : Marco) × (get_elem? r'.frames i ≡ some f))

  elegir_algoritmo-Elige : (r : Memoria State) → Coherente w r → Elige r (elegir_algoritmo r)
  unfolding elegir_algoritmo
  elegir_algoritmo-Elige r v = elim (Reemplazo-cases r.algoritmo) [
    | inl e ↦
        rw (e, elegir_algoritmo)
          (
            (v, λ k. refl),
            λ k a. a,
            λ i q. let (f, o, n) = algoritmo_lru_oldest r.frames i q in (f, o.0),
          )
    | inr e ↦
        let b = algoritmo_clockm-Baja r.frames r.puntero_reloj in
        rw (e, elegir_algoritmo)
          (
            Baja-Invisible r (algoritmo_clockm r.frames r.puntero_reloj).1 v b,
            λ k a. Baja-Ausente k b a,
            λ i q. let (f, o) = algoritmo_clockm_occupied r.frames r.puntero_reloj i q in (f, o.0),
          )
  ]

  -- A page fault: whatever path it takes, found in a frame, loaded into a free one or into a victim's,
  -- and also where it fails, no page that a program sees has changed and the invariant holds; a frame
  -- that is returned holds the page that was asked for.
  pub traer_pagina-Trae :
      (r : Memoria State) (k : Clave)
      → Coherente w r
      → tiene b':' k.0 ≡ false
      → Trae r k (traer_pagina c tiempo r k.0 k.1 k.2)
  unfolding traer_pagina
  traer_pagina-Trae r k v nombre =
      elim (Option-cases (find_index (λ f. frame_matchea f k.0 k.1 k.2) r.frames)) [
        | inr (i, hit) ↦
            let (f, at, m) = find_index_sound (λ f. frame_matchea f k.0 k.1 k.2) r.frames i hit in
            let q = frame_matchea→clave f k.0 k.1 k.2 m in
            let t = tiempo r.instante in
            let r' = record (cambiar r i (tocar t)) { instante = suc r.instante } in
            let p =
              tocar-Paso w r r' i f (tocar t) v at (clave-tocar f t) refl refl refl refl refl
                refl in
            rw (hit, traer_pagina)
              (
                Paso-Invisible w v p,
                λ j e.
                    let same : i ≡ j = ground arith in
                    (tocar t f, rw (← same) (nuevo_marco w v p), clave-tocar f t ∙ q),
              )
        | inl miss ↦
            let absent = Ausente-of_none w r.frames k miss in
            elim (Option-cases (buscar_marco_libre r.frames)) [
              | inr (i, hueco) ↦
                  let (f, at, libre) = marco_libre_sound r.frames i hueco in
                  rw (miss, traer_pagina)
                    (rw (hueco, traer_pagina)
                      (cargar_marco-Trae r k i f v at (clave-libre f libre)
                        (λ l. absurd (cc (l, libre))) absent nombre))
              | inl lleno ↦
                  let (seen, keep, found) = elegir_algoritmo-Elige r v in
                  elim (Option-cases (elegir_algoritmo r).0) [
                    | inl nadie ↦
                        rw (miss, traer_pagina)
                          (rw (lleno, traer_pagina)
                            (rw (nadie, traer_pagina) (seen, λ j e. absurd (cc e))))
                    | inr (i, victima) ↦
                        let (f, at) = found i victima in
                        let r' = (elegir_algoritmo r).1 in
                        let (load, has) =
                          reemplazar_marco-Trae r' k i f seen.0 at (keep k absent) nombre in
                        rw (miss, traer_pagina)
                          (rw (lleno, traer_pagina)
                            (rw (victima, traer_pagina) (Invisible-trans w r r' _ seen load, has)))
                  ]
            ]
      ]
