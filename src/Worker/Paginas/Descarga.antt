-- ===== src/Worker/Paginas/Descarga.antt =====
-- worker/src/memoria_Interna.c: a frame that is written back (`flush_frame`), on each reply of
-- Storage.
use master_of_files.Base.{
  ℕ, ◌≡◌, refl, ◌≢◌, ◌⊎◌, inl, inr, false, not, ◌&&◌, some, List, take, get_elem?, modify,
  get_elem?-modify_self, arith, Bool-cases, if◌then◌else◌, sym, ◌∙◌, ap, take_of_length-le,
}
use mathlib.Core.Option
use master_of_files.Utils.Protocolo.{
  Respuesta, Conexion, op_st_write_block, op_resp_ok, Rc, cero, menos_uno, si_cero,
}
use master_of_files.Worker.Memoria.{Marco, Memoria}
use master_of_files.Worker.Memoria.Clave.{Clave, clave, clave-names}
use master_of_files.Worker.Paginas.{
  escribir_respuesta, limpiar, cambiar, escribir_pagina_storage, flush_marco, flush_frame,
}
use master_of_files.Worker.Paginas.Vista.{
  PageStore, vista, Ve, en, fuera, Ve-total, Ve-unique, Ausente, modify-Ausente, Coherente,
}
use master_of_files.Worker.Paginas.Paso.{Paso, Paso-Coherente, vista-Paso}

pub Rc-cases : (rc : Rc) → (rc ≡ cero) ⊎ (rc ≡ menos_uno)
Rc-cases cero = inl refl
Rc-cases menos_uno = inr refl

clave-limpiar : (f : Marco) (k : Clave) → clave (limpiar f) ≡ some k → clave f ≡ some k
unfolding clave
clave-limpiar f k q = q

escribir_respuesta_cero :
    (resp : Respuesta) → escribir_respuesta resp ≡ cero → resp.op_resp ≡ some op_resp_ok
escribir_respuesta_cero resp h = ground arith

escribir_respuesta-menos_uno :
    (resp : Respuesta) → escribir_respuesta resp ≡ menos_uno → resp.op_resp ≢ some op_resp_ok
escribir_respuesta-menos_uno resp h = ground arith

module _ {c : Conexion} {tam : ℕ} (w : PageStore c tam) where
  open c use {State, pedir}

  -- A change that keeps the invariant and that no program sees.
  abbrev pub Invisible : Memoria State → Memoria State → Type 0
  Invisible r r' = Coherente w r' × ((k : Clave) → vista w r' k ≡ vista w r k)

  pub Invisible-trans : (r s t : Memoria State) → Invisible r s → Invisible s t → Invisible r t
  Invisible-trans r s t a b = (b.0, λ k. b.1 k ∙ a.1 k)

  pub Paso-Invisible :
      {r r' : Memoria State} {i : ℕ} {f : Marco} {g : Marco → Marco}
      → Coherente w r
      → Paso w r r' i f g
      → Invisible r r'
  Paso-Invisible v p = (Paso-Coherente w v p, vista-Paso w v p)

  pub quieto :
      (r r' : Memoria State)
      → Coherente w r
      → r'.frames ≡ r.frames
      → r'.page_size ≡ r.page_size
      → w.Sano r'.storage
      → ((k : Clave) → w.contenido r'.storage k ≡ w.contenido r.storage k)
      → Invisible r r'
  quieto r r' v same size s held =
      (v', λ k. Ve-unique w r' k (vista w r k) v'.unicas (move k (Ve-total w r k)))
    where
      v' : Coherente w r'
      v' = record {
        sano = s;
        tamano = size ∙ v.tamano;
        medidas = λ i f e. v.medidas i f (rw same at e);
        unicas = λ i j f g k e e'. v.unicas i j f g k (rw same at e) (rw same at e');
        limpias = λ i f k e q d. held k ∙ v.limpias i f k (rw same at e) q d;
        nombradas = λ i f e. v.nombradas i f (rw same at e);
      }

      move : (k : Clave) → Ve w r k (vista w r k) → Ve w r' k (vista w r k)
      move k (en i f e q o) = en i f (rw same e) q o
      move k (fuera absent o) = fuera (λ i f e. absent i f (rw same at e)) (o ∙ sym (held k))

  -- The frame `f`, its request and its reply.
  abbrev pub escritura : Memoria State → Marco → Clave → Respuesta × State
  escritura r f k =
      pedir r.storage
        (op_st_write_block r.context_query_id k.0 k.1 k.2 r.page_size (take r.page_size f.base))

  module _ (tiempo : ℕ → ℕ) where
    flush_marco_lem :
        (r : Memoria State) (i : ℕ) (f : Marco) (k : Clave)
        → clave f ≡ some k
        → flush_marco c tiempo r i f
          ≡ si_cero
              (escribir_respuesta (escritura r f k).0)
              (cero, cambiar (record r { storage = (escritura r f k).1 }) i limpiar)
              (menos_uno, record r { storage = (escritura r f k).1 })
    unfolding flush_marco escribir_pagina_storage
    flush_marco_lem r i f k q =
        let (l, a, b, p) = clave-names f k q in
        rw (a, flush_marco) (rw b (rw (p, escribir_pagina_storage)))

    module _ (r : Memoria State) (i : ℕ) (f : Marco) (k : Clave) (v : Coherente w r)
        (at : get_elem? r.frames i ≡ some f) (q : clave f ≡ some k) where
      -- The request as `PageStore` speaks of it.
      pedido : Respuesta × State
      pedido = pedir r.storage (op_st_write_block r.context_query_id k.0 k.1 k.2 tam f.base)

      escritura-pedido : escritura r f k ≡ pedido
      unfolding pedido
      escritura-pedido =
          ap (λ (n : ℕ). enviar n (take n f.base)) v.tamano
          ∙ ap (enviar tam) (take_of_length-le tam f.base (omega (arith, v.medidas i f at)))
        where
          enviar : ℕ → List ℕ → Respuesta × State
          enviar n d = pedir r.storage (op_st_write_block r.context_query_id k.0 k.1 k.2 n d)

      limpiar-Paso :
          (r' : Memoria State)
          → escribir_respuesta pedido.0 ≡ cero
          → r'.frames ≡ modify r.frames i limpiar
          → r'.page_size ≡ r.page_size
          → r'.storage ≡ pedido.1
          → Paso w r r' i f limpiar
      unfolding pedido clave
      limpiar-Paso r' ok marcos size s =
          let held =
            w.escribir_ok r.storage r.context_query_id k.2 k.0 k.1 f.base v.sano (v.medidas i f at)
              (escribir_respuesta_cero pedido.0 ok) in
          record {
            lugar = at;
            marcos = marcos;
            mismo_tamano = size;
            sano =
                rw s (w.escribir-Sano r.storage r.context_query_id k.2 tam k.0 k.1 f.base v.sano);
            resto = λ k' n. rw s (
                w.escribir_otra r.storage r.context_query_id k.2 tam k.0 k.1 f.base k' v.sano
                  (λ e. n (cc (e, q))));
            medida = v.medidas i f at;
            viejo = λ k' q'. inl (q', refl);
            nuevo = λ k' q'. inl q';
            limpia = λ k' q' d. let e : k ≡ k' = cc (q, q') in rw (s, ← e) held;
            nombrada = λ l d. absurd (ground arith);
          }

      -- `escribir_pagina_storage` on a frame and the reset of its bits change nothing that a program
      -- sees, whatever Storage replies.
      pub flush_marco-Invisible :
          Invisible r (flush_marco c tiempo r i f).1
          × ((flush_marco c tiempo r i f).0 ≡ cero
              → (flush_marco c tiempo r i f).1.frames ≡ modify r.frames i limpiar)
      unfolding pedido
      flush_marco-Invisible = elim (Rc-cases (escribir_respuesta pedido.0)) [
        | inl ok ↦
            rw (flush_marco_lem r i f k q, escritura-pedido, ok)
              (Paso-Invisible v (limpiar-Paso _ ok refl refl refl), λ e. refl)
        | inr mal ↦
            rw (flush_marco_lem r i f k q, escritura-pedido, mal)
              (
                quieto r _ v refl refl
                    (w.escribir-Sano r.storage r.context_query_id k.2 tam k.0 k.1 f.base v.sano)
                    (λ k'.
                      w.escribir_mal r.storage r.context_query_id k.2 tam k.0 k.1 f.base k' v.sano
                        (escribir_respuesta-menos_uno pedido.0 mal)),
                λ e. absurd (ground arith),
              )
      ]

    flush_frame_lem :
        (r : Memoria State) (i : ℕ) (f : Marco)
        → get_elem? r.frames i ≡ some f
        → flush_frame c tiempo r i
          ≡ (if not f.libre && f.dirty then flush_marco c tiempo r i f else (cero, r))
    unfolding flush_frame
    flush_frame_lem r i f at = rw (at, flush_frame)

    limpiado :
        (r : Memoria State) (i : ℕ) (f : Marco) (fs : List Marco)
        → get_elem? r.frames i ≡ some f
        → fs ≡ modify r.frames i limpiar
        → get_elem? fs i ≡ some (limpiar f)
    limpiado r i f fs at e =
        ap (λ gs. get_elem? gs i) e
        ∙ get_elem?-modify_self r.frames i limpiar
        ∙ ap (Option.map limpiar) at

    -- A flush of any frame changes nothing that a program sees. Where it succeeds the frame, if it is
    -- in use, is not modified any more.
    pub flush_frame-Invisible :
        (r : Memoria State) (i : ℕ) (f : Marco)
        → Coherente w r
        → get_elem? r.frames i ≡ some f
        → Invisible r (flush_frame c tiempo r i).1
          × ((flush_frame c tiempo r i).0 ≡ cero
              → (g : Marco) × (get_elem? (flush_frame c tiempo r i).1.frames i ≡ some g)
                × (g.libre ≡ false → g.dirty ≡ false)
                × ((k : Clave)
                    → Ausente w r.frames k
                    → Ausente w (flush_frame c tiempo r i).1.frames k))
    flush_frame-Invisible r i f v at = elim (Bool-cases (not f.libre && f.dirty)) [
      | inl sucio ↦
          let (k, q) = v.nombradas i f at (ground arith) (ground arith) in
          let (seen, clean) = flush_marco-Invisible r i f k v at q in
          rw (flush_frame_lem r i f at, sucio)
            (
              seen,
              λ e. (
                limpiar f,
                limpiado r i f _ at (clean e),
                λ l. refl,
                λ k' a.
                    rw (clean e)
                      (modify-Ausente w r.frames i limpiar k' (λ x q'. clave-limpiar x k' q') a),
              ),
            )
      | inr limpio ↦
          rw (flush_frame_lem r i f at, limpio)
            ((v, λ k. refl), λ e. (f, at, λ l. ground arith, λ k a. a))
    ]
