-- ===== src/Worker/Paginas/Cambios.antt =====
-- worker/src/memoria_Interna.c: the changes of one frame that a page fault is made of.

use master_of_files.Base.{
  ℕ, ◌≤◌, ◌≡◌, inl, inr, false, none, some, List, take, drop, ◌++◌, length, get_elem?, modify,
  arith, Bool-cases, Option-cases, ◌==◌, leb, sym, ◌∙◌, ap, drop_of_length-le, length-take,
  length-append, length-drop, append-nil,
}
use master_of_files.Utils.Protocolo.{Respuesta, Conexion, op_resp_ok, cero}
use master_of_files.Worker.Memoria.{Marco, Memoria}
use master_of_files.Worker.Memoria.Clave.{Clave, clave}
use master_of_files.Worker.Paginas.{recibido, leer_respuesta, asignar, sin_nombre}
use master_of_files.Worker.Paginas.Vista.{PageStore, Ausente, Coherente}
use master_of_files.Worker.Paginas.Paso.{Paso}

abbrev pub con_base : List ℕ → Marco → Marco
con_base b f = record f { base = b }

length-recibido : (n : ℕ) (datos out : List ℕ) → length out ≡ n → length (recibido n datos out) ≡ n
length-recibido n datos out h = omega (
  arith,
  length-append (take n datos) (drop (length datos) out),
  length-take n datos,
  length-drop (length datos) out,
)

recibido_whole :
    (n : ℕ) (datos out : List ℕ)
    → length out ≡ n
    → n ≤ length datos
    → recibido n datos out ≡ take n datos
recibido_whole n datos out h le =
    ap (◌++◌ (take n datos)) (drop_of_length-le (length datos) out (omega arith))
    ∙ append-nil (take n datos)

-- The page that a reply leaves in a frame keeps its size.
pub length-leer_respuesta :
    (n : ℕ) (resp : Respuesta) (out : List ℕ)
    → length out ≡ n
    → length (leer_respuesta n resp out).1 ≡ n
length-leer_respuesta n resp out h = elim (Option-cases resp.op_resp) [
  | inl e ↦ rw (e, leer_respuesta) h
  | inr (op, e) ↦ elim (Bool-cases (op == op_resp_ok)) [
    | inl ok ↦ rw (e, leer_respuesta) (rw ok (length-recibido n resp.datos out h))
    | inr mal ↦ rw (e, leer_respuesta) (rw mal h)
  ]
]

pub leer_respuesta_ok :
    (n : ℕ) (resp : Respuesta) (out : List ℕ)
    → length out ≡ n
    → (leer_respuesta n resp out).0 ≡ cero
    → (resp.op_resp ≡ some op_resp_ok)
      × (n ≤ length resp.datos)
      × ((leer_respuesta n resp out).1 ≡ take n resp.datos)
leer_respuesta_ok n resp out h e = elim (Option-cases resp.op_resp) [
  | inl q ↦ absurd (ground arith)
  | inr (op, q) ↦ elim (Bool-cases (op == op_resp_ok)) [
    | inl ok ↦ elim (Bool-cases (leb n (length resp.datos))) [
      | inl le ↦ (
        ground arith,
        ground arith,
        rw (q, leer_respuesta) (rw ok (recibido_whole n resp.datos out h (ground arith))),
      )
      | inr gt ↦ absurd (ground arith)
    ]
    | inr mal ↦ absurd (ground arith)
  ]
]

module _ {c : Conexion} {tam : ℕ} (w : PageStore c tam) where
  open c use {State}

  -- A frame that holds no page takes other bytes.
  pub con_base-Paso :
      (r r' : Memoria State) (i : ℕ) (f : Marco) (b : List ℕ)
      → Coherente w r
      → get_elem? r.frames i ≡ some f
      → clave f ≡ none
      → (f.libre ≡ false → f.dirty ≡ false)
      → length b ≡ tam
      → r'.frames ≡ modify r.frames i (con_base b)
      → r'.page_size ≡ r.page_size
      → w.Sano r'.storage
      → ((k : Clave) → w.contenido r'.storage k ≡ w.contenido r.storage k)
      → Paso w r r' i f (con_base b)
  unfolding clave
  con_base-Paso r r' i f b v at vacio limpio size marcos mismo s held = record {
    lugar = at;
    marcos = marcos;
    mismo_tamano = mismo;
    sano = s;
    resto = λ k n. held k;
    medida = size;
    viejo = λ k q. absurd (cc (q, vacio));
    nuevo = λ k q. absurd (cc (q, vacio));
    limpia = λ k q d. absurd (cc (q, vacio));
    nombrada = λ l d. absurd (cc (limpio l, d));
  }

  -- Then it takes the identity of the page that Storage holds with those bytes.
  pub asignar-Paso :
      (r r' : Memoria State) (i t : ℕ) (f : Marco) (k : Clave)
      → Coherente w r
      → get_elem? r.frames i ≡ some f
      → clave f ≡ none
      → Ausente w r.frames k
      → w.contenido r.storage k ≡ some f.base
      → r'.frames ≡ modify r.frames i (asignar k.0 k.1 k.2 t)
      → r'.page_size ≡ r.page_size
      → r'.storage ≡ r.storage
      → Paso w r r' i f (asignar k.0 k.1 k.2 t)
  unfolding clave
  asignar-Paso r r' i t f k v at vacio absent held marcos mismo s = record {
    lugar = at;
    marcos = marcos;
    mismo_tamano = mismo;
    sano = rw s v.sano;
    resto = λ k' n. rw s;
    medida = v.medidas i f at;
    viejo = λ k' q. absurd (cc (q, vacio));
    nuevo = λ k' q. let e : k ≡ k' = cc q in inr (rw e at absent, rw e at held);
    limpia = λ k' q d. let e : k ≡ k' = cc q in rw s (rw e at held);
    nombrada = λ l d. absurd (cc d);
  }

  -- The victim, written back, loses its names.
  pub sin_nombre-Paso :
      (r r' : Memoria State) (i : ℕ) (f : Marco)
      → Coherente w r
      → get_elem? r.frames i ≡ some f
      → (f.libre ≡ false → f.dirty ≡ false)
      → r'.frames ≡ modify r.frames i sin_nombre
      → r'.page_size ≡ r.page_size
      → r'.storage ≡ r.storage
      → Paso w r r' i f sin_nombre
  unfolding clave
  sin_nombre-Paso r r' i f v at limpio marcos mismo s = record {
    lugar = at;
    marcos = marcos;
    mismo_tamano = mismo;
    sano = rw s v.sano;
    resto = λ k n. rw s;
    medida = v.medidas i f at;
    viejo = λ k q. inr (λ e. ground arith, rw s (v.limpias i f k at q (limpio (ground arith))));
    nuevo = λ k q. absurd (ground arith);
    limpia = λ k q d. absurd (ground arith);
    nombrada = λ l d. absurd (cc (limpio l, d));
  }

  pub tocar-Paso :
      (r r' : Memoria State) (i : ℕ) (f : Marco) (g : Marco → Marco)
      → Coherente w r
      → get_elem? r.frames i ≡ some f
      → (clave (g f) ≡ clave f)
      → ((g f).base ≡ f.base)
      → ((g f).dirty ≡ f.dirty)
      → ((g f).libre ≡ f.libre)
      → r'.frames ≡ modify r.frames i g
      → r'.page_size ≡ r.page_size
      → r'.storage ≡ r.storage
      → Paso w r r' i f g
  tocar-Paso r r' i f g v at kk bb dd ll marcos mismo s = record {
    lugar = at;
    marcos = marcos;
    mismo_tamano = mismo;
    sano = rw s v.sano;
    resto = λ k n. rw s;
    medida = ap length bb ∙ v.medidas i f at;
    viejo = λ k q. inl (kk ∙ q, bb);
    nuevo = λ k q. inl (sym kk ∙ q);
    limpia = λ k q d. rw (s, bb) (v.limpias i f k at (sym kk ∙ q) (sym dd ∙ d));
    nombrada = λ l d. let (k, q) = v.nombradas i f at (sym ll ∙ l) (sym dd ∙ d) in (k, kk ∙ q);
  }
