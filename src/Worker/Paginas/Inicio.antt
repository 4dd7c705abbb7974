-- ===== src/Worker/Paginas/Inicio.antt =====
-- worker/src/memoria_Interna.c: the memory that `inicializar_memoria` leaves.

use master_of_files.Base.{
  ℕ, ◌/◌, ◌≡◌, refl, ◌≢◌, true, none, some, length, get_elem?, replicate, length-replicate,
  get_elem?-replicate, sym, ◌∙◌, ap,
}
use master_of_files.Utils.Protocolo.{Conexion}
use master_of_files.Worker.Memoria.{Marco, Memoria, Ram, marco_inicial, inicializar_memoria}
use master_of_files.Worker.Memoria.Clave.{Clave, clave}
use master_of_files.Worker.Paginas.Vista.{PageStore, vista, fuera, Ve-unique, Coherente}

clave-inicial : (n : ℕ) → clave (marco_inicial n) ≡ none
unfolding clave
clave-inicial n = refl

module _ {c : Conexion} {tam : ℕ} (w : PageStore c tam) where
  open c use {State}

  -- The frames that are all free.
  vacia-Coherente :
      (r : Memoria State) (n : ℕ)
      → r.frames ≡ replicate n (marco_inicial tam)
      → r.page_size ≡ tam
      → w.Sano r.storage
      → Coherente w r × ((k : Clave) → vista w r k ≡ w.contenido r.storage k)
  vacia-Coherente r n marcos size s = (v, λ k. Ve-unique w r k _ v.unicas (fuera (nadie k) refl))
    where
      inicial : (i : ℕ) (f : Marco) → get_elem? r.frames i ≡ some f → f ≡ marco_inicial tam
      inicial i f e =
          get_elem?-replicate n (marco_inicial tam) i f (ap (λ fs. get_elem? fs i) (sym marcos) ∙ e)

      nadie : (k : Clave) (i : ℕ) (f : Marco) → get_elem? r.frames i ≡ some f → clave f ≢ some k
      nadie k i f e q = absurd (cc (q, ap clave (inicial i f e), clave-inicial tam))

      v : Coherente w r
      v = record {
        sano = s;
        tamano = size;
        medidas =
            λ i f e. ap (λ (z : Marco). length z.base) (inicial i f e) ∙ length-replicate tam 0;
        unicas = λ i j f g k e e' q q'. absurd (nadie k i f e q);
        limpias = λ i f k e q d. absurd (nadie k i f e q);
        nombradas = λ i f e l d.
            let l' = ap (λ (z : Marco). z.libre) (inicial i f e) in absurd (cc (l, l'));
      }

  -- The memory that a Worker starts with, where the page size is that of Storage: it satisfies the
  -- invariant, has one frame for each page that fits, and a program sees what Storage holds.
  pub inicializar_memoria-Coherente :
      (info : Ram) (s : State)
      → info.page_size ≡ tam
      → w.Sano s
      → (r : Memoria State) × (inicializar_memoria info true true s ≡ some r)
        × (length r.frames ≡ info.tam_memoria / info.page_size)
        × Coherente w r
        × ((k : Clave) → vista w r k ≡ w.contenido s k)
  unfolding inicializar_memoria
  inicializar_memoria-Coherente info s size sano =
      let r : Memoria State = record {
        page_size = info.page_size;
        frames = replicate (info.tam_memoria / info.page_size) (marco_inicial info.page_size);
        algoritmo = info.algoritmo;
        context_query_id = 0;
        puntero_reloj = 0;
        instante = 0;
        storage = s;
      } in
      let (v, seen) =
        vacia-Coherente r (info.tam_memoria / info.page_size)
          (ap (λ (n : ℕ). replicate (info.tam_memoria / info.page_size) (marco_inicial n)) size)
          size sano in
      (
        r,
        refl,
        length-replicate (info.tam_memoria / info.page_size) (marco_inicial info.page_size),
        v,
        seen,
      )
