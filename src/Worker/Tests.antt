-- ===== src/Worker/Tests.antt =====
-- Runs of the Worker's memory, with two frames of two bytes in front of the file `a:b`.
mod Storage
mod Ejecucion
use master_of_files.Base.{
  ℕ, zero, suc, ◌+◌, ◌≤◌, ◌<◌, ◌≡◌, refl, ◌≢◌, ◌^◌, true, false, Option, none, some, List, [], ◌∷◌,
  ◌%◌, ◌/◌, get_elem?, length, arith, ap, if◌then◌else◌, ◌==◌, ltb, find_index, replicate,
}
use master_of_files.Base.Texto.{Texto, texto_eq, tiene, codes}
use master_of_files.Utils.Protocolo.{Rc}
use master_of_files.Worker.Memoria.{
  Marco, Memoria, Ram, lru, clockm, algoritmo_lru, lru_desde, algoritmo_clockm, vuelta,
  segunda_vuelta, tercera_vuelta, inicializar_memoria, frame_matchea, compara, buscar_marco_libre,
  elegir_algoritmo,
}
use master_of_files.Worker.Memoria.Clave.{Clave, clave}
use master_of_files.Worker.Memoria.Victima.{Ocupado, NadieAntes, algoritmo_lru_oldest}
use master_of_files.Worker.Memoria.Reloj.{algoritmo_clockm_clean}
use master_of_files.Worker.Memoria.Clockm.{algoritmo_clockm_occupied, algoritmo_clockm_finds}
use master_of_files.Worker.Paginas.{
  traer_pagina, acceder_memoria, reemplazar_marco, flush_frame, flush_marco,
  escribir_pagina_storage, cargar_marco, lectura_pagina_storage,
}
use master_of_files.Worker.Paginas.Vista.{Coherente, vista}
use master_of_files.Worker.Paginas.Traer.{Trae, traer_pagina-Trae}
use master_of_files.Worker.Paginas.Inicio.{inicializar_memoria-Coherente}
use master_of_files.Worker.Paginas.Acceso.{
  Escribe, Lee, acceder_memoria-Escribe, acceder_memoria-Lee,
}
use Storage.{Paginas, storage_ab, pages_ab}

abbrev pub hola : Paginas
hola zero = 1 ∷ 2 ∷ []
hola (suc p) = 3 ∷ 4 ∷ []

hola-Sano : (p : ℕ) → length (hola p) ≡ 2
hola-Sano zero = refl
hola-Sano (suc p) = refl

abbrev pub reloj : ℕ → ℕ
reloj t = 100 + t

-- A page with unsaved changes, and one that is as in Storage.
abbrev sucio : Marco
sucio = record {
  libre = false;
  base = 7 ∷ 8 ∷ [];
  file = some (codes "a");
  tag = some (codes "b");
  pagina = 0;
  dirty = true;
  u = 1;
  m = 1;
  last_used = 50;
}

abbrev limpio : Marco
limpio = record {
  libre = false;
  base = 3 ∷ 4 ∷ [];
  file = some (codes "a");
  tag = some (codes "b");
  pagina = 1;
  dirty = false;
  u = 0;
  m = 0;
  last_used = 60;
}

abbrev pub llena : Memoria Paginas
llena = record {
  page_size = 2;
  frames = sucio ∷ limpio ∷ [];
  algoritmo = lru;
  context_query_id = 4;
  puntero_reloj = 0;
  instante = 0;
  storage = hola;
}

llena-medidas : (i : ℕ) (f : Marco) → get_elem? llena.frames i ≡ some f → length f.base ≡ 2
llena-medidas zero f e = ground arith
llena-medidas (suc zero) f e = ground arith
llena-medidas (suc (suc i)) f e = cc

-- The page of a frame tells which frame it is.
llena-pagina :
    (i : ℕ) (f : Marco) (k : Clave) → get_elem? llena.frames i ≡ some f → clave f ≡ some k → i ≡ k.2
unfolding clave
llena-pagina zero f k e q = ground arith
llena-pagina (suc zero) f k e q = ground arith
llena-pagina (suc (suc i)) f k e q = cc

llena-limpias :
    (i : ℕ) (f : Marco) (k : Clave)
    → get_elem? llena.frames i ≡ some f
    → clave f ≡ some k
    → f.dirty ≡ false
    → pages_ab.contenido hola k ≡ some f.base
unfolding clave texto_eq
llena-limpias zero f k e q d = absurd (ground arith)
llena-limpias (suc zero) f k e q d =
    let same : (codes "a", codes "b", 1) ≡ k = ground arith in
    let here : limpio ≡ f = ground arith in rw⁻¹ same (ap (λ (z : Marco). some z.base) here)
llena-limpias (suc (suc i)) f k e q d = cc

llena-nombradas :
    (i : ℕ) (f : Marco)
    → get_elem? llena.frames i ≡ some f
    → f.dirty ≡ true
    → (k : Clave) × (clave f ≡ some k)
unfolding clave
llena-nombradas zero f e d = ((codes "a", codes "b", 0), ground arith)
llena-nombradas (suc zero) f e d = absurd (ground arith)
llena-nombradas (suc (suc i)) f e d = cc

pub llena-Coherente : Coherente pages_ab llena
llena-Coherente = record {
  sano = hola-Sano;
  tamano = refl;
  medidas = llena-medidas;
  unicas = λ i j f g k e e' q q'.
      let a = llena-pagina i f k e q in let b = llena-pagina j g k e' q' in omega arith;
  limpias = llena-limpias;
  nombradas = λ i f e l d. llena-nombradas i f e d;
}

-- The fault on page 2 replaces page 0, which is written back first.
llena-traer : (traer_pagina storage_ab reloj llena (codes "a") (codes "b") 2).0 ≡ some 0
unfolding traer_pagina find_index frame_matchea compara buscar_marco_libre elegir_algoritmo
    algoritmo_lru lru_desde reemplazar_marco flush_frame flush_marco escribir_pagina_storage
    cargar_marco lectura_pagina_storage texto_eq
llena-traer = refl

traer_pagina-Trae_example :
    Trae pages_ab reloj llena
      (codes "a", codes "b", 2)
      (traer_pagina storage_ab reloj llena (codes "a") (codes "b") 2)
unfolding tiene
traer_pagina-Trae_example =
    traer_pagina-Trae pages_ab reloj llena (codes "a", codes "b", 2) llena-Coherente refl

acceder_memoria-Escribe_example :
    Escribe pages_ab
      (codes "a")
      (codes "b")
      llena
      1
      4
      (5 ∷ 6 ∷ 7 ∷ 8 ∷ [])
      (acceder_memoria storage_ab reloj llena (codes "a") (codes "b") 1 4 true (5 ∷ 6 ∷ 7 ∷ 8 ∷ []))
unfolding tiene
acceder_memoria-Escribe_example =
    acceder_memoria-Escribe pages_ab reloj (codes "a") (codes "b") (omega arith) refl llena 1 4
      (5 ∷ 6 ∷ 7 ∷ 8 ∷ []) llena-Coherente (omega arith) (omega arith) (omega arith)

acceder_memoria-Lee_example :
    Lee pages_ab
      (codes "a")
      (codes "b")
      llena
      1
      4
      []
      (acceder_memoria storage_ab reloj llena (codes "a") (codes "b") 1 4 false [])
unfolding tiene
acceder_memoria-Lee_example =
    acceder_memoria-Lee pages_ab reloj (codes "a") (codes "b") (omega arith) refl llena 1 4 []
      llena-Coherente (omega arith) (omega arith)

abbrev info : Ram
info = record { tam_memoria = 5; page_size = 2; algoritmo = clockm }

inicializar_memoria-Coherente_example :
    (r : Memoria Paginas) × (inicializar_memoria info true true hola ≡ some r)
    × (length r.frames ≡ 5 / 2)
    × Coherente pages_ab r
    × ((k : Clave) → vista pages_ab r k ≡ pages_ab.contenido hola k)
inicializar_memoria-Coherente_example =
    inicializar_memoria-Coherente pages_ab info hola refl hola-Sano

llena-lru : algoritmo_lru llena.frames ≡ some 0
unfolding algoritmo_lru lru_desde
llena-lru = refl

algoritmo_lru_oldest_example :
    (f : Marco) × Ocupado (sucio ∷ limpio ∷ []) 0 f × NadieAntes (sucio ∷ limpio ∷ []) f.last_used
algoritmo_lru_oldest_example = algoritmo_lru_oldest (sucio ∷ limpio ∷ []) 0 llena-lru

algoritmo_clockm_clean_example :
    (v : ℕ) × (g : Marco) × (algoritmo_clockm (sucio ∷ limpio ∷ []) 0
      ≡ (some v, (v + 1) % 2, sucio ∷ limpio ∷ []))
    × Ocupado (sucio ∷ limpio ∷ []) v g
    × (g.u ≡ 0)
    × (g.m ≡ 0)
algoritmo_clockm_clean_example =
    algoritmo_clockm_clean (sucio ∷ limpio ∷ []) 0 1 limpio (omega arith) (refl, refl) refl refl

sucias-clockm : (algoritmo_clockm (sucio ∷ sucio ∷ []) 1).0 ≡ some 1
unfolding algoritmo_clockm vuelta segunda_vuelta tercera_vuelta
sucias-clockm = refl

algoritmo_clockm_occupied_example :
    (f : Marco) × Ocupado (algoritmo_clockm (sucio ∷ sucio ∷ []) 1).2 1 f
algoritmo_clockm_occupied_example = algoritmo_clockm_occupied (sucio ∷ sucio ∷ []) 1 1 sucias-clockm

algoritmo_clockm_finds_example : (v : ℕ) × ((algoritmo_clockm (sucio ∷ sucio ∷ []) 1).0 ≡ some v)
algoritmo_clockm_finds_example =
    algoritmo_clockm_finds (sucio ∷ sucio ∷ []) 1 0 sucio (omega arith) (refl, refl)
