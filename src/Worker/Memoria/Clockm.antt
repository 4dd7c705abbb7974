-- ===== src/Worker/Memoria/Clockm.antt =====
-- worker/src/memoria_Interna.c: `algoritmo_CLOCKM` as a whole: the frame that it finds is in use.
use mathlib.Core.Option
use master_of_files.Base.{
  ℕ, ◌<◌, ◌≡◌, refl, not, inl, inr, none, some, List, length, get_elem?, get_elem?-modify_self,
  get_elem?-modify_ne, ℕ_discrete, ◌∙◌, Option, ap, arith, Option-cases,
}
use master_of_files.Worker.Memoria.{
  Marco, clase, vuelta, segunda_vuelta, tercera_vuelta, tras_segunda, algoritmo_clockm, bajar_u,
}
use master_of_files.Worker.Memoria.Victima.{Ocupado}
use master_of_files.Worker.Memoria.Reloj.{
  Baja, igual, baja, vuelta_finds, length-Baja, segunda_vuelta_sound, vuelta_sound,
  segunda_vuelta-Baja,
}

tercera_vuelta_sound :
    (fs : List Marco) (puntero v : ℕ)
    → (tercera_vuelta fs puntero).0 ≡ some v
    → (f : Marco) × Ocupado (tercera_vuelta fs puntero).2 v f
unfolding tercera_vuelta
tercera_vuelta_sound fs puntero v h =
    elim (Option-cases (vuelta (λ f. not f.libre) fs puntero (length fs) 0)) [
      | inl miss ↦ absurd (ground arith)
      | inr (i, hit) ↦
          let (f, e, t) = vuelta_sound (λ f. not f.libre) fs puntero (length fs) 0 i hit in
          let same : i ≡ v = ground arith in
          let at : get_elem? fs v ≡ some f = rw (← same) e in
          rw (hit, tercera_vuelta) (f, (at, ground arith))
    ]

tercera_vuelta-frames : (fs : List Marco) (puntero : ℕ) → (tercera_vuelta fs puntero).2 ≡ fs
unfolding tercera_vuelta
tercera_vuelta-frames fs puntero = ground arith

tras_segunda_sound :
    (puntero v : ℕ) (o : Option ℕ) (fs gs : List Marco)
    → Baja fs gs
    → ((i : ℕ) → o ≡ some i → (f : Marco) × Ocupado gs i f)
    → (tras_segunda puntero (o, gs)).0 ≡ some v
    → (f : Marco) × Ocupado (tras_segunda puntero (o, gs)).2 v f
      × Baja fs (tras_segunda puntero (o, gs)).2
tras_segunda_sound puntero v (some i) fs gs b found h =
    let same : i ≡ v = ground arith in let (f, o) = found i refl in (f, (rw (← same) o.0, o.1), b)
tras_segunda_sound puntero v none fs gs b found h =
    let (f, o) = tercera_vuelta_sound gs puntero v h in
    (f, o, rw (tercera_vuelta-frames gs puntero) b)

tras_segunda-Baja :
    (puntero : ℕ) (o : Option ℕ) (fs gs : List Marco)
    → Baja fs gs
    → Baja fs (tras_segunda puntero (o, gs)).2
tras_segunda-Baja puntero (some i) fs gs b = b
tras_segunda-Baja puntero none fs gs b = rw (tercera_vuelta-frames gs puntero) b

pub algoritmo_clockm-Baja :
    (fs : List Marco) (puntero : ℕ) → Baja fs (algoritmo_clockm fs puntero).2
unfolding algoritmo_clockm
algoritmo_clockm-Baja fs puntero =
    elim (Option-cases (vuelta (clase 0 0) fs puntero (length fs) 0)) [
      | inl miss ↦
          rw (miss, algoritmo_clockm)
            (tras_segunda-Baja puntero (segunda_vuelta fs puntero (length fs) 0).0 fs
              (segunda_vuelta fs puntero (length fs) 0).1
              (segunda_vuelta-Baja fs puntero (length fs) 0))
      | inr (i, hit) ↦ rw (hit, algoritmo_clockm) igual
    ]

-- The frame that CLOCK-M chooses is in use.
pub algoritmo_clockm_occupied :
    (fs : List Marco) (puntero v : ℕ)
    → (algoritmo_clockm fs puntero).0 ≡ some v
    → (f : Marco) × Ocupado (algoritmo_clockm fs puntero).2 v f
unfolding algoritmo_clockm
algoritmo_clockm_occupied fs puntero v h =
    elim (Option-cases (vuelta (clase 0 0) fs puntero (length fs) 0)) [
      | inl miss ↦
          let (f, o, b) =
            tras_segunda_sound puntero v (segunda_vuelta fs puntero (length fs) 0).0 fs
              (segunda_vuelta fs puntero (length fs) 0).1
              (segunda_vuelta-Baja fs puntero (length fs) 0)
              (λ i e.
                let (f, o, u0, m1) = segunda_vuelta_sound fs puntero (length fs) 0 i e in (f, o))
              (rw (miss, algoritmo_clockm) at h) in
          rw (miss, algoritmo_clockm) (f, o)
      | inr (i, hit) ↦
          let (f, e, t) = vuelta_sound (clase 0 0) fs puntero (length fs) 0 i hit in
          let same : i ≡ v = ground arith in
          let at : get_elem? fs v ≡ some f = rw (← same) e in
          rw (hit, algoritmo_clockm) (f, (at, ground arith))
    ]

tercera_vuelta_finds :
    (fs : List Marco) (puntero j : ℕ) (f : Marco)
    → puntero < length fs
    → Ocupado fs j f
    → (v : ℕ) × ((tercera_vuelta fs puntero).0 ≡ some v)
unfolding tercera_vuelta
tercera_vuelta_finds fs puntero j f hp o =
    let (v, e) = vuelta_finds (λ f. not f.libre) fs puntero j f hp o.0 (ground arith) in
    (v, rw (e, tercera_vuelta))

Ocupado-Baja :
    {fs gs : List Marco} (j : ℕ) (f : Marco)
    → Baja fs gs
    → Ocupado fs j f
    → (g : Marco) × Ocupado gs j g
Ocupado-Baja j f igual o = (f, o)
Ocupado-Baja j f (baja {gs} b i) o =
    let (g, at) = Ocupado-Baja j f b o in
    elim (ℕ_discrete i j) [
      | yes e ↦ (
        bajar_u g,
        (
          rw e (get_elem?-modify_self gs j bajar_u ∙ ap (Option.map bajar_u) at.0),
          ground (arith, at.1),
        ),
      )
      | no n ↦ (g, (get_elem?-modify_ne gs bajar_u n ∙ at.0, at.1))
    ]

tras_segunda_finds :
    (puntero j : ℕ) (o : Option ℕ) (gs : List Marco) (f : Marco)
    → puntero < length gs
    → Ocupado gs j f
    → (v : ℕ) × ((tras_segunda puntero (o, gs)).0 ≡ some v)
tras_segunda_finds puntero j (some i) gs f hp o = (i, refl)
tras_segunda_finds puntero j none gs f hp o = tercera_vuelta_finds gs puntero j f hp o

-- CLOCK-M chooses a frame whenever one is in use.
pub algoritmo_clockm_finds :
    (fs : List Marco) (puntero j : ℕ) (f : Marco)
    → puntero < length fs
    → Ocupado fs j f
    → (v : ℕ) × ((algoritmo_clockm fs puntero).0 ≡ some v)
unfolding algoritmo_clockm
algoritmo_clockm_finds fs puntero j f hp o =
    elim (Option-cases (vuelta (clase 0 0) fs puntero (length fs) 0)) [
      | inl miss ↦
          let b = segunda_vuelta-Baja fs puntero (length fs) 0 in
          let (g, o') = Ocupado-Baja j f b o in
          rw (miss, algoritmo_clockm)
            (tras_segunda_finds puntero j (segunda_vuelta fs puntero (length fs) 0).0
              (segunda_vuelta fs puntero (length fs) 0).1 g (omega (arith, length-Baja b)) o')
      | inr (i, hit) ↦ (i, rw (hit, algoritmo_clockm))
    ]
