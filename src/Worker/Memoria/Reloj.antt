-- ===== src/Worker/Memoria/Reloj.antt =====
-- worker/src/memoria_Interna.c: the rounds of `algoritmo_CLOCKM`, and the frames in use with both bits clear.

use native.Mathlib.Nat.{mod-eq_of_lt}
use master_of_files.Base.{
  ℕ, zero, suc, ◌+◌, ◌-◌, ◌%◌, ◌<◌, ◌≡◌, refl, Bool, true, false, inl, inr, none, some, List,
  if◌then◌else◌, leb, length, get_elem?, get_elem?-lt, modify, length-modify, arith, Bool-cases,
  Option-cases,
}
use master_of_files.Worker.Memoria.{
  Marco, prueba, clase, vuelta, segunda_vuelta, algoritmo_clockm, bajar_u,
}
use master_of_files.Worker.Memoria.Victima.{Ocupado}

-- Frames that differ from `fs` by use bits that were cleared.
pub data Baja (fs : List Marco) : List Marco → Type 0 where
  igual : Baja fs fs
  baja : {gs : List Marco} → Baja fs gs → (i : ℕ) → Baja fs (modify gs i bajar_u)

Baja-trans : {fs gs hs : List Marco} → Baja fs gs → Baja gs hs → Baja fs hs
Baja-trans a igual = a
Baja-trans a (baja b i) = baja (Baja-trans a b) i

pub length-Baja : {fs gs : List Marco} → Baja fs gs → length gs ≡ length fs
length-Baja igual = refl
length-Baja (baja {gs} b i) = omega (arith, length-modify gs i bajar_u, length-Baja b)

prueba_sound :
    (fs : List Marco) (i : ℕ) (p : Marco → Bool)
    → prueba fs i p ≡ true
    → (f : Marco) × (get_elem? fs i ≡ some f) × (p f ≡ true)
prueba_sound fs i p h = elim (Option-cases (get_elem? fs i)) [
  | inl e ↦ absurd (ground arith)
  | inr (f, e) ↦ (f, e, ground arith)
]

pub vuelta_sound :
    (p : Marco → Bool) (fs : List Marco) (puntero n k v : ℕ)
    → vuelta p fs puntero n k ≡ some v
    → (f : Marco) × (get_elem? fs v ≡ some f) × (p f ≡ true)
unfolding vuelta
vuelta_sound p fs puntero zero k v h = cc
vuelta_sound p fs puntero (suc n) k v h =
    elim (Bool-cases (prueba fs ((puntero + k) % length fs) p)) [
      | inl hit ↦
          let here : (puntero + k) % length fs ≡ v = ground arith in
          rw (← here) (prueba_sound fs ((puntero + k) % length fs) p hit)
      | inr miss ↦ vuelta_sound p fs puntero n (suc k) v (ground arith)
    ]

vuelta-none :
    (p : Marco → Bool) (fs : List Marco) (puntero n k t : ℕ)
    → vuelta p fs puntero n k ≡ none
    → t < n
    → prueba fs ((puntero + (k + t)) % length fs) p ≡ false
unfolding vuelta
vuelta-none p fs puntero zero k t h lt = elim lt [ ]
vuelta-none p fs puntero (suc n) k zero h lt =
    elim (Bool-cases (prueba fs ((puntero + k) % length fs) p)) [
      | inl hit ↦ absurd (ground arith)
      | inr miss ↦ let e : k + 0 ≡ k = omega arith in rw e miss
    ]
vuelta-none p fs puntero (suc n) k (suc t) h lt =
    elim (Bool-cases (prueba fs ((puntero + k) % length fs) p)) [
      | inl hit ↦ absurd (ground arith)
      | inr miss ↦
          let e : k + suc t ≡ suc k + t = omega arith in
          rw e (vuelta-none p fs puntero n (suc k) t (ground arith) (omega arith))
    ]

mod_wrap : (x n : ℕ) → x < n → (x + n) % n ≡ x
mod_wrap x n h = grind arith

-- The round from `puntero` that stops at frame `j`.
abbrev rondas : ℕ → ℕ → ℕ → ℕ
rondas n puntero j = if leb puntero j then j - puntero else j + n - puntero

rondas_reach :
    (n puntero j : ℕ)
    → puntero < n
    → j < n
    → (rondas n puntero j < n) × ((puntero + (0 + rondas n puntero j)) % n ≡ j)
rondas_reach n puntero j hp hj = elim (Bool-cases (leb puntero j)) [
  | inl ahead ↦
      let e : puntero + (0 + rondas n puntero j) ≡ j = ground arith in
      (ground arith, rw e (mod-eq_of_lt hj))
  | inr behind ↦
      let e : puntero + (0 + rondas n puntero j) ≡ j + n = ground arith in
      (ground arith, rw e (mod_wrap j n hj))
]

pub vuelta_finds :
    (p : Marco → Bool) (fs : List Marco) (puntero j : ℕ) (f : Marco)
    → puntero < length fs
    → get_elem? fs j ≡ some f
    → p f ≡ true
    → (v : ℕ) × (vuelta p fs puntero (length fs) 0 ≡ some v)
vuelta_finds p fs puntero j f hp e h =
    let (lt, at) = rondas_reach (length fs) puntero j hp (get_elem?-lt fs j f e) in
    elim (Option-cases (vuelta p fs puntero (length fs) 0)) [
      | inl miss ↦
          let bad = vuelta-none p fs puntero (length fs) 0 (rondas (length fs) puntero j) miss lt in
          absurd (go (rw at at bad))
      | inr (v, hit) ↦ (v, hit)
    ]
  where
    go : prueba fs j p ≡ false → ⊥
    go q = ground arith

pub segunda_vuelta-Baja :
    (fs : List Marco) (puntero n k : ℕ) → Baja fs (segunda_vuelta fs puntero n k).1
unfolding segunda_vuelta
segunda_vuelta-Baja fs puntero zero k = igual
segunda_vuelta-Baja fs puntero (suc n) k =
    elim (Bool-cases (prueba fs ((puntero + k) % length fs) (clase 0 1))) [
      | inl hit ↦ rw (hit, segunda_vuelta) igual
      | inr miss ↦
          rw (miss, segunda_vuelta)
            (Baja-trans (baja igual ((puntero + k) % length fs)) (
              segunda_vuelta-Baja (modify fs ((puntero + k) % length fs) bajar_u) puntero n
                (suc k)))
    ]

pub segunda_vuelta_sound :
    (fs : List Marco) (puntero n k v : ℕ)
    → (segunda_vuelta fs puntero n k).0 ≡ some v
    → (f : Marco) × Ocupado (segunda_vuelta fs puntero n k).1 v f × (f.u ≡ 0) × (f.m ≡ 1)
unfolding segunda_vuelta
segunda_vuelta_sound fs puntero zero k v h = cc
segunda_vuelta_sound fs puntero (suc n) k v h =
    elim (Bool-cases (prueba fs ((puntero + k) % length fs) (clase 0 1))) [
      | inl hit ↦
          let here : (puntero + k) % length fs ≡ v = ground arith in
          let (f, e, q) = prueba_sound fs ((puntero + k) % length fs) _ hit in
          let at : get_elem? fs v ≡ some f = rw (← here) e in
          rw (hit, segunda_vuelta) (f, (at, ground arith), ground arith, ground arith)
      | inr miss ↦
          rw (miss, segunda_vuelta)
            (segunda_vuelta_sound (modify fs ((puntero + k) % length fs) bajar_u) puntero n (suc k)
              v (ground arith))
    ]

clase_of_bits : (f : Marco) (u m : ℕ) → f.libre ≡ false → f.u ≡ u → f.m ≡ m → clase u m f ≡ true
clase_of_bits f u m l a b = ground arith

-- A frame in use with both bits clear is enough for the first round: CLOCK-M then chooses such a
-- frame, moves the hand one past it and leaves the frames as they are.
pub algoritmo_clockm_clean :
    (fs : List Marco) (puntero j : ℕ) (f : Marco)
    → puntero < length fs
    → Ocupado fs j f
    → f.u ≡ 0
    → f.m ≡ 0
    → (v : ℕ) × (g : Marco) × (algoritmo_clockm fs puntero ≡ (some v, (v + 1) % length fs, fs))
      × Ocupado fs v g
      × (g.u ≡ 0)
      × (g.m ≡ 0)
unfolding algoritmo_clockm
algoritmo_clockm_clean fs puntero j f hp o hu hm =
    let (v, e) = vuelta_finds (clase 0 0) fs puntero j f hp o.0 (clase_of_bits f 0 0 o.1 hu hm) in
    let (g, at, t) = vuelta_sound (clase 0 0) fs puntero (length fs) 0 v e in
    (v, g, rw (e, algoritmo_clockm), (at, ground arith), ground arith, ground arith)
