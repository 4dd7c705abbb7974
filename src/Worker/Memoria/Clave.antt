-- ===== src/Worker/Memoria/Clave.antt =====
-- worker/src/memoria_Interna.c: the page that a frame holds, as a key, and `frame_matchea` in its
-- terms.
use master_of_files.Base.{
  ℕ, ◌≡◌, refl, true, false, Option, none, some, if◌then◌else◌, arith, ==_iff,
}
use master_of_files.Base.Texto.{Texto, texto_eq_iff}
use master_of_files.Worker.Memoria.{Marco, compara, frame_matchea}

abbrev pub Clave : Type 0
Clave = Texto × Texto × ℕ

abbrev pub con_nombre : Option Texto → Option Texto → ℕ → Option Clave
con_nombre none tag p = none
con_nombre (some x) none p = none
con_nombre (some x) (some y) p = some (x, y, p)

-- The file, tag and page of a frame in use that has its names.
unfoldable pub clave : Marco → Option Clave
clave f = if f.libre then none else con_nombre f.file f.tag f.pagina

pub compara_sound : (o : Option Texto) (b : Texto) → compara o b ≡ true → o ≡ some b
unfolding compara
compara_sound none b h = cc
compara_sound (some a) b h = ground (arith, texto_eq_iff a b)

pub compara_refl : (b : Texto) → compara (some b) b ≡ true
unfolding compara
compara_refl b = (texto_eq_iff b b).1 refl

pub frame_matchea→clave :
    (f : Marco) (file tag : Texto) (p : ℕ)
    → frame_matchea f file tag p ≡ true
    → clave f ≡ some (file, tag, p)
unfolding frame_matchea clave
frame_matchea→clave f file tag p h =
    ground (arith, compara_sound f.file file, compara_sound f.tag tag)

pub clave-names :
    (f : Marco) (k : Clave)
    → clave f ≡ some k
    → (f.libre ≡ false) × (f.file ≡ some k.0) × (f.tag ≡ some k.1) × (f.pagina ≡ k.2)
unfolding clave
clave-names f k h = ground arith

pub clave→frame_matchea :
    (f : Marco) (k : Clave) → clave f ≡ some k → frame_matchea f k.0 k.1 k.2 ≡ true
unfolding frame_matchea
clave→frame_matchea f k h =
    let (l, a, b, p) = clave-names f k h in
    rw (l, a, b, p, compara_refl k.0, compara_refl k.1) (ground (arith, ==_iff k.2 k.2))
