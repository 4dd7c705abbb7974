-- ===== src/Worker/Tests/Storage.antt =====
-- A concrete Storage for the runs of the Worker's memory: the pages of the file `a:b`.
use master_of_files.Base.{
  ℕ, ◌≡◌, refl, ◌≢◌, Bool, true, false, ◌&&◌, Option, none, some, List, [], ◌∷◌, length, take,
  if◌then◌else◌, ◌==◌, arith, Bool-cases, inl, inr, ap, take_of_length-le, sym, ◌∙◌,
}
use master_of_files.Base.Texto.{Texto, texto_eq, texto_eq_sound, tiene, codes}
use master_of_files.Utils.Protocolo.{
  Pedido, op_st_read_block, op_st_write_block, Respuesta, Conexion, op_resp_ok, op_resp_error,
}
use master_of_files.Worker.Memoria.Clave.{Clave}
use master_of_files.Worker.Paginas.{file_tag}
use master_of_files.Worker.Paginas.Vista.{PageStore}

abbrev pub Paginas : Type 0
Paginas = ℕ → List ℕ

abbrev respuesta : ℕ → List ℕ → Respuesta
respuesta op datos = record { op_resp = some op; datos = datos }

abbrev lee_ab : Paginas → Texto → ℕ → Respuesta
lee_ab s ft p =
    if texto_eq ft (codes "a:b") then respuesta op_resp_ok (s p) else respuesta op_resp_error []

abbrev es_ab : Texto → Texto → Bool
es_ab file tag = texto_eq file (codes "a") && texto_eq tag (codes "b")

abbrev escribe_ab : Paginas → Texto → Texto → ℕ → List ℕ → Respuesta × Paginas
escribe_ab s file tag p datos =
    if es_ab file tag && (length datos == 2)
    then (respuesta op_resp_ok [], λ p'. if p' == p then datos else s p')
    else (respuesta op_resp_error [], s)

abbrev pedir_ab : Paginas → Pedido → Respuesta × Paginas
pedir_ab s (op_st_read_block q ft p) = (lee_ab s ft p, s)
pedir_ab s (op_st_write_block q file tag p n datos) = escribe_ab s file tag p datos
pedir_ab s _ = (respuesta op_resp_error [], s)

abbrev pub storage_ab : Conexion
storage_ab = record { State = Paginas; pedir = pedir_ab }

abbrev contenido_ab : Paginas → Clave → Option (List ℕ)
contenido_ab s k = if es_ab k.0 k.1 then some (s k.2) else none

file_tag_ab :
    (file tag : Texto)
    → tiene b':' file ≡ false
    → texto_eq (file_tag file tag) (codes "a:b") ≡ true
    → es_ab file tag ≡ true
unfolding texto_eq tiene
file_tag_ab [] tag n h = absurd (ground arith)
file_tag_ab (x ∷ []) tag n h = ground arith
file_tag_ab (x ∷ y ∷ ys) tag n h = absurd (ground arith)

es_ab_sound : (file tag : Texto) → es_ab file tag ≡ true → (file ≡ codes "a") × (tag ≡ codes "b")
es_ab_sound file tag h = elim (Bool-cases (texto_eq file (codes "a"))) [
  | inl e ↦ (texto_eq_sound file _ e, texto_eq_sound tag _ (ground arith))
  | inr e ↦ absurd (ground arith)
]

pub leer_ok_ab :
    (s : Paginas) (p : ℕ) (file tag : Texto)
    → ((i : ℕ) → length (s i) ≡ 2)
    → tiene b':' file ≡ false
    → (lee_ab s (file_tag file tag) p).op_resp ≡ some op_resp_ok
    → contenido_ab s (file, tag, p) ≡ some (take 2 (lee_ab s (file_tag file tag) p).datos)
leer_ok_ab s p file tag v n ok = elim (Bool-cases (texto_eq (file_tag file tag) (codes "a:b"))) [
  | inl e ↦
      rw (file_tag_ab file tag n e, e)
        (ap some (sym (take_of_length-le 2 (s p) (omega (arith, v p)))))
  | inr e ↦ absurd (ground arith)
]

-- A write in its two cases.
data EscrituraAb (s : Paginas) (file tag : Texto) (p : ℕ) (datos : List ℕ) : Type 0 where
  hecha :
      file ≡ codes "a"
      → tag ≡ codes "b"
      → length datos ≡ 2
      → escribe_ab s file tag p datos
        ≡ (respuesta op_resp_ok [], λ i. if i == p then datos else s i)
      → EscrituraAb s file tag p datos
  rechazada :
      escribe_ab s file tag p datos ≡ (respuesta op_resp_error [], s)
      → EscrituraAb s file tag p datos

escritura_ab :
    (s : Paginas) (file tag : Texto) (p : ℕ) (datos : List ℕ) → EscrituraAb s file tag p datos
escritura_ab s file tag p datos = elim (Bool-cases (es_ab file tag && (length datos == 2))) [
  | inr e ↦ rechazada (rw e)
  | inl e ↦ let (f, t) = es_ab_sound file tag (ground arith) in hecha f t (ground arith) (rw e)
]

pub escribir-Sano_ab :
    (s : Paginas) (file tag : Texto) (p : ℕ) (datos : List ℕ)
    → ((i : ℕ) → length (s i) ≡ 2)
    → (i : ℕ) → length ((escribe_ab s file tag p datos).1 i) ≡ 2
escribir-Sano_ab s file tag p datos v i = elim (escritura_ab s file tag p datos) [
  | rechazada e ↦ ap (λ (x : Respuesta × Paginas). length (x.1 i)) e ∙ v i
  | hecha f t l e ↦
      ap (λ (x : Respuesta × Paginas). length (x.1 i)) e
      ∙ elim (Bool-cases (i == p)) [ inl q ↦ rw q l | inr q ↦ rw q (v i) ]
]

pub escribir_ok_ab :
    (s : Paginas) (file tag : Texto) (p : ℕ) (datos : List ℕ)
    → (escribe_ab s file tag p datos).0.op_resp ≡ some op_resp_ok
    → contenido_ab (escribe_ab s file tag p datos).1 (file, tag, p) ≡ some datos
escribir_ok_ab s file tag p datos ok = elim (escritura_ab s file tag p datos) [
  | rechazada e ↦
      let bad : some op_resp_error ≡ some op_resp_ok =
        sym (ap (λ (x : Respuesta × Paginas). x.0.op_resp) e) ∙ ok in
      absurd (ground arith)
  | hecha f t l e ↦
      ap (λ (x : Respuesta × Paginas). contenido_ab x.1 (file, tag, p)) e ∙ rw (f, t) (ground arith)
]

pub escribir_otra_ab :
    (s : Paginas) (file tag : Texto) (p : ℕ) (datos : List ℕ) (k : Clave)
    → k ≢ (file, tag, p)
    → contenido_ab (escribe_ab s file tag p datos).1 k ≡ contenido_ab s k
escribir_otra_ab s file tag p datos k n = elim (escritura_ab s file tag p datos) [
  | rechazada e ↦ ap (λ (x : Respuesta × Paginas). contenido_ab x.1 k) e
  | hecha f t l e ↦
      ap (λ (x : Respuesta × Paginas). contenido_ab x.1 k) e ∙ elim (Bool-cases (es_ab k.0 k.1)) [
        | inr fuera ↦ rw fuera
        | inl dentro ↦
            let (f', t') = es_ab_sound k.0 k.1 dentro in
            let other : (k.2 == p) ≡ false = elim (Bool-cases (k.2 == p)) [
              | inl q ↦ let q' : k.2 ≡ p = ground arith in absurd (n (cc (f, f', t, t', q')))
              | inr q ↦ q
            ] in
            rw (other, dentro)
      ]
]

pub escribir_mal_ab :
    (s : Paginas) (file tag : Texto) (p : ℕ) (datos : List ℕ) (k : Clave)
    → (escribe_ab s file tag p datos).0.op_resp ≢ some op_resp_ok
    → contenido_ab (escribe_ab s file tag p datos).1 k ≡ contenido_ab s k
escribir_mal_ab s file tag p datos k n = elim (escritura_ab s file tag p datos) [
  | rechazada e ↦ ap (λ (x : Respuesta × Paginas). contenido_ab x.1 k) e
  | hecha f t l e ↦ absurd (n (ap (λ (x : Respuesta × Paginas). x.0.op_resp) e))
]

abbrev pub pages_ab : PageStore storage_ab 2
pages_ab = record {
  Sano = λ s. (p : ℕ) → length (s p) ≡ 2;
  contenido = contenido_ab;
  leer-Sano = λ s q p file tag v. v;
  leer-contenido = λ s q p file tag k v. refl;
  leer_ok = λ s q p file tag v n ok le. leer_ok_ab s p file tag v n ok;
  escribir-Sano = λ s q p n file tag datos v. escribir-Sano_ab s file tag p datos v;
  escribir_ok = λ s q p file tag datos v l ok. escribir_ok_ab s file tag p datos ok;
  escribir_otra = λ s q p n file tag datos k v ne. escribir_otra_ab s file tag p datos k ne;
  escribir_mal = λ s q p n file tag datos k v ne. escribir_mal_ab s file tag p datos k ne;
}
