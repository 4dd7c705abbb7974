-- ===== src/Worker/Instrucciones/Relectura.antt =====
-- worker/src/instrucciones.c: a READ after a WRITE of the same bytes.
use master_of_files.Base.{
  ℕ, ◌+◌, ◌*◌, ◌%◌, ◌^◌, ◌≤◌, ◌<◌, ◌≡◌, refl, inl, inr, Bool, true, false, ◌==◌, some, List, [],
  ◌∷◌, if◌then◌else◌, length, eq_of_get_elem?, arith, sym, ◌∙◌, ap, Bool-cases,
}
use master_of_files.Base.Texto.{Texto, tiene}
use master_of_files.Utils.Protocolo.{Conexion, Rc, cero, menos_uno}
use master_of_files.Utils.Nombre.{split_file_tag_sound}
use master_of_files.Worker.Memoria.{Memoria}
use master_of_files.Worker.Paginas.{acceder_memoria}
use master_of_files.Worker.Paginas.Vista.{PageStore, vista, Coherente}
use master_of_files.Worker.Paginas.Octetos.{Escrito, Leido}
use master_of_files.Worker.Paginas.Acceso.{acceder_memoria-Escribe, acceder_memoria-Lee}
use master_of_files.Worker.Instrucciones.{Instruccion, separar_file_tag}
use master_of_files.Worker.Instrucciones.Lectura.{separar_file_tag-split_file_tag}
use master_of_files.Worker.Instrucciones.Numero.{parse_size_t_safe}
use master_of_files.Worker.Instrucciones.Ejecucion.{
  Mensaje, op_resp_read_ok, ejecutar_write, ejecutar_read, vacio, escrito, leido, respuesta_read,
}

pub separar_file_tag_sin_colon :
    (s file tag : Texto) → separar_file_tag s ≡ some (file, tag) → tiene b':' file ≡ false
separar_file_tag_sin_colon s file tag h =
    (split_file_tag_sound s file tag (sym (separar_file_tag-split_file_tag s) ∙ h)).1

no_vacio : (xs : Texto) → vacio xs ≡ false → (length xs == 0) ≡ false
no_vacio [] h = absurd (cc h)
no_vacio (x ∷ xs) h = ground arith

Leido-Escrito :
    (tam : ℕ) (V V' : _) (file tag : Texto) (dir : ℕ) (xs ys : List ℕ)
    → Escrito tam V V' file tag dir (length xs) xs
    → Leido tam V' file tag dir (length xs) ys
    → ys ≡ xs
Leido-Escrito tam V V' file tag dir xs ys e l =
    eq_of_get_elem? ys xs l.0 (λ j h. l.1 j (omega arith) ∙ e.dentro j (omega arith))

module _ {c : Conexion} {tam : ℕ} (w : PageStore c tam) (tiempo : ℕ → ℕ) (malloc : ℕ → Bool)
    (file tag : Texto) (base : ℕ) where
  open c use {State}

  ejecutar_write-escrito :
      (r : Memoria State) (inst : Instruccion)
      → separar_file_tag inst.arg1 ≡ some (file, tag)
      → parse_size_t_safe inst.arg2 ≡ some base
      → ejecutar_write c tiempo malloc r inst ≡ (
          if vacio inst.arg3
          then some (menos_uno, r)
          else if malloc (length inst.arg3)
          then escrito (acceder_memoria c tiempo r file tag base (length inst.arg3) true inst.arg3)
          else some (menos_uno, r))
  unfolding ejecutar_write
  ejecutar_write-escrito r inst e f = rw (e, ejecutar_write) (rw f refl)

  ejecutar_read-leido :
      (r : Memoria State) (inst : Instruccion) (n : ℕ)
      → separar_file_tag inst.arg1 ≡ some (file, tag)
      → parse_size_t_safe inst.arg2 ≡ some base
      → parse_size_t_safe inst.arg3 ≡ some n
      → malloc n ≡ true
      → ejecutar_read c tiempo malloc r inst
        ≡ leido inst.arg1 n (acceder_memoria c tiempo r file tag base n false [])
  unfolding ejecutar_read
  ejecutar_read-leido r inst n e f g m =
      rw (e, ejecutar_read)
        (rw f (rw g (elim (Bool-cases (n == 0)) [ inl z ↦ rw (z) refl | inr z ↦ rw (z, m) refl ])))

  -- A WRITE that returns 0, and a READ of as many bytes from the same place: the READ ends, and where it
  -- returns 0 what it sends to the Master are the bytes that were written, whatever pages were replaced in
  -- between; the memory's invariant is kept. Storage is a `PageStore`: a page that it confirms is stored
  -- as sent, one that it refuses and the other pages stay as they were, and what it reads is what it holds; it may
  -- refuse any request. The page size is positive, the memory starts in its invariant, the names are the
  -- same, the address lies within the words of the machine, and the READ gets its buffer.
  pub ejecutar_read-ejecutar_write :
      0 < tam
      → (r r' : Memoria State) (wi ri : Instruccion) → Coherente w r
      → separar_file_tag wi.arg1 ≡ some (file, tag)
      → ri.arg1 ≡ wi.arg1
      → parse_size_t_safe wi.arg2 ≡ some base
      → parse_size_t_safe ri.arg2 ≡ some base
      → parse_size_t_safe ri.arg3 ≡ some (length wi.arg3)
      → base + length wi.arg3 ≤ tam * 2 ^ 32
      → base + length wi.arg3 ≤ 2 ^ 64
      → malloc (length wi.arg3) ≡ true
      → ejecutar_write c tiempo malloc r wi ≡ some (cero, r')
      → (rc : Rc) × (r'' : Memoria State) × (ms : List Mensaje) × (ejecutar_read c tiempo malloc r'
            ri
          ≡ some (rc, r'', ms))
        × Coherente w r''
        × (rc ≡ cero → ms ≡ op_resp_read_ok wi.arg1 (length wi.arg3 % 2 ^ 32) (some wi.arg3) ∷ [])
  ejecutar_read-ejecutar_write pos r r' wi ri v sep same b b' n small small' m done =
      elim (Bool-cases (vacio wi.arg3)) [
        | inl z ↦ absurd (cc (rw z at (sym (ejecutar_write-escrito r wi sep b) ∙ done)))
        | inr z ↦
            let nombre = separar_file_tag_sin_colon wi.arg1 file tag sep in
            let (rc, out, s, hecho, q, v', le, all, seen) =
              acceder_memoria-Escribe w tiempo file tag pos nombre r base (length wi.arg3) wi.arg3 v
                small small' (omega arith) in
            let (rc', datos, s', hecho', q', seen', le', all', gives) =
              acceder_memoria-Lee w tiempo file tag pos nombre s base (length wi.arg3) [] v' small
                small' in
            let fin : some (rc, s) ≡ some (cero, r') =
              rw q at (rw m at (rw z at (sym (ejecutar_write-escrito r wi sep b) ∙ done))) in
            let ok : rc ≡ cero = cc fin in
            let llega : s ≡ r' = cc fin in
            let todo : Escrito tam (vista w r) (vista w s) file tag base (length wi.arg3) wi.arg3 =
              rw (all ok) at seen in
            (
              rc',
              s',
              respuesta_read ri.arg1 (length wi.arg3) rc' datos,
              rw (← llega) (
                  ejecutar_read-leido s ri (length wi.arg3) (ap separar_file_tag same ∙ sep) b' n m
                  ∙ ap (leido ri.arg1 (length wi.arg3)) q'),
              seen'.0,
              λ ok'.
                  let iguales : datos ≡ wi.arg3 =
                    Leido-Escrito tam (vista w r) (vista w s) file tag base wi.arg3 datos todo
                      (rw (all' ok') at gives) in
                  rw (ok', no_vacio wi.arg3 z, same, iguales) refl,
            )
      ]
