-- ===== src/Storage/Inicio/Formateo.antt =====
-- storage/src/storage.c and f_fresh_stat.c: what the start of Storage with FRESH_START gives.
use master_of_files.Base.{
  ℕ, zero, suc, ◌+◌, ◌-◌, ◌*◌, ◌/◌, ◌<◌, ◌≡◌, refl, Bool, true, false, some, ◌∷◌, get_elem?, set,
  replicate, arith, sym, ◌∙◌, ap, subst,
}
use master_of_files.Base.Int.{pos}
use master_of_files.Base.Texto.{codes, texto_eq}
use master_of_files.Storage.Nombres.{block_04d, itoa, digitos}
use master_of_files.Storage.Datos.{BlockFisico, Storage, link, enlace_de, hay_archivo}
use master_of_files.Storage.Bloques.{operacion_read_bloque, get_contenido, archivo_de}
use master_of_files.Storage.Contadores.{es, Cuenta, Cuenta-sumar}
use master_of_files.Storage.Contadores.Agrandar.{Contado}
use master_of_files.Storage.Inicio.{
  bloques_desde, archivos_desde, iniciar_bloques_fisicos, liberar_desde, levantar_bloques, levantar,
  block_logico_inicial, block_fisico_inicial,
}
use master_of_files.Storage.Nombres.Numeros.{block_04d_injective}

bloques_desde-block_04d :
    (i n j : ℕ) (b : BlockFisico)
    → get_elem? (bloques_desde i n) j ≡ some b
    → (b.path_block ≡ block_04d (i + j)) × (b.blogico_asociados ≡ pos 0)
unfolding bloques_desde
bloques_desde-block_04d i zero j b e = cc
bloques_desde-block_04d i (suc n) zero b e =
    let q : record { path_block = block_04d i; blogico_asociados = pos 0 } ≡ b = cc e in
    let z : i + 0 ≡ i = omega arith in (rw⁻¹ q (ap block_04d (sym z)), rw⁻¹ q refl)
bloques_desde-block_04d i (suc n) (suc j) b e =
    let z : suc i + j ≡ i + suc j = omega arith in
    let (p, c) = bloques_desde-block_04d (suc i) n j b e in (p ∙ ap block_04d z, c)

pub bloques_desde-Cuenta : (n : ℕ) → Cuenta (bloques_desde 0 (suc n)) (λ _. 0)
unfolding bloques_desde block_04d itoa digitos
bloques_desde-Cuenta n = record {
  distintos = λ i j a b ea eb q.
      let e : 0 + i ≡ 0 + j = block_04d_injective (0 + i) (0 + j) (
        sym (bloques_desde-block_04d 0 (suc n) i a ea).0
        ∙ q
        ∙ (bloques_desde-block_04d 0 (suc n) j b eb).0) in
      omega arith;
  primero = (_, refl, refl);
  contado = λ i b e. (bloques_desde-block_04d 0 (suc n) i b e).1;
}

set-replicate : (m i : ℕ) (a : Bool) → set (replicate m a) i a ≡ replicate m a
set-replicate zero i a = refl
set-replicate (suc m) zero a = refl
set-replicate (suc m) (suc i) a = ap (λ xs. a ∷ xs) (set-replicate m i a)

liberar_desde-replicate :
    (m i n : ℕ) → liberar_desde (true ∷ replicate m false) (suc i) n ≡ true ∷ replicate m false
unfolding liberar_desde
liberar_desde-replicate m i zero = refl
liberar_desde-replicate m i (suc n) =
    ap (λ xs. liberar_desde (true ∷ xs) (suc (suc i)) n) (set-replicate m i false)
    ∙ liberar_desde-replicate m (suc i) n

module _ (n block_size : ℕ) where
  levantar_bloques-Contado : Contado (levantar_bloques (suc n) block_size)
  unfolding levantar_bloques iniciar_bloques_fisicos bloques_desde block_04d itoa digitos
  levantar_bloques-Contado =
      let uno : (k : ℕ) → k + 0 + 0 + 0 ≡ 0 + k = λ k. omega arith in
      Cuenta-sumar (bloques_desde 0 (suc n)) (λ _. 0) _ 0 _ (bloques_desde-Cuenta n) refl
        (λ name. uno (es block_fisico_inicial name))

  levantar_bloques-bitmap :
      (levantar_bloques (suc n) block_size).bitmap
      ≡ true ∷ replicate ((suc n + 7) / 8 * 8 - 1) false
  unfolding levantar_bloques iniciar_bloques_fisicos
  levantar_bloques-bitmap =
      let bits : (suc n + 7) / 8 * 8 ≡ suc ((suc n + 7) / 8 * 8 - 1) = omega arith in
      ap (λ k. liberar_desde (set (set (replicate k false) 0 true) 0 true) 1 (suc n - 1)) bits
      ∙ liberar_desde-replicate ((suc n + 7) / 8 * 8 - 1) 0 (suc n - 1)

  levantar_bloques-operacion_read_bloque :
      operacion_read_bloque
        (levantar_bloques (suc n) block_size)
        (codes "initial_file")
        (codes "BASE")
        block_logico_inicial
      ≡ some (replicate block_size b'0')
  unfolding levantar_bloques iniciar_bloques_fisicos archivos_desde operacion_read_bloque
      get_contenido archivo_de link enlace_de hay_archivo block_04d itoa digitos texto_eq
  levantar_bloques-operacion_read_bloque = refl

-- The counters are exact, only block 0 is busy, and the block of initial_file:BASE reads as characters 0.
abbrev pub Levantado : ℕ → ℕ → Storage → Type 0
Levantado cant_block block_size s =
    Contado s
    × (s.bitmap ≡ true ∷ replicate ((cant_block + 7) / 8 * 8 - 1) false)
    × (operacion_read_bloque s (codes "initial_file") (codes "BASE") block_logico_inicial
        ≡ some (replicate block_size b'0'))

-- Where the superblock has room for a block, the start with FRESH_START gives a state with exact counters,
-- in which only block 0 is busy in the bitmap, and a READ of the block of initial_file:BASE gives as many
-- characters 0 as a block has bytes.
pub levantar-Levantado :
    (fs_size block_size : ℕ)
    → 0 < fs_size / block_size
    → Levantado (fs_size / block_size) block_size (levantar fs_size block_size)
unfolding levantar
levantar-Levantado fs_size block_size h =
    let n = fs_size / block_size - 1 in
    let bloques : suc n ≡ fs_size / block_size = omega arith in
    subst (λ k. Levantado k block_size (levantar_bloques k block_size)) bloques
      (
        levantar_bloques-Contado n block_size,
        levantar_bloques-bitmap n block_size,
        levantar_bloques-operacion_read_bloque n block_size,
      )
