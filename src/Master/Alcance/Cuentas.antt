-- ===== src/Master/Alcance/Cuentas.antt =====
-- master/src: sums over the Workers, when one of them changes, comes or goes.
use master_of_files.Base.{
  ℕ, zero, suc, ◌+◌, ◌≡◌, some, List, [], ◌∷◌, ◌++◌, get_elem?, modify, arith,
}
use master_of_files.Master.Datos.{Worker}
use master_of_files.Master.Mensajes.{quitar}
use master_of_files.Master.Alcance.{veces, suma}

pub veces-append : (q : ℕ) (xs ys : List ℕ) → veces q (xs ++ ys) ≡ veces q xs + veces q ys
veces-append q [] ys = omega arith
veces-append q (x ∷ xs) ys = omega (arith, veces-append q xs ys)

module _ (f : Worker → ℕ) where
  pub suma-append : (ws vs : List Worker) → suma f (ws ++ vs) ≡ suma f ws + suma f vs
  suma-append [] vs = omega arith
  suma-append (w ∷ ws) vs = omega (arith, suma-append ws vs)

  pub suma-modify :
      (ws : List Worker) (i : ℕ) (g : Worker → Worker) (w : Worker)
      → get_elem? ws i ≡ some w
      → suma f (modify ws i g) + f w ≡ suma f ws + f (g w)
  suma-modify [] i g w h = absurd (cc h)
  suma-modify (v ∷ ws) zero g w h = let e : v ≡ w = cc h in rw e (omega arith)
  suma-modify (v ∷ ws) (suc i) g w h = omega (arith, suma-modify ws i g w h)

  pub suma-quitar :
      (ws : List Worker) (i : ℕ) (w : Worker)
      → get_elem? ws i ≡ some w
      → suma f (quitar ws i) + f w ≡ suma f ws
  suma-quitar [] i w h = absurd (cc h)
  suma-quitar (v ∷ ws) zero w h = let e : v ≡ w = cc h in rw e (omega arith)
  suma-quitar (v ∷ ws) (suc i) w h = omega (arith, suma-quitar ws i w h)

  -- One of them in the sum.
  pub suma-part :
      (ws : List Worker) (i : ℕ) (w : Worker)
      → get_elem? ws i ≡ some w
      → (r : ℕ) × (suma f ws ≡ f w + r)
  suma-part ws i w h = (suma f (quitar ws i), omega (arith, suma-quitar ws i w h))
