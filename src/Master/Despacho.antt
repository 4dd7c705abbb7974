-- ===== src/Master/Despacho.antt =====
-- master/src/master_planificacion.c: the Worker that a round of `planificador_fifo` takes.

use master_of_files.Base.{
  ℕ, ◌≡◌, inl, inr, true, false, Option, some, List, get_elem?, modify, find_index,
  find_index_sound, sym, ◌∙◌, ap, Option-cases,
}
use master_of_files.Master.Datos.{Worker}
use master_of_files.Master.Planificacion.{obtener_worker_libre}

-- The Worker that is taken was free, and only it changes.
pub obtener_worker_libre_sound :
    (ws ws' : List Worker) (i : ℕ)
    → obtener_worker_libre ws ≡ (some i, ws')
    → (w : Worker) × (get_elem? ws i ≡ some w)
      × (w.libre ≡ true)
      × (ws' ≡ modify ws i (λ w. record w { libre = false }))
unfolding obtener_worker_libre
obtener_worker_libre_sound ws ws' i h =
    elim (Option-cases (find_index (λ (w : Worker). w.libre) ws)) [
      | inl e ↦ absurd (cc (rw (e, obtener_worker_libre) at h))
      | inr (j, e) ↦
          let q = rw (e, obtener_worker_libre) at h in
          let same : j ≡ i = cc q in
          let (w, at, l) = find_index_sound (λ (w : Worker). w.libre) ws j e in
          (
            w,
            rw (← same) at,
            l,
            sym (ap (λ (z : Option ℕ × List Worker). z.1) q)
                ∙ ap (λ (k : ℕ). modify ws k (λ (w : Worker). record w { libre = false })) same,
          )
    ]
