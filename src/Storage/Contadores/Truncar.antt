-- ===== src/Storage/Contadores/Truncar.antt =====
-- storage/src/operaciones_storage.c: TRUNCATE keeps the counters of the physical blocks.

use master_of_files.Base.{
  ℕ, ◌-◌, ◌%◌, ◌≡◌, refl, ◌⊎◌, inl, inr, some, arith, Bool-cases, Option-cases, ltb, ◌==◌,
}
use master_of_files.Base.Int.{ℤ}
use master_of_files.Base.Texto.{Texto}
use master_of_files.Storage.Datos.{
  Estado, work_in_progress, commited, Storage, tag_en, buscar_index_tag,
}
use master_of_files.Storage.Operaciones.{
  con_tag, agrandar, achicar, con_tamanio, ajustar, operacion_truncate_file,
}
use master_of_files.Storage.Contadores.{refs, refs-modify_tag, Cuenta-same}
use master_of_files.Storage.Contadores.Agrandar.{Contado, Sigue, agrandar-Sigue}
use master_of_files.Storage.Contadores.Achicar.{achicar-Sigue}

con_tamanio-Contado :
    (s : Storage) (p : ℕ × ℕ) (bytes : ℕ) → Sigue s p → Contado (con_tag s p (con_tamanio bytes))
con_tamanio-Contado s p bytes (v, t, e) =
    Cuenta-same s.lista_bloques_fisicos (λ name. refs name s.lista_files) _ v
      (λ i b at.
        omega (arith, refs-modify_tag b.path_block s.lista_files p.0 p.1 (con_tamanio bytes) t e))

ajustar-Contado :
    (s s' : Storage) (file tag : Texto) (p : ℕ × ℕ) (actuales nuevos bytes : ℕ) (rc : ℤ)
    → Sigue s p
    → ajustar s file tag p actuales nuevos bytes ≡ some (rc, s')
    → Contado s'
unfolding ajustar
ajustar-Contado s s' file tag p actuales nuevos bytes rc v h =
    elim (Bool-cases (ltb actuales nuevos)) [
      | inl crece ↦
          let r = agrandar (nuevos - actuales) actuales s file tag p in
          let w = agrandar-Sigue (nuevos - actuales) actuales s file tag p v in
          elim (Bool-cases r.0) [
            | inl hay ↦
                let q : con_tag r.1 p (con_tamanio bytes) ≡ s' =
                  cc (rw hay at (rw (crece, ajustar) at h)) in
                rw⁻¹ q (con_tamanio-Contado r.1 p bytes w)
            | inr no_hay ↦
                let q : r.1 ≡ s' = cc (rw no_hay at (rw (crece, ajustar) at h)) in rw⁻¹ q w.0
          ]
      | inr baja ↦ elim (Option-cases (achicar (actuales - nuevos) s file tag p)) [
        | inl nunca ↦ absurd (cc (rw nunca at (rw (baja, ajustar) at h)))
        | inr (s1, e) ↦
            let w = achicar-Sigue (actuales - nuevos) s s1 file tag p v e in
            let q : con_tag s1 p (con_tamanio bytes) ≡ s' =
              cc (rw e at (rw (baja, ajustar) at h)) in
            rw⁻¹ q (con_tamanio-Contado s1 p bytes w)
      ]
    ]

pub Estado-cases : (e : Estado) → (e ≡ work_in_progress) ⊎ (e ≡ commited)
Estado-cases work_in_progress = inl refl
Estado-cases commited = inr refl

-- TRUNCATE keeps the counters: where each block counts the logical blocks of all files under its name
-- before it, it does so after, on every branch that returns, also where the blocks run out half way.
pub operacion_truncate_file-Contado :
    (s s' : Storage) (file tag : Texto) (bytes : ℕ) (rc : ℤ)
    → Contado s
    → operacion_truncate_file s file tag bytes ≡ some (rc, s')
    → Contado s'
unfolding operacion_truncate_file
operacion_truncate_file-Contado s s' file tag bytes rc v h =
    elim (Bool-cases (bytes % s.block_size == 0)) [
      | inr no_es ↦ let q : s ≡ s' = cc (rw (no_es, operacion_truncate_file) at h) in rw⁻¹ q v
      | inl multiplo ↦ elim (Option-cases (buscar_index_tag s.lista_files file tag)) [
        | inl no_esta ↦
            let q : s ≡ s' = cc (rw no_esta at (rw (multiplo, operacion_truncate_file) at h)) in
            rw⁻¹ q v
        | inr (p, esta) ↦ elim (Option-cases (tag_en s.lista_files p.0 p.1)) [
          | inl sin_tag ↦
              let q : s ≡ s' =
                cc (rw sin_tag at (rw esta at (rw (multiplo, operacion_truncate_file) at h))) in
              rw⁻¹ q v
          | inr (t, e) ↦ elim (Estado-cases t.metadata.estado) [
            | inl abierto ↦
                ajustar-Contado s s' file tag p _ _ bytes rc (v, t, e)
                  (rw abierto at
                    (rw e at (rw esta at (rw (multiplo, operacion_truncate_file) at h))))
            | inr cerrado ↦
                let q : s ≡ s' = cc (
                  rw cerrado at
                    (rw e at (rw esta at (rw (multiplo, operacion_truncate_file) at h)))) in
                rw⁻¹ q v
          ]
        ]
      ]
    ]
