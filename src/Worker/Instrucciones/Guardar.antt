-- ===== src/Worker/Instrucciones/Guardar.antt =====
-- worker/src/instrucciones.c: COMMIT and FLUSH after the changes are in Storage, and the frames of TRUNCATE and
-- DELETE.
use master_of_files.Base.{ℕ, ◌≡◌, refl, inl, inr, some, length, arith}
use master_of_files.Base.Texto.{Texto}
use master_of_files.Utils.Protocolo.{Pedido, op_resp_ok, Conexion, Rc, menos_uno, si_cero}
use master_of_files.Worker.Memoria.{Memoria}
use master_of_files.Worker.Paginas.{flush_filetag}
use master_of_files.Worker.Paginas.Vista.{PageStore}
use master_of_files.Worker.Paginas.Descarga.{Rc-cases, Invisible}
use master_of_files.Worker.Paginas.Flush.{Guardado}
use master_of_files.Worker.Instrucciones.{Instruccion, separar_file_tag}
use master_of_files.Worker.Instrucciones.Ejecucion.{
  pide, ejecutar_truncate, ejecutar_delete, liberar_desde, soltar_desde,
}

module _ {c : Conexion} {tam : ℕ} (w : PageStore c tam) (tiempo : ℕ → ℕ) (file tag : Texto) where
  open c use {State, pedir}

  -- A memory in which the changes of the file:tag are saved, and from which the request `p` was sent and
  -- confirmed.
  abbrev pub Confirma : Memoria State → (ℕ → Pedido) → Memoria State → Type 0
  Confirma r p r' =
      (r1 : Memoria State) × Invisible w r r1
      × Guardado w tiempo file tag r1.frames 0 (length r.frames)
      × ((pedir r1.storage (p r1.context_query_id)).0.op_resp ≡ some op_resp_ok)
      × (r' ≡ record r1 { storage = (pedir r1.storage (p r1.context_query_id)).1 })

  tras_flush : Memoria State → (ℕ → Pedido) → Rc × Memoria State
  tras_flush r p =
      let (rc, r1) = flush_filetag c tiempo r file tag in
      si_cero rc (pide c tiempo r1 (p r1.context_query_id)) (menos_uno, r1)

module _ (c : Conexion) (tiempo : ℕ → ℕ) where
  open c use {State}

  -- TRUNCATE leaves every frame as it was and DELETE every frame as its flush left it, so that the pages
  -- that they take from Storage are still in the memory.
  pub ejecutar_truncate-ejecutar_delete :
      (r : Memoria State) (inst : Instruccion) (file tag : Texto)
      → separar_file_tag inst.arg1 ≡ some (file, tag)
      → ((ejecutar_truncate c tiempo r inst).1.frames ≡ r.frames)
        × ((ejecutar_delete c tiempo r inst).1.frames
            ≡ (flush_filetag c tiempo r file tag).1.frames)
  unfolding ejecutar_truncate ejecutar_delete liberar_desde soltar_desde
  ejecutar_truncate-ejecutar_delete r inst file tag sep = (trunca, borra)
    where
      borra :
          (ejecutar_delete c tiempo r inst).1.frames ≡ (flush_filetag c tiempo r file tag).1.frames
      borra = elim (Rc-cases (flush_filetag c tiempo r file tag).0) [
        | inl e ↦ rw (sep, ejecutar_delete) (rw (e) refl)
        | inr e ↦ rw (sep, ejecutar_delete) (rw (e) refl)
      ]

      trunca : (ejecutar_truncate c tiempo r inst).1.frames ≡ r.frames
      trunca = ground arith
