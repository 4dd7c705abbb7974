-- ===== src/Sistema/Lectura.antt =====
-- worker/src and storage/src together: the instructions of a Worker whose socket leads to Storage.
use master_of_files.Base.{
  ℕ, ◌+◌, ◌*◌, ◌%◌, ◌^◌, ◌≤◌, ◌<◌, ◌≡◌, Bool, true, some, List, [], ◌∷◌, length, refl, sym, ◌∙◌,
  subst,
}
use master_of_files.Base.Texto.{Texto}
use master_of_files.Utils.Protocolo.{Rc, cero}
use master_of_files.Worker.Memoria.{Memoria, Ram, inicializar_memoria}
use master_of_files.Worker.Paginas.Vista.{Coherente}
use master_of_files.Worker.Paginas.Inicio.{inicializar_memoria-Coherente}
use master_of_files.Worker.Instrucciones.{Instruccion, separar_file_tag}
use master_of_files.Worker.Instrucciones.Numero.{parse_size_t_safe}
use master_of_files.Worker.Instrucciones.Ejecucion.{
  Mensaje, op_resp_read_ok, ejecutar_write, ejecutar_read,
}
use master_of_files.Worker.Instrucciones.Relectura.{ejecutar_read-ejecutar_write}
use master_of_files.Storage.Bloques.{Config, Disco}
use master_of_files.Storage.Atencion.Servidor.{storage_server, SanoDe, storage_pages}

-- A Worker that starts with Storage behind its socket, a WRITE that returns 0 and a READ of as many bytes
-- from the same place: the READ ends, and where it returns 0 what goes to the Master are the bytes that were
-- written, whatever pages were replaced and written back in between. Storage starts in a state where every
-- logical block is linked to the block that it names and shares it with no other page, its block size is the
-- page size and is positive, no write of a file is cut short, the address lies within the words of the machine, and the READ gets its buffer.
pub ejecutar_read-storage_server :
    (c : Config) (md5 : List ℕ → Texto) (hay_buffer escrito : Bool) (tiempo : ℕ → ℕ)
    (malloc : ℕ → Bool) (info : Ram) (d : Disco c.State) (file tag : Texto) (base : ℕ)
    (r r' : Memoria (Disco c.State)) (wi ri : Instruccion)
    → 0 < info.page_size
    → SanoDe c md5 hay_buffer escrito info.page_size d
    → inicializar_memoria info true true d ≡ some r
    → separar_file_tag wi.arg1 ≡ some (file, tag)
    → ri.arg1 ≡ wi.arg1
    → parse_size_t_safe wi.arg2 ≡ some base
    → parse_size_t_safe ri.arg2 ≡ some base
    → parse_size_t_safe ri.arg3 ≡ some (length wi.arg3)
    → base + length wi.arg3 ≤ info.page_size * 2 ^ 32
    → base + length wi.arg3 ≤ 2 ^ 64
    → malloc (length wi.arg3) ≡ true
    → ejecutar_write (storage_server c md5 hay_buffer escrito) tiempo malloc r wi ≡ some (cero, r')
    → (rc : Rc) × (r'' : Memoria (Disco c.State)) × (ms : List Mensaje) × (ejecutar_read
          (storage_server c md5 hay_buffer escrito)
          tiempo
          malloc
          r'
          ri
        ≡ some (rc, r'', ms))
      × (rc ≡ cero → ms ≡ op_resp_read_ok wi.arg1 (length wi.arg3 % 2 ^ 32) (some wi.arg3) ∷ [])
unfolding storage_pages
ejecutar_read-storage_server c md5 hay_buffer escrito tiempo malloc info d file tag base r r' wi ri
      pos sano inicia sep same b b' n small small' m done =
    let w = storage_pages c md5 hay_buffer escrito info.page_size in
    let (r0, e, l, v, seen) = inicializar_memoria-Coherente w info d refl sano in
    let q : r0 ≡ r = cc (sym e ∙ inicia) in
    let (rc, r'', ms, lee, v', bien) =
      ejecutar_read-ejecutar_write w tiempo malloc file tag base pos r r' wi ri
        (subst (Coherente w) q v) sep same b b' n small small' m done in
    (rc, r'', ms, lee, bien)
