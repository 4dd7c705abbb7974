-- ===== src/Storage/Atencion/Servidor.antt =====
-- storage/src/atencion_worker.c: Storage behind the socket of a Worker, as the map of pages that the Worker's
-- memory relies on.
use master_of_files.Base.{
  ℕ, ◌≡◌, refl, ◌≢◌, inl, inr, Bool, true, false, Option, none, some, List, [], length, take, arith,
  sym, ◌∙◌, ap, subst, Option-cases,
}
use master_of_files.Base.Texto.{Texto}
use master_of_files.Utils.Protocolo.{op_resp_ok, op_resp_error, Respuesta, Conexion}
use master_of_files.Worker.Memoria.Clave.{Clave}
use master_of_files.Worker.Paginas.{file_tag}
use master_of_files.Worker.Paginas.Vista.{PageStore}
use master_of_files.Storage.Bloques.{Config, Disco, Escribe, no_abre, corta, entera, armar_buffer}
use master_of_files.Storage.Atencion.{storage_read_block, storage_write_block, atender_worker}
use master_of_files.Storage.Atencion.Paginas.{
  pagina_de, Sano, escrito_en-Sano, pagina_de-escrito, pagina_de-otra, pagina_de-take,
}
use master_of_files.Storage.Atencion.Refina.{
  respuesta_de, take-take-append, storage_read_block-pagina_de, rechazada, cortada, hecha,
  storage_write_block-Escritura,
}

-- The reply to a request; none comes from a handler that does not return.
abbrev pub respuesta_o {ℓ} : {D : Type ℓ} → D → Option (Respuesta × D) → Respuesta × D
respuesta_o d none = (record { op_resp = none; datos = [] }, d)
respuesta_o d (some x) = x

-- Writes of files that are never cut short.
abbrev pub sin_corte : Bool → Escribe
sin_corte true = entera
sin_corte false = no_abre

sin_corte-corta : (b : Bool) (n : ℕ) → sin_corte b ≢ corta n
sin_corte-corta true n = λ e. cc e
sin_corte-corta false n = λ e. cc e

module _ (c : Config) (md5 : List ℕ → Texto) (hay_buffer escrito : Bool) where
  open c use {State}

  abbrev pub storage_server : Conexion
  storage_server = record {
    State = Disco State;
    pedir = λ d p. respuesta_o d (atender_worker c md5 hay_buffer (sin_corte escrito) d p);
  }

  pub storage_read_block_same :
      (d : Disco State) (ft : Texto) (p : ℕ)
      → (storage_read_block c md5 hay_buffer (sin_corte escrito) d ft p).1 ≡ d
  unfolding storage_read_block
  storage_read_block_same d ft p = ground arith

  module _ (tam : ℕ) where
    -- The states in which it works as a map of pages of `tam` bytes.
    abbrev pub SanoDe : Disco State → Type 0
    SanoDe d = Sano d.storage × (d.storage.block_size ≡ tam)

    pub storage_write_block-SanoDe :
        (d : Disco State) (file tag : Texto) (p n : ℕ) (datos : List ℕ)
        → SanoDe d
        → SanoDe (storage_write_block c md5 hay_buffer (sin_corte escrito) d file tag p n datos).1
    storage_write_block-SanoDe d file tag p n datos (v, l) =
        elim (storage_write_block-Escritura c md5 hay_buffer (sin_corte escrito) d file tag p n
          datos) [
            | rechazada e ↦ subst (λ x. SanoDe x.1) (sym e) (v, l)
            | cortada bl original m q esta e ↦ absurd (sin_corte-corta escrito m q)
            | hecha bl original indice esta e ↦
                subst (λ x. SanoDe x.1) (sym e)
                  (
                    escrito_en-Sano d.storage v bl.bloque_fisico_asociado
                        (armar_buffer d.storage.block_size original datos n),
                    l,
                  )
          ]

    pub storage_write_block_others :
        (d : Disco State) (file tag : Texto) (p n : ℕ) (datos : List ℕ) (k : Clave)
        → SanoDe d
        → k ≢ (file, tag, p)
        → pagina_de
            (storage_write_block c md5 hay_buffer
              (sin_corte escrito)
              d
              file
              tag
              p
              n
              datos).1.storage
            k
          ≡ pagina_de d.storage k
    storage_write_block_others d file tag p n datos k (v, l) ne =
        elim (storage_write_block-Escritura c md5 hay_buffer (sin_corte escrito) d file tag p n
          datos) [
            | rechazada e ↦ ap (λ x. pagina_de x.1.storage k) e
            | cortada bl original m q esta e ↦ absurd (sin_corte-corta escrito m q)
            | hecha bl original indice esta e ↦
                ap (λ x. pagina_de x.1.storage k) e
                ∙ pagina_de-otra d.storage v bl.bloque_fisico_asociado
                    (armar_buffer d.storage.block_size original datos n) k
                    (λ b f q. ne (v.propia k (file, tag, p) b bl f esta q))
          ]

    pub storage_write_block_refused :
        (d : Disco State) (file tag : Texto) (p n : ℕ) (datos : List ℕ) (k : Clave)
        → (storage_write_block c md5 hay_buffer (sin_corte escrito) d file tag p n datos).0.op_resp
          ≢ some op_resp_ok
        → pagina_de
            (storage_write_block c md5 hay_buffer
              (sin_corte escrito)
              d
              file
              tag
              p
              n
              datos).1.storage
            k
          ≡ pagina_de d.storage k
    storage_write_block_refused d file tag p n datos k mal =
        elim (storage_write_block-Escritura c md5 hay_buffer (sin_corte escrito) d file tag p n
          datos) [
            | rechazada e ↦ ap (λ x. pagina_de x.1.storage k) e
            | cortada bl original m q esta e ↦ absurd (sin_corte-corta escrito m q)
            | hecha bl original indice esta e ↦ absurd (mal (ap (λ x. x.0.op_resp) e))
          ]

    pub storage_write_block_ok :
        (d : Disco State) (file tag : Texto) (p : ℕ) (datos : List ℕ)
        → SanoDe d
        → length datos ≡ tam
        → (storage_write_block c md5 hay_buffer
            (sin_corte escrito)
            d
            file
            tag
            p
            tam
            datos).0.op_resp
          ≡ some op_resp_ok
        → pagina_de
            (storage_write_block c md5 hay_buffer
              (sin_corte escrito)
              d
              file
              tag
              p
              tam
              datos).1.storage
            (file, tag, p)
          ≡ some datos
    storage_write_block_ok d file tag p datos (v, l) largo ok =
        elim (storage_write_block-Escritura c md5 hay_buffer (sin_corte escrito) d file tag p tam
          datos) [
            | rechazada e ↦
                let mal : some op_resp_error ≡ some op_resp_ok =
                  sym (ap (λ x. x.0.op_resp) e) ∙ ok in
                absurd (ground arith)
            | cortada bl original m q esta e ↦ absurd (sin_corte-corta escrito m q)
            | hecha bl original indice esta e ↦
                ap (λ x. pagina_de x.1.storage (file, tag, p)) e
                ∙ pagina_de-escrito d.storage v bl.bloque_fisico_asociado
                    (armar_buffer d.storage.block_size original datos tam) (file, tag, p) bl esta
                    refl
                ∙ ap some (rw (l) (take-take-append tam datos _ largo))
          ]

    pub leida :
        (d : Disco State) (k : Clave) (r : Respuesta)
        → d.storage.block_size ≡ tam
        → r ≡ respuesta_de (pagina_de d.storage k)
        → r.op_resp ≡ some op_resp_ok
        → pagina_de d.storage k ≡ some (take tam r.datos)
    leida d k r l e ok = elim (Option-cases (pagina_de d.storage k)) [
      | inl f ↦
          let mal : some op_resp_error ≡ some op_resp_ok =
            sym (ap (λ (x : Respuesta). x.op_resp) (e ∙ ap respuesta_de f)) ∙ ok in
          absurd (ground arith)
      | inr (xs, f) ↦
          f
          ∙ ap some (
              sym (pagina_de-take d.storage k xs f)
              ∙ ap (λ n. take n xs) l
              ∙ ap (λ (x : Respuesta). take tam x.datos) (sym (e ∙ ap respuesta_de f)))
    ]

    -- What a Worker gets from Storage is what its memory relies on.
    unfoldable pub storage_pages : PageStore storage_server tam
    unfolding atender_worker
    storage_pages = record {
      Sano = SanoDe;
      contenido = λ d k. pagina_de d.storage k;
      leer-Sano = λ d q p file tag v.
          subst SanoDe (sym (storage_read_block_same d (file_tag file tag) p)) v;
      leer-contenido = λ d q p file tag k v.
          ap (λ (x : Disco State). pagina_de x.storage k)
            (storage_read_block_same d (file_tag file tag) p);
      leer_ok = λ d q p file tag v n ok le.
          leida d (file, tag, p) _ v.1
            (ap (λ x. x.0)
              (storage_read_block-pagina_de c md5 hay_buffer (sin_corte escrito) d file tag p v.0
                n))
            ok;
      escribir-Sano = λ d q p n file tag datos v. storage_write_block-SanoDe d file tag p n datos v;
      escribir_ok = λ d q p file tag datos v l ok. storage_write_block_ok d file tag p datos v l ok;
      escribir_otra =
          λ d q p n file tag datos k v ne. storage_write_block_others d file tag p n datos k v ne;
      escribir_mal =
          λ d q p n file tag datos k v mal. storage_write_block_refused d file tag p n datos k mal;
    }
