-- ===== src/Storage/Reinicio/Recuento.antt =====
-- storage/src/f_fresh_stat.c: what the start without FRESH_START counts.

use master_of_files.Base.{
  ℕ, zero, suc, ◌+◌, ◌<◌, ◌≡◌, refl, inl, inr, Option, some, List, [], ◌∷◌, get_elem?, modify,
  arith, ◌∙◌, Bool-cases, Option-cases, find_index,
}
use master_of_files.Base.Texto.{Texto}
use master_of_files.Storage.Datos.{
  BlockFisico, BlockLogico, Tag, File, Storage, Ruta, buscar_index_block_fisico, sumar_asociado,
}
use master_of_files.Storage.Bloques.{Config, Disco, get_contenido, hash_de}
use master_of_files.Storage.Contadores.{
  es, sumar, refs_bls, refs_tags, refs, Cuenta, Cuenta-same, Cuenta-sumar,
  buscar_index_block_fisico_sound,
}
use master_of_files.Storage.Contadores.Agrandar.{Contado}
use master_of_files.Storage.Inicio.Formateo.{bloques_desde-Cuenta}
use master_of_files.Storage.Reinicio.{
  CarpetaTag, CarpetaFile, listado, recorrer, buscar_bf_asociado, bf_asociado, cargar_bl,
  cargar_tag, cargar_file, fresh_start_false, relevantar, iniciar_bloques_fisicos_existentes,
  sincronizar, abrir_bitmap,
}

-- A counter that goes up leaves the search by name as it was.
buscar_index-sumar :
    (bfs : List BlockFisico) (i : ℕ) (name : Texto)
    → buscar_index_block_fisico (modify bfs i sumar_asociado) name
      ≡ buscar_index_block_fisico bfs name
unfolding buscar_index_block_fisico find_index
buscar_index-sumar [] i name = refl
buscar_index-sumar (b ∷ bfs) zero name = refl
buscar_index-sumar (b ∷ bfs) (suc i) name = rw (buscar_index-sumar bfs i name) refl

-- The counters count `n`, and names are found where they were in `bfs0`.
record Bien (bfs0 bfs : List BlockFisico) (n : Texto → ℕ) : Type 0 where
  cuenta : Cuenta bfs n
  mismos : (name : Texto) → buscar_index_block_fisico bfs name ≡ buscar_index_block_fisico bfs0 name

Bien-same :
    (bfs0 bfs : List BlockFisico) (n n' : Texto → ℕ)
    → Bien bfs0 bfs n
    → ((name : Texto) → n' name ≡ n name)
    → Bien bfs0 bfs n'
Bien-same bfs0 bfs n n' v h = record {
  cuenta = Cuenta-same bfs n n' v.cuenta (λ i b e. h b.path_block);
  mismos = v.mismos;
}

-- A step of a loop that does not stop and counts what it makes.
abbrev Sube :
    {B : Type 0}
    → List BlockFisico
    → (Texto → B → ℕ)
    → (Texto → ℕ)
    → Option (List BlockFisico × B)
    → Type 0
Sube {B} bfs0 w n o =
    (r : List BlockFisico × B) × (o ≡ some r) × Bien bfs0 r.0 (λ name. n name + w name r.1)

module _ {A B : Type 0} (bfs0 : List BlockFisico) (w : Texto → B → ℕ)
    (f : List BlockFisico → A → Option (List BlockFisico × B)) where
  recorrer-Sube :
      (xs : List A)
      → ((a : A) (j : ℕ)
          → get_elem? xs j ≡ some a
          → (bfs : List BlockFisico) (n : Texto → ℕ) → Bien bfs0 bfs n
          → Sube bfs0 w n (f bfs a))
      → (bfs : List BlockFisico) (n : Texto → ℕ) → Bien bfs0 bfs n
      → Sube bfs0 (λ name. sumar (w name)) n (recorrer f bfs xs)
  unfolding recorrer
  recorrer-Sube [] paso bfs n v = ((bfs, []), refl, Bien-same bfs0 bfs n _ v (λ name. omega arith))
  recorrer-Sube (a ∷ xs) paso bfs n v =
      let ((b1, x), e, v1) = paso a 0 refl bfs n v in
      let ((b2, ys), e', v2) = recorrer-Sube xs (λ a j at. paso a (suc j) at) b1 _ v1 in
      (
        (b2, x ∷ ys),
        rw (e, recorrer) (rw (e') refl),
        Bien-same bfs0 b2 _ _ v2 (λ name. omega arith),
      )

module _ (c : Config) (md5 : List ℕ → Texto) (d : Disco c.State) where
  -- The physical block that the index names for the bytes of a path.
  abbrev pub Hallado : List BlockFisico → Ruta → Type 0
  Hallado bfs r = (i : ℕ) × (bf_asociado c md5 d bfs r ≡ some i)

  buscar_bf_asociado-found :
      (bfs0 bfs : List BlockFisico) (n : Texto → ℕ) (hash : Texto) (i : ℕ)
      → Bien bfs0 bfs n
      → buscar_bf_asociado c md5 d.hash_index bfs0 hash ≡ some i
      → (buscar_bf_asociado c md5 d.hash_index bfs hash ≡ some i)
        × (b : BlockFisico) × (get_elem? bfs i ≡ some b)
  unfolding buscar_bf_asociado
  buscar_bf_asociado-found bfs0 bfs n hash i v h =
      elim (Bool-cases (c.config_has_property d.hash_index hash)) [
        | inr falta ↦ absurd (cc (rw (falta, buscar_bf_asociado) at h))
        | inl si ↦
            let name = c.config_get_string_value d.hash_index hash in
            let e : buscar_index_block_fisico bfs name ≡ some i =
              v.mismos name ∙ (rw (si, buscar_bf_asociado) at h) in
            let (b, at, q) = buscar_index_block_fisico_sound bfs name i e in
            (rw (si, buscar_bf_asociado) e, b, at)
      ]

  bf_asociado-found :
      (bfs0 bfs : List BlockFisico) (n : Texto → ℕ) (r : Ruta) (i : ℕ)
      → Bien bfs0 bfs n
      → bf_asociado c md5 d bfs0 r ≡ some i
      → (bf_asociado c md5 d bfs r ≡ some i) × (b : BlockFisico) × (get_elem? bfs i ≡ some b)
  unfolding bf_asociado
  bf_asociado-found bfs0 bfs n r i v h = elim (Option-cases (get_contenido d.storage r)) [
    | inl falta ↦ absurd (cc (rw (falta, bf_asociado) at h))
    | inr (x, hay) ↦
        let (e, b, at) =
          buscar_bf_asociado-found bfs0 bfs n (hash_de c md5 x) i v (rw (hay, bf_asociado) at h) in
        (rw (hay, bf_asociado) e, b, at)
  ]

  module _ (bfs0 : List BlockFisico) where
    cargar_bl-Sube :
        (file tag nombre : Texto) (bfs : List BlockFisico) (n : Texto → ℕ)
        → Hallado bfs0 (file, tag, nombre)
        → Bien bfs0 bfs n
        → Sube bfs0
            (λ name (bl : BlockLogico). es bl.bloque_fisico_asociado name)
            n
            (cargar_bl c md5 d file tag bfs nombre)
    cargar_bl-Sube file tag nombre bfs n (i, h) v =
        let (e, b, at) = bf_asociado-found bfs0 bfs n (file, tag, nombre) i v h in
        (
          (
            modify bfs i sumar_asociado,
            record { nombre_block = nombre; bloque_fisico_asociado = b.path_block },
          ),
          rw (e, cargar_bl) (rw (at) refl),
          record {
            cuenta = Cuenta-sumar bfs n _ i b v.cuenta at (λ name. refl);
            mismos = λ name. buscar_index-sumar bfs i name ∙ v.mismos name;
          },
        )

    abbrev pub HalladosTag : Texto → CarpetaTag → Type 0
    HalladosTag file t =
        (nombre : Texto) (j : ℕ)
        → get_elem? (listado t.logical_blocks) j ≡ some nombre
        → Hallado bfs0 (file, t.name_tag, nombre)

    cargar_tag-Sube :
        (file : Texto) (t : CarpetaTag) (bfs : List BlockFisico) (n : Texto → ℕ)
        → HalladosTag file t
        → Bien bfs0 bfs n
        → Sube bfs0
            (λ name (t : Tag). refs_bls name t.lista_block_logicos)
            n
            (cargar_tag c md5 d file bfs t)
    cargar_tag-Sube file t bfs n h v =
        let ((b1, bls), e, v1) =
          recorrer-Sube bfs0 (λ name (bl : BlockLogico). es bl.bloque_fisico_asociado name)
            (cargar_bl c md5 d file t.name_tag) (listado t.logical_blocks)
            (λ x j at bfs n. cargar_bl-Sube file t.name_tag x bfs n (h x j at)) bfs n v in
        (
          (b1, record { name_tag = t.name_tag; metadata = t.metadata; lista_block_logicos = bls }),
          rw (e, cargar_tag) refl,
          v1,
        )

    abbrev pub HalladosFile : CarpetaFile → Type 0
    HalladosFile f =
        (t : CarpetaTag) (j : ℕ) → get_elem? (listado f.tags) j ≡ some t → HalladosTag f.name_file t

    cargar_file-Sube :
        (f : CarpetaFile) (bfs : List BlockFisico) (n : Texto → ℕ)
        → HalladosFile f
        → Bien bfs0 bfs n
        → Sube bfs0 (λ name (f : File). refs_tags name f.tags) n (cargar_file c md5 d bfs f)
    cargar_file-Sube f bfs n h v =
        let ((b1, ts), e, v1) =
          recorrer-Sube bfs0 (λ name (t : Tag). refs_bls name t.lista_block_logicos)
            (cargar_tag c md5 d f.name_file) (listado f.tags)
            (λ x j at bfs n. cargar_tag-Sube f.name_file x bfs n (h x j at)) bfs n v in
        ((b1, record { name_file = f.name_file; tags = ts }), rw (e, cargar_file) refl, v1)

  existentes-Cuenta : (n : ℕ) → 0 < n → Cuenta (iniciar_bloques_fisicos_existentes n) (λ _. 0)
  existentes-Cuenta zero h = let no_hay : ⊥ = omega arith in absurd no_hay
  existentes-Cuenta (suc n) h = bloques_desde-Cuenta n

  -- The start without FRESH_START, where there is a block and the hash index names a block of Storage for the
  -- bytes of every logical block on the disk: it comes to an end, and in the state that it gives the counter of
  -- each physical block is the number of logical blocks under it.
  pub relevantar-Contado :
      (files : Option (List CarpetaFile))
      → 0 < d.storage.cant_block
      → ((f : CarpetaFile) (j : ℕ)
          → get_elem? (listado files) j ≡ some f
          → HalladosFile (iniciar_bloques_fisicos_existentes d.storage.cant_block) f)
      → (s' : Storage) × (relevantar c md5 d files ≡ some s') × Contado s'
  unfolding relevantar fresh_start_false
  relevantar-Contado files pos h =
      let bfs0 = iniciar_bloques_fisicos_existentes d.storage.cant_block in
      let v : Bien bfs0 bfs0 (λ _. 0) = record {
        cuenta = existentes-Cuenta d.storage.cant_block pos;
        mismos = λ name. refl;
      } in
      let ((bfs, fs), e, v1) =
        recorrer-Sube bfs0 (λ name (f : File). refs_tags name f.tags) (cargar_file c md5 d)
          (listado files) (λ f j at bfs n. cargar_file-Sube bfs0 f bfs n (h f j at)) bfs0 (λ _. 0)
          v in
      (
        record d.storage {
          lista_files = fs;
          lista_bloques_fisicos = bfs;
          bitmap = sincronizar (abrir_bitmap d.storage.bitmap d.storage.cant_block) 0 bfs;
        },
        rw (e, relevantar) refl,
        (Bien-same bfs0 bfs _ (λ name. refs name fs) v1 (λ name. omega arith)).cuenta,
      )
