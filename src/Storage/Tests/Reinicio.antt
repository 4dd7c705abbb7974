-- ===== src/Storage/Tests/Reinicio.antt =====
-- A start of Storage without FRESH_START: one File:Tag with one block, and an index with its hash.
use master_of_files.Base.{
  ℕ, zero, suc, ◌≡◌, refl, Option, some, [], ◌∷◌, get_elem?, arith, subst, find_index,
}
use master_of_files.Base.Texto.{Texto, codes, texto_eq}
use master_of_files.Storage.Nombres.{block_04d, itoa, digitos}
use master_of_files.Storage.Datos.{Storage, work_in_progress, buscar_index_block_fisico, enlace_de}
use master_of_files.Storage.Bloques.{Disco, get_contenido, archivo_de}
use master_of_files.Storage.Contadores.Agrandar.{Contado}
use master_of_files.Storage.Inicio.{bloques_desde}
use master_of_files.Storage.Reinicio.{
  CarpetaTag, CarpetaFile, relevantar, bf_asociado, buscar_bf_asociado,
  iniciar_bloques_fisicos_existentes,
}
use master_of_files.Storage.Reinicio.Recuento.{HalladosTag, HalladosFile, relevantar-Contado}
use master_of_files.Storage.Tests.Atencion.{con_pagina, diccionario, md5}

abbrev indexado : Disco (Texto → Option Texto)
indexado = record { storage = con_pagina; hash_index = λ _. some (codes "block0001") }

abbrev carpeta_b : CarpetaTag
carpeta_b = record {
  name_tag = codes "b";
  metadata = record {
    tamanio_file = 2;
    blocks_fisicos_usados = codes "1" ∷ [];
    estado = work_in_progress;
  };
  logical_blocks = some (codes "000000.dat" ∷ []);
}

abbrev carpeta_a : CarpetaFile
carpeta_a = record { name_file = codes "a"; tags = some (carpeta_b ∷ []) }

sola :
    {A : Type 0} (P : A → Type 0) (a : A)
    → P a
    → (x : A) (j : ℕ) → get_elem? (a ∷ []) j ≡ some x
    → P x
sola P a p x zero e = subst P (cc e) p
sola P a p x (suc j) e = absurd (cc e)

hallados_a :
    HalladosFile diccionario md5 indexado
      (iniciar_bloques_fisicos_existentes con_pagina.cant_block)
      carpeta_a
unfolding bf_asociado buscar_bf_asociado buscar_index_block_fisico get_contenido enlace_de
    archivo_de find_index texto_eq bloques_desde block_04d itoa digitos
hallados_a =
    sola
      (HalladosTag diccionario md5 indexado
        (iniciar_bloques_fisicos_existentes con_pagina.cant_block) (codes "a"))
      carpeta_b (sola _ (codes "000000.dat") (1, refl))

relevantar-Contado_example :
    (s' : Storage) × (relevantar diccionario md5 indexado (some (carpeta_a ∷ [])) ≡ some s')
    × Contado s'
relevantar-Contado_example =
    relevantar-Contado diccionario md5 indexado (some (carpeta_a ∷ [])) (omega arith) (
      sola
        (HalladosFile diccionario md5 indexado
          (iniciar_bloques_fisicos_existentes con_pagina.cant_block))
        carpeta_a hallados_a)
