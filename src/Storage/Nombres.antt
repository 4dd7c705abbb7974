-- ===== src/Storage/Nombres.antt =====
-- storage/src/operaciones_storage.c: the names of logical and physical blocks.
pub mod Numeros
use master_of_files.Base.{ℕ, zero, suc, ◌+◌, ◌-◌, ◌/◌, ◌%◌, ◌*◌, [], ◌∷◌, ◌++◌, ltb, if◌then◌else◌}
use master_of_files.Base.Texto.{Texto, codes}

-- `%d` and `string_itoa` of a number that is not negative. The fuel is more than its digits.
unfoldable pub digitos : ℕ → ℕ → Texto
digitos zero n = []
digitos (suc fuel) n =
    let resto = digitos fuel (n / 10) in
    if ltb n 10 then (b'0' + n) ∷ [] else resto ++ ((b'0' + n % 10) ∷ [])

unfoldable pub itoa : ℕ → Texto
itoa n = digitos (suc n) n

-- `atoi` of a string of digits; it stops at the first other byte.
unfoldable pub atoi_desde : ℕ → Texto → ℕ
atoi_desde n [] = n
atoi_desde n (c ∷ cs) =
    let resto = atoi_desde (n * 10 + (c - b'0')) cs in
    if ltb c b'0' then n else if ltb b'9' c then n else resto

unfoldable pub atoi : Texto → ℕ
atoi s = atoi_desde 0 s

unfoldable pub crear_nombre_bloque_logico : ℕ → Texto
crear_nombre_bloque_logico numero =
    (if ltb numero 10
      then codes "00000"
      else if ltb numero 100
      then codes "0000"
      else if ltb numero 1000
      then codes "000"
      else if ltb numero 10000
      then codes "00"
      else if ltb numero 100000
      then codes "0"
      else [])
    ++ (itoa numero ++ codes ".dat")

-- The names `block%04d`.
unfoldable pub block_04d : ℕ → Texto
block_04d n =
    codes "block"
    ++ ((if ltb n 10
          then codes "000"
          else if ltb n 100
          then codes "00"
          else if ltb n 1000
          then codes "0"
          else [])
        ++ itoa n)

-- `_nameBloque`: empty where there is no such block.
unfoldable pub name_bloque : ℕ → ℕ → Texto
name_bloque cant_block nro = if ltb nro cant_block then block_04d nro else []
