-- ===== src/Utils/Protocolo.antt =====
-- utils/src/utils/protocolo.h: the operation codes, and what a Worker asks of Storage with them.
-- A request is one constructor with the fields of its packet in the order in which they are added.
use master_of_files.Base.{ℕ, List, Option}
use master_of_files.Base.Int.{ℤ}
use master_of_files.Base.Texto.{Texto}

abbrev pub op_resp_ok : ℕ
op_resp_ok = 100

abbrev pub op_resp_error : ℕ
op_resp_error = 101

pub data Pedido : Type 0 where
  op_st_read_block : ℕ → Texto → ℕ → Pedido
  op_st_write_block : ℕ → Texto → Texto → ℕ → ℕ → List ℕ → Pedido
  op_create : ℕ → Texto → Pedido
  op_truncate : ℕ → Texto → ℤ → Pedido
  op_tag : ℕ → Texto → Texto → Pedido
  op_commit : ℕ → Texto → Pedido
  op_flush : ℕ → Texto → Texto → Pedido
  op_delete : ℕ → Texto → Texto → Pedido

-- The code that `recv` gives, `none` where it fails, and the bytes that follow it.
pub record Respuesta : Type 0 where
  pub op_resp : Option ℕ
  pub datos : List ℕ

-- The socket of a Worker to Storage: the state behind it, and the reply to a request.
pub record Conexion : Type 1 where
  pub State : Type 0
  pub pedir : State → Pedido → Respuesta × State

-- `return 0;` and `return -1;`.
pub data Rc : Type 0 where
  cero menos_uno : Rc

-- `if (rc == 0) x else y`.
abbrev pub si_cero {ℓ} : {A : Type ℓ} → Rc → A → A → A
si_cero cero x y = x
si_cero menos_uno x y = y
