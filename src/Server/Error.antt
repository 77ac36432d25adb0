-- ===== src/Server/Error.antt =====
-- crates/server/src/error.rs: the errors of the helper binary. The payload of an I/O or MySQL error
-- is opaque to the code, so it is kept as its rendering.
use jibs.Prelude.{Bool, true, false, Bytes}

pub data ServerError : Type 0 where
  io my_sql protocol not_found invalid_data config : Bytes → ServerError

-- `ServerError::is_recoverable`
unfoldable pub is_recoverable : ServerError → Bool
is_recoverable (io _) = true
is_recoverable (my_sql _) = true
is_recoverable _ = false

-- What a computation may end in beside a result: an error of the code, no fuel left, or a panic.
pub data Failure : Type 0 where
  server : ServerError → Failure
  out_of_fuel : Failure
  panicked : Failure
