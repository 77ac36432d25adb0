-- ===== src/Client/Error.antt =====
-- crates/client/src/error.rs: the errors of the client. The payload of a MySQL error is opaque to the
-- code, so it is kept as its rendering.
use jibs.Prelude.{◌++◌, Bytes, codes}

pub data ClientError : Type 0 where
  io ssh my_sql_with_context : Bytes → Bytes → ClientError
  parse resolution my_sql protocol undefined_variable type_error server worker_init :
      Bytes → ClientError

-- The text of an error.
abbrev pub display : ClientError → Bytes
display (io operation message) = codes "IO error during " ++ (operation ++ (codes ": " ++ message))
display (ssh operation message) =
    codes "SSH error during " ++ (operation ++ (codes ": " ++ message))
display (my_sql_with_context operation source) =
    codes "MySQL error during " ++ (operation ++ (codes ": " ++ source))
display (parse s) = codes "Parse error: " ++ s
display (resolution s) = codes "Resolution error: " ++ s
display (my_sql s) = codes "MySQL error: " ++ s
display (protocol s) = codes "Protocol error: " ++ s
display (undefined_variable s) = codes "Variable not defined: " ++ s
display (type_error s) = codes "Type error: " ++ s
display (server s) = codes "Server error: " ++ s
display (worker_init s) = codes "Worker initialization failed: " ++ s

-- What a computation may end in beside a result: an error of the code, or a panic.
pub data Failure : Type 0 where
  client : ClientError → Failure
  panicked : Failure

-- The same for a computation on fuel.
pub data Stop : Type 0 where
  failed : Failure → Stop
  out_of_fuel : Stop
