-- ===== src/Client.antt =====
-- crates/client: what the client does with the stream of the server.
pub mod Receive
pub mod Loader
pub mod Sql
pub mod ForeignKeys
pub mod Error
pub mod Eval
pub mod Statements
pub mod Resolver
pub mod Marks
pub mod Json
