-- ===== src/Lib.antt =====
-- jibs: a partial copy of one MySQL database into another, from a config of tables, aggregates and
-- anonymization rules. The client (crates/client) reads the config and starts a helper
-- (crates/server) next to the source database; the two speak the protocol of crates/protocol over
-- pipes. The server walks the relations from each aggregate's root, streams rows as tab-separated
-- chunks, and the client loads them.
--
-- Protocol.antt models crates/protocol. Protocol/Plan.antt and Protocol/Messages.antt are the types
-- of src/plan.rs and src/messages.rs. Protocol/Handshake.antt is src/handshake.rs, the preamble
-- that comes before any frame. Protocol/Framing.antt is src/framing.rs: messages behind their
-- length, data messages and raw chunks; Protocol/Framing/Words.antt is the flag bit of a raw chunk,
-- and Protocol/Framing/Buffered.antt is `MessageWriter`, the server's output. Its specification is
-- in Buffered/Stream.antt and Buffered/Commands.antt, the bytes that the writer has taken;
-- Buffered/Bounds.antt is about the size of its buffer.
--
-- Server.antt models crates/server. Server/Walk.antt is `compute_potential_aggregate_tables` of
-- src/traversal.rs, the walk of the relation graph that decides which tables the aggregates can
-- touch: Walk/Reach.antt is its specification as reachability, Walk/Round.antt one round,
-- Walk/Invariant.antt the invariant, Walk/Correct.antt the whole walk, Walk/Patterns.antt the
-- exclude patterns and Walk/Potential.antt the result for a plan. Server/DryRun.antt is
-- `compute_dry_run_report` and `build_root_query` of the same file, with the connection as
-- parameters. Server/Keys.antt is the part of src/traversal.rs that makes keys of column values and
-- drops duplicates. Server/Tsv.antt is `TsvWriter` of src/tsv.rs, Tsv/New.antt its constructor, and
-- Tsv/Value.antt and Tsv/Escape.antt the text of values from src/mysql.rs; Tsv/Privacy.antt is
-- about what anonymized columns leave in the stream. Server/Error.antt is src/error.rs.
--
-- Client.antt models crates/client: Client/Receive.antt is `recv_message` of src/protocol.rs,
-- Client/Loader.antt `maybe_decompress` and `build_load_data_sql` of src/loader.rs, Client/Sql.antt
-- the statements and literals of src/sql.rs with Sql/Literal.antt about reading a literal back,
-- Client/ForeignKeys.antt the statements of src/foreign_keys.rs with ForeignKeys/Names.antt about
-- reading names back, and Receive/Chunk.antt follows a chunk from the server's writer to the rows that the client loads.
--
-- src/resolver.rs of the client makes an execution plan of a config: Client/Eval.antt evaluates its
-- expressions, with their types in Eval/Types.antt and Eval/Typed.antt, Client/Statements.antt is
-- what each statement adds to the plan, and Client/Resolver.antt the passes over the statements and
-- the imports, with the state in Resolver/State.antt and the checks of the whole plan in
-- Resolver/Validate.antt. Resolver/Lenient.antt is about check mode, Resolver/Imports.antt about
-- fuel, Resolver/Variables.antt and Resolver/Gated.antt about variables and conditions, and
-- Resolver/Valid.antt about resolved configs and the server's walk over their plans.
-- Client/Error.antt is src/error.rs, and Client/Marks.antt what imported files leave of a file
-- system. src/json_config.rs, configs as JSON, is Client/Json/Config.antt, their structure,
-- Json/Values.antt, strings with variables, conditions and values, Json/Sections.antt, what each
-- section adds to the plan, Json/State.antt, the state and the merge of an imported plan, and
-- Json/Resolver.antt, the passes and the imports of both kinds. Values/Pieces.antt is the
-- specification of strings with variables, Json/Imports.antt is about fuel, and Json/Patterns.antt
-- about patterns.
--
-- Parser.antt models crates/parser, the config language. Parser/Ast.antt is src/ast.rs, the
-- syntax tree. Parser/Chars.antt is the text: code points, with positions in bytes.
-- Parser/Token.antt and Parser/Lexer.antt are src/lexer.rs: Lexer/Laid.antt is its specification
-- as a layout of the text, Lexer/Trivia.antt, Lexer/Fronts.antt, Lexer/Quoted.antt,
-- Lexer/Words.antt and Lexer/Handlers.antt are about the functions of the scanner, from
-- Lexer/Advances.antt on, Lexer/Total.antt about the whole, Lexer/Spans.antt and
-- Lexer/Order.antt about the spans and Lexer/Printed.antt about printing tokens. src/parser.rs
-- is Parser/Cursor.antt, the state and its primitives, Parser/Expr.antt, Parser/Literal.antt,
-- Parser/Query.antt, Parser/Statement.antt and Parser/Program.antt, with `parse` of src/lib.rs.
-- The Runs.antt below each shows that its parsings move forward and have fuel enough,
-- Cursor/Takes.antt that rounds of loops take a token, and Expr/Nested.antt is about expressions
-- in strings, Program/Ends.antt about whole programs and Program/Recovery.antt about recovery.
-- Parser/Interpolation.antt is src/interpolation.rs; Interpolation/Escaped.antt is about texts
-- that are written with escapes.
--
-- Parameters. Crates and the system are arguments of the models: bincode (`Bincode`), regex, itoa,
-- ryu, hex, rand and zstd (`Crates`), floating point (`Floats`), and for the configs the file
-- system and the order in which a hash map is walked (`Host`) and serde_json (`JsonHost`). What a
-- theorem uses of them is a named hypothesis: `RoundTrips`, `ItoaLaws`, `Decodes`. A writer is a
-- `Writer`, whose calls may fail at any time; a reader is the input left.
--
-- Representation. A `String` and a `Vec<u8>` are lists of bytes, a machine word is a natural number
-- with its wrap-around written out, a float is its bit pattern, a map is an association list or a
-- function, a set is the list of its members. The texts of a config are code points. Errors are
-- values, and an operation that changes a state returns the state beside an error. A panic is an
-- outcome of its own (`Failure`).
--
-- Fuel. `walk` has fuel for two visits per importable table: a table is put on the stack at most
-- once without, and once with, the right to go backward. The loops of the scanner and of the parser
-- have fuel for the characters, or the tokens, that are left: a round takes one at least.
-- `process_import` has fuel for the files: a file is imported once. That of the JSON configs has it
-- twice, since it hands what is left to the resolver of the config language, which starts anew.
--
-- Not modelled: the capture of foreign keys, the search over rows (`run_aggregate_bfs`) and the streaming of tables with their
-- threads, and what is input and output only: processes, connections, progress and metrics.
-- vendor/ holds third-party crates.
pub mod Prelude
pub mod Protocol
pub mod Server
pub mod Client
pub mod Parser
pub mod Tests
