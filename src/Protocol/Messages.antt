-- ===== src/Protocol/Messages.antt =====
-- crates/protocol/src/messages.rs: the messages between client and server.
use jibs.Prelude.{ℕ, List, Option, Bool, Bytes}
use jibs.Protocol.Plan.{
  CompressionMode, ExecutionPlan, TableInfo, ColumnDef, IndexDef, TableOptions, ForeignKeyDef,
}

pub record QueryTiming : Type 0 where
  pub table : Bytes
  pub column : Bytes
  pub num_values : ℕ
  pub query_ms : ℕ
  pub iterate_ms : ℕ
  pub rows : ℕ

pub record ServerMetrics : Type 0 where
  pub query_time_ms : ℕ
  pub iterate_time_ms : ℕ
  pub serialize_time_ms : ℕ
  pub write_time_ms : ℕ
  pub rows_sent : ℕ
  pub bytes_sent : ℕ
  pub dedup_time_ms : ℕ
  pub aggregate_wall_ms : ℕ
  pub full_tables_wall_ms : ℕ
  pub aggregate_serialize_ms : ℕ
  pub aggregate_write_ms : ℕ
  pub compress_time_ms : ℕ
  pub aggregate_compress_ms : ℕ
  pub schema_cache_time_ms : ℕ
  pub message_count : ℕ
  pub total_compressed_bytes : ℕ
  pub aggregate_interlevel_dedup_ms : ℕ
  pub query_timings : List QueryTiming

pub data TableDisposition : Type 0 where
  aggregate full empty excluded : TableDisposition

pub record AggregateRootCount : Type 0 where
  pub aggregate : Bytes
  pub matching_rows : ℕ

pub data ClientMessage : Type 0 where
  credentials : Bytes → ClientMessage
  init : ExecutionPlan → CompressionMode → ℕ → Bool → Bool → ClientMessage
  start interrupt shutdown : ClientMessage

pub data ServerMessage : Type 0 where
  ready : List TableInfo → CompressionMode → ServerMessage
  schema : ℕ → List ColumnDef → List IndexDef → TableOptions → ServerMessage
  table_data : ℕ → ℕ → Bytes → ServerMessage
  table_done : ℕ → ℕ → Option ServerMetrics → ServerMessage
  finished : List (ℕ × TableDisposition) → Option ServerMetrics → List ForeignKeyDef → ServerMessage
  error : Bytes → Bool → ServerMessage
  dry_run_report : List (ℕ × TableDisposition) → List AggregateRootCount → ServerMessage
