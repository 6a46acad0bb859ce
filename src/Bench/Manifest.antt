-- ===== src/Bench/Manifest.antt =====
-- bench/embed_vs_sqlite/de_out.go and main.go: the records of a run that are written beside its
-- lines. An `int` of the flags keeps its sign.
use f4kvs_ffi.Prelude.{ℕ, String, Bool, List, ℤ}
use f4kvs_ffi.Bench.Phase.{PhaseResult}

abbrev pub schema_version : String
schema_version = "bench-schema-v1"

abbrev pub flow_id : String
flow_id = "rag_chunk_ingest_v1"

abbrev pub harness_path : String
harness_path = "bench/embed_vs_sqlite"

pub record GitInfo : Type 0 where
  pub f4kvs_ffi : String
  pub f4kvs_lsm : String
  pub dirty : Bool

pub record HostInfo : Type 0 where
  pub os : String
  pub arch : String
  pub hostname : String
  pub go : String
  pub cpu_model : String
  pub cpu_cores : ℕ

pub record ScaleInfo : Type 0 where
  pub memoirs : ℕ
  pub chunks : ℕ
  pub memoir_bytes : ℤ
  pub chunk_bytes : ℤ
  pub random_gets : ℕ

pub record HarnessInfo : Type 0 where
  pub path : String
  pub command : String

pub record RunManifest : Type 0 where
  pub schema_version : String
  pub run_id : String
  pub flow_id : String
  pub tier : String
  pub seed : ℤ
  pub started_at : String
  pub finished_at : String
  pub git : GitInfo
  pub host : HostInfo
  pub scale : ScaleInfo
  pub engines : List String
  pub harness : HarnessInfo
  pub notes : String

-- `report` of main.go
pub record Report (F : Type 0) : Type 0 where
  pub host : String
  pub memoirs : ℕ
  pub chunks : ℕ
  pub memoir_b : ℤ
  pub chunk_b : ℤ
  pub random_get : ℕ
  pub fair_compare : String
  pub batched_compare : String
  pub results : List (PhaseResult F)
