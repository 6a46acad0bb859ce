-- ===== src/Bench/Tests.antt =====
-- The benchmark's theorems at concrete inputs, and runs.
use f4kvs_ffi.Prelude.{
  ℕ, ◌/◌, Bytes, String, true, false, none, some, List, [], ◌∷◌, ◌≡◌, ◌≢◌, refl, inl, inr, ltb,
  ◌==◌, nat_eq, string_eq, All, pos, arith, bytes_beq,
}
use f4kvs_ffi.Prelude.Exec.{ok}
use f4kvs_ffi.Ffi.Text.{c_string, from_ptr, is_utf8, has_nul}
use f4kvs_ffi.Ffi.Memory.{Memory, memory, memory_laws}
use f4kvs_ffi.Engine.{F4kvs, to_item}
use f4kvs_ffi.Ffi.Calls.{batch_items, validate_c_string, value_from_raw}
use f4kvs_ffi.Engine.Stored.{stored, engine}
use f4kvs_ffi.Bench.Batching.{open_opts_for_profile, batch_put_bytes_chunked}
use f4kvs_ffi.Bench.Slices.{allowed, IsSlice, concat, put_each, batch_put_bytes_chunked-slices}
use f4kvs_ffi.Bench.Loaded.{batch_put_bytes_chunked-stored}
use f4kvs_ffi.Bench.Profiles.{
  trim_space, split_comma, parse_profiles, want_profile, unknown_profile,
}
use f4kvs_ffi.Bench.Profiles.Wanted.{parse_profiles-wants}
use f4kvs_ffi.Bench.Phase.{Float, PhaseResult, result, metric_result}
use f4kvs_ffi.Bench.Compare.{Speedup, label, phase_compares, ratio_line}
use f4kvs_ffi.Bench.Manifest.{RunManifest}
use f4kvs_ffi.Bench.Report.{
  RunWriter, append_phase_results, has_integrity_fail, has_integrity_failure,
}
use f4kvs_ffi.Bench.Report.Gate.{has_integrity_failure-append_phase_results}

abbrev keys : List Bytes
keys = (b'a' ∷ []) ∷ (b'b' ∷ []) ∷ (b'c' ∷ []) ∷ []

abbrev payload : Bytes
payload = 7 ∷ []

abbrev empty_engine : F4kvs Memory
empty_engine = engine false (some (record { table = []; faults = []; limit = 2 })) none

batch_put_bytes_chunked-slices_example :
    (xss : List (List Bytes)) × (concat xss ≡ keys)
    × All (IsSlice (allowed (open_opts_for_profile none 3 (pos 2)))) xss
    × (batch_put_bytes_chunked {S = Memory} (pos 2) keys payload ≡ put_each payload xss)
batch_put_bytes_chunked-slices_example =
    batch_put_bytes_chunked-slices {S = Memory} none (pos 2) keys payload (omega arith)

chunked_ok : (batch_put_bytes_chunked (pos 2) keys payload empty_engine).0 ≡ ok tt
unfolding batch_put_bytes_chunked from_ptr c_string is_utf8 bytes_beq batch_items validate_c_string
    to_item value_from_raw
chunked_ok = refl

batch_put_bytes_chunked-stored_example :
    stored memory_laws (batch_put_bytes_chunked (pos 2) keys payload empty_engine).1 (b'c' ∷ [])
    ≡ some payload
unfolding from_ptr c_string bytes_beq has_nul
batch_put_bytes_chunked-stored_example =
    batch_put_bytes_chunked-stored memory_laws (pos 2) keys payload (b'c' ∷ []) empty_engine
      (omega arith) (refl, (refl, (refl, tt))) refl chunked_ok

-- Slices of two keys pass an engine that allows two, all three at once do not.
one_shot_refused : (batch_put_bytes_chunked (pos 0) keys payload empty_engine).0 ≢ ok tt
unfolding batch_put_bytes_chunked from_ptr c_string is_utf8 bytes_beq batch_items validate_c_string
    to_item value_from_raw
one_shot_refused h = cc

abbrev chosen : List String
chosen = "sqlite_wal_full" ∷ "f4kvs_wal_frame" ∷ []

parse_run : parse_profiles " f4kvs_wal_frame , sqlite_wal_full" ≡ inr chosen
unfolding parse_profiles
parse_run = refl

parse_unknown : parse_profiles "f4kvs_wal_frame,leveldb" ≡ inl (unknown_profile "leveldb")
unfolding parse_profiles
parse_unknown = refl

parse_profiles-wants_example : want_profile chosen "f4kvs_wal_frame" ≡ true
unfolding trim_space split_comma
parse_profiles-wants_example =
    parse_profiles-wants " f4kvs_wal_frame , sqlite_wal_full" chosen "f4kvs_wal_frame" parse_run
      refl refl

instance abbrev nat_float : Float ℕ
nat_float = record {
  of_nat = λ n. n;
  above = λ a b. ltb b a;
  is_zero = λ a. a == 0;
  over = λ a b. a / b;
}

abbrev rows : List (PhaseResult ℕ)
rows =
    result "memoir_batch_put" "f4kvs_wal_segment" 50 4000 "WAL" "per-commit"
    ∷ metric_result "post_restart_row_count" "f4kvs_wal_segment" "integrity_ok" 0 0 "bool"
        "1=pass 0=fail"
    ∷ []

abbrev pub manifest : RunManifest
manifest = record {
  schema_version = "";
  run_id = "";
  flow_id = "";
  tier = "micro";
  seed = pos 42;
  started_at = "";
  finished_at = "";
  git = record { f4kvs_ffi = "abc1234"; f4kvs_lsm = "v0.2.0"; dirty = false };
  host = record {
    os = "linux";
    arch = "amd64";
    hostname = "bench";
    go = "go1.22";
    cpu_model = "unknown";
    cpu_cores = 4;
  };
  scale = record {
    memoirs = 50;
    chunks = 2000;
    memoir_bytes = pos 200000;
    chunk_bytes = pos 4096;
    random_gets = 500;
  };
  engines = [];
  harness = record { path = ""; command = "go run ." };
  notes = "";
}

abbrev pub writer : RunWriter ℕ
writer = record {
  runs_root = "runs";
  run_id = "20260718T102530Z";
  partial_dir = "runs/20260718T102530Z.partial";
  final_dir = "runs/20260718T102530Z";
  manifest = manifest;
  lines = [];
  started = "2026-07-18T10:25:30Z";
}

has_integrity_failure-append_phase_results_example :
    has_integrity_failure (append_phase_results rows writer) ≡ true
unfolding has_integrity_failure has_integrity_fail result metric_result
has_integrity_failure-append_phase_results_example =
    has_integrity_failure-append_phase_results rows writer

abbrev timed_rows : List (PhaseResult ℕ)
timed_rows =
    result "chunk_batch_put" "f4kvs_wal_segment" 50 4000000 "WAL" "per-commit"
    ∷ result "chunk_batch_put" "sqlite_wal_full" 50 12000000 "WAL" "durability-matched"
    ∷ []

abbrev segment_wins : Speedup ℕ
segment_wins = record { faster = "f4kvs_wal_segment"; ratio = 3; slower = "sqlite_wal_full" }

compare_run :
    phase_compares (λ _. []) timed_rows "chunk_batch_put"
    ≡ record { label = label "fair compare (segment)"; line = segment_wins } ∷ []
unfolding phase_compares result
compare_run = refl

ratio_run : ratio_line timed_rows "f4kvs_wal_segment" "sqlite_wal_full" ≡ some segment_wins
unfolding ratio_line result
ratio_run = refl
