-- ===== src/Bench/Plan.antt =====
-- bench/embed_vs_sqlite/main.go: the flags, what a run is to measure, and the loads.
use Prim.Native.Char.{code}
use Prim.Native.String.{String, [] as end, ◌∷◌ as ◌∷ₛ◌}
use f4kvs_ffi.Prelude.{
  ℕ, zero, suc, Bytes, Bool, true, false, Option, none, some, List, [], ◌∷◌, ◌&&◌, ltb, ◌==◌,
  string_eq, if◌then◌else◌, contains, ℤ, pos, negsuc,
}
use f4kvs_ffi.Engine.Options.{OpenOptions, no_options, wal_durability_amortized}
use f4kvs_ffi.Bench.Profiles.{known_profiles}
use f4kvs_ffi.Bench.Payload.{sample_payload_seeded}
use f4kvs_ffi.Bench.Keys.{memoir_keys, chunk_keys}
use f4kvs_ffi.Bench.Phases.{Load}
use f4kvs_ffi.Bench.Sqlite.{SqliteProfile, sqlite_dsn}

-- The flags. The counts are not negative: `make` panics at a negative length.
pub record Flags : Type 0 where
  pub memoirs : ℕ
  pub chunks : ℕ
  pub memoir_bytes : ℤ
  pub chunk_bytes : ℤ
  pub random_gets : ℕ
  pub include_relaxed : Bool
  pub seed : ℤ
  pub runs_root : String
  pub tier : String
  pub profiles : String
  pub max_per_commit_chunks : ℤ
  pub batch_put_size : ℤ
  pub fair : Bool
  pub out : String
  pub run_id : String

-- `if *fairFlag { *batchPutSize = 0 }`
abbrev pub batch_size : Flags → ℤ
batch_size flags = if flags.fair then pos 0 else flags.batch_put_size

-- `delete(want, name)`
unfoldable pub without : String → List String → List String
without name [] = []
without name (p ∷ ps) = let rest = without name ps in if p == name then rest else p ∷ rest

-- `if want["all"] { … }`
unfoldable pub expand_all : Bool → List String → List String
unfolding without
expand_all include_relaxed want =
    if contains want "all"
    then if include_relaxed then known_profiles else without "sqlite_wal_normal" known_profiles
    else want

-- `int64(*seed)+1`
abbrev pub next_seed : ℤ → ℤ
next_seed (pos n) = pos (suc n)
next_seed (negsuc zero) = pos 0
next_seed (negsuc (suc n)) = negsuc n

-- The keys and the payloads; `random` are the bytes of the entropy source for each payload.
unfoldable pub load_of : (ℕ → ℕ) → (ℕ → ℕ) → Flags → Load
unfolding memoir_keys chunk_keys sample_payload_seeded
load_of random random' flags = record {
  memoir_keys = memoir_keys flags.memoirs;
  chunk_keys = chunk_keys flags.chunks;
  memoir_payload = sample_payload_seeded random flags.memoir_bytes flags.seed;
  chunk_payload = sample_payload_seeded random' flags.chunk_bytes (next_seed flags.seed);
  random_gets = flags.random_gets;
}

-- `*maxPerCommitChunks > 0 && len(chunkKeys) > *maxPerCommitChunks`
unfoldable pub skip_per_commit : ℤ → ℕ → Bool
skip_per_commit (negsuc n) chunks = false
skip_per_commit (pos most) chunks = ltb 0 most && ltb most chunks

-- A text of ASCII characters as its bytes.
unfoldable pub ascii : String → Bytes
ascii end = []
ascii (c ∷ₛ s) = code c ∷ ascii s

abbrev pub wal_engine_frame : ℕ
wal_engine_frame = 1

abbrev pub wal_engine_indexed : ℕ
wal_engine_indexed = 2

abbrev pub gc1_opts : OpenOptions
gc1_opts = record no_options { group_commit_enabled = true; group_commit_max_wait_ms = 1 }

abbrev pub gc10_opts : OpenOptions
gc10_opts = record no_options { group_commit_enabled = true; group_commit_max_wait_ms = 10 }

abbrev pub idle_opts : OpenOptions
idle_opts = record no_options {
  wal_durability = wal_durability_amortized;
  group_commit_max_wait_ms = 50;
  group_commit_idle_flush_ms = 100;
}

-- One call of `benchF4KVS`, and one of `benchF4KVSPostRestart`, whose durability is not used.
pub record EngineRun : Type 0 where
  pub dir : String
  pub profile : String
  pub durability : String
  pub opts : Option OpenOptions

unfoldable pub engine_runs : List EngineRun
engine_runs =
    record {
      dir = "f4kvs_segment";
      profile = "f4kvs_wal_segment";
      durability = "Segment WAL + WalSyncMode::Fsync (sync_all per put)";
      opts = none;
    }
    ∷ record {
      dir = "f4kvs_frame";
      profile = "f4kvs_wal_frame";
      durability = "Frame WAL + WalSyncMode::Fsync (sync_data per put)";
      opts = some (record no_options { wal_engine = wal_engine_frame });
    }
    ∷ record {
      dir = "f4kvs_indexed";
      profile = "f4kvs_wal_indexed";
      durability = "Indexed WAL v2 — per-frame micro-files + wal.idx (wal_engine=2)";
      opts = some (record no_options { wal_engine = wal_engine_indexed });
    }
    ∷ record {
      dir = "f4kvs_gc1";
      profile = "f4kvs_group_commit_1ms";
      durability = "WAL group_commit 1ms (async ack; durable after FlushWAL / ≤1ms window)";
      opts = some gc1_opts;
    }
    ∷ record {
      dir = "f4kvs_gc10";
      profile = "f4kvs_group_commit_10ms";
      durability = "WAL Fsync + group_commit 10ms window (async ack, durable within 10ms)";
      opts = some gc10_opts;
    }
    ∷ record {
      dir = "f4kvs_gc_idle";
      profile = "f4kvs_group_commit_idle";
      durability = "Amortized WAL — 50ms max wait + 100ms idle flush (wal_durability=1)";
      opts = some idle_opts;
    }
    ∷ []

unfoldable pub restart_runs : List EngineRun
restart_runs =
    record {
      dir = "restart_f4kvs_segment";
      profile = "f4kvs_wal_segment";
      durability = "";
      opts = none;
    }
    ∷ record {
      dir = "restart_f4kvs_gc1";
      profile = "f4kvs_group_commit_1ms";
      durability = "";
      opts = some gc1_opts;
    }
    ∷ record {
      dir = "restart_f4kvs_gc10";
      profile = "f4kvs_group_commit_10ms";
      durability = "";
      opts = some gc10_opts;
    }
    ∷ []

unfoldable pub sqlite_full : SqliteProfile
unfolding sqlite_dsn
sqlite_full = record {
  name = "sqlite_wal_full";
  dsn = sqlite_dsn "WAL" "FULL";
  durability = "WAL + synchronous=FULL, per-commit put";
  per_commit = true;
  extra = "durability-matched";
}

unfoldable pub sqlite_normal : SqliteProfile
unfolding sqlite_dsn
sqlite_normal = record {
  name = "sqlite_wal_normal";
  dsn = sqlite_dsn "WAL" "NORMAL";
  durability = "WAL + synchronous=NORMAL, batched tx";
  per_commit = false;
  extra = "reference (relaxed)";
}
