-- ===== src/Bench/Rows/Emitted.antt =====
-- The rows of `benchF4KVS`, `benchSQLite` and of the integrity checks are of the profile that they
-- measure.
use Prim.Native.String.{◌++◌ as ◌++ₛ◌}
use f4kvs_ffi.Prelude.Decimal.{decimal_text}
use f4kvs_ffi.Prelude.{
  ℕ, ◌+◌, All, Bytes, String, Bool, true, false, Option, List, refl, not, ℤ, length,
}
use f4kvs_ffi.Prelude.After.{After-intro, continue-After}
use f4kvs_ffi.Prelude.Exec.{pure, ◌>>=◌, ◌>>◌}
use f4kvs_ffi.Ffi.Lsm.{Lsm}
use f4kvs_ffi.Engine.{flush_wal, scan_prefix_keys}
use f4kvs_ffi.Engine.Options.{OpenOptions}
use f4kvs_ffi.Bench.Phase.{Float, PhaseResult}
use f4kvs_ffi.Bench.Batching.{uses_group_commit, open_opts_for_profile}
use f4kvs_ffi.Bench.Run.{
  Disk, Program, WithEngine, beside, measure, engine_call, scan_call, put_keys, random_gets,
}
use f4kvs_ffi.Bench.Phases.{
  Load, keys_found, is_one_shot, join, durable_name, batched_name, bulk_name, durable_work,
  batch_put_work, bench_f4kvs_chunk_durable, bench_f4kvs_chunk_batch_put, bench_f4kvs_chunk_batched,
  bench_f4kvs_chunk_bulk_import,
}
use f4kvs_ffi.Bench.EnginePhases.{
  stream_work, batched_work, put_phase, get_phase, scan_phase, flush_phases, per_commit_chunks,
  group_commit_stream, batched_chunks, side_loads, chunk_phases, engine_phases, bench_f4kvs,
}
use f4kvs_ffi.Bench.Keys.{legal_prefix}
use f4kvs_ffi.Bench.Sqlite.{Sql, SqliteProfile, at_path}
use f4kvs_ffi.Bench.Restart.{
  with_closed, load_engine, count_keys, expected_keys, restart_rows, loaded_db, counted_db,
  bench_f4kvs_post_restart, bench_sqlite_post_restart,
}
use f4kvs_ffi.Bench.Rows.{
  Emits, OfProfile, no_rows-Emits, then-Emits, after-Emits, and_rows-Emits, if-Emits, beside-Emits,
  with_engine-Emits, timed_row-Emits,
}

module _ {D S F : Type 0} (on : Disk D S) ⦃lsm : Lsm S⦄ ⦃float : Float F⦄ where
  bench_f4kvs_chunk_durable-Emits :
      (dir : Bytes) (profile durability : String) (opts : Option OpenOptions) (load : Load)
      → Emits
          (OfProfile {F = F} profile)
          (bench_f4kvs_chunk_durable on dir profile durability opts load)
  unfolding bench_f4kvs_chunk_durable
  bench_f4kvs_chunk_durable-Emits dir profile durability opts load =
      let body =
        with_engine-Emits on (join dir durable_name) opts
          (after-Emits (durable_work load) (beside-Emits (timed_row-Emits _ profile _ _ _))) in
      record { emits = λ w. body.emits (record w { disk = (on.remove_all _ w.disk).1 }) }

  bench_f4kvs_chunk_batch_put-Emits :
      (size : ℤ) (dir : Bytes) (profile : String) (load : Load) (bulk : Bool) (phase note : String)
      → Emits
          (OfProfile {F = F} profile)
          (bench_f4kvs_chunk_batch_put on size dir profile load bulk phase note)
  unfolding bench_f4kvs_chunk_batch_put
  bench_f4kvs_chunk_batch_put-Emits size dir profile load bulk phase note =
      with_engine-Emits on dir _ (
        after-Emits (batch_put_work size load bulk)
          (beside-Emits (timed_row-Emits phase profile _ _ _)))

  bench_f4kvs_chunk_batched-Emits :
      (size : ℤ) (dir : Bytes) (profile : String) (load : Load)
      → Emits (OfProfile {F = F} profile) (bench_f4kvs_chunk_batched on size dir profile load)
  unfolding bench_f4kvs_chunk_batched
  bench_f4kvs_chunk_batched-Emits size dir profile load =
      bench_f4kvs_chunk_batch_put-Emits size dir profile load false _ _

  bench_f4kvs_chunk_bulk_import-Emits :
      (size : ℤ) (dir : Bytes) (profile : String) (load : Load)
      → Emits (OfProfile {F = F} profile) (bench_f4kvs_chunk_bulk_import on size dir profile load)
  unfolding bench_f4kvs_chunk_bulk_import
  bench_f4kvs_chunk_bulk_import-Emits size dir profile load =
      bench_f4kvs_chunk_batch_put-Emits size dir profile load true _ _

module _ {D S F : Type 0} (on : Disk D S) ⦃lsm : Lsm S⦄ ⦃float : Float F⦄ (size : ℤ) (dir : Bytes)
    (profile durability : String) (opts : Option OpenOptions) (load : Load) where
  abbrev OwnRows : WithEngine D S (List (PhaseResult F)) → Type 0
  OwnRows m = Emits (OfProfile profile) m

  put_phase-Emits :
      (phase note : String) (payload : Bytes) (keys : List Bytes)
      → OwnRows (put_phase profile durability phase note payload keys)
  put_phase-Emits phase note payload keys =
      after-Emits (engine_call (put_keys payload keys))
        (beside-Emits (timed_row-Emits phase profile _ _ _))

  get_phase-Emits :
      (phase : String) (n : ℕ) (keys : List Bytes)
      → OwnRows (get_phase profile durability phase n keys)
  get_phase-Emits phase n keys =
      after-Emits (engine_call (random_gets n 0 keys))
        (beside-Emits (timed_row-Emits phase profile _ _ _))

  flush_phases-Emits : OwnRows (flush_phases on size dir profile durability opts load)
  unfolding flush_phases
  flush_phases-Emits =
      and_rows-Emits
        (after-Emits (engine_call flush_wal) (beside-Emits (timed_row-Emits _ profile _ _ _)))
        (beside-Emits (bench_f4kvs_chunk_durable-Emits on dir profile durability opts load))

  per_commit_chunks-Emits : OwnRows (per_commit_chunks on size dir profile durability opts load)
  unfolding per_commit_chunks
  per_commit_chunks-Emits =
      and_rows-Emits
        (put_phase-Emits "chunk_batch_put" "per-commit" load.chunk_payload load.chunk_keys)
        (if-Emits (uses_group_commit opts) flush_phases-Emits no_rows-Emits)

  group_commit_stream-Emits : OwnRows (group_commit_stream on size dir profile durability opts load)
  unfolding group_commit_stream
  group_commit_stream-Emits =
      and_rows-Emits
        (after-Emits (stream_work load) (beside-Emits (timed_row-Emits _ profile _ _ _)))
        (beside-Emits
          (bench_f4kvs_chunk_batched-Emits on size (join dir batched_name) profile load))

  bulk_side-Emits :
      OwnRows (beside (bench_f4kvs_chunk_bulk_import on size (join dir bulk_name) profile load))
  bulk_side-Emits =
      beside-Emits (bench_f4kvs_chunk_bulk_import-Emits on size (join dir bulk_name) profile load)

  batched_chunks-Emits : OwnRows (batched_chunks on size dir profile durability opts load)
  unfolding batched_chunks
  batched_chunks-Emits =
      and_rows-Emits
        (after-Emits (batched_work load size) (beside-Emits (timed_row-Emits _ profile _ _ _)))
        (if-Emits (is_one_shot size) no_rows-Emits bulk_side-Emits)

  side_loads-Emits : OwnRows (side_loads on size dir profile durability opts load)
  unfolding side_loads
  side_loads-Emits =
      and_rows-Emits
        (beside-Emits
          (bench_f4kvs_chunk_batched-Emits on size (join dir batched_name) profile load))
        bulk_side-Emits

  chunk_phases-Emits :
      (skip : Bool) → OwnRows (chunk_phases on size dir profile durability opts load skip)
  unfolding chunk_phases
  chunk_phases-Emits skip =
      and_rows-Emits
        (if-Emits (not skip) per_commit_chunks-Emits
          (if-Emits (uses_group_commit opts) group_commit_stream-Emits batched_chunks-Emits))
        (if-Emits (not skip) side_loads-Emits no_rows-Emits)

  scan_phase-Emits : OwnRows (scan_phase profile durability)
  scan_phase-Emits = then-Emits (scan_call (scan_prefix_keys legal_prefix)) λ keys. beside-Emits (
      timed_row-Emits "chunk_prefix_scan" profile (keys_found keys) durability
        ("keys=" ++ₛ decimal_text (keys_found keys)))

  engine_phases-Emits :
      (skip : Bool) → OwnRows (engine_phases on size dir profile durability opts load skip)
  unfolding engine_phases
  engine_phases-Emits skip =
      and_rows-Emits
        (put_phase-Emits "memoir_batch_put" "per-commit" load.memoir_payload load.memoir_keys)
        (and_rows-Emits (get_phase-Emits "memoir_random_get" load.random_gets load.memoir_keys) (
          and_rows-Emits (chunk_phases-Emits skip) (
            and_rows-Emits scan_phase-Emits
              (get_phase-Emits "chunk_random_get" load.random_gets load.chunk_keys))))

module _ {D S F : Type 0} (on : Disk D S) ⦃lsm : Lsm S⦄ ⦃float : Float F⦄ (size : ℤ) (dir : Bytes)
    (profile : String) (load : Load) where
  pub bench_f4kvs-Emits :
      (durability : String) (opts : Option OpenOptions) (skip : Bool)
      → Emits
          (OfProfile {F = F} profile)
          (bench_f4kvs on size dir profile durability opts load skip)
  unfolding bench_f4kvs
  bench_f4kvs-Emits durability opts skip =
      let opened = open_opts_for_profile opts (length load.chunk_keys) size in
      with_engine-Emits on dir opened
        (engine_phases-Emits on size dir profile durability opened load skip)

restart_rows-OfProfile :
    (F : Type 0) ⦃float : Float F⦄ (profile : String) (expected us counted : ℕ)
    → All (OfProfile {F = F} profile) (restart_rows profile expected us counted)
unfolding restart_rows
restart_rows-OfProfile F profile expected us counted = (refl, (refl, (refl, (refl, tt))))

-- The rows of a count, once it has been made.
counted-Emits :
    {D F : Type 0} ⦃float : Float F⦄ (profile : String) (expected : ℕ) (count : Program D ℕ)
    → Emits
        (OfProfile {F = F} profile)
        (count >>= λ counted. measure >>= λ us. pure (restart_rows profile expected us counted))
counted-Emits {F = F} profile expected count = record {
  emits = λ w.
      continue-After (λ _ _. Unit {0}) _ (count w) _ (After-intro _ (count w) λ _ _. tt)
        λ counted w' _. restart_rows-OfProfile F profile expected (w'.elapsed 0) counted;
}

module _ {D S F : Type 0} (on : Disk D S) ⦃lsm : Lsm S⦄ ⦃float : Float F⦄ where
  pub bench_f4kvs_post_restart-Emits :
      (size : ℤ) (dir : Bytes) (profile : String) (opts : Option OpenOptions) (load : Load)
      → Emits (OfProfile {F = F} profile) (bench_f4kvs_post_restart on size dir profile opts load)
  unfolding bench_f4kvs_post_restart
  bench_f4kvs_post_restart-Emits size dir profile opts load =
      let opened =
        open_opts_for_profile opts (length load.chunk_keys + length load.memoir_keys) size in
      let count =
        with_closed on dir opened (load_engine size opened load)
        >> with_closed on dir opened count_keys in
      let rows = counted-Emits profile (expected_keys load) count in
      record { emits = λ w. rows.emits (record w { disk = (on.remove_all dir w.disk).1 }) }

module _ {D Db F : Type 0} (sql : Sql D Db) ⦃float : Float F⦄ where
  pub bench_sqlite_post_restart-Emits :
      (path : Bytes) (prof : SqliteProfile) (load : Load)
      → Emits (OfProfile {F = F} prof.name) (bench_sqlite_post_restart sql path prof load)
  unfolding bench_sqlite_post_restart
  bench_sqlite_post_restart-Emits path prof load =
      let dsn = at_path path prof.dsn in
      let rows =
        counted-Emits prof.name (expected_keys load)
          (loaded_db sql dsn load >> counted_db sql dsn) in
      record { emits = λ w. rows.emits (record w { disk = sql.remove_file path w.disk }) }
