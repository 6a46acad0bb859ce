-- ===== src/Bench/Restart.antt =====
-- bench/embed_vs_sqlite/main.go: the integrity checks, which load an engine or a database, close it,
-- open it again and count the keys.
pub mod Held
pub mod Loading
pub mod Counting
pub mod Kept
pub mod Integrity
pub mod DbIntegrity
use Prim.Native.String.{◌++◌ as ◌++ₛ◌}
use f4kvs_ffi.Prelude.{
  ℕ, zero, suc, ◌+◌, Bytes, String, Bool, true, false, Option, none, some, List, [], ◌∷◌, ltb, ◌==◌,
  nat_eq, if◌then◌else◌, length, ℤ,
}
use f4kvs_ffi.Prelude.Decimal.{decimal_text}
use f4kvs_ffi.Prelude.Exec.{Exec, Outcome, ok, err, panic, pure, ◌>>=◌, ◌>>◌}
use f4kvs_ffi.Ffi.Lsm.{Lsm}
use f4kvs_ffi.Engine.{F4kvs, Go, batch_put_bytes, set_bulk_import, flush_wal, scan_prefix_keys}
use f4kvs_ffi.Engine.Options.{OpenOptions}
use f4kvs_ffi.Bench.Phase.{Float, PhaseResult, metric_result}
use f4kvs_ffi.Bench.Batching.{
  open_opts_for_profile, uses_group_commit, same_payload, batch_put_bytes_chunked,
}
use f4kvs_ffi.Bench.Keys.{memoir_prefix, chunk_prefix}
use f4kvs_ffi.Bench.Run.{
  Disk, World, Program, Fatal, WithEngine, measure, engine_call, unchecked_call, scan_call,
  open_engine, close_engine,
}
use f4kvs_ffi.Bench.Phases.{Load, is_one_shot, keys_found, if_so}
use f4kvs_ffi.Bench.Sqlite.{
  Sql, Dsn, SqliteProfile, at_path, sqlite_batch_put, open_db, close_db, WithDb, db_call,
}

module _ {F : Type 0} ⦃float : Float F⦄ where
  -- The four rows, from the measured time and the two counts.
  unfoldable pub restart_rows : String → ℕ → ℕ → ℕ → List (PhaseResult F)
  unfolding metric_result
  restart_rows profile expected us counted =
      let row = metric_result "post_restart_row_count" profile in
      let notes = "expected=" ++ₛ decimal_text expected ++ₛ " counted=" ++ₛ decimal_text counted in
      let ms = float.over (float.of_nat us) (float.of_nat 1000) in
      let integrity = float.of_nat (if counted == expected then 1 else 0) in
      row "duration_ms" ms 0 "ms" "reopen+count"
      ∷ row "row_count" (float.of_nat counted) 0 "count" notes
      ∷ row "expected_row_count" (float.of_nat expected) 0 "count" notes
      ∷ row "integrity_ok" integrity 0 "bool" "1=pass 0=fail"
      ∷ []

abbrev pub expected_keys : Load → ℕ
expected_keys load = length load.memoir_keys + length load.chunk_keys

module _ {D S : Type 0} ⦃lsm : Lsm S⦄ (size : ℤ) where
  -- What is done with the engine before it is closed. An error ends the program.
  unfoldable pub load_engine : Option OpenOptions → Load → WithEngine D S (Unit {0})
  unfolding batch_put_bytes same_payload set_bulk_import batch_put_bytes_chunked flush_wal
      uses_group_commit
  load_engine opts load =
      let bulk = ltb 1000 (length load.chunk_keys) in
      if_so (ltb 0 (length load.memoir_keys))
        (engine_call (batch_put_bytes (same_payload load.memoir_payload load.memoir_keys [])))
      >> if_so bulk (engine_call (set_bulk_import true))
      >> engine_call (batch_put_bytes_chunked size load.chunk_keys load.chunk_payload)
      >> if_so (is_one_shot size) (unchecked_call flush_wal)
      >> if_so bulk (unchecked_call (set_bulk_import false))
      >> if_so (uses_group_commit opts) (engine_call flush_wal)

module _ {D S : Type 0} ⦃lsm : Lsm S⦄ where
  -- `len(reopened.ScanPrefixKeys("memoir:")) + len(reopened.ScanPrefixKeys("chunk:"))`
  unfoldable pub count_keys : WithEngine D S ℕ
  unfolding scan_prefix_keys
  count_keys = scan_call (scan_prefix_keys memoir_prefix) >>= λ memoirs.
      scan_call (scan_prefix_keys chunk_prefix) >>= λ chunks.
      pure (keys_found memoirs + keys_found chunks)

  -- `engine.Close()` after what was done with the engine, also before `fatal`; a panic comes first.
  abbrev closed_after :
      {A : Type 0}
      → Disk D S
      → Bytes
      → Outcome Fatal A × (F4kvs S × World D)
      → Outcome Fatal A × World D
  closed_after on dir (ok a, (e, w)) = (ok a, close_engine on dir e w)
  closed_after on dir (err x, (e, w)) = (err x, close_engine on dir e w)
  closed_after on dir (panic, (e, w)) = (panic, w)

  abbrev pub with_closed :
      {A : Type 0} → Disk D S → Bytes → Option OpenOptions → WithEngine D S A → Program D A
  with_closed on dir opts body =
      open_engine on dir opts >>= λ e. λ w. closed_after on dir (body (e, w))

module _ {D S F : Type 0} (on : Disk D S) ⦃lsm : Lsm S⦄ ⦃float : Float F⦄ (size : ℤ) where
  -- `_ = os.RemoveAll(dir)`: its error is dropped.
  unfoldable pub bench_f4kvs_post_restart :
      Bytes → String → Option OpenOptions → Load → Program D (List (PhaseResult F))
  unfolding open_opts_for_profile load_engine count_keys restart_rows open_engine close_engine
  bench_f4kvs_post_restart dir profile opts load w =
      let opts =
        open_opts_for_profile opts (length load.chunk_keys + length load.memoir_keys) size in
      (with_closed on dir opts (load_engine size opts load)
          >> with_closed on dir opts count_keys
          >>= λ counted.
              measure >>= λ us. pure (restart_rows profile (expected_keys load) us counted))
        (record w { disk = (on.remove_all dir w.disk).1 })

module _ {D Db : Type 0} (sql : Sql D Db) where
  unfoldable pub load_db : Load → WithDb D Db (Unit {0})
  unfolding sqlite_batch_put
  load_db load =
      db_call sql.create_table
      >> db_call (sqlite_batch_put sql false load.memoir_keys load.memoir_payload)
      >> db_call (sqlite_batch_put sql false load.chunk_keys load.chunk_payload)

  -- `db.Close()` after the load, whose error counts, and before `fatal`, where it does not.
  abbrev load_closed :
      Dsn → Outcome Fatal (Unit {0}) × (Db × World D) → Outcome Fatal (Unit {0}) × World D
  load_closed dsn (ok u, (db, w)) = close_db sql dsn db w
  load_closed dsn (err x, (db, w)) = (err x, (close_db sql dsn db w).1)
  load_closed dsn (panic, (db, w)) = (panic, w)

  -- `db2.Close()`, whose error never counts
  abbrev count_closed : Dsn → Outcome Fatal ℕ × (Db × World D) → Outcome Fatal ℕ × World D
  count_closed dsn (ok n, (db, w)) = (ok n, (close_db sql dsn db w).1)
  count_closed dsn (err x, (db, w)) = (err x, (close_db sql dsn db w).1)
  count_closed dsn (panic, (db, w)) = (panic, w)

  unfoldable pub loaded_db : Dsn → Load → Program D (Unit {0})
  unfolding load_db
  loaded_db dsn load = open_db sql dsn >>= λ db. λ w. load_closed dsn (load_db load (db, w))

  unfoldable pub counted_db : Dsn → Program D ℕ
  counted_db dsn = open_db sql dsn >>= λ db. λ w. count_closed dsn (db_call sql.count_rows (db, w))

  module _ {F : Type 0} ⦃float : Float F⦄ where
    unfoldable pub bench_sqlite_post_restart :
        Bytes → SqliteProfile → Load → Program D (List (PhaseResult F))
    unfolding restart_rows loaded_db counted_db
    bench_sqlite_post_restart path prof load w =
        let dsn = at_path path prof.dsn in
        (loaded_db dsn load >> counted_db dsn >>= λ counted.
        measure >>= λ us. pure (restart_rows prof.name (expected_keys load) us counted))
          (record w { disk = sql.remove_file path w.disk })
