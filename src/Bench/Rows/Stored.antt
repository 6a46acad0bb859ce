-- ===== src/Bench/Rows/Stored.antt =====
-- The rows of `benchSQLite` of bench/embed_vs_sqlite/main.go are of the profile that it measures.
use Prim.Native.String.{◌++◌ as ◌++ₛ◌}
use f4kvs_ffi.Prelude.{ℕ, Bytes, String, false, List, length}
use f4kvs_ffi.Prelude.Decimal.{decimal_text}
use f4kvs_ffi.Bench.Phase.{Float, PhaseResult}
use f4kvs_ffi.Bench.Keys.{legal_prefix}
use f4kvs_ffi.Bench.Phases.{Load}
use f4kvs_ffi.Bench.Sqlite.{
  Sql, SqliteProfile, WithDb, db_call, at_path, sqlite_batch_put, random_selects,
  bench_sqlite_chunk_batched, sqlite_put_phase, sqlite_get_phase, sqlite_scan_phase, side_path,
  bench_sqlite,
}
use f4kvs_ffi.Bench.Rows.{
  Emits, OfProfile, then-Emits, after-Emits, and_rows-Emits, beside_db-Emits, with_db-Emits,
  timed_row-Emits,
}
use f4kvs_ffi.Prelude.Exec.{◌>>◌}

module _ {D Db F : Type 0} (sql : Sql D Db) ⦃float : Float F⦄ (prof : SqliteProfile)
    (load : Load) where
  abbrev OwnRows : WithDb D Db (List (PhaseResult F)) → Type 0
  OwnRows m = Emits (OfProfile prof.name) m

  bench_sqlite_chunk_batched-Emits :
      (path : Bytes)
      → Emits (OfProfile {F = F} prof.name) (bench_sqlite_chunk_batched sql path prof load)
  unfolding bench_sqlite_chunk_batched
  bench_sqlite_chunk_batched-Emits path = with_db-Emits sql (at_path path prof.dsn) (
      after-Emits
        (db_call sql.create_table
          >> db_call (sqlite_batch_put sql false load.chunk_keys load.chunk_payload))
        (beside_db-Emits (timed_row-Emits _ prof.name _ _ _)))

  put_phase-Emits :
      (phase : String) (keys : List Bytes) (payload : Bytes)
      → OwnRows (sqlite_put_phase sql prof phase keys payload)
  put_phase-Emits phase keys payload =
      after-Emits (db_call (sqlite_batch_put sql prof.per_commit keys payload))
        (beside_db-Emits (timed_row-Emits phase prof.name _ _ _))

  get_phase-Emits :
      (phase : String) (n : ℕ) (keys : List Bytes)
      → OwnRows (sqlite_get_phase sql prof phase n keys)
  get_phase-Emits phase n keys =
      after-Emits (db_call (random_selects sql n 0 keys))
        (beside_db-Emits (timed_row-Emits phase prof.name _ _ _))

  scan_phase-Emits : OwnRows (sqlite_scan_phase sql prof)
  scan_phase-Emits = then-Emits (db_call (sql.select_keys legal_prefix)) λ keys. beside_db-Emits (
      timed_row-Emits "chunk_prefix_scan" prof.name (length keys) prof.durability
        ("keys=" ++ₛ decimal_text (length keys)))

  pub bench_sqlite-Emits :
      (path : Bytes) → Emits (OfProfile {F = F} prof.name) (bench_sqlite sql path prof load)
  unfolding bench_sqlite
  bench_sqlite-Emits path = with_db-Emits sql (at_path path prof.dsn) (
      after-Emits (db_call sql.create_table) (
        and_rows-Emits (put_phase-Emits "memoir_batch_put" load.memoir_keys load.memoir_payload) (
          and_rows-Emits (get_phase-Emits "memoir_random_get" load.random_gets load.memoir_keys) (
            and_rows-Emits (put_phase-Emits "chunk_batch_put" load.chunk_keys load.chunk_payload) (
              and_rows-Emits (beside_db-Emits (bench_sqlite_chunk_batched-Emits (side_path path))) (
                and_rows-Emits scan_phase-Emits
                  (get_phase-Emits "chunk_random_get" load.random_gets load.chunk_keys)))))))
