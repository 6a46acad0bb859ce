-- ===== src/Bench/Sqlite.antt =====
-- bench/embed_vs_sqlite/main.go: the same loads on SQLite, `benchSQLite` and the functions that it
-- calls. The driver modernc.org/sqlite is a parameter.
use Prim.Native.String.{◌++◌ as ◌++ₛ◌}
use f4kvs_ffi.Prelude.{
  ℕ, zero, suc, ◌%◌, Bytes, String, Bool, false, none, some, List, [], ◌∷◌, ◌++◌, if◌then◌else◌,
  length,
}
use f4kvs_ffi.Prelude.Decimal.{decimal_text}
use f4kvs_ffi.Prelude.Exec.{Exec, Outcome, ok, err, panic, pure, ◌>>=◌, ◌>>◌}
use f4kvs_ffi.Bench.Phase.{Float, PhaseResult, result}
use f4kvs_ffi.Bench.Keys.{legal_prefix}
use f4kvs_ffi.Bench.Run.{World, Program, Fatal, sql_error, get_elem?}
use f4kvs_ffi.Bench.Phases.{Load, timed_row, and_rows}

-- The text "file:" + file + "?" + pragmas.
pub record Dsn : Type 0 where
  pub file : Bytes
  pub pragmas : String

pub record SqliteProfile : Type 0 where
  pub name : String
  pub dsn : Dsn
  pub durability : String
  pub per_commit : Bool
  pub extra : String

unfoldable pub sqlite_dsn : String → String → Dsn
sqlite_dsn journal synchronous = record {
  file = b'k' ∷ b'v' ∷ [];
  pragmas =
      "_pragma=journal_mode(" ++ₛ journal ++ₛ ")&_pragma=synchronous(" ++ₛ synchronous
      ++ₛ ")&_pragma=foreign_keys(1)&_pragma=busy_timeout(5000)";
}

-- `strings.Replace(prof.DSN, "file:kv?", "file:"+path+"?", 1)`
abbrev pub at_path : Bytes → Dsn → Dsn
at_path path dsn = record dsn { file = path }

-- The statements of the program on an open database of type `Db`. An error is held by its text.
pub record Sql (D Db : Type 0) : Type 0 where
  pub open_file : Dsn → D → Outcome Bytes Db × D
  pub close_file : Dsn → Db → D → Outcome Bytes (Unit {0}) × D
  -- `os.Remove`
  pub remove_file : Bytes → D → D
  pub create_table : Exec Db Bytes (Unit {0})
  -- INSERT INTO kv, on its own and as a statement of a transaction
  pub insert : Bytes → Bytes → Exec Db Bytes (Unit {0})
  pub insert_in_tx : Bytes → Bytes → Exec Db Bytes (Unit {0})
  pub begin : Exec Db Bytes (Unit {0})
  pub prepare : Exec Db Bytes (Unit {0})
  pub commit : Exec Db Bytes (Unit {0})
  -- SELECT value FROM kv WHERE key = ?
  pub select_value : Bytes → Exec Db Bytes Bytes
  -- SELECT key FROM kv WHERE key LIKE ?, for a prefix; the rows are read to the end
  pub select_keys : Bytes → Exec Db Bytes (List Bytes)
  -- SELECT COUNT(*) FROM kv
  pub count_rows : Exec Db Bytes ℕ

abbrev pub WithDb : Type 0 → Type 0 → Type 0 → Type 0
WithDb D Db A = Exec (Db × World D) Fatal A

abbrev pub fatal_sql : {A : Type 0} → Outcome Bytes A → Outcome Fatal A
fatal_sql (ok a) = ok a
fatal_sql (err e) = err (sql_error e)
fatal_sql panic = panic

module _ {D Db : Type 0} where
  abbrev pub db_call : {A : Type 0} → Exec Db Bytes A → WithDb D Db A
  db_call m (db, w) = let (r, db') = m db in (fatal_sql r, (db', w))

  abbrev pub beside_db : {A : Type 0} → Program D A → WithDb D Db A
  beside_db m (db, w) = let (r, w') = m w in (r, (db, w'))

-- The loop over the keys, with one of the two statements.
unfoldable pub insert_keys :
    {Db : Type 0}
    → (Bytes → Bytes → Exec Db Bytes (Unit {0}))
    → Bytes
    → List Bytes
    → Exec Db Bytes (Unit {0})
insert_keys insert payload [] = pure tt
insert_keys insert payload (key ∷ keys) =
    let rest = insert_keys insert payload keys in insert key payload >> rest

-- "_chunk_batched"
abbrev pub side_path : Bytes → Bytes
side_path path =
    path
    ++ (b'_' ∷ b'c' ∷ b'h' ∷ b'u' ∷ b'n' ∷ b'k' ∷ b'_' ∷ b'b' ∷ b'a' ∷ b't' ∷ b'c' ∷ b'h' ∷ b'e'
        ∷ b'd' ∷ [])

module _ {D Db : Type 0} (sql : Sql D Db) where
  -- A failed statement leaves the transaction open; the callers end the program.
  unfoldable pub sqlite_batch_put : Bool → List Bytes → Bytes → Exec Db Bytes (Unit {0})
  unfolding insert_keys
  sqlite_batch_put per_commit keys payload =
      if per_commit
      then insert_keys sql.insert payload keys
      else (sql.begin >> sql.prepare >> insert_keys sql.insert_in_tx payload keys >> sql.commit)

  abbrev db_key_at : ℕ → List Bytes → Exec Db Bytes Bytes
  db_key_at i keys db = elim (get_elem? (i % length keys) keys) [
    | none ↦ (panic, db)
    | some key ↦ (ok key, db)
  ]

  unfoldable pub random_selects : ℕ → ℕ → List Bytes → Exec Db Bytes (Unit {0})
  random_selects zero i keys = pure tt
  random_selects (suc n) i keys =
      let rest = random_selects n (suc i) keys in (db_key_at i keys >>= sql.select_value) >> rest

  -- `db, err := sql.Open("sqlite", dsn); if err != nil { fatal(err) }`
  abbrev pub open_db : Dsn → Program D Db
  open_db dsn w =
      let (r, disk') = sql.open_file dsn w.disk in (fatal_sql r, record w { disk = disk' })

  abbrev pub close_db : Dsn → Db → Program D (Unit {0})
  close_db dsn db w =
      let (r, disk') = sql.close_file dsn db w.disk in (fatal_sql r, record w { disk = disk' })

  -- `defer db.Close()`, whose error is dropped; `fatal` ends the program before it.
  abbrev pub deferred_close_db :
      {A : Type 0} → Dsn → Outcome Fatal A × (Db × World D) → Outcome Fatal A × World D
  deferred_close_db dsn (err x, (db, w)) = (err x, w)
  deferred_close_db dsn (r, (db, w)) = (r, (close_db dsn db w).1)

  abbrev pub with_db : {A : Type 0} → Dsn → WithDb D Db A → Program D A
  with_db dsn body = open_db dsn >>= λ db. λ w. deferred_close_db dsn (body (db, w))

  module _ {F : Type 0} ⦃float : Float F⦄ where
    unfoldable pub bench_sqlite_chunk_batched :
        Bytes → SqliteProfile → Load → Program D (List (PhaseResult F))
    unfolding sqlite_batch_put result
    bench_sqlite_chunk_batched path prof load = with_db (at_path path prof.dsn) (
        db_call sql.create_table
        >> db_call (sqlite_batch_put false load.chunk_keys load.chunk_payload)
        >> beside_db (
            timed_row "chunk_batch_put_batched" prof.name (length load.chunk_keys) prof.durability
              (prof.extra ++ₛ "; batched tx")))

    -- A load and its row.
    abbrev pub sqlite_put_phase :
        SqliteProfile → String → List Bytes → Bytes → WithDb D Db (List (PhaseResult F))
    sqlite_put_phase prof phase keys payload =
        let put_note = (if prof.per_commit then "per-commit" else "batched tx") in
        db_call (sqlite_batch_put prof.per_commit keys payload)
        >> beside_db (
            timed_row phase prof.name (length keys) prof.durability
              (prof.extra ++ₛ "; " ++ₛ put_note))

    abbrev pub sqlite_get_phase :
        SqliteProfile → String → ℕ → List Bytes → WithDb D Db (List (PhaseResult F))
    sqlite_get_phase prof phase n keys =
        db_call (random_selects n 0 keys)
        >> beside_db (timed_row phase prof.name n prof.durability "")

    abbrev pub sqlite_scan_phase : SqliteProfile → WithDb D Db (List (PhaseResult F))
    sqlite_scan_phase prof = db_call (sql.select_keys legal_prefix) >>= λ keys. beside_db (
        timed_row "chunk_prefix_scan" prof.name (length keys) prof.durability
          ("keys=" ++ₛ decimal_text (length keys)))

    unfoldable pub bench_sqlite : Bytes → SqliteProfile → Load → Program D (List (PhaseResult F))
    unfolding sqlite_batch_put random_selects result bench_sqlite_chunk_batched
    bench_sqlite path prof load = with_db (at_path path prof.dsn) (
        db_call sql.create_table
        >> and_rows (sqlite_put_phase prof "memoir_batch_put" load.memoir_keys load.memoir_payload)
            (and_rows (sqlite_get_phase prof "memoir_random_get" load.random_gets load.memoir_keys)
              (and_rows (sqlite_put_phase prof "chunk_batch_put" load.chunk_keys load.chunk_payload)
                (and_rows (beside_db (bench_sqlite_chunk_batched (side_path path) prof load)) (
                  and_rows (sqlite_scan_phase prof)
                    (sqlite_get_phase prof "chunk_random_get" load.random_gets load.chunk_keys))))))
