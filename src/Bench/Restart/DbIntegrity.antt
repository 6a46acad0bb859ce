-- ===== src/Bench/Restart/DbIntegrity.antt =====
-- The integrity check of bench/embed_vs_sqlite/main.go on SQLite: `benchSQLitePostRestart`.
use mathlib.Core.Path.{subst}
use f4kvs_ffi.Prelude.{ℕ, suc, ◌+◌, Bytes, false, List, [], ◌∷◌, ◌≡◌, sym, ap, ◌∙◌, length, arith}
use f4kvs_ffi.Prelude.Exec.{Exec, Outcome, ok, err, panic, ◌>>◌}
use f4kvs_ffi.Prelude.After.{After, After_ok, After-weaken, continue-After}
use f4kvs_ffi.Bench.Phase.{Float, PhaseResult}
use f4kvs_ffi.Bench.Report.{has_integrity_fail}
use f4kvs_ffi.Bench.Run.{World, Fatal}
use f4kvs_ffi.Bench.Phases.{Load}
use f4kvs_ffi.Bench.Sqlite.{
  Dsn, SqliteProfile, at_path, Sql, fatal_sql, db_call, insert_keys, sqlite_batch_put, open_db,
  close_db,
}
use f4kvs_ffi.Bench.Restart.{
  expected_keys, restart_rows, load_db, load_closed, count_closed, loaded_db, counted_db,
  bench_sqlite_post_restart,
}
use f4kvs_ffi.Bench.Restart.Integrity.{RowsOf, Reports, restart_rows-Reports, restart_rows-passes}

-- What SQLite does to the number of rows of the table: the rows that a connection sees, those that
-- were committed, and those in a file. A key is a primary key, so that an INSERT that succeeds adds
-- a row.
pub record SqlLaws {D Db : Type 0} (sql : Sql D Db) : Type 0 where
  pub seen : Db → ℕ
  pub committed : Db → ℕ
  pub in_file : Bytes → D → ℕ
  pub open_rows :
      (dsn : Dsn) (d : D) → After (λ db d'. seen db ≡ in_file dsn.file d) (sql.open_file dsn d)
  pub close_rows :
      (dsn : Dsn) (db : Db) (d : D)
      → After (λ u d'. in_file dsn.file d' ≡ committed db) (sql.close_file dsn db d)
  pub create_rows : (db : Db) → After (λ u db'. seen db' ≡ 0) (sql.create_table db)
  pub begin_rows : (db : Db) → After (λ u db'. seen db' ≡ seen db) (sql.begin db)
  pub prepare_rows : (db : Db) → After (λ u db'. seen db' ≡ seen db) (sql.prepare db)
  pub insert_rows :
      (key value : Bytes) (db : Db)
      → After (λ u db'. seen db' ≡ suc (seen db)) (sql.insert_in_tx key value db)
  pub commit_rows :
      (db : Db) → After (λ u db'. (seen db' ≡ seen db) × (committed db' ≡ seen db)) (sql.commit db)
  pub count_is_seen : (db : Db) → After (λ n db'. n ≡ seen db) (sql.count_rows db)

module _ {D Db : Type 0} {sql : Sql D Db} (laws : SqlLaws sql) where
  -- A statement or a group of them that adds rows.
  pub record Adds {A : Type 0} (m : Exec Db Bytes A) (n : ℕ) : Type 0 where
    pub adds : (db : Db) → After (λ a db'. laws.seen db' ≡ n + laws.seen db) (m db)

  seq-Adds :
      {A B : Type 0} {m : Exec Db Bytes A} {k : Exec Db Bytes B} {i j n : ℕ}
      → Adds m i
      → Adds k j
      → i + j ≡ n
      → Adds (m >> k) n
  seq-Adds {m = m} {k = k} f g same = record {
    adds = λ db.
        continue-After _ _ (m db) (λ _. k) (f.adds db)
          λ a db' q. After-weaken _ _ (k db') (g.adds db') λ b db'' q'. omega (arith, q, q', same);
  }

  -- A statement by what it is known to do.
  one-Adds :
      {A : Type 0} {m : Exec Db Bytes A} (n : ℕ)
      → ((db : Db) → After (λ a db'. laws.seen db' ≡ n + laws.seen db) (m db))
      → Adds m n
  one-Adds n h = record { adds = h }

  insert_keys-Adds :
      (payload : Bytes) (keys : List Bytes)
      → Adds (insert_keys sql.insert_in_tx payload keys) (length keys)
  unfolding insert_keys
  insert_keys-Adds payload [] = record { adds = λ db. omega arith }
  insert_keys-Adds payload (key ∷ keys) =
      seq-Adds
        (one-Adds 1 λ db.
          After-weaken _ _ (sql.insert_in_tx key payload db) (laws.insert_rows key payload db)
            λ u db' q. omega (arith, q))
        (insert_keys-Adds payload keys) (omega arith)

  filled-Adds :
      (payload : Bytes) (keys : List Bytes)
      → Adds (sql.begin >> sql.prepare >> insert_keys sql.insert_in_tx payload keys) (length keys)
  filled-Adds payload keys =
      seq-Adds
        (seq-Adds {i = 0} {j = 0} {n = 0}
          (one-Adds 0
            λ db. After-weaken _ _ (sql.begin db) (laws.begin_rows db) λ u db' q. omega (arith, q))
          (one-Adds 0 λ db.
            After-weaken _ _ (sql.prepare db) (laws.prepare_rows db) λ u db' q. omega (arith, q))
          (omega arith))
        (insert_keys-Adds payload keys) (omega arith)

  -- What a batch in a transaction leaves.
  abbrev Batched : ℕ → ℕ → Db → Type 0
  Batched n before db = (laws.seen db ≡ n + before) × (laws.committed db ≡ n + before)

  sqlite_batch_put-Batched :
      (keys : List Bytes) (payload : Bytes) (db : Db)
      → After
          (λ u db'. Batched (length keys) (laws.seen db) db')
          (sqlite_batch_put sql false keys payload db)
  unfolding sqlite_batch_put
  sqlite_batch_put-Batched keys payload db =
      let fill = sql.begin >> sql.prepare >> insert_keys sql.insert_in_tx payload keys in
      continue-After (λ u db'. laws.seen db' ≡ length keys + laws.seen db) _ (fill db)
        (λ _. sql.commit) ((filled-Adds payload keys).adds db)
        λ u db' q.
          After-weaken _ _ (sql.commit db') (laws.commit_rows db')
            λ u db'' (same, all). (omega (arith, q, same), omega (arith, q, all))

  db_call-After :
      {A : Type 0} (Q : A → Db → Type 0) (r : Outcome Bytes A × Db) (w : World D)
      → After Q r
      → After (λ a (s : Db × World D). Q a s.0) (fatal_sql r.0, (r.1, w))
  db_call-After Q (ok a, db) w h = h
  db_call-After Q (err e, db) w h = tt
  db_call-After Q (panic, db) w h = tt

  batch_call-Batched :
      (keys : List Bytes) (payload : Bytes) (s : Db × World D)
      → After
          (λ u (s' : Db × World D). Batched (length keys) (laws.seen s.0) s'.0)
          (db_call (sqlite_batch_put sql false keys payload) s)
  batch_call-Batched keys payload s =
      db_call-After (λ u. Batched (length keys) (laws.seen s.0))
        (sqlite_batch_put sql false keys payload s.0) s.1
        (sqlite_batch_put-Batched keys payload s.0)

  load_db-committed :
      (load : Load) (db : Db) (w : World D)
      → After
          (λ u (s : Db × World D). laws.committed s.0 ≡ expected_keys load)
          (load_db sql load (db, w))
  unfolding load_db
  load_db-committed load db w =
      let create = db_call sql.create_table in
      let memoirs = db_call (sqlite_batch_put sql false load.memoir_keys load.memoir_payload) in
      let chunks = db_call (sqlite_batch_put sql false load.chunk_keys load.chunk_payload) in
      continue-After (λ u (s : Db × World D). laws.seen s.0 ≡ length load.memoir_keys) _
        ((create >> memoirs) (db, w)) (λ _. chunks)
        (continue-After (λ u (s : Db × World D). laws.seen s.0 ≡ 0) _ (create (db, w))
          (λ _. memoirs)
          (db_call-After (λ u db'. laws.seen db' ≡ 0) (sql.create_table db) w (laws.create_rows db))
          λ u s q.
            After-weaken
              (λ u (s' : Db × World D). Batched (length load.memoir_keys) (laws.seen s.0) s'.0) _
              (memoirs s) (batch_call-Batched load.memoir_keys load.memoir_payload s)
              λ u s' h. omega (arith, q, h.0))
        λ u s q.
          After-weaken
            (λ u (s' : Db × World D). Batched (length load.chunk_keys) (laws.seen s.0) s'.0) _
            (chunks s) (batch_call-Batched load.chunk_keys load.chunk_payload s)
            λ u s' h. omega (arith, q, h.1)

  open_db-After :
      (dsn : Dsn) (w : World D)
      → After (λ db (w' : World D). laws.seen db ≡ laws.in_file dsn.file w.disk) (open_db sql dsn w)
  open_db-After dsn w = at (sql.open_file dsn w.disk) (laws.open_rows dsn w.disk)
    where
      at :
          (r : Outcome Bytes Db × D)
          → After (λ db d'. laws.seen db ≡ laws.in_file dsn.file w.disk) r
          → After
              (λ db (w' : World D). laws.seen db ≡ laws.in_file dsn.file w.disk)
              (fatal_sql r.0, record w { disk = r.1 })
      at (ok db, d) h = h
      at (err e, d) h = tt
      at (panic, d) h = tt

  close_db-After :
      (dsn : Dsn) (db : Db) (w : World D)
      → After
          (λ u (w' : World D). laws.in_file dsn.file w'.disk ≡ laws.committed db)
          (close_db sql dsn db w)
  close_db-After dsn db w = at (sql.close_file dsn db w.disk) (laws.close_rows dsn db w.disk)
    where
      at :
          (r : Outcome Bytes (Unit {0}) × D)
          → After (λ u d'. laws.in_file dsn.file d' ≡ laws.committed db) r
          → After
              (λ u (w' : World D). laws.in_file dsn.file w'.disk ≡ laws.committed db)
              (fatal_sql r.0, record w { disk = r.1 })
      at (ok u, d) h = h
      at (err e, d) h = tt
      at (panic, d) h = tt

  load_closed-After :
      (dsn : Dsn) (n : ℕ) (r : Outcome Fatal (Unit {0}) × (Db × World D))
      → After (λ u (s : Db × World D). laws.committed s.0 ≡ n) r
      → After (λ u (w : World D). laws.in_file dsn.file w.disk ≡ n) (load_closed sql dsn r)
  load_closed-After dsn n (ok u, (db, w)) h =
      After-weaken _ _ (close_db sql dsn db w) (close_db-After dsn db w) λ u w' q. q ∙ h
  load_closed-After dsn n (err e, (db, w)) h = tt
  load_closed-After dsn n (panic, (db, w)) h = tt

  count_closed-After :
      (dsn : Dsn) (n : ℕ) (r : Outcome Fatal ℕ × (Db × World D))
      → After (λ i (s : Db × World D). i ≡ n) r
      → After (λ i (w : World D). i ≡ n) (count_closed sql dsn r)
  count_closed-After dsn n (ok i, (db, w)) h = h
  count_closed-After dsn n (err e, (db, w)) h = tt
  count_closed-After dsn n (panic, (db, w)) h = tt

  loaded_db-in_file :
      (dsn : Dsn) (load : Load) (w : World D)
      → After
          (λ u (w' : World D). laws.in_file dsn.file w'.disk ≡ expected_keys load)
          (loaded_db sql dsn load w)
  unfolding loaded_db
  loaded_db-in_file dsn load w =
      continue-After _ _ (open_db sql dsn w) _ (open_db-After dsn w) λ db w' q.
        load_closed-After dsn (expected_keys load) (load_db sql load (db, w'))
          (load_db-committed load db w')

  counted_db-in_file :
      (dsn : Dsn) (n : ℕ) (w : World D)
      → laws.in_file dsn.file w.disk ≡ n
      → After (λ i (w' : World D). i ≡ n) (counted_db sql dsn w)
  unfolding counted_db
  counted_db-in_file dsn n w held =
      continue-After _ _ (open_db sql dsn w) _ (open_db-After dsn w) λ db w' q.
        count_closed-After dsn n (db_call sql.count_rows (db, w')) (
          db_call-After (λ i db'. i ≡ n) (sql.count_rows db) w'
            (After-weaken _ _ (sql.count_rows db) (laws.count_is_seen db)
              λ i db' same. same ∙ q ∙ held))

  -- The integrity check of SQLite passes, and its rows give the number of memoirs and chunks of the
  -- run as counted and as expected, if it returns rows. An INSERT that succeeds adds a row, a commit
  -- keeps the rows of its transaction, and a file that is closed and opened again has those that were
  -- committed.
  pub bench_sqlite_post_restart-passes :
      {F : Type 0} ⦃float : Float F⦄ (path : Bytes) (prof : SqliteProfile) (load : Load)
      (w : World D) (rows : List (PhaseResult F))
      → float.is_zero (float.of_nat 1) ≡ false
      → (bench_sqlite_post_restart sql path prof load w).0 ≡ ok rows
      → Reports prof.name (length load.memoir_keys + length load.chunk_keys) rows
        × (has_integrity_fail rows ≡ false)
  unfolding bench_sqlite_post_restart
  bench_sqlite_post_restart-passes path prof load w rows one o =
      let dsn = at_path path prof.dsn in
      let expected = expected_keys load in
      let w0 = record w { disk = sql.remove_file path w.disk } in
      let counted =
        continue-After (λ u w'. laws.in_file path w'.disk ≡ expected) (λ n w'. n ≡ expected)
          (loaded_db sql dsn load w0) (λ _. counted_db sql dsn) (loaded_db-in_file dsn load w0)
          λ u w' held. counted_db-in_file dsn expected w' held in
      let (us, same) =
        After_ok (λ rows' w'. RowsOf prof.name expected rows') _ rows
          (continue-After (λ n w'. n ≡ expected) (λ rows' w'. RowsOf prof.name expected rows')
            ((loaded_db sql dsn load >> counted_db sql dsn) w0) _ counted
            λ n w' q. (w'.elapsed 0, ap (restart_rows prof.name expected (w'.elapsed 0)) q))
          o in
      (
        subst (Reports prof.name expected) (sym same) (restart_rows-Reports prof.name expected us),
        restart_rows-passes prof.name expected us rows one same,
      )
