-- ===== src/Bench/Restart/Integrity.antt =====
-- The integrity check of bench/embed_vs_sqlite/main.go on an engine: `benchF4KVSPostRestart`.
use mathlib.Core.Path.{subst}
use f4kvs_ffi.Prelude.{
  ◌∷◌, refl, [], none, some, sym, All, string_eq, ◌==◌, if◌then◌else◌, ℕ, ◌+◌, ◌<◌, ◌^◌, Bytes,
  String, false, Option, List, ◌≡◌, ap, ◌∙◌, bytes_eq, nat_eq, length, ℤ, arith, ==_self,
}
use f4kvs_ffi.Prelude.Exec.{ok, ◌>>◌}
use f4kvs_ffi.Prelude.After.{After, After_ok, After-weaken, continue-After}
use f4kvs_ffi.Ffi.Text.{has_nul}
use f4kvs_ffi.Ffi.Lsm.{Lsm, LsmLaws}
use f4kvs_ffi.Engine.{F4kvs}
use f4kvs_ffi.Engine.Options.{OpenOptions}
use f4kvs_ffi.Bench.Phase.{Float, PhaseResult, metric_result}
use f4kvs_ffi.Bench.Batching.{open_opts_for_profile}
use f4kvs_ffi.Bench.Report.{has_integrity_fail}
use f4kvs_ffi.Bench.Keys.{memoir_prefix, chunk_prefix}
use f4kvs_ffi.Bench.Run.{Disk, World, open_engine}
use f4kvs_ffi.Bench.Phases.{Load}
use f4kvs_ffi.Bench.Restart.{
  with_closed, load_engine, count_keys, expected_keys, restart_rows, bench_f4kvs_post_restart,
}
use f4kvs_ffi.Bench.Restart.Held.{Holds}
use f4kvs_ffi.Bench.Restart.Loading.{held_of, load_engine-Loads}
use f4kvs_ffi.Bench.Restart.Counting.{IsLoad, ScansAnswer, count_keys-expected}
use f4kvs_ffi.Bench.Restart.Kept.{
  DiskLaws, keys-Clean, open_engine-Made, with_closed-After, Left, close_engine-Left, removed-Holds,
  reopened-Holds,
}

module _ {F : Type 0} ⦃float : Float F⦄ where
  -- The rows of a check that counts what it expects.
  abbrev pub RowsOf : String → ℕ → List (PhaseResult F) → Type 0
  RowsOf profile n rows = (us : ℕ) × (rows ≡ restart_rows profile n us n)

  -- The value of the first row that has a metric.
  abbrev pub value_of : String → List (PhaseResult F) → Option F
  value_of metric [] = none
  value_of metric (r ∷ rows) =
      let later = value_of metric rows in if r.metric_only == metric then some r.value else later

  abbrev OfRestart : String → PhaseResult F → Type 0
  OfRestart profile r = (r.phase ≡ "post_restart_row_count") × (r.profile ≡ profile)

  -- What the rows of a check tell that found all `n` rows.
  pub record Reports (profile : String) (n : ℕ) (rows : List (PhaseResult F)) : Type 0 where
    pub counted : value_of "row_count" rows ≡ some (float.of_nat n)
    pub expected : value_of "expected_row_count" rows ≡ some (float.of_nat n)
    pub intact : value_of "integrity_ok" rows ≡ some (float.of_nat 1)
    pub own : All (OfRestart profile) rows

  pub restart_rows-Reports :
      (profile : String) (n us : ℕ) → Reports profile n (restart_rows profile n us n)
  unfolding restart_rows metric_result
  restart_rows-Reports profile n us = record {
    counted = refl;
    expected = refl;
    intact = ground (arith, ==_self n);
    own = ((refl, refl), ((refl, refl), ((refl, refl), ((refl, refl), tt))));
  }

  pub restart_rows-passes :
      (profile : String) (n us : ℕ) (rows : List (PhaseResult F))
      → float.is_zero (float.of_nat 1) ≡ false
      → rows ≡ restart_rows profile n us n
      → has_integrity_fail rows ≡ false
  unfolding has_integrity_fail restart_rows
  restart_rows-passes profile n us rows one same =
      ap has_integrity_fail same ∙ ground (arith, one, ==_self n)

module _ {D S : Type 0} (on : Disk D S) ⦃lsm : Lsm S⦄ (laws : LsmLaws S lsm)
    (disk_laws : DiskLaws on laws) (shuts : (s : S) → (lsm.shutdown s).0 ≡ ok tt)
    (answers : ScansAnswer lsm) where
  loaded-Left :
      (size : ℤ) (dir : Bytes) (opts : Option OpenOptions) (load : Load) (w : World D)
      → has_nul dir ≡ false
      → (on.remove_all dir w.disk).0 ≡ ok tt
      → length load.chunk_keys < 2 ^ 32
      → IsLoad load
      → After
          (λ u (w' : World D). Left on laws (held_of load) dir w')
          (with_closed on dir opts
            (load_engine size opts load)
            (record w { disk = (on.remove_all dir w.disk).1 }))
  loaded-Left size dir opts load w n gone small i =
      let w0 = record w { disk = (on.remove_all dir w.disk).1 } in
      with_closed-After on (Holds laws (λ k. false))
        (λ u (s : F4kvs S × World D). Holds laws (held_of load) s.0)
        (λ u (w' : World D). Left on laws (held_of load) dir w') dir opts
        (load_engine size opts load) w0
        (After-weaken _ _ (open_engine on dir opts w0) (open_engine-Made on dir opts w0 n)
          λ e w' made. removed-Holds on laws disk_laws dir w.disk e gone made)
        (λ e w' h.
          (load_engine-Loads laws size opts load small
              (keys-Clean memoir_prefix load.memoir_keys i.memoirs)
              (keys-Clean chunk_prefix load.chunk_keys i.chunks)).runs
            e w' h)
        λ u e w' h. close_engine-Left on laws (held_of load) dir e w' h

  counted-expected :
      (dir : Bytes) (opts : Option OpenOptions) (load : Load) (w : World D)
      → has_nul dir ≡ false
      → IsLoad load
      → Left on laws (held_of load) dir w
      → After (λ n (w' : World D). n ≡ expected_keys load) (with_closed on dir opts count_keys w)
  counted-expected dir opts load w n i left =
      with_closed-After on (Holds laws (held_of load))
        (λ n (s : F4kvs S × World D). n ≡ expected_keys load)
        (λ n (w' : World D). n ≡ expected_keys load) dir opts count_keys w
        (After-weaken _ _ (open_engine on dir opts w) (open_engine-Made on dir opts w n)
          λ e w' made. reopened-Holds on laws disk_laws shuts (held_of load) dir w e left made)
        (λ e w' h. count_keys-expected laws answers load e w' i h) λ n e w' h. h

  -- The integrity check passes, and its rows give the number of memoirs and chunks of the run as
  -- counted and as expected, if it returns rows, for keys like those of `main`, fewer than 2^32
  -- chunks and a directory without a NUL whose removal at the start succeeds (its error is dropped).
  -- Shutdowns succeed, scans answer without repetitions, an engine in a directory that was removed
  -- holds nothing, and one that is opened again holds what it held when it was shut down.
  pub bench_f4kvs_post_restart-passes :
      {F : Type 0} ⦃float : Float F⦄ (size : ℤ) (dir : Bytes) (profile : String)
      (opts : Option OpenOptions) (load : Load) (w : World D) (rows : List (PhaseResult F))
      → has_nul dir ≡ false
      → (on.remove_all dir w.disk).0 ≡ ok tt
      → length load.chunk_keys < 2 ^ 32
      → IsLoad load
      → float.is_zero (float.of_nat 1) ≡ false
      → (bench_f4kvs_post_restart on size dir profile opts load w).0 ≡ ok rows
      → Reports profile (length load.memoir_keys + length load.chunk_keys) rows
        × (has_integrity_fail rows ≡ false)
  unfolding bench_f4kvs_post_restart
  bench_f4kvs_post_restart-passes size dir profile opts load w rows n gone small i one o =
      let opts' =
        open_opts_for_profile opts (length load.chunk_keys + length load.memoir_keys) size in
      let w0 = record w { disk = (on.remove_all dir w.disk).1 } in
      let expected = expected_keys load in
      let first = with_closed on dir opts' (load_engine size opts' load) in
      let both = (first >> with_closed on dir opts' count_keys) w0 in
      let counted =
        continue-After (λ u w'. Left on laws (held_of load) dir w') (λ n' w'. n' ≡ expected)
          (first w0) (λ _. with_closed on dir opts' count_keys)
          (loaded-Left size dir opts' load w n gone small i)
          λ u w' left. counted-expected dir opts' load w' n i left in
      let (us, same) =
        After_ok (λ rows' w'. RowsOf profile expected rows') _ rows
          (continue-After (λ n' w'. n' ≡ expected) (λ rows' w'. RowsOf profile expected rows') both
            _ counted
            λ n' w' q. (w'.elapsed 0, ap (restart_rows profile expected (w'.elapsed 0)) q))
          o in
      (
        subst (Reports profile expected) (sym same) (restart_rows-Reports profile expected us),
        restart_rows-passes profile expected us rows one same,
      )
