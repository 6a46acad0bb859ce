-- ===== src/Bench/ReadTax/Ends.antt =====
-- How bench/ffi_read_tax/main.go ends: the reads miss no key of the ingest.
use mathlib.Core.Path.{subst}
use f4kvs_ffi.Prelude.{
  Bytes, String, Bool, true, false, Option, none, some, List, [], ◌≡◌, refl, sym, ◌∙◌, ◌||◌,
  contains, All, bytes_eq, arith, if◌then◌else◌, if_cases,
}
use f4kvs_ffi.Prelude.Exec.{Outcome, ok, err, panic, pure, ◌>>=◌, ◌>>◌}
use f4kvs_ffi.Prelude.After.{After-intro, After-weaken}
use f4kvs_ffi.Ffi.Text.{has_nul}
use f4kvs_ffi.Ffi.Lsm.{Lsm, LsmLaws, is_some}
use f4kvs_ffi.Ffi.Calls.{Message}
use f4kvs_ffi.Engine.{F4kvs, Go, batch_put_bytes, set_bulk_import}
use f4kvs_ffi.Engine.Stored.{engine}
use f4kvs_ffi.Bench.Phase.{Float, zero_float}
use f4kvs_ffi.Bench.Run.{
  Disk, World, Program, WithEngine, Fatal, fatal_error, measure, engine_call, beside, random_gets,
  open_engine,
}
use f4kvs_ffi.Bench.Keys.{chunk_keys, chunk_prefix, memoir_keys-Unrepeated}
use f4kvs_ffi.Bench.Restart.Held.{Clean, Holds, same_payload-Holds}
use f4kvs_ffi.Bench.Phases.{if_so}
use f4kvs_ffi.Bench.Batching.{same_payload}
use f4kvs_ffi.Bench.Restart.Loading.{
  Loads, seq-Loads, if_so-Loads, checked-Loads, engine_call-Loads, set_bulk_import-Keeps,
}
use f4kvs_ffi.Bench.Restart.Kept.{
  keys-Clean, DiskLaws, Made, open_engine-Made, Left, close_engine-Left, reopened-Holds,
}
use f4kvs_ffi.Bench.ReadTax.{
  TaxFlags, TaxFiles, closed_at_end, finish, sample_payload, ingest_work, load_and_read, ingest,
  read_back,
}
use f4kvs_ffi.Bench.ReadTax.Found.{misses, fails_with-continue, random_gets-found}
use f4kvs_ffi.Bench.ReadTax.Calls.{
  is_lost, loses, Good, continue-Good, fatal_error-loses, set_bulk_import-misses,
  batch_put_bytes-misses, held_members, write_report-loses, deferred_close-loses, open_engine-loses,
}

module _ {D S F : Type 0} (on : Disk D S) (files : TaxFiles D F) ⦃lsm : Lsm S⦄ ⦃float : Float F⦄
    (laws : LsmLaws S lsm) (disk_laws : DiskLaws on laws)
    (shuts : (s : S) → (lsm.shutdown s).0 ≡ ok tt) (flags : TaxFlags) where
  abbrev keys : List Bytes
  keys = chunk_keys flags.chunks

  -- The keys of the run and those that were there.
  abbrev loaded : (Bytes → Bool) → Bytes → Bool
  loaded before k = contains keys k || before k

  reads-found :
      (host : String) (dir : Bytes) (ms : F) (held : Bytes → Bool) (e : F4kvs S) (w : World D)
      → All (λ k. (has_nul k ≡ false) × (held k ≡ true)) keys
      → Holds laws held e
      → loses
          ((engine_call (random_gets flags.random_gets 0 keys)
              >> beside (measure >>= finish on files flags host dir ms))
            (e, w)).0
        ≡ false
  reads-found host dir ms held e w c h =
      fails_with-continue is_lost (λ u s. Unit)
        (engine_call (random_gets flags.random_gets 0 keys) (e, w)) _
        (fatal_error-loses _ (random_gets-found laws flags.random_gets 0 held keys e c h))
        (After-intro (λ u s. Unit) (engine_call (random_gets flags.random_gets 0 keys) (e, w))
          λ u o. tt)
        λ u s t. write_report-loses files flags.out _ _

  read_back-finds :
      (host : String) (dir : Bytes) (ms : F) (held : Bytes → Bool) (w : World D)
      → has_nul dir ≡ false
      → All (λ k. (has_nul k ≡ false) × (held k ≡ true)) keys
      → Left on laws held dir w
      → loses (read_back on files flags host dir ms w).0 ≡ false
  unfolding read_back
  read_back-finds host dir ms held w n c left =
      fails_with-continue is_lost (λ e (w' : World D). Holds laws held e)
        (open_engine on dir none w) _ (open_engine-loses on dir w)
        (After-weaken _ _ (open_engine on dir none w) (open_engine-Made on dir none w n)
          λ e w' made. reopened-Holds on laws disk_laws shuts held dir w e left made)
        λ e w' h. deferred_close-loses on dir _ ∙ reads-found host dir ms held e w' c h

  chunk_keys-Clean : Clean keys
  chunk_keys-Clean =
      let (_, _, _, _, _, named) = memoir_keys-Unrepeated flags.chunks in
      keys-Clean chunk_prefix keys named

  closed_at_end-Good :
      (before : Bytes → Bool) (dir : Bytes) (r : Outcome Fatal F × (F4kvs S × World D))
      → Good (λ a (s : F4kvs S × World D). Holds laws (loaded before) s.0) r
      → Good (λ a w. Left on laws (loaded before) dir w) (closed_at_end on files flags dir r)
  closed_at_end-Good before dir (ok a, (e, w)) g =
      (refl, close_engine-Left on laws (loaded before) dir e w g.1)
  closed_at_end-Good before dir (err x, (e, w)) g = g
  closed_at_end-Good before dir (panic, (e, w)) g = g

  abbrev puts : WithEngine D S (Unit {0})
  puts =
      if_so flags.bulk_import (engine_call (set_bulk_import true))
      >> engine_call (batch_put_bytes (same_payload (sample_payload flags.chunk_bytes) keys []))

  puts-Loads : (before : Bytes → Bool) → Loads laws before (loaded before) puts
  puts-Loads before =
      seq-Loads laws
        (if_so-Loads laws flags.bulk_import (
          checked-Loads laws before (set_bulk_import true)
            (set_bulk_import-Keeps laws before true)))
        (engine_call-Loads laws before (loaded before)
          (batch_put_bytes (same_payload (sample_payload flags.chunk_bytes) keys []))
          λ e h.
            same_payload-Holds laws (sample_payload flags.chunk_bytes) keys before e
              chunk_keys-Clean h)

  -- A call of an engine that is open does not miss a key if no call of such an engine does.
  held_call-loses :
      {A : Type 0} (held : Bytes → Bool) (m : Go S A) (e : F4kvs S)
      → ((s : S) (t : Option Message) → misses (m (engine false (some s) t)).0 ≡ false)
      → Holds laws held e
      → loses (fatal_error (m e).0) ≡ false
  held_call-loses held m e never (s, t, same, h) =
      fatal_error-loses (m e).0 (subst (λ e. misses (m e).0 ≡ false) (sym same) (never s t))

  bulk-loses :
      (b : Bool) (held : Bytes → Bool) (e : F4kvs S) (w : World D)
      → Holds laws held e
      → loses (if_so b (engine_call (set_bulk_import true)) (e, w)).0 ≡ false
  bulk-loses false held e w h = refl
  bulk-loses true held e w h =
      held_call-loses held (set_bulk_import true) e (set_bulk_import-misses true) h

  puts-Good :
      (before : Bytes → Bool) (e : F4kvs S) (w : World D)
      → Holds laws before e
      → Good (λ u (s : F4kvs S × World D). Holds laws (loaded before) s.0) (puts (e, w))
  puts-Good before e w h = (
    fails_with-continue is_lost (λ u (s : F4kvs S × World D). Holds laws before s.0)
        (if_so flags.bulk_import (engine_call (set_bulk_import true)) (e, w)) _
        (bulk-loses flags.bulk_import before e w h)
        ((if_so-Loads laws flags.bulk_import (
            checked-Loads laws before (set_bulk_import true)
              (set_bulk_import-Keeps laws before true))).runs
          e w h)
        λ u s h'.
          held_call-loses before
            (batch_put_bytes (same_payload (sample_payload flags.chunk_bytes) keys [])) s.0
            (batch_put_bytes-misses (same_payload (sample_payload flags.chunk_bytes) keys [])) h',
    (puts-Loads before).runs e w h,
  )

  ingest_work-Good :
      (before : Bytes → Bool) (e : F4kvs S) (w : World D)
      → Holds laws before e
      → Good
          (λ a (s : F4kvs S × World D). Holds laws (loaded before) s.0)
          (ingest_work on files flags (e, w))
  ingest_work-Good before e w h =
      let there = λ (s : F4kvs S × World D). Holds laws (loaded before) s.0 in
      let timed =
        continue-Good (λ u. there) (λ us. there) (puts (e, w)) (λ u. beside measure)
          (puts-Good before e w h) (λ u s h'. (refl, h')) in
      continue-Good (λ us. there) (λ ms. there) ((puts >> beside measure) (e, w)) _ timed
        λ us s h'. (refl, h')

  -- What is there after the ingest: the keys of the run, beside those that were there before.
  abbrev Ingested : Bytes → World D → Type 0
  Ingested dir w = (before : Bytes → Bool) × Left on laws (loaded before) dir w

  opened_ingest-Good :
      (dir : Bytes) (e : F4kvs S) (d : D) (w : World D)
      → Made (on.opening d) dir e
      → Good
          (λ ms. Ingested dir)
          (closed_at_end on files flags dir (ingest_work on files flags (e, w)))
  opened_ingest-Good dir e d w (config, s, m, opened, same) =
      let before = λ (k : Bytes). is_some (laws.view s k) in
      let (found, after) =
        closed_at_end-Good before dir (ingest_work on files flags (e, w))
          (ingest_work-Good before e w (s, m, same, λ k. refl)) in
      (found, After-weaken _ (λ ms. Ingested dir) _ after λ ms w' left. (before, left))

  ingest-Good :
      (dir : Bytes) (w : World D)
      → has_nul dir ≡ false
      → Good (λ ms. Ingested dir) (ingest on files flags dir w)
  unfolding ingest
  ingest-Good dir w n =
      continue-Good (λ e (w' : World D). Made (on.opening w.disk) dir e) (λ ms. Ingested dir)
        (open_engine on dir none w) _ (open_engine-loses on dir w, open_engine-Made on dir none w n)
        λ e w' made. opened_ingest-Good dir e w.disk w' made

  members_held :
      (before : Bytes → Bool) → All (λ k. (has_nul k ≡ false) × (loaded before k ≡ true)) keys
  members_held before = held_members before keys keys chunk_keys-Clean λ k h. h

  abbrev rest_of_run : String → Bytes → F → Program D (Unit {0})
  rest_of_run host dir ms =
      if flags.prepare_only then pure tt else read_back on files flags host dir ms

  rest_of_run-finds :
      (host : String) (dir : Bytes) (ms : F) (w : World D)
      → has_nul dir ≡ false
      → Ingested dir w
      → loses (rest_of_run host dir ms w).0 ≡ false
  rest_of_run-finds host dir ms w n (before, left) =
      if_cases (λ (m : Program D (Unit {0})). loses (m w).0 ≡ false) flags.prepare_only (pure tt)
        (read_back on files flags host dir ms) (λ _. refl)
        λ _. read_back-finds host dir ms (loaded before) w n (members_held before) left

  -- A run that loads the store never ends with `ErrNotFound`, neither while it loads nor while it
  -- reads from the engine that was opened again, whatever the directory held before. It may end with
  -- another error, or with a panic, as it does if there are reads and no chunks. The directory has no
  -- NUL, an engine that is opened again holds what it held when it was shut down, and shutdowns
  -- succeed.
  pub load_and_read-finds :
      (host : String) (dir : Bytes) (w : World D)
      → flags.read_only ≡ false
      → has_nul dir ≡ false
      → loses (load_and_read on files flags host dir w).0 ≡ false
  unfolding load_and_read
  load_and_read-finds host dir w loads n =
      if_cases (λ (m : Program D F). loses ((m >>= rest_of_run host dir) w).0 ≡ false)
        flags.read_only (pure zero_float) (ingest on files flags dir)
        (λ h. absurd (ground (arith, h, loads)))
        λ _.
          let (found, after) = ingest-Good dir w n in
          fails_with-continue is_lost (λ ms. Ingested dir) (ingest on files flags dir w)
            (rest_of_run host dir) found after
            λ ms w' there. rest_of_run-finds host dir ms w' n there
