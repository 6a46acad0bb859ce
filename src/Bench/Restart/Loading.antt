-- ===== src/Bench/Restart/Loading.antt =====
-- What `benchF4KVSPostRestart` of bench/embed_vs_sqlite/main.go has loaded before it closes the
-- engine.
use mathlib.Core.Path.{subst}
use f4kvs_ffi.Prelude.{
  ◌<◌, ◌^◌, Bytes, Bool, true, false, Option, none, some, List, [], ◌∷◌, ◌≡◌, refl, sym, ap, ◌∙◌,
  bytes_eq, ◌||◌, ltb, ltb-suc, length, contains, ℤ, arith,
}
use f4kvs_ffi.Prelude.Exec.{Outcome, ok, err, panic, ◌>>◌}
use f4kvs_ffi.Prelude.After.{After, continue-After}
use f4kvs_ffi.Ffi.Lsm.{Lsm, LsmLaws, is_some}
use f4kvs_ffi.Ffi.Calls.{Message, failed}
use f4kvs_ffi.Engine.{F4kvs, Go, GoError, batch_put_bytes, set_bulk_import, flush_wal}
use f4kvs_ffi.Engine.Stored.{engine}
use f4kvs_ffi.Engine.Options.{OpenOptions}
use f4kvs_ffi.Bench.Batching.{uses_group_commit, same_payload, batch_put_bytes_chunked}
use f4kvs_ffi.Bench.Slices.{put_each, batch_put_bytes_chunked-slices}
use f4kvs_ffi.Bench.Run.{World, WithEngine, fatal_error, engine_call, ignore_error, unchecked_call}
use f4kvs_ffi.Bench.Phases.{Load, if_so, is_one_shot}
use f4kvs_ffi.Bench.Restart.{load_engine}
use f4kvs_ffi.Bench.Restart.Held.{Clean, Holds, Leaves, same_payload-Holds, put_each-Holds}

module _ {D S : Type 0} ⦃lsm : Lsm S⦄ (laws : LsmLaws S lsm) where
  -- A part of the program that takes an engine which holds some keys to one that holds others.
  pub record Loads {A : Type 0} (before after : Bytes → Bool) (m : WithEngine D S A) : Type 0 where
    pub runs :
        (e : F4kvs S) (w : World D)
        → Holds laws before e
        → After (λ _ (s : F4kvs S × World D). Holds laws after s.0) (m (e, w))

  pub seq-Loads :
      {A B : Type 0} {P Q R : Bytes → Bool} {m : WithEngine D S A} {n : WithEngine D S B}
      → Loads P Q m
      → Loads Q R n
      → Loads P R (m >> n)
  seq-Loads {m = m} {n = n} f g = record {
    runs = λ e w h. continue-After _ _ (m (e, w)) (λ _. n) (f.runs e w h) λ a s q. g.runs s.0 s.1 q;
  }

  pub if_so-Loads :
      {P : Bytes → Bool} {m : WithEngine D S (Unit {0})} (b : Bool)
      → Loads P P m
      → Loads P P (if_so b m)
  if_so-Loads true f = f
  if_so-Loads false f = record { runs = λ e w h. h }

  fatal_error-After :
      {A : Type 0} (P : Bytes → Bool) (r : Outcome GoError A × F4kvs S) (w : World D)
      → Leaves laws P r
      → After (λ _ (s : F4kvs S × World D). Holds laws P s.0) (fatal_error r.0, (r.1, w))
  fatal_error-After P (ok a, e) w h = h
  fatal_error-After P (err x, e) w h = tt
  fatal_error-After P (panic, e) w h = tt

  pub engine_call-Loads :
      {A : Type 0} (P Q : Bytes → Bool) (m : Go S A)
      → ((e : F4kvs S) → Holds laws P e → Leaves laws Q (m e))
      → Loads P Q (engine_call m)
  engine_call-Loads P Q m f = record { runs = λ e w h. fatal_error-After Q (m e) w (f e h) }

module _ {S : Type 0} ⦃lsm : Lsm S⦄ (laws : LsmLaws S lsm) where
  -- A call that keeps what is held whether it fails or not.
  abbrev Keeps : {A : Type 0} → (Bytes → Bool) → Go S A → Type 0
  Keeps P m = (e : F4kvs S) → Holds laws P e → Holds laws P (m e).1

  keeps-After :
      {A : Type 0} (P : Bytes → Bool) (r : Outcome GoError A × F4kvs S)
      → Holds laws P r.1
      → Leaves laws P r
  keeps-After P (ok a, e) h = h
  keeps-After P (err x, e) h = tt
  keeps-After P (panic, e) h = tt

module _ {D S : Type 0} ⦃lsm : Lsm S⦄ (laws : LsmLaws S lsm) where
  ignore_error-After :
      {A : Type 0} (P : Bytes → Bool) (r : Outcome GoError A × F4kvs S) (w : World D)
      → Holds laws P r.1
      → After
          (λ _ (s : F4kvs S × World D). Holds laws P s.0)
          (ignore_error (fatal_error r.0), (r.1, w))
  ignore_error-After P (ok a, e) w h = h
  ignore_error-After P (err x, e) w h = h
  ignore_error-After P (panic, e) w h = tt

  pub checked-Loads :
      {A : Type 0} (P : Bytes → Bool) (m : Go S A)
      → Keeps laws P m
      → Loads {D = D} laws P P (engine_call m)
  checked-Loads P m k = engine_call-Loads laws P P m λ e h. keeps-After laws P (m e) (k e h)

  unchecked-Loads :
      {A : Type 0} (P : Bytes → Bool) (m : Go S A)
      → Keeps laws P m
      → Loads {D = D} laws P P (unchecked_call m)
  unchecked-Loads P m k = record { runs = λ e w h. ignore_error-After P (m e) w (k e h) }

module _ {S : Type 0} ⦃lsm : Lsm S⦄ (laws : LsmLaws S lsm) where
  pub set_bulk_import-Keeps : (P : Bytes → Bool) (on : Bool) → Keeps laws P (set_bulk_import on)
  unfolding set_bulk_import
  set_bulk_import-Keeps P true e (s, m, same, h) =
      subst (λ e. Holds laws P (set_bulk_import true e).1) (sym same)
        (lsm.set_bulk_import true s, m, refl, λ k. ap is_some (laws.bulk_view true k s) ∙ h k)
  set_bulk_import-Keeps P false e (s, m, same, h) =
      subst (λ e. Holds laws P (set_bulk_import false e).1) (sym same)
        (lsm.set_bulk_import false s, m, refl, λ k. ap is_some (laws.bulk_view false k s) ∙ h k)

  flush_wal_state :
      (s : S) (m : Option Message) (r : Outcome Bytes (Unit {0}))
      → (lsm.flush_wal s).0 ≡ r
      → (m' : Option Message) × ((flush_wal (engine false (some s) m)).1
          ≡ engine false (some (lsm.flush_wal s).1) m')
  unfolding flush_wal
  flush_wal_state s m (ok u) q = (m, ground (arith, q))
  flush_wal_state s m (err x) q = (some (failed "Flush WAL" x), ground (arith, q))
  flush_wal_state s m panic q = (m, ground (arith, q))

  flush_wal-Keeps : (P : Bytes → Bool) → Keeps laws P flush_wal
  flush_wal-Keeps P e (s, m, same, h) =
      let (m', after) = flush_wal_state s m (lsm.flush_wal s).0 refl in
      subst (λ e. Holds laws P (flush_wal e).1) (sym same)
        ((lsm.flush_wal s).1, m', after, λ k. ap is_some (laws.flush_wal_view k s) ∙ h k)

  batch_put_bytes_chunked-Leaves :
      (size : ℤ) (keys : List Bytes) (p : Bytes) (held : Bytes → Bool) (e : F4kvs S)
      → length keys < 2 ^ 32
      → Clean keys
      → Holds laws held e
      → Leaves laws (λ k. contains keys k || held k) (batch_put_bytes_chunked size keys p e)
  batch_put_bytes_chunked-Leaves size keys p held e small c h =
      let (xss, all, _, each) = batch_put_bytes_chunked-slices {S = S} none size keys p small in
      subst (λ (m : Go S (Unit {0})). Leaves laws (λ k. contains keys k || held k) (m e)) (sym each)
        (subst (λ ks. Leaves laws (λ k. contains ks k || held k) (put_each p xss e)) all
          (put_each-Holds laws p xss held e (subst Clean (sym all) c) h))

-- The keys of a run, the chunks before the memoirs.
abbrev pub held_of : Load → Bytes → Bool
held_of load k = contains load.chunk_keys k || (contains load.memoir_keys k || false)

module _ {D S : Type 0} ⦃lsm : Lsm S⦄ (laws : LsmLaws S lsm) where
  memoirs-Loads :
      (p : Bytes) (keys : List Bytes)
      → Clean keys
      → Loads {D = D} laws
          (λ k. false)
          (λ k. contains keys k || false)
          (if_so (ltb 0 (length keys)) (engine_call (batch_put_bytes (same_payload p keys []))))
  memoirs-Loads p [] c = record { runs = λ e w h. h }
  memoirs-Loads p (key ∷ keys) c =
      subst
        (λ b.
          Loads {D = D} laws (λ k. false) (λ k. contains (key ∷ keys) k || false)
            (if_so b (engine_call (batch_put_bytes (same_payload p (key ∷ keys) [])))))
        (sym (ltb-suc (length keys)))
        (engine_call-Loads laws _ _ (batch_put_bytes (same_payload p (key ∷ keys) []))
          λ e h. same_payload-Holds laws p (key ∷ keys) (λ k. false) e c h)

  pub load_engine-Loads :
      (size : ℤ) (opts : Option OpenOptions) (load : Load)
      → length load.chunk_keys < 2 ^ 32
      → Clean load.memoir_keys
      → Clean load.chunk_keys
      → Loads {D = D} laws (λ k. false) (held_of load) (load_engine size opts load)
  unfolding load_engine
  load_engine-Loads size opts load small memoirs chunks =
      let first = λ (k : Bytes). contains load.memoir_keys k || false in
      let all = held_of load in
      let bulk = ltb 1000 (length load.chunk_keys) in
      seq-Loads laws
        (seq-Loads laws
          (seq-Loads laws
            (seq-Loads laws
              (seq-Loads laws (memoirs-Loads load.memoir_payload load.memoir_keys memoirs) (
                if_so-Loads laws bulk
                  (checked-Loads laws first _ (set_bulk_import-Keeps laws first true))))
              (engine_call-Loads laws first all
                (batch_put_bytes_chunked size load.chunk_keys load.chunk_payload)
                λ e h.
                  batch_put_bytes_chunked-Leaves laws size load.chunk_keys load.chunk_payload first
                    e small chunks h))
            (if_so-Loads laws (is_one_shot size)
              (unchecked-Loads laws all _ (flush_wal-Keeps laws all))))
          (if_so-Loads laws bulk
            (unchecked-Loads laws all _ (set_bulk_import-Keeps laws all false))))
        (if_so-Loads laws (uses_group_commit opts)
          (checked-Loads laws all _ (flush_wal-Keeps laws all)))
