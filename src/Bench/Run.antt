-- ===== src/Bench/Run.antt =====
-- bench/embed_vs_sqlite/main.go: the machine that a benchmark runs on, its disk and its clock, and
-- the calls that a benchmark makes of the engine. An error ends the program (`fatal`).
use f4kvs_ffi.Prelude.{ℕ, zero, suc, ◌%◌, Bytes, Option, none, some, List, [], ◌∷◌, length}
use f4kvs_ffi.Prelude.Exec.{Exec, Outcome, ok, err, panic, pure, ◌>>=◌, ◌>>◌}
use f4kvs_ffi.Ffi.Lsm.{Lsm}
use f4kvs_ffi.Ffi.Calls.{engine_close}
use f4kvs_ffi.Ffi.Open.{Opening, Slot}
use f4kvs_ffi.Engine.{F4kvs, Go, GoError, get_bytes, put_bytes, close}
use f4kvs_ffi.Bench.Profiles.{ProfileError}
use f4kvs_ffi.Bench.Writer.{WriterError}
use f4kvs_ffi.Engine.Options.{OpenOptions}
use f4kvs_ffi.Engine.Open.{new_persistent_engine_with_options}

-- What ends the program.
pub data Fatal : Type 0 where
  engine_error : GoError → Fatal
  sql_error : Bytes → Fatal
  profile_error : ProfileError → Fatal
  writer_error : WriterError → Fatal
  temp_dir_failed : Bytes → Fatal
  no_profiles_selected integrity_failed : Fatal

-- A disk of type `D` under engines of type `S`: how engines open on it, what an engine that was
-- shut down leaves in its directory, and `os.RemoveAll`.
pub record Disk (D S : Type 0) : Type 0 where
  pub opening : D → Opening S
  pub leave : Bytes → S → D → D
  pub remove_all : Bytes → Exec D Bytes (Unit {0})

-- The disk, the message slot of the thread, and the microseconds that the coming measurements give.
pub record World (D : Type 0) : Type 0 where
  pub disk : D
  pub slot : Slot
  pub elapsed : ℕ → ℕ

abbrev pub Program : Type 0 → Type 0 → Type 0
Program D A = Exec (World D) Fatal A

-- A program with an open engine.
abbrev pub WithEngine : Type 0 → Type 0 → Type 0 → Type 0
WithEngine D S A = Exec (F4kvs S × World D) Fatal A

abbrev pub fatal_error : {A : Type 0} → Outcome GoError A → Outcome Fatal A
fatal_error (ok a) = ok a
fatal_error (err e) = err (engine_error e)
fatal_error panic = panic

-- A call whose error is dropped. A panic is not one.
abbrev pub ignore_error : {A : Type 0} → Outcome Fatal A → Outcome Fatal (Unit {0})
ignore_error (ok a) = ok tt
ignore_error (err e) = ok tt
ignore_error panic = panic

-- `time.Since(t0)`
abbrev pub measure : {D : Type 0} → Program D ℕ
measure w = (ok (w.elapsed 0), record w { elapsed = λ n. w.elapsed (suc n) })

abbrev pub get_elem? : {A : Type 0} → ℕ → List A → Option A
get_elem? n [] = none
get_elem? zero (x ∷ xs) = some x
get_elem? (suc n) (x ∷ xs) = get_elem? n xs

module _ {D S : Type 0} where
  -- `if err := engine.…; err != nil { fatal(err) }`
  abbrev pub engine_call : {A : Type 0} → Go S A → WithEngine D S A
  engine_call m (e, w) = let (r, e') = m e in (fatal_error r, (e', w))

  abbrev pub unchecked_call : {A : Type 0} → Go S A → WithEngine D S (Unit {0})
  unchecked_call m (e, w) = let (r, e') = m e in (ignore_error (fatal_error r), (e', w))

  -- A call that reports no error.
  abbrev pub scan_call : {A : Type 0} → (F4kvs S → A × F4kvs S) → WithEngine D S A
  scan_call m (e, w) = let (a, e') = m e in (ok a, (e', w))

  -- The rest of the program goes on beside the engine, on the same thread.
  abbrev pub beside : {A : Type 0} → Program D A → WithEngine D S A
  beside m (e, w) =
      let (r, w') = m (record w { slot = e.last_error }) in
      (r, (record e { c_side = record { handle = e.handle; last_error = w'.slot } }, w'))

module _ {S : Type 0} where
  -- `keys[i%len(keys)]`, which divides by zero if there are no keys.
  abbrev pub key_at : ℕ → List Bytes → Go S Bytes
  key_at i keys e = elim (get_elem? (i % length keys) keys) [
    | none ↦ (panic, e)
    | some key ↦ (ok key, e)
  ]

module _ {S : Type 0} ⦃lsm : Lsm S⦄ where
  -- `for _, key := range keys { engine.PutBytes(key, payload) }`
  unfoldable pub put_keys : Bytes → List Bytes → Go S (Unit {0})
  unfolding put_bytes
  put_keys payload [] = pure tt
  put_keys payload (key ∷ keys) = let rest = put_keys payload keys in put_bytes key payload >> rest

  -- `for ; i < n; i++ { engine.GetBytes(keys[i%len(keys)]) }`, with the number of passes to come.
  unfoldable pub random_gets : ℕ → ℕ → List Bytes → Go S (Unit {0})
  unfolding get_bytes
  random_gets zero i keys = pure tt
  random_gets (suc n) i keys =
      let rest = random_gets n (suc i) keys in (key_at i keys >>= get_bytes) >> rest

module _ {D S : Type 0} (on : Disk D S) ⦃lsm : Lsm S⦄ where
  unfoldable pub open_engine : Bytes → Option OpenOptions → Program D (F4kvs S)
  unfolding new_persistent_engine_with_options
  open_engine dir opts w =
      let (r, slot') =
        new_persistent_engine_with_options ⦃opening = on.opening w.disk⦄ dir opts w.slot in
      (fatal_error r, record w { slot = slot' })

  abbrev left_by : Bytes → Option S → D → D
  left_by dir none disk = disk
  left_by dir (some s) disk = on.leave dir s disk

  -- `engine.Close()`, with what it leaves on the disk.
  unfoldable pub close_engine : Bytes → F4kvs S → World D → World D
  unfolding close engine_close
  close_engine dir e w = record w {
    disk = left_by dir (engine_close e.c_side).1.handle w.disk;
    slot = (close e).last_error;
  }

  -- What `defer engine.Close()` does: nothing once `fatal` has ended the program.
  abbrev pub deferred_close :
      {A : Type 0} → Bytes → Outcome Fatal A × (F4kvs S × World D) → Outcome Fatal A × World D
  deferred_close dir (ok a, (e, w)) = (ok a, close_engine dir e w)
  deferred_close dir (err x, (e, w)) = (err x, w)
  deferred_close dir (panic, (e, w)) = (panic, close_engine dir e w)

  -- An engine for the time of a function.
  abbrev pub with_engine :
      {A : Type 0} → Bytes → Option OpenOptions → WithEngine D S A → Program D A
  with_engine dir opts body = open_engine dir opts >>= λ e. λ w. deferred_close dir (body (e, w))
