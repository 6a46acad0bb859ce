-- ===== src/Bench/ReadTax/Calls.antt =====
-- Which calls of bench/ffi_read_tax/main.go can fail for want of a key.
use f4kvs_ffi.Prelude.{
  Bytes, Bool, true, false, Option, none, some, List, [], ◌∷◌, ◌≡◌, refl, ◌||◌, contains, All,
  bytes_eq, arith, ==_self,
}
use f4kvs_ffi.Prelude.Exec.{Exec, Outcome, ok, err, panic, continue}
use f4kvs_ffi.Prelude.After.{After}
use f4kvs_ffi.Ffi.Text.{has_nul}
use f4kvs_ffi.Ffi.Lsm.{Lsm}
use f4kvs_ffi.Ffi.Calls.{Message}
use f4kvs_ffi.Ffi.Open.{Opening, Slot}
use f4kvs_ffi.Engine.{F4kvs, GoError, batch_put_bytes, set_bulk_import}
use f4kvs_ffi.Engine.Stored.{engine}
use f4kvs_ffi.Engine.Open.{new_persistent_engine_with_options}
use f4kvs_ffi.Bench.Run.{Disk, World, Fatal, engine_error, fatal_error, open_engine, deferred_close}
use f4kvs_ffi.Bench.Restart.Held.{Clean}
use f4kvs_ffi.Bench.ReadTax.{TaxFiles, TaxReport, write_report}
use f4kvs_ffi.Bench.ReadTax.Found.{fails_with, is_not_found, misses}

abbrev pub is_lost : Fatal → Bool
is_lost (engine_error e) = is_not_found e
is_lost _ = false

-- A program that ends for want of a key.
abbrev pub loses : {A : Type 0} → Outcome Fatal A → Bool
loses r = fails_with is_lost r

-- A part of the program that misses no key, and what holds if it succeeds.
abbrev pub Good : {W A : Type 0} → (A → W → Type 0) → Outcome Fatal A × W → Type 0
Good Q r = (loses r.0 ≡ false) × After Q r

pub continue-Good :
    {W A B : Type 0} (Q : A → W → Type 0) (R : B → W → Type 0) (r : Outcome Fatal A × W)
    (f : A → Exec W Fatal B)
    → Good Q r
    → ((a : A) (w : W) → Q a w → Good R (f a w))
    → Good R (continue r.0 f r.1)
continue-Good Q R (ok a, w) f g h = h a w g.1
continue-Good Q R (err e, w) f g h = g
continue-Good Q R (panic, w) f g h = g

pub fatal_error-loses :
    {A : Type 0} (r : Outcome GoError A) → misses r ≡ false → loses (fatal_error r) ≡ false
fatal_error-loses (ok a) h = refl
fatal_error-loses (err e) h = h
fatal_error-loses panic h = refl

pub new_engine-misses :
    (S : Type 0) ⦃opening : Opening S⦄ (dir : Bytes) (slot : Slot)
    → misses (new_persistent_engine_with_options {S = S} dir none slot).0 ≡ false
unfolding new_persistent_engine_with_options
new_engine-misses S dir slot = ground arith

module _ {S : Type 0} ⦃lsm : Lsm S⦄ where
  pub set_bulk_import-misses :
      (b : Bool) (s : S) (m : Option Message)
      → misses (set_bulk_import b (engine false (some s) m)).0 ≡ false
  unfolding set_bulk_import
  set_bulk_import-misses b s m = ground arith

  pub batch_put_bytes-misses :
      (xs : List (Bytes × Bytes)) (s : S) (m : Option Message)
      → misses (batch_put_bytes xs (engine false (some s) m)).0 ≡ false
  unfolding batch_put_bytes
  batch_put_bytes-misses [] s m = refl
  batch_put_bytes-misses (x ∷ xs) s m = ground arith

pub held_members :
    (before : Bytes → Bool) (whole xs : List Bytes)
    → Clean xs
    → ((k : Bytes) → contains xs k ≡ true → contains whole k ≡ true)
    → All (λ k. (has_nul k ≡ false) × ((contains whole k || before k) ≡ true)) xs
held_members before whole [] c sub = tt
held_members before whole (x ∷ xs) c sub =
    let here = sub x (ground (arith, ==_self x)) in
    ((c.0, ground (arith, here)), held_members before whole xs c.1 λ k h. sub k (ground (arith, h)))

module _ {D F : Type 0} (files : TaxFiles D F) where
  pub write_report-loses :
      (out : Bytes) (report : TaxReport F) (w : World D)
      → loses (write_report files out report w).0 ≡ false
  unfolding write_report
  write_report-loses [] report w = refl
  write_report-loses (c ∷ out) report w = ground arith

module _ {D S : Type 0} (on : Disk D S) ⦃lsm : Lsm S⦄ where
  pub deferred_close-loses :
      {A : Type 0} (dir : Bytes) (r : Outcome Fatal A × (F4kvs S × World D))
      → loses (deferred_close on dir r).0 ≡ loses r.0
  deferred_close-loses dir (ok a, (e, w)) = refl
  deferred_close-loses dir (err x, (e, w)) = refl
  deferred_close-loses dir (panic, (e, w)) = refl

  pub open_engine-loses : (dir : Bytes) (w : World D) → loses (open_engine on dir none w).0 ≡ false
  unfolding open_engine
  open_engine-loses dir w =
      fatal_error-loses _ (new_engine-misses S ⦃opening = on.opening w.disk⦄ dir w.slot)
