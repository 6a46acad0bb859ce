-- ===== src/Bench/Rows.antt =====
-- Parts of bench/embed_vs_sqlite/main.go all of whose rows are of one profile.
pub mod Emitted
pub mod Stored
use f4kvs_ffi.Prelude.{
  String, Bool, true, false, List, [], ◌++◌, ◌≡◌, refl, All, All-append_intro, if◌then◌else◌,
}
use f4kvs_ffi.Prelude.Exec.{Exec, Outcome, ok, err, panic, continue, pure, ◌>>=◌, ◌>>◌}
use f4kvs_ffi.Prelude.After.{After, After-intro, continue-After}
use f4kvs_ffi.Bench.Phase.{Float, PhaseResult, result}
use f4kvs_ffi.Bench.Run.{
  Disk, World, Program, WithEngine, beside, Fatal, open_engine, deferred_close, with_engine,
}
use f4kvs_ffi.Engine.{F4kvs}
use f4kvs_ffi.Engine.Options.{OpenOptions}
use f4kvs_ffi.Ffi.Lsm.{Lsm}
use f4kvs_ffi.Prelude.{Bytes, Option, ℕ}
use f4kvs_ffi.Bench.Sqlite.{Dsn, Sql, WithDb, beside_db, with_db, open_db, deferred_close_db}
use f4kvs_ffi.Bench.Phases.{timed_row, and_rows, no_rows}

abbrev pub OfProfile : {F : Type 0} → String → PhaseResult F → Type 0
OfProfile profile r = r.profile ≡ profile

-- The rows that a part of the program gives, if it gives any, have a property.
pub record Emits {W E F : Type 0} (P : PhaseResult F → Type 0) (m : Exec W E (List (PhaseResult F)))
    : Type 0 where
  pub emits : (w : W) → After (λ rows w'. All P rows) (m w)

module _ {F : Type 0} {P : PhaseResult F → Type 0} where
  pub no_rows-Emits : {W E : Type 0} → Emits P (no_rows {W = W} {E = E})
  no_rows-Emits = record { emits = λ w. tt }

  -- What runs before the rows are made does not matter.
  pub then-Emits :
      {W E A : Type 0} (m : Exec W E A) {n : A → Exec W E (List (PhaseResult F))}
      → ((a : A) → Emits P (n a))
      → Emits P (m >>= n)
  then-Emits m {n = n} h = record {
    emits = λ w.
        continue-After (λ _ _. Unit {0}) _ (m w) n (After-intro _ (m w) λ _ _. tt)
          λ a w' _. (h a).emits w';
  }

  pub after-Emits :
      {W E A : Type 0} (m : Exec W E A) {n : Exec W E (List (PhaseResult F))}
      → Emits P n
      → Emits P (m >> n)
  after-Emits m f = then-Emits m λ _. f

  pub and_rows-Emits :
      {W E : Type 0} {m n : Exec W E (List (PhaseResult F))}
      → Emits P m
      → Emits P n
      → Emits P (and_rows m n)
  and_rows-Emits {m = m} {n = n} f g = record {
    emits = λ w.
        continue-After (λ rows w'. All P rows) _ (m w) _ (f.emits w)
          λ rows w' h.
            continue-After (λ others w''. All P others) _ (n w') _ (g.emits w')
              λ others w'' h'. All-append_intro P rows others h h';
  }

  pub if-Emits :
      {W E : Type 0} (b : Bool) {m n : Exec W E (List (PhaseResult F))}
      → Emits P m
      → Emits P n
      → Emits P (if b then m else n)
  if-Emits true f g = f
  if-Emits false f g = g

-- The rows that come with an outcome do not depend on the state beside it.
all_rows :
    {E A S T : Type 0} (Q : A → Type 0) (r : Outcome E A × S) (t : T)
    → After (λ a s. Q a) r
    → After (λ a t. Q a) (r.0, t)
all_rows Q (ok a, s) t h = h
all_rows Q (err e, s) t h = tt
all_rows Q (panic, s) t h = tt

module _ {D S F : Type 0} {P : PhaseResult F → Type 0} where
  pub beside-Emits :
      {m : Program D (List (PhaseResult F))} → Emits P m → Emits P (beside {D = D} {S = S} m)
  beside-Emits {m = m} f = record {
    emits = λ s.
        let r = m (record s.1 { slot = s.0.last_error }) in
        all_rows (All P) r _ (f.emits (record s.1 { slot = s.0.last_error }));
  }

  pub beside_db-Emits :
      {m : Program D (List (PhaseResult F))} → Emits P m → Emits P (beside_db {D = D} {Db = S} m)
  beside_db-Emits {m = m} f = record { emits = λ s. all_rows (All P) (m s.1) _ (f.emits s.1) }

module _ {D S F : Type 0} (on : Disk D S) ⦃lsm : Lsm S⦄ where
  closed_rows :
      (P : PhaseResult F → Type 0) (dir : Bytes)
      (r : Outcome Fatal (List (PhaseResult F)) × (F4kvs S × World D))
      → After (λ rows s. All P rows) r
      → After (λ rows w. All P rows) (deferred_close on dir r)
  closed_rows P dir (ok rows, (e, w)) h = h
  closed_rows P dir (err x, (e, w)) h = tt
  closed_rows P dir (panic, (e, w)) h = tt

  pub with_engine-Emits :
      {P : PhaseResult F → Type 0} (dir : Bytes) (opts : Option OpenOptions)
      {m : WithEngine D S (List (PhaseResult F))}
      → Emits P m
      → Emits P (with_engine on dir opts m)
  with_engine-Emits {P = P} dir opts {m = m} f =
      then-Emits (open_engine on dir opts)
        λ e. record { emits = λ w. closed_rows P dir (m (e, w)) (f.emits (e, w)) }

module _ {D Db F : Type 0} (sql : Sql D Db) where
  closed_db_rows :
      (P : PhaseResult F → Type 0) (dsn : Dsn)
      (r : Outcome Fatal (List (PhaseResult F)) × (Db × World D))
      → After (λ rows s. All P rows) r
      → After (λ rows w. All P rows) (deferred_close_db sql dsn r)
  closed_db_rows P dsn (ok rows, (db, w)) h = h
  closed_db_rows P dsn (err x, (db, w)) h = tt
  closed_db_rows P dsn (panic, (db, w)) h = tt

  pub with_db-Emits :
      {P : PhaseResult F → Type 0} (dsn : Dsn) {m : WithDb D Db (List (PhaseResult F))}
      → Emits P m
      → Emits P (with_db sql dsn m)
  with_db-Emits {P = P} dsn {m = m} f =
      then-Emits (open_db sql dsn)
        λ db. record { emits = λ w. closed_db_rows P dsn (m (db, w)) (f.emits (db, w)) }

pub timed_row-Emits :
    {D F : Type 0} ⦃float : Float F⦄ (phase profile : String) (ops : ℕ) (durability extra : String)
    → Emits (OfProfile {F = F} profile) (timed_row {D = D} phase profile ops durability extra)
unfolding result
timed_row-Emits phase profile ops durability extra = record { emits = λ w. (refl, tt) }
