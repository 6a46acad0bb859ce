-- ===== src/Lock.antt =====
-- The RWMutex of `F4KVS` in go/f4kvs.go: any number of goroutines call operations and `Close`,
-- interleaved in any order. No method takes the lock while it has it: those that call others
-- (`Get`, `Put`, `GetAllKeys` and the loops of batches) do so outside the lock.
pub mod Invariant
pub mod Safety
pub mod Progress
mod Tests
use mathlib.Core.Logic.{ite}
use native.Mathlib.Decide.{ℕ_discrete}
use f4kvs_ffi.Prelude.{ℕ, Bool, true, false, not, ◌||◌, ◌≡◌}

-- What the goroutines share: whether `e.handle` is not nil, `e.closed`, and whether the C engine
-- that the handle pointed to has been freed.
pub record Shared : Type 0 where
  pub handle : Bool
  pub closed : Bool
  pub freed : Bool

-- Where a goroutine stands.
pub data Pc : Type 0 where
  -- outside every method
  idle : Pc
  -- in `rLockLive`, waiting for the read lock
  r_waiting : Pc
  -- in `Close`, in `Lock` of the RWMutex: behind another writer, and as the one writer that new
  -- readers wait for and that itself waits for the readers inside
  w_waiting announced : Pc
  -- in `rLockLive`, with the read lock
  entered : Pc
  -- in an operation that passed `rLockLive`: it calls C with the handle
  calling : Pc
  -- in `Close`, with the write lock, before the test of the handle
  closing : Pc
  -- in `f4kvs_engine_close`, about to call `f4kvs_engine_free`, about to set the fields, and about
  -- to unlock
  shutting freeing clearing unlocking : Pc

abbrev pub reads : Pc → Bool
reads entered = true
reads calling = true
reads _ = false

abbrev pub writes : Pc → Bool
writes closing = true
writes shutting = true
writes freeing = true
writes clearing = true
writes unlocking = true
writes _ = false

-- The goroutine is the writer that new readers wait for: it has the lock, or is to have it next.
abbrev pub blocks : Pc → Bool
blocks announced = true
blocks p = writes p

abbrev pub holds : Pc → Bool
holds p = reads p || writes p

-- The goroutine hands the handle to C.
abbrev pub touches : Pc → Bool
touches calling = true
touches shutting = true
touches freeing = true
touches _ = false

pub record System : Type 0 where
  pub shared : Shared
  pub open shared use *
  pub pc : ℕ → Pc

abbrev pub update : (ℕ → Pc) → ℕ → Pc → ℕ → Pc
update f i p j = ite (ℕ_discrete i j) p (f j)

abbrev pub at : System → ℕ → Pc → System
at s i p = record s { pc = update s.pc i p }

-- One atomic action of goroutine `i`. A read lock is given while no writer has the lock or has
-- announced itself, one writer at a time announces itself, and it has the lock when the readers are
-- out. A call of the C engine may take any time: the steps out of `calling`, `shutting` and `freeing`
-- are its returns.
pub data Step (s : System) : System → Type 0 where
  call : (i : ℕ) → s.pc i ≡ idle → Step s (at s i r_waiting)
  r_lock :
      (i : ℕ) → s.pc i ≡ r_waiting → ((j : ℕ) → blocks (s.pc j) ≡ false) → Step s (at s i entered)
  refuse : (i : ℕ) → s.pc i ≡ entered → (s.closed || not s.handle) ≡ true → Step s (at s i idle)
  pass : (i : ℕ) → s.pc i ≡ entered → (s.closed || not s.handle) ≡ false → Step s (at s i calling)
  r_unlock : (i : ℕ) → s.pc i ≡ calling → Step s (at s i idle)
  call_close : (i : ℕ) → s.pc i ≡ idle → Step s (at s i w_waiting)
  announce :
      (i : ℕ) → s.pc i ≡ w_waiting → ((j : ℕ) → blocks (s.pc j) ≡ false) → Step s (at s i announced)
  lock : (i : ℕ) → s.pc i ≡ announced → ((j : ℕ) → reads (s.pc j) ≡ false) → Step s (at s i closing)
  already_closed : (i : ℕ) → s.pc i ≡ closing → s.handle ≡ false → Step s (at s i unlocking)
  engine_close : (i : ℕ) → s.pc i ≡ closing → s.handle ≡ true → Step s (at s i shutting)
  close_returned : (i : ℕ) → s.pc i ≡ shutting → Step s (at s i freeing)
  engine_free :
      (i : ℕ)
      → s.pc i ≡ freeing
      → Step s (record (at s i clearing) { shared = record s.shared { freed = true } })
  clear :
      (i : ℕ)
      → s.pc i ≡ clearing
      → Step s
          (record (at s i unlocking) { shared = record s.shared { handle = false; closed = true } })
  unlock : (i : ℕ) → s.pc i ≡ unlocking → Step s (at s i idle)

-- An engine that was just opened, before any call.
abbrev pub init : System
init = record { shared = record { handle = true; closed = false; freed = false }; pc = λ _. idle }

pub data Reach : System → Type 0 where
  start : Reach init
  later : {s t : System} → Reach s → Step s t → Reach t
