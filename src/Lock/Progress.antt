-- ===== src/Lock/Progress.antt =====
-- That the RWMutex of `F4KVS` makes no goroutine wait in vain.
use f4kvs_ffi.Prelude.{ℕ, ◌<◌, Bool, true, false, ◌≡◌, ◌≢◌, ◌⊎◌}
use f4kvs_ffi.Lock.{
  Pc, idle, r_waiting, entered, calling, w_waiting, announced, closing, shutting, freeing, clearing,
  unlocking, System, Step,
}

-- The steps that a call has at most before it is over.
abbrev pub rank : Pc → ℕ
rank idle = 0
rank r_waiting = 3
rank entered = 2
rank calling = 1
rank w_waiting = 7
rank announced = 6
rank closing = 5
rank shutting = 4
rank freeing = 3
rank clearing = 2
rank unlocking = 1

-- A goroutine can take a step of the method it is in, which brings it nearer to its return; the
-- others stand where they stood.
pub record Moves (s : System) (i : ℕ) : Type 0 where
  pub next : System
  pub step : Step s next
  pub nearer : rank (next.pc i) < rank (s.pc i)
  pub others : (j : ℕ) → j ≢ i → next.pc j ≡ s.pc j

-- The goroutine has the lock and is not in a call of C: it waits for nobody.
abbrev runs : Pc → Bool
runs entered = true
runs closing = true
runs clearing = true
runs unlocking = true
runs _ = false

-- One of the goroutines of a kind, or that there is none.
abbrev Found : (Pc → Bool) → System → Type 0
Found kind s = ((j : ℕ) × (kind (s.pc j) ≡ true)) ⊎ ((j : ℕ) → kind (s.pc j) ≡ false)
