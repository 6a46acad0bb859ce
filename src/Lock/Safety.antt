-- ===== src/Lock/Safety.antt =====
-- What the RWMutex of `F4KVS` gives every interleaving of calls: the C engine is not used after it
-- is freed, and is freed once.
use f4kvs_ffi.Prelude.{ℕ, true, false, ◌≡◌, ◌≢◌, refl, not, inl, inr, Bool-cases, arith}
use f4kvs_ffi.Lock.{
  writes, holds, touches, System, Step, call, call_close, announce, r_lock, refuse, pass, r_unlock,
  lock, already_closed, engine_close, close_returned, engine_free, clear, unlock, Reach,
}
use f4kvs_ffi.Lock.Invariant.{Reach-Inv}

-- Whenever a goroutine hands the handle to C, the engine is not freed and the handle is not nil.
pub touches-live :
    {s : System}
    → Reach s
    → (i : ℕ) → touches (s.pc i) ≡ true
    → (s.freed ≡ false) × (s.handle ≡ true)
touches-live r = (Reach-Inv r).live

-- While one goroutine is in `Close` with the lock, no other goroutine is in an operation or in
-- `Close`: `Close` waits for the operations in flight, and they wait for it.
pub close-alone :
    {s : System} → Reach s → (i j : ℕ) → writes (s.pc i) ≡ true → j ≢ i → holds (s.pc j) ≡ false
close-alone r i j w ne = ground (arith, (Reach-Inv r).alone i j w)

-- Once a `Close` has set `closed`, it stays set and the handle stays nil, whatever is called.
pub closed-stays :
    {s t : System} → Reach s → Step s t → s.closed ≡ true → (t.closed ≡ true) × (t.handle ≡ false)
closed-stays r (call k e) c = (c, ground (arith, (Reach-Inv r).shut))
closed-stays r (r_lock k e free) c = (c, ground (arith, (Reach-Inv r).shut))
closed-stays r (refuse k e g) c = (c, ground (arith, (Reach-Inv r).shut))
closed-stays r (pass k e g) c = (c, ground (arith, (Reach-Inv r).shut))
closed-stays r (r_unlock k e) c = (c, ground (arith, (Reach-Inv r).shut))
closed-stays r (call_close k e) c = (c, ground (arith, (Reach-Inv r).shut))
closed-stays r (announce k e free) c = (c, ground (arith, (Reach-Inv r).shut))
closed-stays r (lock k e free) c = (c, ground (arith, (Reach-Inv r).shut))
closed-stays r (already_closed k e g) c = (c, ground (arith, (Reach-Inv r).shut))
closed-stays r (engine_close k e g) c = (c, ground (arith, (Reach-Inv r).shut))
closed-stays r (close_returned k e) c = (c, ground (arith, (Reach-Inv r).shut))
closed-stays r (engine_free k e) c = (c, ground (arith, (Reach-Inv r).shut))
closed-stays r (clear k e) c = (refl, refl)
closed-stays r (unlock k e) c = (c, ground (arith, (Reach-Inv r).shut))

-- When nobody is in `Close`, the engine is freed exactly if the handle is nil, and `closed` says
-- the same: nothing leaks, and no handle dangles.
pub freed-handle :
    {s : System}
    → Reach s
    → ((i : ℕ) → writes (s.pc i) ≡ false)
    → (s.freed ≡ not s.handle) × (s.closed ≡ not s.handle)
freed-handle {s = s} r quiet = (
  elim (Bool-cases s.handle) [
    | inl h ↦ elim (Bool-cases s.freed) [
      | inl f ↦ let (i, c) = (Reach-Inv r).dangling f h in ground (arith, quiet i)
      | inr f ↦ cc
    ]
    | inr h ↦ ground (arith, (Reach-Inv r).gone h)
  ],
  (Reach-Inv r).shut,
)
