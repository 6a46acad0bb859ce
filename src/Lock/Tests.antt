-- ===== src/Lock/Tests.antt =====
-- A run of two goroutines: one is in an operation when the other asks for `Close`.
use f4kvs_ffi.Prelude.{ℕ, true, false, not, ◌≡◌, refl, arith}
use f4kvs_ffi.Lock.{
  r_waiting, w_waiting, announced, call, call_close, announce, calling, closing, writes, System, at,
  idle, entered, clearing, unlocking, shutting, freeing, r_lock, pass, lock, engine_close,
  close_returned, engine_free, clear, unlock, init, Reach, start, later,
}
use f4kvs_ffi.Lock.Safety.{touches-live, freed-handle}

abbrev in_flight : System
in_flight = at (at (at init 0 r_waiting) 0 entered) 0 calling

in_flight-Reach : Reach in_flight
unfolding native.Mathlib.Decide.ℕ_discrete
in_flight-Reach =
    later (later (later start (call 0 refl)) (r_lock 0 refl (λ j. ground arith))) (pass 0 refl refl)

abbrev in_free : System
in_free = at (at (at (at (at init 1 w_waiting) 1 announced) 1 closing) 1 shutting) 1 freeing

in_free-Reach : Reach in_free
unfolding native.Mathlib.Decide.ℕ_discrete
in_free-Reach =
    let asked = later (later start (call_close 1 refl)) (announce 1 refl (λ j. ground arith)) in
    later (later (later asked (lock 1 refl (λ j. ground arith))) (engine_close 1 refl refl))
      (close_returned 1 refl)

abbrev after_close : System
after_close = record (at (at (at in_free 1 clearing) 1 unlocking) 1 idle) {
  shared = record { handle = false; closed = true; freed = true };
}

after_close-Reach : Reach after_close
unfolding native.Mathlib.Decide.ℕ_discrete
after_close-Reach =
    later (later (later in_free-Reach (engine_free 1 refl)) (clear 1 refl)) (unlock 1 refl)

all_out : (j : ℕ) → writes (after_close.pc j) ≡ false
all_out j = ground arith

touches-live_example : (in_flight.freed ≡ false) × (in_flight.handle ≡ true)
unfolding native.Mathlib.Decide.ℕ_discrete
touches-live_example = touches-live in_flight-Reach 0 refl

freed-handle_example :
    (after_close.freed ≡ not after_close.handle) × (after_close.closed ≡ not after_close.handle)
freed-handle_example = freed-handle after_close-Reach all_out

-- A `Close` waits for the operation in flight, and a reader that came later for the `Close`.
abbrev both_wait : System
both_wait = at (at (at in_flight 1 w_waiting) 1 announced) 2 r_waiting

both_wait-Reach : Reach both_wait
unfolding native.Mathlib.Decide.ℕ_discrete
both_wait-Reach =
    later (later (later in_flight-Reach (call_close 1 refl)) (announce 1 refl (λ j. ground arith)))
      (call 2 refl)
