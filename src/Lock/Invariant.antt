-- ===== src/Lock/Invariant.antt =====
-- What every interleaving keeps: the write lock excludes all others, and the handle is freed only
-- by the goroutine that then clears it.
use f4kvs_ffi.Prelude.{ℕ, true, false, not, ◌≡◌, inl, inr, Bool-cases, refl, arith}
use f4kvs_ffi.Lock.{
  closing, clearing, reads, blocks, writes, holds, touches, System, Step, call, call_close,
  announce, r_lock, refuse, pass, r_unlock, lock, already_closed, engine_close, close_returned,
  engine_free, clear, unlock, init, Reach, start, later,
}

pub record Inv (s : System) : Type 0 where
  pub alone : (i j : ℕ) → writes (s.pc i) ≡ true → holds (s.pc j) ≡ true → i ≡ j
  pub single : (i j : ℕ) → blocks (s.pc i) ≡ true → blocks (s.pc j) ≡ true → i ≡ j
  pub live : (i : ℕ) → touches (s.pc i) ≡ true → (s.freed ≡ false) × (s.handle ≡ true)
  pub dangling : s.freed ≡ true → s.handle ≡ true → (i : ℕ) × (s.pc i ≡ clearing)
  pub cleared : (i : ℕ) → s.pc i ≡ clearing → s.freed ≡ true
  pub gone : s.handle ≡ false → s.freed ≡ true
  pub shut : s.closed ≡ not s.handle

Inv-init : Inv init
Inv-init = record {
  alone = λ i j p q. cc;
  single = λ i j p q. cc;
  live = λ i p. cc;
  dangling = λ p q. cc;
  cleared = λ i p. cc;
  gone = λ p. cc;
  shut = refl;
}

module _ {s : System} (inv : Inv s) where
  Step-alone :
      {t : System} → Step s t → (i j : ℕ) → writes (t.pc i) ≡ true → holds (t.pc j) ≡ true → i ≡ j
  Step-alone (call k e) i j p q = ground (arith, inv.alone i j)
  Step-alone (r_lock k e free) i j p q = ground (arith, inv.alone i j, free i)
  Step-alone (refuse k e g) i j p q = ground (arith, inv.alone i j)
  Step-alone (pass k e g) i j p q = ground (arith, inv.alone i j, inv.alone i k)
  Step-alone (r_unlock k e) i j p q = ground (arith, inv.alone i j)
  Step-alone (call_close k e) i j p q = ground (arith, inv.alone i j)
  Step-alone (announce k e free) i j p q = ground (arith, inv.alone i j, free i, free j)
  Step-alone (lock k e free) i j p q =
      ground (arith, inv.alone i j, inv.single k i, inv.single k j, inv.single i k, free i, free j)
  Step-alone (already_closed k e g) i j p q =
      ground (arith, inv.alone i j, inv.alone k j, inv.alone i k)
  Step-alone (engine_close k e g) i j p q =
      ground (arith, inv.alone i j, inv.alone k j, inv.alone i k)
  Step-alone (close_returned k e) i j p q =
      ground (arith, inv.alone i j, inv.alone k j, inv.alone i k)
  Step-alone (engine_free k e) i j p q = ground (arith, inv.alone i j, inv.alone k j, inv.alone i k)
  Step-alone (clear k e) i j p q = ground (arith, inv.alone i j, inv.alone k j, inv.alone i k)
  Step-alone (unlock k e) i j p q = ground (arith, inv.alone i j)

  Step-single :
      {t : System} → Step s t → (i j : ℕ) → blocks (t.pc i) ≡ true → blocks (t.pc j) ≡ true → i ≡ j
  Step-single (call k e) i j p q = ground (arith, inv.single i j)
  Step-single (r_lock k e free) i j p q = ground (arith, inv.single i j)
  Step-single (refuse k e g) i j p q = ground (arith, inv.single i j)
  Step-single (pass k e g) i j p q = ground (arith, inv.single i j)
  Step-single (r_unlock k e) i j p q = ground (arith, inv.single i j)
  Step-single (call_close k e) i j p q = ground (arith, inv.single i j)
  Step-single (announce k e free) i j p q = ground (arith, inv.single i j, free i, free j)
  Step-single (lock k e free) i j p q =
      ground (arith, inv.single i j, inv.single k j, inv.single i k)
  Step-single (already_closed k e g) i j p q =
      ground (arith, inv.single i j, inv.single k j, inv.single i k)
  Step-single (engine_close k e g) i j p q =
      ground (arith, inv.single i j, inv.single k j, inv.single i k)
  Step-single (close_returned k e) i j p q =
      ground (arith, inv.single i j, inv.single k j, inv.single i k)
  Step-single (engine_free k e) i j p q =
      ground (arith, inv.single i j, inv.single k j, inv.single i k)
  Step-single (clear k e) i j p q = ground (arith, inv.single i j, inv.single k j, inv.single i k)
  Step-single (unlock k e) i j p q = ground (arith, inv.single i j)

  -- A reader meets no engine that is freed and not yet cleared.
  reader-live : (k : ℕ) → reads (s.pc k) ≡ true → s.handle ≡ true → s.freed ≡ false
  reader-live k r h = elim (Bool-cases s.freed) [
    | inl freed ↦ let (i, c) = inv.dangling freed h in ground (arith, inv.alone i k)
    | inr not_freed ↦ not_freed
  ]

  -- Nor does the goroutine in `Close` before its test of the handle.
  closing-live : (k : ℕ) → s.pc k ≡ closing → s.handle ≡ true → s.freed ≡ false
  closing-live k c h = elim (Bool-cases s.freed) [
    | inl freed ↦ let (i, e) = inv.dangling freed h in ground (arith, inv.alone i k)
    | inr not_freed ↦ not_freed
  ]

  Step-live :
      {t : System}
      → Step s t
      → (i : ℕ) → touches (t.pc i) ≡ true
      → (t.freed ≡ false) × (t.handle ≡ true)
  Step-live (call k e) i p = ground (arith, inv.live i)
  Step-live (r_lock k e free) i p = ground (arith, inv.live i)
  Step-live (refuse k e g) i p = ground (arith, inv.live i)
  Step-live (pass k e g) i p = ground (arith, inv.live i, reader-live k)
  Step-live (r_unlock k e) i p = ground (arith, inv.live i)
  Step-live (call_close k e) i p = ground (arith, inv.live i)
  Step-live (announce k e free) i p = ground (arith, inv.live i)
  Step-live (lock k e free) i p = ground (arith, inv.live i)
  Step-live (already_closed k e g) i p = ground (arith, inv.live i)
  Step-live (engine_close k e g) i p = ground (arith, inv.live i, closing-live k)
  Step-live (close_returned k e) i p = ground (arith, inv.live i, inv.live k)
  Step-live (engine_free k e) i p = ground (arith, inv.alone k i)
  Step-live (clear k e) i p = ground (arith, inv.alone k i)
  Step-live (unlock k e) i p = ground (arith, inv.live i)

  Step-dangling :
      {t : System} → Step s t → t.freed ≡ true → t.handle ≡ true → (i : ℕ) × (t.pc i ≡ clearing)
  Step-dangling (call k e) f h = let (i, c) = inv.dangling f h in (i, ground arith)
  Step-dangling (r_lock k e free) f h = let (i, c) = inv.dangling f h in (i, ground arith)
  Step-dangling (refuse k e g) f h = let (i, c) = inv.dangling f h in (i, ground arith)
  Step-dangling (pass k e g) f h = let (i, c) = inv.dangling f h in (i, ground arith)
  Step-dangling (r_unlock k e) f h = let (i, c) = inv.dangling f h in (i, ground arith)
  Step-dangling (call_close k e) f h = let (i, c) = inv.dangling f h in (i, ground arith)
  Step-dangling (announce k e free) f h = let (i, c) = inv.dangling f h in (i, ground arith)
  Step-dangling (lock k e free) f h = let (i, c) = inv.dangling f h in (i, ground arith)
  Step-dangling (already_closed k e g) f h = let (i, c) = inv.dangling f h in (i, ground arith)
  Step-dangling (engine_close k e g) f h = let (i, c) = inv.dangling f h in (i, ground arith)
  Step-dangling (close_returned k e) f h = let (i, c) = inv.dangling f h in (i, ground arith)
  Step-dangling (engine_free k e) f h = (k, ground arith)
  Step-dangling (clear k e) f h = cc
  Step-dangling (unlock k e) f h = let (i, c) = inv.dangling f h in (i, ground arith)

  Step-cleared : {t : System} → Step s t → (i : ℕ) → t.pc i ≡ clearing → t.freed ≡ true
  Step-cleared (call k e) i p = ground (arith, inv.cleared i)
  Step-cleared (r_lock k e free) i p = ground (arith, inv.cleared i)
  Step-cleared (refuse k e g) i p = ground (arith, inv.cleared i)
  Step-cleared (pass k e g) i p = ground (arith, inv.cleared i)
  Step-cleared (r_unlock k e) i p = ground (arith, inv.cleared i)
  Step-cleared (call_close k e) i p = ground (arith, inv.cleared i)
  Step-cleared (announce k e free) i p = ground (arith, inv.cleared i)
  Step-cleared (lock k e free) i p = ground (arith, inv.cleared i)
  Step-cleared (already_closed k e g) i p = ground (arith, inv.cleared i)
  Step-cleared (engine_close k e g) i p = ground (arith, inv.cleared i)
  Step-cleared (close_returned k e) i p = ground (arith, inv.cleared i)
  Step-cleared (engine_free k e) i p = refl
  Step-cleared (clear k e) i p = ground (arith, inv.cleared i)
  Step-cleared (unlock k e) i p = ground (arith, inv.cleared i)

  Step-gone : {t : System} → Step s t → t.handle ≡ false → t.freed ≡ true
  Step-gone (call k e) h = inv.gone h
  Step-gone (r_lock k e free) h = inv.gone h
  Step-gone (refuse k e g) h = inv.gone h
  Step-gone (pass k e g) h = inv.gone h
  Step-gone (r_unlock k e) h = inv.gone h
  Step-gone (call_close k e) h = inv.gone h
  Step-gone (announce k e free) h = inv.gone h
  Step-gone (lock k e free) h = inv.gone h
  Step-gone (already_closed k e g) h = inv.gone h
  Step-gone (engine_close k e g) h = inv.gone h
  Step-gone (close_returned k e) h = inv.gone h
  Step-gone (engine_free k e) h = refl
  Step-gone (clear k e) h = inv.cleared k e
  Step-gone (unlock k e) h = inv.gone h

  Step-shut : {t : System} → Step s t → t.closed ≡ not t.handle
  Step-shut (call k e) = inv.shut
  Step-shut (r_lock k e free) = inv.shut
  Step-shut (refuse k e g) = inv.shut
  Step-shut (pass k e g) = inv.shut
  Step-shut (r_unlock k e) = inv.shut
  Step-shut (call_close k e) = inv.shut
  Step-shut (announce k e free) = inv.shut
  Step-shut (lock k e free) = inv.shut
  Step-shut (already_closed k e g) = inv.shut
  Step-shut (engine_close k e g) = inv.shut
  Step-shut (close_returned k e) = inv.shut
  Step-shut (engine_free k e) = inv.shut
  Step-shut (clear k e) = refl
  Step-shut (unlock k e) = inv.shut

  pub Step-Inv : {t : System} → Step s t → Inv t
  Step-Inv step = record {
    alone = Step-alone step;
    single = Step-single step;
    live = Step-live step;
    dangling = Step-dangling step;
    cleared = Step-cleared step;
    gone = Step-gone step;
    shut = Step-shut step;
  }

pub Reach-Inv : {s : System} → Reach s → Inv s
Reach-Inv start = Inv-init
Reach-Inv (later r step) = Step-Inv (Reach-Inv r) step
