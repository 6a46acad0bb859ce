-- ===== src/Prelude/After.antt =====
-- What holds after a call that succeeds; a call that fails promises nothing.
use mathlib.Core.Path.{◌≡◌, refl, ap, subst}
use native.Mathlib.Omega.{arith}
use f4kvs_ffi.Prelude.Exec.{Exec, Outcome, ok, err, panic, continue}

abbrev pub After : {S E A : Type 0} → (A → S → Type 0) → Outcome E A × S → Type 0
After Q (ok a, s) = Q a s
After Q (err e, s) = Unit
After Q (panic, s) = Unit

-- One call and then another.
pub continue-After :
    {S E A B : Type 0} (Q : A → S → Type 0) (R : B → S → Type 0) (r : Outcome E A × S)
    (f : A → Exec S E B)
    → After Q r
    → ((a : A) (s : S) → Q a s → After R (f a s))
    → After R (continue r.0 f r.1)
continue-After Q R (ok a, s) f q h = h a s q
continue-After Q R (err e, s) f q h = tt
continue-After Q R (panic, s) f q h = tt

pub After-weaken :
    {S E A : Type 0} (Q R : A → S → Type 0) (r : Outcome E A × S)
    → After Q r
    → ((a : A) (s : S) → Q a s → R a s)
    → After R r
After-weaken Q R (ok a, s) q h = h a s q
After-weaken Q R (err e, s) q h = tt
After-weaken Q R (panic, s) q h = tt

abbrev value_or : {E A : Type 0} → A → Outcome E A → A
value_or d (ok a) = a
value_or d (err e) = d
value_or d panic = d

-- A call that is known to succeed.
pub After_ok :
    {S E A : Type 0} (Q : A → S → Type 0) (r : Outcome E A × S) (a : A)
    → After Q r
    → r.0 ≡ ok a
    → Q a r.1
After_ok Q (ok b, s) a q h = subst (λ x. Q x s) (ap (value_or b) h) q
After_ok Q (err e, s) a q h = cc
After_ok Q (panic, s) a q h = cc

-- What is shown of the result that succeeds.
pub After-intro :
    {S E A : Type 0} (Q : A → S → Type 0) (r : Outcome E A × S)
    → ((a : A) → r.0 ≡ ok a → Q a r.1)
    → After Q r
After-intro Q (ok a, s) h = h a refl
After-intro Q (err e, s) h = tt
After-intro Q (panic, s) h = tt

-- What holds of the state in any case holds after a success too.
pub After-and :
    {S E A : Type 0} (Q : A → S → Type 0) (K : S → Type 0) (r : Outcome E A × S)
    → After Q r
    → K r.1
    → After (λ a s. Q a s × K s) r
After-and Q K (ok a, s) q k = (q, k)
After-and Q K (err e, s) q k = tt
After-and Q K (panic, s) q k = tt

-- Two calls in a row succeed if both do, the second on what the first left.
pub continue-ok :
    {S E A B : Type 0} (r : Outcome E A × S) (f : A → Exec S E B) (b : B)
    → (continue r.0 f r.1).0 ≡ ok b
    → (a : A) × (r.0 ≡ ok a) × ((f a r.1).0 ≡ ok b)
continue-ok (ok a, s) f b h = (a, refl, h)
continue-ok (err e, s) f b h = absurd (ground (arith, h))
continue-ok (panic, s) f b h = absurd (ground (arith, h))
