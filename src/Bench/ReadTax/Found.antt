-- ===== src/Bench/ReadTax/Found.antt =====
-- That bench/ffi_read_tax/main.go finds what it has loaded.
use mathlib.Core.Path.{subst}
use f4kvs_ffi.Prelude.{
  ℕ, zero, suc, ◌%◌, Bytes, Bool, true, false, Option, none, some, List, [], ◌∷◌, ◌⊎◌, ◌≡◌, refl,
  sym, ap, ◌∙◌, All, bytes_eq, length, arith, Option-cases, inl, inr,
}
use f4kvs_ffi.Prelude.Exec.{Exec, Outcome, ok, err, panic, continue, ◌>>=◌}
use f4kvs_ffi.Prelude.After.{After, After-intro}
use f4kvs_ffi.Ffi.Text.{has_nul, from_ptr-c_string}
use f4kvs_ffi.Ffi.Lsm.{Lsm, LsmLaws, is_some}
use f4kvs_ffi.Ffi.Calls.{Message, value_to_bytes}
use f4kvs_ffi.Engine.{F4kvs, GoError, err_not_found, go_bytes, get_bytes}
use f4kvs_ffi.Engine.Stored.{c_key, engine}
use f4kvs_ffi.Bench.Run.{get_elem?, key_at, random_gets}
use f4kvs_ffi.Bench.Restart.Held.{Holds}

-- An outcome is one of some errors.
abbrev pub fails_with : {E A : Type 0} → (E → Bool) → Outcome E A → Bool
fails_with bad (ok a) = false
fails_with bad (err e) = bad e
fails_with bad panic = false

abbrev pub is_not_found : GoError → Bool
is_not_found err_not_found = true
is_not_found _ = false

-- A call that fails for want of a key.
abbrev pub misses : {A : Type 0} → Outcome GoError A → Bool
misses r = fails_with is_not_found r

pub fails_with-continue :
    {W E A B : Type 0} (bad : E → Bool) (Q : A → W → Type 0) (r : Outcome E A × W)
    (f : A → Exec W E B)
    → fails_with bad r.0 ≡ false
    → After Q r
    → ((a : A) (w : W) → Q a w → fails_with bad (f a w).0 ≡ false)
    → fails_with bad (continue r.0 f r.1).0 ≡ false
fails_with-continue bad Q (ok a, w) f m q g = g a w q
fails_with-continue bad Q (err e, w) f m q g = m
fails_with-continue bad Q (panic, w) f m q g = refl

get_elem?-All :
    (P : Bytes → Type 0) (i : ℕ) (xs : List Bytes) (k : Bytes)
    → All P xs
    → get_elem? i xs ≡ some k
    → P k
get_elem?-All P i [] k c h = cc
get_elem?-All P zero (x ∷ xs) k c h = let same : x ≡ k = cc in subst P same c.0
get_elem?-All P (suc i) (x ∷ xs) k c h = get_elem?-All P i xs k c.1 h

go_bytes-found : {S : Type 0} (b : Bytes) (e : F4kvs S) → misses (go_bytes b e).0 ≡ false
unfolding go_bytes
go_bytes-found [] e = refl
go_bytes-found (x ∷ b) e = ground arith

module _ {S : Type 0} ⦃lsm : Lsm S⦄ (laws : LsmLaws S lsm) where
  get_bytes-found :
      (key : Bytes) (s : S) (m : Option Message)
      → is_some (laws.view s (c_key key)) ≡ true
      → misses (get_bytes key (engine false (some s) m)).0 ≡ false
  unfolding get_bytes
  get_bytes-found key s m h = elim (Option-cases (laws.view s (c_key key))) [
    | inl missing ↦ cc
    | inr (v, held) ↦ ground (
      arith,
      laws.get_value (c_key key) s,
      go_bytes-found (value_to_bytes v) (engine false (some (lsm.get (c_key key) s).1) m),
    )
  ]

  Holds-parts :
      (held : Bytes → Bool) (e : F4kvs S) (s : S)
      → e.closed ≡ false
      → e.handle ≡ some s
      → ((k : Bytes) → is_some (laws.view s k) ≡ held k)
      → Holds laws held e
  Holds-parts held e s c h v = (s, e.last_error, record_eq c h, v)
    where
      record_eq : e.closed ≡ false → e.handle ≡ some s → e ≡ engine false (some s) e.last_error
      record_eq c h = cc

  get_bytes_handle :
      (key : Bytes) (s : S) (m : Option Message)
      → ((get_bytes key (engine false (some s) m)).1.handle ≡ some s)
        ⊎ ((get_bytes key (engine false (some s) m)).1.handle ≡ some (lsm.get (c_key key) s).1)
  unfolding get_bytes go_bytes
  get_bytes_handle key s m = ground arith

  get_bytes-closed :
      (key : Bytes) (s : S) (m : Option Message)
      → (get_bytes key (engine false (some s) m)).1.closed ≡ false
  unfolding get_bytes go_bytes
  get_bytes-closed key s m = ground arith

  get_bytes-Holds :
      (held : Bytes → Bool) (key : Bytes) (e : F4kvs S)
      → Holds laws held e
      → Holds laws held (get_bytes key e).1
  get_bytes-Holds held key e (s, m, same, h) =
      subst (λ e. Holds laws held (get_bytes key e).1) (sym same)
        (let there = (get_bytes key (engine false (some s) m)).1 in
          let shut = get_bytes-closed key s m in
          elim (get_bytes_handle key s m) [
            | inl q ↦ Holds-parts held there s shut q h
            | inr q ↦
                Holds-parts held there (lsm.get (c_key key) s).1 shut q
                  λ k. ap is_some (laws.get_view (c_key key) k s) ∙ h k
          ])

  held_get :
      (held : Bytes → Bool) (key : Bytes) (e : F4kvs S)
      → has_nul key ≡ false
      → held key ≡ true
      → Holds laws held e
      → misses (get_bytes key e).0 ≡ false
  held_get held key e n there (s, m, same, h) =
      subst (λ e. misses (get_bytes key e).0 ≡ false) (sym same)
        (get_bytes-found key s m
          (ap (λ k. is_some (laws.view s k)) (from_ptr-c_string key n) ∙ h key ∙ there))

  -- A key that is there can be read, and reading keeps what is there.
  abbrev Fine : (Bytes → Bool) → F4kvs S → Option Bytes → Type 0
  Fine held e o =
      let r : Outcome GoError Bytes × F4kvs S = elim o [
        | none ↦ (panic, e)
        | some key ↦ (ok key, e)
      ] in
      (misses (continue r.0 get_bytes r.1).0 ≡ false)
      × Holds laws held (continue r.0 get_bytes r.1).1

  picked-Fine :
      (held : Bytes → Bool) (i : ℕ) (keys : List Bytes) (e : F4kvs S) (o : Option Bytes)
      → All (λ k. (has_nul k ≡ false) × (held k ≡ true)) keys
      → Holds laws held e
      → get_elem? i keys ≡ o
      → Fine held e o
  picked-Fine held i keys e none c h q = (refl, h)
  picked-Fine held i keys e (some key) c h q =
      let (n, there) = get_elem?-All (λ k. (has_nul k ≡ false) × (held k ≡ true)) i keys key c q in
      (held_get held key e n there h, get_bytes-Holds held key e h)

  pub random_gets-found :
      (n i : ℕ) (held : Bytes → Bool) (keys : List Bytes) (e : F4kvs S)
      → All (λ k. (has_nul k ≡ false) × (held k ≡ true)) keys
      → Holds laws held e
      → misses (random_gets n i keys e).0 ≡ false
  unfolding random_gets
  random_gets-found zero i held keys e c h = refl
  random_gets-found (suc n) i held keys e c h =
      let (found, still) = picked-Fine held (i % length keys) keys e _ c h refl in
      fails_with-continue is_not_found (λ b. Holds laws held) ((key_at i keys >>= get_bytes) e)
        (λ _. random_gets n (suc i) keys) found
        (After-intro _ ((key_at i keys >>= get_bytes) e) λ b o. still)
        λ b e' h'. random_gets-found n (suc i) held keys e' c h'
