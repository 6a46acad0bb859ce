-- ===== src/Bench/Restart/Kept.antt =====
-- What the disk keeps of an engine that bench/embed_vs_sqlite/main.go opens, closes and opens again.
use mathlib.Core.Path.{subst}
use f4kvs_ffi.Prelude.{
  Bytes, Bool, false, Option, none, some, List, [], ◌∷◌, ◌≡◌, refl, sym, ap, ◌∙◌, bytes_eq, nat_eq,
  All, arith,
}
use f4kvs_ffi.Prelude.Exec.{Outcome, ok, err, panic}
use f4kvs_ffi.Prelude.After.{After, After-intro, continue-After}
use f4kvs_ffi.Ffi.Text.{has_nul, from_ptr-c_string}
use f4kvs_ffi.Ffi.Lsm.{Lsm, LsmLaws, is_some}
use f4kvs_ffi.Ffi.Calls.{Message}
use f4kvs_ffi.Ffi.Options.{
  F4KvsOpenOptions, LsmConfig, read_open_options, apply_open_options, to_memory,
}
use f4kvs_ffi.Ffi.Open.{Opening, Slot}
use f4kvs_ffi.Engine.{F4kvs, GoError}
use f4kvs_ffi.Engine.Stored.{engine}
use f4kvs_ffi.Engine.Options.{OpenOptions}
use f4kvs_ffi.Engine.Open.{to_c_options, new_persistent_engine_with_options}
use f4kvs_ffi.Engine.Opened.{MadeWith, open_lsm_then_wrap-MadeWith}
use f4kvs_ffi.Bench.Keys.{IsKey}
use f4kvs_ffi.Bench.Run.{Disk, World, WithEngine, Fatal, fatal_error, open_engine, close_engine}
use f4kvs_ffi.Bench.Restart.{closed_after, with_closed}
use f4kvs_ffi.Bench.Restart.Held.{Clean, Holds}

-- What a disk keeps: an engine in a directory that was removed holds nothing, and one that opens in
-- a directory which an engine has left after a shutdown without an error holds what that one held.
pub record DiskLaws {D S : Type 0} (on : Disk D S) ⦃lsm : Lsm S⦄ (laws : LsmLaws S lsm)
    : Type 0 where
  pub removed :
      (dir k : Bytes) (d : D) (config : LsmConfig) (s : S)
      → (on.remove_all dir d).0 ≡ ok tt
      → (on.opening (on.remove_all dir d).1).new_engine dir config ≡ ok s
      → laws.view s k ≡ none
  pub reopened :
      (dir k : Bytes) (d : D) (config : LsmConfig) (s s' : S)
      → (lsm.shutdown s).0 ≡ ok tt
      → (on.opening (on.leave dir (lsm.shutdown s).1 d)).new_engine dir config ≡ ok s'
      → laws.view s' k ≡ laws.view s k

pub fatal_error_ok : {A : Type 0} (r : Outcome GoError A) (a : A) → fatal_error r ≡ ok a → r ≡ ok a
fatal_error_ok (ok b) a h = cc
fatal_error_ok (err e) a h = cc
fatal_error_ok panic a h = cc

pub keys-Clean : (prefix : Bytes) (keys : List Bytes) → All (IsKey prefix) keys → Clean keys
keys-Clean prefix [] h = tt
keys-Clean prefix (k ∷ keys) h = (h.0.1, keys-Clean prefix keys h.1)

-- An engine that opened was made in the directory.
abbrev pub Made : {S : Type 0} → Opening S → Bytes → F4kvs S → Type 0
Made {S} opening dir e =
    (config : LsmConfig) × (s : S) × (m : Slot) × (opening.new_engine dir config ≡ ok s)
    × (e ≡ engine false (some s) m)

MadeWith-Made :
    {S : Type 0} ⦃opening : Opening S⦄ (dir : Bytes) (o : Option F4KvsOpenOptions) (slot : Slot)
    (e : F4kvs S)
    → has_nul dir ≡ false
    → MadeWith dir (apply_open_options opening.apply_to opening.default_config o) slot e
    → Made opening dir e
MadeWith-Made ⦃opening⦄ dir o slot e n (s, q, same) =
    let config = apply_open_options opening.apply_to opening.default_config o in
    let there = ap (λ p. opening.new_engine p config) (sym (from_ptr-c_string dir n)) in
    (config, s, slot, there ∙ q, same)

new_engine-Made :
    {S : Type 0} ⦃opening : Opening S⦄ (dir : Bytes) (opts : Option OpenOptions) (slot : Slot)
    (e : F4kvs S)
    → has_nul dir ≡ false
    → (new_persistent_engine_with_options dir opts slot).0 ≡ ok e
    → Made opening dir e
unfolding new_persistent_engine_with_options
new_engine-Made dir none slot e n o =
    MadeWith-Made dir none slot e n (open_lsm_then_wrap-MadeWith dir none slot e o)
new_engine-Made dir (some opts) slot e n o =
    let read = read_open_options (some (to_memory (to_c_options opts))) in
    MadeWith-Made dir read slot e n (open_lsm_then_wrap-MadeWith dir read slot e o)

module _ {D S : Type 0} (on : Disk D S) ⦃lsm : Lsm S⦄ where
  -- Opening reads the disk and leaves it as it is.
  pub open_engine-Made :
      (dir : Bytes) (opts : Option OpenOptions) (w : World D)
      → has_nul dir ≡ false
      → After (λ e (w' : World D). Made (on.opening w.disk) dir e) (open_engine on dir opts w)
  unfolding open_engine
  open_engine-Made dir opts w n = After-intro _ (open_engine on dir opts w) λ e o.
      new_engine-Made ⦃opening = on.opening w.disk⦄ dir opts w.slot e n (fatal_error_ok _ e o)

  pub close_disk :
      (dir : Bytes) (s : S) (m : Option Message) (w : World D) (r : Outcome Bytes (Unit {0}))
      → (lsm.shutdown s).0 ≡ r
      → (close_engine on dir (engine false (some s) m) w).disk
        ≡ on.leave dir (lsm.shutdown s).1 w.disk
  unfolding close_engine
  close_disk dir s m w (ok u) q = ground (arith, q)
  close_disk dir s m w (err x) q = ground (arith, q)
  close_disk dir s m w panic q = ground (arith, q)

  closed_after-After :
      {A : Type 0} (Q : A → F4kvs S × World D → Type 0) (R : A → World D → Type 0) (dir : Bytes)
      (r : Outcome Fatal A × (F4kvs S × World D))
      → After Q r
      → ((a : A) (e : F4kvs S) (w : World D) → Q a (e, w) → R a (close_engine on dir e w))
      → After R (closed_after on dir r)
  closed_after-After Q R dir (ok a, (e, w)) q c = c a e w q
  closed_after-After Q R dir (err x, (e, w)) q c = tt
  closed_after-After Q R dir (panic, (e, w)) q c = tt

  pub with_closed-After :
      {A : Type 0} (B : F4kvs S → Type 0) (Q : A → F4kvs S × World D → Type 0)
      (R : A → World D → Type 0) (dir : Bytes) (opts : Option OpenOptions) (body : WithEngine D S A)
      (w : World D)
      → After (λ e (w' : World D). B e) (open_engine on dir opts w)
      → ((e : F4kvs S) (w : World D) → B e → After Q (body (e, w)))
      → ((a : A) (e : F4kvs S) (w : World D) → Q a (e, w) → R a (close_engine on dir e w))
      → After R (with_closed on dir opts body w)
  with_closed-After B Q R dir opts body w o f c =
      continue-After (λ e (w' : World D). B e) R (open_engine on dir opts w) _ o
        λ e w' b. closed_after-After Q R dir (body (e, w')) (f e w' b) c

module _ {D S : Type 0} (on : Disk D S) ⦃lsm : Lsm S⦄ (laws : LsmLaws S lsm) where
  -- The disk is what an engine has left that held the keys of a test.
  abbrev pub Left : (Bytes → Bool) → Bytes → World D → Type 0
  Left held dir w =
      (s : S) × (d : D) × (w.disk ≡ on.leave dir (lsm.shutdown s).1 d)
      × ((k : Bytes) → is_some (laws.view s k) ≡ held k)

  pub close_engine-Left :
      (held : Bytes → Bool) (dir : Bytes) (e : F4kvs S) (w : World D)
      → Holds laws held e
      → Left held dir (close_engine on dir e w)
  close_engine-Left held dir e w (s, m, same, h) =
      subst (λ e. Left held dir (close_engine on dir e w)) (sym same)
        (s, w.disk, close_disk on dir s m w (lsm.shutdown s).0 refl, h)

module _ {D S : Type 0} (on : Disk D S) ⦃lsm : Lsm S⦄ (laws : LsmLaws S lsm)
    (disk_laws : DiskLaws on laws) where
  pub removed-Holds :
      (dir : Bytes) (d : D) (e : F4kvs S)
      → (on.remove_all dir d).0 ≡ ok tt
      → Made (on.opening (on.remove_all dir d).1) dir e
      → Holds laws (λ k. false) e
  removed-Holds dir d e gone (config, s, m, q, same) =
      (s, m, same, λ k. ap is_some (disk_laws.removed dir k d config s gone q))

  pub reopened-Holds :
      ((s : S) → (lsm.shutdown s).0 ≡ ok tt)
      → (held : Bytes → Bool) (dir : Bytes) (w : World D) (e : F4kvs S) → Left on laws held dir w
      → Made (on.opening w.disk) dir e
      → Holds laws held e
  reopened-Holds shuts held dir w e (s, d, left, h) (config, s', m, q, same) =
      let opened = ap (λ disk. (on.opening disk).new_engine dir config) (sym left) ∙ q in
      (s', m, same, λ k. ap is_some (disk_laws.reopened dir k d config s s' (shuts s) opened) ∙ h k)
