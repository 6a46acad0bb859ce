-- ===== src/Bench/Restart/Counting.antt =====
-- What the scans of `benchF4KVSPostRestart` of bench/embed_vs_sqlite/main.go count.
use mathlib.Core.Path.{subst}
use f4kvs_ffi.Prelude.{
  Bytes, Bool, true, false, Option, some, List, [], ◌∷◌, ◌≡◌, refl, sym, ap, ◌∙◌, ◌&&◌, bytes_eq,
  map, length, contains, All, arith, ==_self, Bool-cases, inl, inr,
}
use f4kvs_ffi.Prelude.Members.{All_member, Unrepeated, same_members-length}
use f4kvs_ffi.Prelude.Exec.{ok}
use f4kvs_ffi.Ffi.Text.{c_string, from_ptr, has_nul, is_utf8, from_ptr-c_string}
use f4kvs_ffi.Ffi.Lsm.{Lsm, LsmLaws, starts_with, is_some}
use f4kvs_ffi.Ffi.Calls.{
  Message, CSide, validate_c_string, max_key_length, allocate_keys, allocate_c_string,
}
use f4kvs_ffi.Engine.{F4kvs, scan_prefix_keys}
use f4kvs_ffi.Engine.Stored.{engine}
use f4kvs_ffi.Engine.Batch.{c_state}
use f4kvs_ffi.Bench.Keys.{memoir_prefix, chunk_prefix, IsKey}
use f4kvs_ffi.Bench.Phases.{Load, keys_found}
use f4kvs_ffi.Prelude.After.{After}
use f4kvs_ffi.Bench.Run.{World}
use f4kvs_ffi.Bench.Restart.{count_keys, expected_keys}
use f4kvs_ffi.Bench.Restart.Loading.{held_of}
use f4kvs_ffi.Bench.Restart.Held.{Clean, Holds}

-- A prefix that C accepts as it is.
abbrev Accepted : Type 0 → Bytes → Type 0
Accepted S p = (c : CSide S) → validate_c_string (c_string p) max_key_length "prefix" c ≡ (ok p, c)

prefixes-Accepted : (S : Type 0) → Accepted S memoir_prefix × Accepted S chunk_prefix
unfolding validate_c_string c_string from_ptr is_utf8
prefixes-Accepted S = (λ c. refl, λ c. refl)

-- A scan without an error lists no key twice.
abbrev pub ScansAnswer : {S : Type 0} → Lsm S → Type 0
ScansAnswer {S} lsm =
    (p : Bytes) (s : S) → (ks : List Bytes) × ((lsm.scan_prefix p s).0 ≡ ok ks) × Unrepeated ks

-- No key of a test holds a NUL.
abbrev pub NoNul : (Bytes → Bool) → Type 0
NoNul held = (k : Bytes) → held k ≡ true → has_nul k ≡ false

Clean-of_members :
    (keys : List Bytes) (held : Bytes → Bool)
    → NoNul held
    → ((k : Bytes) → contains keys k ≡ true → held k ≡ true)
    → Clean keys
Clean-of_members [] held n h = tt
Clean-of_members (k ∷ keys) held n h = (
  n k (h k (ground (arith, ==_self k))),
  Clean-of_members keys held n λ j q. h j (ground (arith, q)),
)

map-from_ptr : (keys : List Bytes) → Clean keys → map from_ptr (map c_string keys) ≡ keys
map-from_ptr [] c = refl
map-from_ptr (k ∷ keys) c = ground (arith, from_ptr-c_string k c.0, map-from_ptr keys c.1)

allocate_keys-Clean :
    {S : Type 0} (keys : List Bytes) (c : CSide S)
    → Clean keys
    → allocate_keys keys c ≡ (ok (map c_string keys), c)
unfolding allocate_keys allocate_c_string
allocate_keys-Clean [] c h = refl
allocate_keys-Clean (k ∷ keys) c h = ground (arith, allocate_keys-Clean keys c h.1, h.0)

starts_then_held :
    (p : Bytes) (held : Bytes → Bool) (ks : List Bytes) (k : Bytes)
    → contains ks k ≡ (starts_with p k && held k)
    → contains ks k ≡ true
    → held k ≡ true
starts_then_held p held ks k same found = ground (arith, same, found)

-- No key has both prefixes.
one_prefix : (k : Bytes) → starts_with memoir_prefix k ≡ true → starts_with chunk_prefix k ≡ false
one_prefix [] h = cc
one_prefix (b ∷ k) h = ground (arith, h)

-- Keys as `main` makes them.
pub record IsLoad (load : Load) : Type 0 where
  pub memoirs : All (IsKey memoir_prefix) load.memoir_keys
  pub chunks : All (IsKey chunk_prefix) load.chunk_keys
  pub memoirs_once : Unrepeated load.memoir_keys
  pub chunks_once : Unrepeated load.chunk_keys

memoirs_are :
    (load : Load) (k : Bytes)
    → IsLoad load
    → (starts_with memoir_prefix k && held_of load k) ≡ contains load.memoir_keys k
memoirs_are load k i = ground (
  arith,
  one_prefix k,
  λ (m : contains load.memoir_keys k ≡ true).
      (All_member (IsKey memoir_prefix) load.memoir_keys k i.memoirs m).0,
  λ (m : contains load.chunk_keys k ≡ true).
      (All_member (IsKey chunk_prefix) load.chunk_keys k i.chunks m).0,
)

chunks_are :
    (load : Load) (k : Bytes)
    → IsLoad load
    → (starts_with chunk_prefix k && held_of load k) ≡ contains load.chunk_keys k
chunks_are load k i = ground (
  arith,
  one_prefix k,
  λ (m : contains load.memoir_keys k ≡ true).
      (All_member (IsKey memoir_prefix) load.memoir_keys k i.memoirs m).0,
  λ (m : contains load.chunk_keys k ≡ true).
      (All_member (IsKey chunk_prefix) load.chunk_keys k i.chunks m).0,
)

module _ {S : Type 0} ⦃lsm : Lsm S⦄ (laws : LsmLaws S lsm) (answers : ScansAnswer lsm) where
  -- What a scan lists, and that the engine holds what it held.
  abbrev Lists : Bytes → (Bytes → Bool) → Option (List Bytes) × F4kvs S → Type 0
  Lists p held r =
      (ks : List Bytes) × (r.0 ≡ some ks)
      × Unrepeated ks
      × ((k : Bytes) → contains ks k ≡ (starts_with p k && held k))
      × Holds laws held r.1

  scan_prefix_keys_open :
      (p : Bytes) (s : S) (m : Option Message) (ks : List Bytes)
      → Accepted S p
      → (lsm.scan_prefix p s).0 ≡ ok ks
      → Clean ks
      → scan_prefix_keys p (engine false (some s) m)
        ≡ (some ks, engine false (some (lsm.scan_prefix p s).1) m)
  unfolding scan_prefix_keys
  scan_prefix_keys_open p s m ks a q c = ground (
    arith,
    q,
    a (c_state s m),
    allocate_keys-Clean ks (c_state (lsm.scan_prefix p s).1 m) c,
    map-from_ptr ks c,
  )

  scanned :
      (p : Bytes) (held : Bytes → Bool) (s : S) (ks : List Bytes) (k : Bytes)
      → (lsm.scan_prefix p s).0 ≡ ok ks
      → is_some (laws.view s k) ≡ held k
      → contains ks k ≡ (starts_with p k && held k)
  scanned p held s ks k q h = ground (arith, laws.scan_keys p k s, q, h)

  scan_prefix_keys-Lists :
      (p : Bytes) (held : Bytes → Bool) (e : F4kvs S)
      → Accepted S p
      → NoNul held
      → Holds laws held e
      → Lists p held (scan_prefix_keys p e)
  scan_prefix_keys-Lists p held e a n (s, m, same, h) =
      let (ks, q, u) = answers p s in
      let members = λ (k : Bytes). scanned p held s ks k q (h k) in
      let clean =
        Clean-of_members ks held n λ k found. starts_then_held p held ks k (members k) found in
      subst (λ e. Lists p held (scan_prefix_keys p e)) (sym same)
        (subst (Lists p held) (sym (scan_prefix_keys_open p s m ks a q clean)) (
          ks,
          refl,
          u,
          members,
          ((lsm.scan_prefix p s).1, m, refl, λ k. ap is_some (laws.scan_view p k s) ∙ h k),
        ))

held_of-NoNul : (load : Load) → IsLoad load → NoNul (held_of load)
held_of-NoNul load i k h = elim (Bool-cases (contains load.chunk_keys k)) [
  | inl chunk ↦ (All_member (IsKey chunk_prefix) load.chunk_keys k i.chunks chunk).1
  | inr other ↦
      (All_member (IsKey memoir_prefix) load.memoir_keys k i.memoirs (ground (arith, h, other))).1
]

-- The number of keys in a list that is what one scan finds.
count_of :
    (ks keys : List Bytes) (found : Option (List Bytes)) (listed : Bytes → Bool)
    → found ≡ some ks
    → Unrepeated ks
    → Unrepeated keys
    → ((k : Bytes) → contains ks k ≡ listed k)
    → ((k : Bytes) → listed k ≡ contains keys k)
    → keys_found found ≡ length keys
count_of ks keys found listed same u v h g =
    ap keys_found same ∙ same_members-length ks keys u v λ k. h k ∙ g k

module _ {D S : Type 0} ⦃lsm : Lsm S⦄ (laws : LsmLaws S lsm) (answers : ScansAnswer lsm) where
  -- The count of an engine that holds the keys of a run is the number of them.
  pub count_keys-expected :
      (load : Load) (e : F4kvs S) (w : World D)
      → IsLoad load
      → Holds laws (held_of load) e
      → After (λ n (s : F4kvs S × World D). n ≡ expected_keys load) (count_keys (e, w))
  unfolding count_keys
  count_keys-expected load e w i h =
      let (memoir_ok, chunk_ok) = prefixes-Accepted S in
      let clean = held_of-NoNul load i in
      let (ks, found, u, members, kept) =
        scan_prefix_keys-Lists laws answers memoir_prefix (held_of load) e memoir_ok clean h in
      let e' = (scan_prefix_keys memoir_prefix e).1 in
      let (ks', found', u', members', _) =
        scan_prefix_keys-Lists laws answers chunk_prefix (held_of load) e' chunk_ok clean kept in
      omega (
        arith,
        count_of ks load.memoir_keys (scan_prefix_keys memoir_prefix e).0 _ found u i.memoirs_once
            members (λ k. memoirs_are load k i),
        count_of ks' load.chunk_keys (scan_prefix_keys chunk_prefix e').0 _ found' u' i.chunks_once
            members' (λ k. chunks_are load k i),
      )
