-- ===== src/Engine/Stored.antt =====
-- What `GetBytes`, `PutBytes` and `Delete` do to the map that an engine holds, on every branch.
use f4kvs_ffi.Prelude.{
  ◌^◌, ◌<◌, Bytes, Bool, true, false, Option, none, some, [], ◌∷◌, ◌≡◌, refl, ◌==◌, bytes_eq,
  if◌then◌else◌, length, take_all, Option-cases, inl, inr, arith,
}
use f4kvs_ffi.Prelude.Exec.{Outcome, ok, err}
use f4kvs_ffi.Ffi.Text.{c_string, from_ptr}
use f4kvs_ffi.Ffi.Lsm.{Lsm, LsmLaws, Value, bytes}
use f4kvs_ffi.Ffi.Calls.{value_to_bytes, Message, slice}
use f4kvs_ffi.Engine.{
  F4kvs, GoError, err_not_found, get_bytes, put_bytes, delete, go_bytes, value_ptr,
}

-- The key that the C side sees.
abbrev pub c_key : Bytes → Bytes
c_key key = from_ptr (c_string key)

abbrev pub bytes_of : Option Value → Option Bytes
bytes_of none = none
bytes_of (some v) = some (value_to_bytes v)

module _ {S : Type 0} {lsm : Lsm S} (laws : LsmLaws S lsm) where
  -- The bytes that an engine holds under a Go key.
  abbrev pub stored : F4kvs S → Bytes → Option Bytes
  stored e key = elim e.handle [ none ↦ none | some s ↦ bytes_of (laws.view s (c_key key)) ]

go_bytes-short :
    {S : Type 0} (b : Bytes) (e : F4kvs S) → length b < 2 ^ 31 → go_bytes b e ≡ (ok b, e)
unfolding go_bytes
go_bytes-short [] e h = refl
go_bytes-short (x ∷ b) e h = ground (arith, take_all (length (x ∷ b)) (x ∷ b))

-- An engine by its parts, so that a proof can match on them.
abbrev pub engine : {S : Type 0} → Bool → Option S → Option Message → F4kvs S
engine c h m = record { c_side = record { handle = h; last_error = m }; closed = c }

-- A value whose length is a 32-bit signed number.
abbrev pub Fits : Option Bytes → Type 0
Fits none = Unit
Fits (some b) = length b < 2 ^ 31

-- A read tells what is stored, unless it fails for another reason.
abbrev pub Reads : Option Bytes → Outcome GoError Bytes → Type 0
Reads o (ok b) = o ≡ some b
Reads o (err err_not_found) = o ≡ none
Reads o _ = Unit

pub slice_all : (v : Bytes) → slice (value_ptr v) (length v) ≡ v
unfolding value_ptr
slice_all [] = refl
slice_all (b ∷ v) = take_all (length (b ∷ v)) (b ∷ v) (omega arith)

module _ {S : Type 0} ⦃lsm : Lsm S⦄ (laws : LsmLaws S lsm) where
  stored-get_bytes_at :
      (key j : Bytes) (c : Bool) (h : Option S) (m : Option Message)
      → stored laws (get_bytes key (engine c h m)).1 j ≡ stored laws (engine c h m) j
  unfolding get_bytes go_bytes
  stored-get_bytes_at key j true h m = refl
  stored-get_bytes_at key j false none m = refl
  stored-get_bytes_at key j false (some s) m = ground (arith, laws.get_view (c_key key) (c_key j) s)

  -- Reading changes nothing that is stored.
  pub stored-get_bytes :
      (key j : Bytes) (e : F4kvs S) → stored laws (get_bytes key e).1 j ≡ stored laws e j
  stored-get_bytes key j e = stored-get_bytes_at key j e.closed e.handle e.last_error

  get_bytes-Reads_at :
      (key : Bytes) (c : Bool) (h : Option S) (m : Option Message)
      → Fits (stored laws (engine c h m) key)
      → Reads (stored laws (engine c h m) key) (get_bytes key (engine c h m)).0
  unfolding get_bytes
  get_bytes-Reads_at key true h m f = tt
  get_bytes-Reads_at key false none m f = tt
  get_bytes-Reads_at key false (some s) m f = elim (Option-cases (laws.view s (c_key key))) [
    | inl missing ↦ ground (arith, laws.get_value (c_key key) s)
    | inr (v, held) ↦ ground (
      arith,
      laws.get_value (c_key key) s,
      go_bytes-short (value_to_bytes v) (engine false (some (lsm.get (c_key key) s).1) m),
    )
  ]

  put_bytes-stored_at :
      (key value j : Bytes) (c : Bool) (h : Option S) (m : Option Message)
      → (put_bytes key value (engine c h m)).0 ≡ ok tt
      → stored laws (put_bytes key value (engine c h m)).1 j
        ≡ (if c_key key == c_key j then some value else stored laws (engine c h m) j)
  unfolding put_bytes value_to_bytes
  put_bytes-stored_at key value j true h m p = cc
  put_bytes-stored_at key value j false none m p = cc
  put_bytes-stored_at key value j false (some s) m p =
      ground (arith, laws.put_view (c_key key) (c_key j) (bytes value) s, slice_all value)

  delete-stored_at :
      (key j : Bytes) (c : Bool) (h : Option S) (m : Option Message)
      → (delete key (engine c h m)).0 ≡ ok tt
      → stored laws (delete key (engine c h m)).1 j
        ≡ (if c_key key == c_key j then none else stored laws (engine c h m) j)
  unfolding delete
  delete-stored_at key j true h m p = cc
  delete-stored_at key j false none m p = cc
  delete-stored_at key j false (some s) m p =
      ground (arith, laws.delete_view (c_key key) (c_key j) s)

  -- A read of any key either tells exactly what is stored under it (its value, or `ErrNotFound`
  -- where there is none) or fails with another error; values are shorter than 2^31 bytes.
  pub get_bytes-Reads :
      (key : Bytes) (e : F4kvs S)
      → Fits (stored laws e key)
      → Reads (stored laws e key) (get_bytes key e).0
  get_bytes-Reads key e = get_bytes-Reads_at key e.closed e.handle e.last_error

  -- After a successful put the value is stored under every key that C reads as this one, and what
  -- is stored under the others is unchanged.
  pub put_bytes-stored :
      (key value j : Bytes) (e : F4kvs S)
      → (put_bytes key value e).0 ≡ ok tt
      → stored laws (put_bytes key value e).1 j
        ≡ (if c_key key == c_key j then some value else stored laws e j)
  put_bytes-stored key value j e = put_bytes-stored_at key value j e.closed e.handle e.last_error

  -- After a successful delete nothing is stored under the key, and the others are unchanged.
  pub delete-stored :
      (key j : Bytes) (e : F4kvs S)
      → (delete key e).0 ≡ ok tt
      → stored laws (delete key e).1 j ≡ (if c_key key == c_key j then none else stored laws e j)
  delete-stored key j e = delete-stored_at key j e.closed e.handle e.last_error
