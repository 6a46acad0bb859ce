-- ===== src/Ffi/Lsm.antt =====
-- The engine of the f4kvs-lsm crate, which crates/f4kvs-ffi calls and does not implement: an
-- interface of operations on a state of type `S`, and the documented behaviour of those.
use f4kvs_ffi.Prelude.{
  ℕ, Bytes, Bool, Option, none, some, List, [], ◌∷◌, ◌≡◌, ◌==◌, ◌&&◌, true, false, contains, nat_eq,
  bytes_eq, if◌then◌else◌,
}
use f4kvs_ffi.Prelude.Exec.{Exec, Outcome, ok}

-- `f4kvs_value::Value`. A number, a Boolean and a JSON value are held by the text that their
-- `to_string` gives.
pub data Value : Type 0 where
  bytes string json int64 uint64 float64 bool : Bytes → Value
  null : Value

-- An error is held by the text that it displays.
pub record Lsm (S : Type 0) : Type 0 where
  pub get : Bytes → Exec S Bytes (Option Value)
  pub put : Bytes → Value → Exec S Bytes (Unit {0})
  pub delete : Bytes → Exec S Bytes (Unit {0})
  pub batch_put : List (Bytes × Value) → Exec S Bytes (Unit {0})
  pub batch_delete : List Bytes → Exec S Bytes (Unit {0})
  pub scan_prefix : Bytes → Exec S Bytes (List Bytes)
  pub set_bulk_import : Bool → S → S
  pub flush : Exec S Bytes (Unit {0})
  pub flush_wal : Exec S Bytes (Unit {0})
  pub compact : Exec S Bytes (Unit {0})
  pub shutdown : Exec S Bytes (Unit {0})
  -- `config().performance.max_batch_size`
  pub max_batch_size : S → ℕ

abbrev pub View : Type 0
View = Bytes → Option Value

-- A map after the pairs have been stored in order: a later one wins.
abbrev pub put_all : List (Bytes × Value) → View → View
put_all [] m = m
put_all ((k, v) ∷ xs) m = put_all xs (λ j. if k == j then some v else m j)

abbrev pub delete_all : List Bytes → View → View
delete_all [] m = m
delete_all (k ∷ ks) m = delete_all ks (λ j. if k == j then none else m j)

-- A read that succeeds gives what is held.
abbrev pub Answers : Option Value → Outcome Bytes (Option Value) → Type 0
Answers o (ok a) = a ≡ o
Answers o _ = Unit

-- `k.starts_with(p)`
abbrev pub starts_with : Bytes → Bytes → Bool
starts_with [] k = true
starts_with (a ∷ p) [] = false
starts_with (a ∷ p) (b ∷ k) = let rest = starts_with p k in if a == b then rest else false

abbrev pub is_some : {A : Type 0} → Option A → Bool
is_some none = false
is_some (some a) = true

-- A scan that succeeds lists the keys with the prefix that hold something.
abbrev pub Lists : Bytes → Bytes → Option Value → Outcome Bytes (List Bytes) → Type 0
Lists p k held (ok ks) = contains ks k ≡ (starts_with p k && is_some held)
Lists p k held _ = Unit

-- What the operations do to the map from keys to values that the engine holds. Nothing is said
-- of what a failed write leaves behind.
pub record LsmLaws (S : Type 0) (lsm : Lsm S) : Type 0 where
  pub view : S → View
  pub get_value : (k : Bytes) (s : S) → Answers (view s k) (lsm.get k s).0
  pub get_view : (k j : Bytes) (s : S) → view (lsm.get k s).1 j ≡ view s j
  pub put_view :
      (k j : Bytes) (v : Value) (s : S)
      → (lsm.put k v s).0 ≡ ok tt
      → view (lsm.put k v s).1 j ≡ (if k == j then some v else view s j)
  pub delete_view :
      (k j : Bytes) (s : S)
      → (lsm.delete k s).0 ≡ ok tt
      → view (lsm.delete k s).1 j ≡ (if k == j then none else view s j)
  pub batch_put_view :
      (xs : List (Bytes × Value)) (j : Bytes) (s : S)
      → (lsm.batch_put xs s).0 ≡ ok tt
      → view (lsm.batch_put xs s).1 j ≡ put_all xs (view s) j
  pub batch_delete_view :
      (ks : List Bytes) (j : Bytes) (s : S)
      → (lsm.batch_delete ks s).0 ≡ ok tt
      → view (lsm.batch_delete ks s).1 j ≡ delete_all ks (view s) j
  pub scan_keys : (p k : Bytes) (s : S) → Lists p k (view s k) (lsm.scan_prefix p s).0
  pub scan_view : (p j : Bytes) (s : S) → view (lsm.scan_prefix p s).1 j ≡ view s j
  pub bulk_view : (on : Bool) (j : Bytes) (s : S) → view (lsm.set_bulk_import on s) j ≡ view s j
  pub flush_view : (j : Bytes) (s : S) → view (lsm.flush s).1 j ≡ view s j
  pub flush_wal_view : (j : Bytes) (s : S) → view (lsm.flush_wal s).1 j ≡ view s j
  pub compact_view : (j : Bytes) (s : S) → view (lsm.compact s).1 j ≡ view s j
