-- ===== src/Ffi/Options/Layout.antt =====
-- `read_open_options` of crates/f4kvs-ffi/src/lib.rs: what it reads of the caller's memory.
use f4kvs_ffi.Prelude.{
  ℕ, zero, suc, ◌^◌, ◌≤◌, ◌<◌, Bytes, some, [], ◌∷◌, ◌≡◌, refl, sym, ap, ◌∙◌, ltb, if◌then◌else◌,
  take, arith,
}
use f4kvs_ffi.Ffi.Options.{
  F4KvsOpenOptions, size_of_options, u32, to_memory, byte_at, u32_at, options_at,
  min_versioned_open_options, read_open_options,
}

u32_round : (n : ℕ) → n < 2 ^ 32 → u32_at 0 (u32 n) ≡ n
u32_round n h = omega arith

-- Every field is a number of its width.
pub record IsSized (o : F4KvsOpenOptions) : Type 0 where
  pub struct_size : o.struct_size < 2 ^ 32
  pub max_wait : o.group_commit_max_wait_ms < 2 ^ 32
  pub max_batch : o.group_commit_max_batch_size < 2 ^ 32
  pub idle : o.group_commit_idle_flush_ms < 2 ^ 32
  pub batch : o.max_batch_size < 2 ^ 32
  pub levels : o.max_sstables_per_level < 2 ^ 32
  pub memtable : o.memtable_max_size < 2 ^ 32
  pub target : o.sstable_target_size < 2 ^ 32
  pub max : o.sstable_max_size < 2 ^ 32

read_versioned :
    (m : Bytes)
    → u32_at 0 m ≡ size_of_options
    → read_open_options (some m) ≡ some (options_at (take size_of_options m))
unfolding read_open_options
read_versioned m h = rw h

options_at-to_memory :
    (o : F4KvsOpenOptions) → IsSized o → options_at (take size_of_options (to_memory o)) ≡ o
unfolding options_at
options_at-to_memory o s = cc (
  u32_round o.struct_size s.struct_size,
  u32_round o.group_commit_max_wait_ms s.max_wait,
  u32_round o.group_commit_max_batch_size s.max_batch,
  u32_round o.group_commit_idle_flush_ms s.idle,
  u32_round o.max_batch_size s.batch,
  u32_round o.max_sstables_per_level s.levels,
  u32_round o.memtable_max_size s.memtable,
  u32_round o.sstable_target_size s.target,
  u32_round o.sstable_max_size s.max,
)

-- A struct that says its own size is read whole, field by field.
pub read_open_options-to_memory :
    (o : F4KvsOpenOptions)
    → IsSized o
    → o.struct_size ≡ size_of_options
    → read_open_options (some (to_memory o)) ≡ some o
read_open_options-to_memory o s size =
    read_versioned (to_memory o) (u32_round o.struct_size s.struct_size ∙ size)
    ∙ ap some (options_at-to_memory o s)

byte_at-take : (i n : ℕ) (m : Bytes) → i < n → byte_at i (take n m) ≡ byte_at i m
byte_at-take i zero m h = absurd (omega arith)
byte_at-take i (suc n) [] h = refl
byte_at-take zero (suc n) (b ∷ m) h = refl
byte_at-take (suc i) (suc n) (b ∷ m) h = byte_at-take i n m (omega arith)

take-take : (k n : ℕ) (m : Bytes) → k ≤ n → take k (take n m) ≡ take k m
take-take zero n m h = refl
take-take (suc k) zero m h = absurd (omega arith)
take-take (suc k) (suc n) [] h = refl
take-take (suc k) (suc n) (b ∷ m) h = ap (λ rest. b ∷ rest) (take-take k n m (omega arith))

same_byte : (i n : ℕ) (p q : Bytes) → i < n → take n p ≡ take n q → byte_at i p ≡ byte_at i q
same_byte i n p q h e = sym (byte_at-take i n p h) ∙ ap (byte_at i) e ∙ byte_at-take i n q h

same_first : (n : ℕ) (p q : Bytes) → 4 ≤ n → take n p ≡ take n q → u32_at 0 q ≡ u32_at 0 p
same_first n p q h e = omega (
  arith,
  same_byte 0 n p q (omega arith) e,
  same_byte 1 n p q (omega arith) e,
  same_byte 2 n p q (omega arith) e,
  same_byte 3 n p q (omega arith) e,
)

-- How many bytes are copied of a struct that says its size.
abbrev copied : ℕ → ℕ
copied n = if ltb n size_of_options then n else size_of_options

copied-le : (n : ℕ) → copied n ≤ n
copied-le n = ground arith

read_sized :
    (n : ℕ) (m : Bytes)
    → u32_at 0 m ≡ n
    → min_versioned_open_options ≤ n
    → read_open_options (some m) ≡ some (options_at (take (copied n) m))
unfolding read_open_options
read_sized n m e h = ground arith

-- Of a struct that says a size of at least 8, nothing past that size is read: two memories that
-- agree so far give the same options.
pub read_open_options-size :
    (p q : Bytes)
    → min_versioned_open_options ≤ u32_at 0 p
    → take (u32_at 0 p) p ≡ take (u32_at 0 p) q
    → read_open_options (some p) ≡ read_open_options (some q)
read_open_options-size p q h e =
    let n = u32_at 0 p in
    let k = copied n in
    read_sized n p refl h
    ∙ ap (λ m. some (options_at m))
        (sym (take-take k n p (copied-le n)) ∙ ap (take k) e ∙ take-take k n q (copied-le n))
    ∙ sym (read_sized n q (same_first n p q (omega arith) e) h)
