-- ===== src/Bench/Slices.antt =====
-- The slices of `batchPutBytesChunked` in bench/embed_vs_sqlite/main.go: they are all of the keys,
-- and none is larger than what the engine was opened for.
use f4kvs_ffi.Prelude.{
  ℕ, zero, suc, ◌≤◌, ◌<◌, ◌^◌, Bytes, Option, none, some, List, [], ◌∷◌, ◌++◌, ◌≡◌, refl, ap, ◌∙◌,
  ◌==◌, nat_eq, bytes_eq, if◌then◌else◌, length, take, drop, take-append-drop, length-drop,
  length-take, All, ℤ, pos, negsuc, arith,
}
use f4kvs_ffi.Prelude.Exec.{pure, ◌>>◌}
use f4kvs_ffi.Ffi.Lsm.{Lsm}
use f4kvs_ffi.Engine.{Go, batch_put_bytes}
use f4kvs_ffi.Engine.Options.{OpenOptions}
use f4kvs_ffi.Bench.Batching.{
  engine_max_batch_default, resolve_batch_put_size, open_opts_for_profile, same_payload, put_slices,
  batch_put_bytes_chunked,
}

step-resolved : (n resolved : ℕ) → 0 < resolved → (if resolved == 0 then n else resolved) ≡ resolved
step-resolved n resolved h = ground arith

-- What the engine allows in a batch when it is opened with these options.
abbrev pub allowed : Option OpenOptions → ℕ
allowed none = engine_max_batch_default
allowed (some opts) =
    if opts.max_batch_size == 0 then engine_max_batch_default else opts.max_batch_size

resolve_batch_put_size-le : (n : ℕ) (size : ℤ) → resolve_batch_put_size n size ≤ n
unfolding resolve_batch_put_size
resolve_batch_put_size-le n (pos size) = ground arith
resolve_batch_put_size-le n (negsuc size) = omega arith

resolve_batch_put_size-positive : (n : ℕ) (size : ℤ) → 0 < n → 0 < resolve_batch_put_size n size
unfolding resolve_batch_put_size
resolve_batch_put_size-positive n (pos size) h = ground arith
resolve_batch_put_size-positive n (negsuc size) h = h

-- An engine opened with the options of `openOptsForProfile` allows batches of the size that
-- `resolveBatchPutSize` gives, if the number of keys is a `uint32`.
pub open_opts_for_profile-allowed :
    (base : Option OpenOptions) (n : ℕ) (size : ℤ)
    → n < 2 ^ 32
    → resolve_batch_put_size n size ≤ allowed (open_opts_for_profile base n size)
unfolding open_opts_for_profile
open_opts_for_profile-allowed none n size h = ground (arith, resolve_batch_put_size-le n size)
open_opts_for_profile-allowed (some base) n size h =
    ground (arith, resolve_batch_put_size-le n size)

abbrev slices : ℕ → ℕ → List Bytes → List (List Bytes)
slices zero step keys = []
slices (suc fuel) step [] = []
slices (suc fuel) step (key ∷ keys) =
    take step (key ∷ keys) ∷ slices fuel step (drop step (key ∷ keys))

abbrev pub concat : List (List Bytes) → List Bytes
concat [] = []
concat (xs ∷ xss) = xs ++ concat xss

concat-slices :
    (fuel step : ℕ) (keys : List Bytes)
    → length keys ≤ fuel
    → 0 < step
    → concat (slices fuel step keys) ≡ keys
concat-slices zero step [] h p = refl
concat-slices zero step (key ∷ keys) h p = absurd (omega arith)
concat-slices (suc fuel) step [] h p = refl
concat-slices (suc fuel) step (key ∷ keys) h p =
    ap (λ rest. take step (key ∷ keys) ++ rest)
      (concat-slices fuel step (drop step (key ∷ keys))
        (omega (arith, length-drop step (key ∷ keys))) p)
    ∙ take-append-drop step (key ∷ keys)

-- Not empty, and of at most `n` keys.
abbrev pub IsSlice : ℕ → List Bytes → Type 0
IsSlice n xs = (0 < length xs) × (length xs ≤ n)

All-slices :
    (n fuel step : ℕ) (keys : List Bytes)
    → 0 < step
    → step ≤ n
    → All (IsSlice n) (slices fuel step keys)
All-slices n zero step keys p h = tt
All-slices n (suc fuel) step [] p h = tt
All-slices n (suc fuel) step (key ∷ keys) p h = (
  (omega (arith, length-take step (key ∷ keys)), omega (arith, length-take step (key ∷ keys))),
  All-slices n fuel step (drop step (key ∷ keys)) p h,
)

module _ {S : Type 0} ⦃lsm : Lsm S⦄ where
  -- One `BatchPutBytes` for each list of keys, until one fails.
  abbrev pub put_each : Bytes → List (List Bytes) → Go S (Unit {0})
  put_each payload [] = pure tt
  put_each payload (xs ∷ xss) = batch_put_bytes (same_payload payload xs []) >> put_each payload xss

  put_slices-each :
      (payload : Bytes) (fuel step : ℕ) (keys : List Bytes)
      → put_slices fuel step payload keys ≡ put_each payload (slices fuel step keys)
  unfolding put_slices
  put_slices-each payload zero step keys = refl
  put_slices-each payload (suc fuel) step [] = refl
  put_slices-each payload (suc fuel) step (key ∷ keys) =
      ap (λ rest. batch_put_bytes (same_payload payload (take step (key ∷ keys)) []) >> rest)
        (put_slices-each payload fuel step (drop step (key ∷ keys)))

  -- The loop makes one `BatchPutBytes` for each of some slices, which are together all of the keys
  -- in their order; no slice is empty, or larger than what an engine opened with the options of
  -- `openOptsForProfile` allows, if the number of keys is a `uint32`.
  pub batch_put_bytes_chunked-slices :
      (base : Option OpenOptions) (size : ℤ) (keys : List Bytes) (payload : Bytes)
      → length keys < 2 ^ 32
      → (xss : List (List Bytes)) × (concat xss ≡ keys)
        × All (IsSlice (allowed (open_opts_for_profile base (length keys) size))) xss
        × (batch_put_bytes_chunked size keys payload ≡ put_each payload xss)
  unfolding batch_put_bytes_chunked
  batch_put_bytes_chunked-slices base size [] payload h = ([], refl, tt, refl)
  batch_put_bytes_chunked-slices base size (key ∷ keys) payload h =
      let n = length (key ∷ keys) in
      let step = resolve_batch_put_size n size in
      let positive = resolve_batch_put_size-positive n size (omega arith) in
      (
        slices n step (key ∷ keys),
        concat-slices n step (key ∷ keys) (omega arith) positive,
        All-slices (allowed (open_opts_for_profile base n size)) n step (key ∷ keys) positive
            (open_opts_for_profile-allowed base n size h),
        ap (λ s. put_slices n s payload (key ∷ keys)) (step-resolved n step positive)
            ∙ put_slices-each payload n step (key ∷ keys),
      )
