-- ===== src/Bench/Batching.antt =====
-- bench/embed_vs_sqlite/main.go: how the benchmark cuts a large load into `BatchPutBytes` calls, and
-- the options it opens the engine with. `globalBatchPutSize` is the argument `size`, an `int`.
use f4kvs_ffi.Prelude.{
  ℕ, zero, suc, ◌%◌, ◌^◌, Bytes, Bool, true, false, Option, none, some, List, [], ◌∷◌, ◌&&◌, ◌||◌,
  ltb, leb, ◌==◌, nat_eq, bytes_eq, if◌then◌else◌, length, take, drop, Assoc, insert, ℤ, pos,
  negsuc,
}
use f4kvs_ffi.Prelude.Exec.{pure, ◌>>◌}
use f4kvs_ffi.Ffi.Lsm.{Lsm}
use f4kvs_ffi.Engine.{Go, batch_put_bytes}
use f4kvs_ffi.Engine.Options.{OpenOptions, no_options, wal_durability_amortized}

abbrev pub engine_max_batch_default : ℕ
engine_max_batch_default = 10000

unfoldable pub resolve_batch_put_size : ℕ → ℤ → ℕ
resolve_batch_put_size n_keys (negsuc _) = n_keys
resolve_batch_put_size n_keys (pos size) = if size == 0 || leb n_keys size then n_keys else size

-- `base == nil || base.MaxBatchSize == 0`
abbrev pub default_batch : Option OpenOptions → Bool
default_batch none = true
default_batch (some base) = base.max_batch_size == 0

abbrev pub or_no_options : Option OpenOptions → OpenOptions
or_no_options none = no_options
or_no_options (some base) = base

-- `opts.MaxBatchSize == 0 || int(opts.MaxBatchSize) < need`, and the assignment
abbrev pub raise_batch_size : ℕ → OpenOptions → OpenOptions
raise_batch_size need opts =
    if opts.max_batch_size == 0 || ltb opts.max_batch_size need
    then record opts { max_batch_size = need % 2 ^ 32 }
    else opts

unfoldable pub open_opts_for_profile : Option OpenOptions → ℕ → ℤ → Option OpenOptions
unfolding resolve_batch_put_size
open_opts_for_profile base n_keys size =
    let need = resolve_batch_put_size n_keys size in
    if leb need engine_max_batch_default && default_batch base
    then base
    else some (raise_batch_size need (or_no_options base))

unfoldable pub uses_group_commit : Option OpenOptions → Bool
uses_group_commit none = false
uses_group_commit (some opts) =
    opts.group_commit_enabled || opts.wal_durability == wal_durability_amortized

-- `for _, key := range keys[i:end] { items[key] = payload }`
unfoldable pub same_payload : Bytes → List Bytes → Assoc Bytes Bytes → Assoc Bytes Bytes
same_payload payload [] items = items
same_payload payload (key ∷ keys) items = same_payload payload keys (insert key payload items)

module _ {S : Type 0} ⦃lsm : Lsm S⦄ where
  -- The loop on `keys[i:]`, a pass for each unit of fuel.
  unfoldable pub put_slices : ℕ → ℕ → Bytes → List Bytes → Go S (Unit {0})
  unfolding batch_put_bytes same_payload
  put_slices zero step payload keys = pure tt
  put_slices (suc fuel) step payload [] = pure tt
  put_slices (suc fuel) step payload (key ∷ keys) =
      let others = put_slices fuel step payload (drop step (key ∷ keys)) in
      batch_put_bytes (same_payload payload (take step (key ∷ keys)) []) >> others

  -- A pass takes at least one key, so that there are at most as many passes as keys.
  unfoldable pub batch_put_bytes_chunked : ℤ → List Bytes → Bytes → Go S (Unit {0})
  unfolding put_slices resolve_batch_put_size
  batch_put_bytes_chunked size keys payload =
      let resolved = resolve_batch_put_size (length keys) size in
      let step = (if resolved == 0 then length keys else resolved) in
      put_slices (length keys) step payload keys
