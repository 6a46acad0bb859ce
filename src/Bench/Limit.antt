-- ===== src/Bench/Limit.antt =====
-- The batch size of bench/embed_vs_sqlite/main.go against the limit of the engine it opens.
use f4kvs_ffi.Prelude.{ℕ, ◌≤◌, ◌<◌, ◌^◌, Option, none, some, ◌≡◌, nat_eq, arith, ℤ}
use f4kvs_ffi.Ffi.Open.{Opening}
use f4kvs_ffi.Ffi.Options.{apply_open_options}
use f4kvs_ffi.Engine.Options.{OpenOptions}
use f4kvs_ffi.Engine.Open.{to_c_options}
use f4kvs_ffi.Engine.Opened.{configured}
use f4kvs_ffi.Bench.Batching.{
  engine_max_batch_default, resolve_batch_put_size, open_opts_for_profile,
}
use f4kvs_ffi.Bench.Slices.{allowed, open_opts_for_profile-allowed}

module _ {S : Type 0} (opening : Opening S) where
  configured-allowed :
      (opts : Option OpenOptions)
      → opening.default_config.max_batch_size ≡ engine_max_batch_default
      → (configured opening opts).max_batch_size ≡ allowed opts
  unfolding apply_open_options to_c_options
  configured-allowed none h = h
  configured-allowed (some opts) h = ground arith

  -- An engine that is configured by the options of `openOptsForProfile` allows batches of the size
  -- that `resolveBatchPutSize` gives, if f4kvs-lsm's default limit is the one that the benchmark
  -- names and the number of keys is a `uint32`.
  pub resolve_batch_put_size-configured :
      (base : Option OpenOptions) (n : ℕ) (size : ℤ)
      → opening.default_config.max_batch_size ≡ engine_max_batch_default
      → n < 2 ^ 32
      → resolve_batch_put_size n size
        ≤ (configured opening (open_opts_for_profile base n size)).max_batch_size
  resolve_batch_put_size-configured base n size h small = omega (
    arith,
    configured-allowed (open_opts_for_profile base n size) h,
    open_opts_for_profile-allowed base n size small,
  )
