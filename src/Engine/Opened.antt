-- ===== src/Engine/Opened.antt =====
-- What `NewPersistentEngineWithOptions` opens: an engine that f4kvs-lsm configures by the options.
use mathlib.Core.Path.{fun_ext}
use f4kvs_ffi.Prelude.{Bytes, false, Option, none, some, ◌≡◌, refl, sym, ap, ◌∙◌, arith}
use f4kvs_ffi.Prelude.Exec.{Exec, Outcome, ok, err, panic, ◌>>=◌}
use f4kvs_ffi.Ffi.Text.{c_string}
use f4kvs_ffi.Ffi.Calls.{F4KvsError}
use f4kvs_ffi.Ffi.Options.{
  F4KvsOpenOptions, LsmConfig, to_memory, read_open_options, apply_open_options, size_of_options,
}
use f4kvs_ffi.Ffi.Options.Layout.{IsSized, read_open_options-to_memory}
use f4kvs_ffi.Ffi.Options.Applied.{IsDefault, zero_options, apply_open_options-zero}
use f4kvs_ffi.Ffi.Open.{
  Opening, Slot, with_data_dir, pointer, open_with, validate_data_dir, open_lsm_engine,
}
use f4kvs_ffi.Engine.{F4kvs, GoError, open_engine_failed}
use f4kvs_ffi.Engine.Stored.{c_key, engine}
use f4kvs_ffi.Engine.Options.{OpenOptions, no_options}
use f4kvs_ffi.Engine.Asked.{AsAsked, apply_open_options-AsAsked}
use f4kvs_ffi.Engine.Open.{to_c_options, wrap, new_persistent_engine_with_options}

-- The `uint32` fields are below 2^32.
abbrev pub OptionsSized : Option OpenOptions → Type 0
OptionsSized none = Unit
OptionsSized (some opts) = IsSized (to_c_options opts)

zero_options-IsSized : IsSized (zero_options size_of_options)
zero_options-IsSized = record {
  struct_size = omega arith;
  max_wait = omega arith;
  max_batch = omega arith;
  idle = omega arith;
  batch = omega arith;
  levels = omega arith;
  memtable = omega arith;
  target = omega arith;
  max = omega arith;
}

read_open_options-to_c_options :
    (opts : OpenOptions)
    → IsSized (to_c_options opts)
    → read_open_options (some (to_memory (to_c_options opts))) ≡ some (to_c_options opts)
unfolding to_c_options
read_open_options-to_c_options opts s = read_open_options-to_memory (to_c_options opts) s refl

-- The configuration that the options ask for.
abbrev pub configured : {S : Type 0} → Opening S → Option OpenOptions → LsmConfig
configured opening none = opening.default_config
configured opening (some opts) =
    apply_open_options opening.apply_to opening.default_config (some (to_c_options opts))

-- Each field is as the options ask; without options it is the default.
abbrev pub Asked : {S : Type 0} → Opening S → Option OpenOptions → LsmConfig → Type 0
Asked opening none config = config ≡ opening.default_config
Asked opening (some opts) config = AsAsked opening.apply_to opening.default_config opts config

configured-Asked :
    {S : Type 0} (opening : Opening S) (opts : Option OpenOptions)
    → Asked opening opts (configured opening opts)
configured-Asked opening none = refl
configured-Asked opening (some opts) =
    apply_open_options-AsAsked opening.apply_to opening.default_config opts

module _ {S : Type 0} ⦃opening : Opening S⦄ where
  -- What both functions of the C interface do, once the options are read.
  abbrev open_lsm_then_wrap : Bytes → Option F4KvsOpenOptions → Exec Slot GoError (F4kvs S)
  open_lsm_then_wrap path o =
      with_data_dir (c_string path) (λ dir. pointer "Failed to open engine" (open_lsm_engine dir o))
      >>= wrap (open_engine_failed path)

  -- An engine that opens is made at the path with a configuration.
  abbrev pub MadeWith : Bytes → LsmConfig → Slot → F4kvs S → Type 0
  MadeWith path config slot e =
      (s : S) × (opening.new_engine (c_key path) config ≡ ok s) × (e ≡ engine false (some s) slot)

  pub open_lsm_then_wrap-MadeWith :
      (path : Bytes) (o : Option F4KvsOpenOptions) (slot : Slot) (e : F4kvs S)
      → ((open_lsm_then_wrap path o slot).0 ≡ ok e)
      → MadeWith path (apply_open_options opening.apply_to opening.default_config o) slot e
  unfolding open_lsm_engine validate_data_dir
  open_lsm_then_wrap-MadeWith path o slot e h =
      at
        (opening.new_engine (c_key path)
          (apply_open_options opening.apply_to opening.default_config o))
        refl
    where
      at :
          (r : Outcome Bytes S)
          → opening.new_engine
              (c_key path)
              (apply_open_options opening.apply_to opening.default_config o)
            ≡ r
          → MadeWith path (apply_open_options opening.apply_to opening.default_config o) slot e
      at (ok s) q = (s, q, ground (arith, h, q))
      at (err x) q = absurd (ground (arith, h, q))
      at panic q = absurd (ground (arith, h, q))

  configured-MadeWith :
      (path : Bytes) (opts : Option OpenOptions) (slot : Slot) (e : F4kvs S)
      → OptionsSized opts
      → (new_persistent_engine_with_options path opts slot).0 ≡ ok e
      → MadeWith path (configured opening opts) slot e
  unfolding new_persistent_engine_with_options apply_open_options
  configured-MadeWith path none slot e h o = open_lsm_then_wrap-MadeWith path none slot e o
  configured-MadeWith path (some opts) slot e h o =
      open_lsm_then_wrap-MadeWith path (some (to_c_options opts)) slot e (
        ap (λ q. (open_lsm_then_wrap path q slot).0) (sym (read_open_options-to_c_options opts h))
        ∙ o)

  -- If an engine opens, it is ready for calls, and it is the one that f4kvs-lsm makes at the path, as
  -- C reads it, with a configuration in which each field is what the option for it asks for, and the
  -- default where the option is zero or there are no options: the WAL engine, the durability and what
  -- f4kvs-lsm makes of it, the waits and sizes of group commit, the batch limit, compaction, and the
  -- sizes of tables, the largest of which is at least the target. Options are `uint32`s.
  pub new_persistent_engine_with_options-MadeWith :
      (path : Bytes) (opts : Option OpenOptions) (slot : Slot) (e : F4kvs S)
      → OptionsSized opts
      → (new_persistent_engine_with_options path opts slot).0 ≡ ok e
      → (config : LsmConfig) × Asked opening opts config × MadeWith path config slot e
  new_persistent_engine_with_options-MadeWith path opts slot e h o = (
    configured opening opts,
    configured-Asked opening opts,
    configured-MadeWith path opts slot e h o,
  )

  open_lsm_engine-zero :
      (dir : Bytes)
      → IsDefault opening.apply_to opening.default_config
      → open_lsm_engine {S = S} dir (some (zero_options size_of_options)) ≡ open_lsm_engine dir none
  unfolding open_lsm_engine apply_open_options
  open_lsm_engine-zero dir d =
      ap (open_with dir)
        (apply_open_options-zero opening.apply_to opening.default_config size_of_options d)

  -- `OpenOptions{}` opens what no options open, if f4kvs-lsm's default is as documented.
  pub new_persistent_engine_with_options-zero :
      (path : Bytes) (slot : Slot)
      → IsDefault opening.apply_to opening.default_config
      → new_persistent_engine_with_options {S = S} path (some no_options) slot
        ≡ new_persistent_engine_with_options path none slot
  unfolding new_persistent_engine_with_options to_c_options
  new_persistent_engine_with_options-zero path slot d =
      ap (λ q. open_lsm_then_wrap path q slot)
        (read_open_options-to_memory (zero_options size_of_options) zero_options-IsSized refl)
      ∙ ap
          (λ (f : Bytes → Exec Slot F4KvsError S).
            (with_data_dir (c_string path) (λ dir. pointer "Failed to open engine" (f dir))
                >>= wrap (open_engine_failed path))
              slot)
          (fun_ext λ dir. open_lsm_engine-zero dir d)
