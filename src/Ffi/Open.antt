-- ===== src/Ffi/Open.antt =====
-- crates/f4kvs-ffi/src/lib.rs: the functions that open an engine. The state is the message slot of
-- the thread; `none` as a result is the null pointer.
use f4kvs_ffi.Prelude.{Bytes, String, Bool, true, false, Option, none, some, [], ◌∷◌, if◌then◌else◌}
use f4kvs_ffi.Prelude.Exec.{Exec, Outcome, ok, err, panic, pure}
use f4kvs_ffi.Ffi.Text.{from_ptr, is_utf8}
use f4kvs_ffi.Ffi.Calls.{
  F4KvsError, error_invalid_argument, error_storage, Message, invalid_utf8, is_empty, failed,
  open_failed,
}
use f4kvs_ffi.Ffi.Options.{
  F4KvsOpenOptions, WalDurability, WalConfig, LsmConfig, read_open_options, apply_open_options,
}

-- What opening an engine uses of f4kvs-lsm: its default configuration, the presets, and
-- `LsmTreeEngine::new` at a data directory, with the error's text. The directory of the log and the
-- mode of its syncs are the same for all options.
pub record Opening (S : Type 0) : Type 0 where
  pub default_config : LsmConfig
  pub apply_to : WalDurability → WalConfig → WalConfig
  pub new_engine : Bytes → LsmConfig → Outcome Bytes S

abbrev pub Slot : Type 0
Slot = Option Message

abbrev pub slot_error : {A : Type 0} → F4KvsError → Message → Exec Slot F4KvsError A
slot_error code msg slot = (err code, some msg)

abbrev empty_path : Bytes → Bool
empty_path [] = true
empty_path (b ∷ bs) = false

-- The argument is the memory behind a pointer that is not null.
unfoldable pub validate_data_dir : Bytes → Exec Slot F4KvsError Bytes
validate_data_dir data_dir =
    let path = from_ptr data_dir in
    if is_utf8 path
    then if empty_path path
      then slot_error error_invalid_argument (is_empty "data_dir")
      else pure path
    else slot_error error_invalid_argument (invalid_utf8 "data_dir")

-- `set_last_error(&format!("…: {:?}", e)); ptr::null_mut()` for an error of `open_lsm_engine`
abbrev pub pointer : {S E : Type 0} → String → Exec Slot F4KvsError S → Exec Slot E (Option S)
pointer what m slot =
    let (r, slot') = m slot in
    elim r [
      | ok s ↦ (ok (some s), slot')
      | err e ↦ (ok none, some (open_failed what e))
      | panic ↦ (panic, slot')
    ]

-- `match validate_data_dir(data_dir) { …, Err(_) => return ptr::null_mut() }`
abbrev pub with_data_dir :
    {S E : Type 0} → Bytes → (Bytes → Exec Slot E (Option S)) → Exec Slot E (Option S)
with_data_dir data_dir f slot =
    let (r, slot') = validate_data_dir data_dir slot in
    elim r [ ok path ↦ f path slot' | err e ↦ (ok none, slot') | panic ↦ (panic, slot') ]

module _ {S : Type 0} ⦃opening : Opening S⦄ where
  -- `LsmTreeEngine::new(config)` and the match on its answer
  abbrev pub open_with : Bytes → LsmConfig → Exec Slot F4KvsError S
  open_with data_dir config slot = elim (opening.new_engine data_dir config) [
    | ok s ↦ (ok s, slot)
    | err e ↦ slot_error error_storage (failed "Failed to open LSM engine" e) slot
    | panic ↦ (panic, slot)
  ]

  unfoldable pub open_lsm_engine : Bytes → Option F4KvsOpenOptions → Exec Slot F4KvsError S
  unfolding apply_open_options
  open_lsm_engine data_dir options =
      open_with data_dir (apply_open_options opening.apply_to opening.default_config options)

  module _ {E : Type 0} where
    -- The argument is the directory that `unique_data_dir` gives.
    unfoldable pub engine_new : Bytes → Exec Slot E (Option S)
    unfolding open_lsm_engine
    engine_new unique_data_dir =
        pointer "Failed to create engine" (open_lsm_engine unique_data_dir none)

    unfoldable pub engine_open : Bytes → Exec Slot E (Option S)
    unfolding validate_data_dir open_lsm_engine
    engine_open data_dir =
        with_data_dir data_dir λ path. pointer "Failed to open engine" (open_lsm_engine path none)

    unfoldable pub engine_open_ex : Bytes → Option Bytes → Exec Slot E (Option S)
    unfolding validate_data_dir open_lsm_engine read_open_options
    engine_open_ex data_dir options =
        with_data_dir data_dir
          λ path. pointer "Failed to open engine" (open_lsm_engine path (read_open_options options))
