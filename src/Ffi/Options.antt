-- ===== src/Ffi/Options.antt =====
-- crates/f4kvs-ffi/src/lib.rs: the options of `f4kvs_engine_open_ex`, their memory, and what they
-- change in the configuration of f4kvs-lsm.
pub mod Layout
pub mod Applied
use f4kvs_ffi.Prelude.{
  ℕ, zero, suc, ◌+◌, ◌*◌, ◌/◌, ◌%◌, Bytes, Bool, true, false, Option, none, some, [], ◌∷◌, ◌++◌,
  ltb, ◌==◌, nat_eq, not, if◌then◌else◌, take,
}

-- `F4KvsOpenOptions`: a `c_uchar` is a number below 2^8, a `c_uint` one below 2^32.
pub record F4KvsOpenOptions : Type 0 where
  pub struct_size : ℕ
  pub group_commit_enabled : ℕ
  pub group_commit_max_wait_ms : ℕ
  pub group_commit_max_batch_size : ℕ
  pub group_commit_wait_durable : ℕ
  pub wal_engine : ℕ
  pub wal_durability : ℕ
  pub group_commit_idle_flush_ms : ℕ
  pub max_batch_size : ℕ
  pub compaction_background : ℕ
  pub max_sstables_per_level : ℕ
  pub memtable_max_size : ℕ
  pub sstable_target_size : ℕ
  pub sstable_max_size : ℕ

-- `size_of::<F4KvsOpenOptions>()` under `repr(C)`
abbrev pub size_of_options : ℕ
size_of_options = 48

-- A `c_uint` in memory, with the low byte first.
abbrev pub u32 : ℕ → Bytes
u32 n = n % 256 ∷ n / 256 % 256 ∷ n / 65536 % 256 ∷ n / 16777216 % 256 ∷ []

-- The memory of the struct under `repr(C)`: a `c_uint` stands at a multiple of four, and the bytes
-- between the fields are zero.
abbrev pub to_memory : F4KvsOpenOptions → Bytes
to_memory o =
    u32 o.struct_size
    ++ (o.group_commit_enabled ∷ 0 ∷ 0 ∷ 0 ∷ [])
    ++ u32 o.group_commit_max_wait_ms
    ++ u32 o.group_commit_max_batch_size
    ++ (o.group_commit_wait_durable ∷ o.wal_engine ∷ o.wal_durability ∷ 0 ∷ [])
    ++ u32 o.group_commit_idle_flush_ms
    ++ u32 o.max_batch_size
    ++ (o.compaction_background ∷ 0 ∷ 0 ∷ 0 ∷ [])
    ++ u32 o.max_sstables_per_level
    ++ u32 o.memtable_max_size
    ++ u32 o.sstable_target_size
    ++ u32 o.sstable_max_size

-- A byte of a buffer that was zeroed before.
abbrev pub byte_at : ℕ → Bytes → ℕ
byte_at i [] = 0
byte_at zero (b ∷ bs) = b
byte_at (suc i) (b ∷ bs) = byte_at i bs

abbrev pub u32_at : ℕ → Bytes → ℕ
u32_at i bs =
    byte_at i bs
    + 256 * byte_at (i + 1) bs
    + 65536 * byte_at (i + 2) bs
    + 16777216 * byte_at (i + 3) bs

unfoldable pub options_at : Bytes → F4KvsOpenOptions
options_at m = record {
  struct_size = u32_at 0 m;
  group_commit_enabled = byte_at 4 m;
  group_commit_max_wait_ms = u32_at 8 m;
  group_commit_max_batch_size = u32_at 12 m;
  group_commit_wait_durable = byte_at 16 m;
  wal_engine = byte_at 17 m;
  wal_durability = byte_at 18 m;
  group_commit_idle_flush_ms = u32_at 20 m;
  max_batch_size = u32_at 24 m;
  compaction_background = byte_at 28 m;
  max_sstables_per_level = u32_at 32 m;
  memtable_max_size = u32_at 36 m;
  sstable_target_size = u32_at 40 m;
  sstable_max_size = u32_at 44 m;
}

-- `F4KvsOpenOptionsV0`, which has no `struct_size`, as `F4KvsOpenOptions`
unfoldable pub options_v0_at : Bytes → F4KvsOpenOptions
options_v0_at m = record {
  struct_size = 0;
  group_commit_enabled = byte_at 0 m;
  group_commit_max_wait_ms = u32_at 4 m;
  group_commit_max_batch_size = u32_at 8 m;
  group_commit_wait_durable = byte_at 12 m;
  wal_engine = byte_at 13 m;
  wal_durability = byte_at 14 m;
  group_commit_idle_flush_ms = u32_at 16 m;
  max_batch_size = u32_at 20 m;
  compaction_background = byte_at 24 m;
  max_sstables_per_level = u32_at 28 m;
  memtable_max_size = u32_at 32 m;
  sstable_target_size = u32_at 36 m;
  sstable_max_size = u32_at 40 m;
}

abbrev pub min_versioned_open_options : ℕ
min_versioned_open_options = 8

-- The argument is the memory from the pointer on, `none` for the null pointer.
unfoldable pub read_open_options : Option Bytes → Option F4KvsOpenOptions
unfolding options_at options_v0_at
read_open_options none = none
read_open_options (some ptr) =
    let first = u32_at 0 ptr in
    if ltb first min_versioned_open_options
    then some (options_v0_at ptr)
    else some (options_at (take (if ltb first size_of_options then first else size_of_options) ptr))

pub data WalDurability : Type 0 where
  strict amortized buffered : WalDurability

pub data WalEngine : Type 0 where
  segment frame indexed : WalEngine

-- The fields of f4kvs-lsm's `LsmConfig` that this code names. Times are in milliseconds.
pub record WalConfig : Type 0 where
  pub group_commit_enabled : Bool
  pub group_commit_max_wait : ℕ
  pub group_commit_max_batch_size : ℕ
  pub group_commit_wait_durable : Bool
  pub group_commit_idle_flush : Option ℕ
  pub engine : WalEngine

pub record LsmConfig : Type 0 where
  pub wal : WalConfig
  pub max_batch_size : ℕ
  pub background_enabled : Bool
  pub max_sstables_per_level : ℕ
  pub memtable_max_size : ℕ
  pub sstable_target_size : ℕ
  pub sstable_max_size : ℕ

abbrev pub durability_of : ℕ → WalDurability
durability_of n = if n == 1 then amortized else if n == 2 then buffered else strict

abbrev pub engine_of : ℕ → WalEngine
engine_of n = if n == 1 then frame else if n == 2 then indexed else segment

-- `if option > 0 { field = option }`
abbrev pub or_kept : ℕ → ℕ → ℕ
or_kept option field = if ltb 0 option then option else field

abbrev pub is_amortized : WalDurability → Bool
is_amortized amortized = true
is_amortized _ = false

abbrev pub or_idle : Option ℕ → Bool → Option ℕ
or_idle (some ms) b = some ms
or_idle none true = some 100
or_idle none false = none

-- `WalDurability::apply_to` belongs to f4kvs-lsm: it is the argument `apply_to`.
unfoldable pub apply_wal :
    (WalDurability → WalConfig → WalConfig) → F4KvsOpenOptions → WalConfig → WalConfig
apply_wal apply_to options config =
    let durability = durability_of options.wal_durability in
    let wal = apply_to durability config in
    record {
      group_commit_enabled =
          (if not (options.group_commit_enabled == 0) then true else wal.group_commit_enabled);
      group_commit_max_wait =
          (if is_amortized durability
            then or_kept options.group_commit_max_wait_ms 50
            else or_kept options.group_commit_max_wait_ms wal.group_commit_max_wait);
      group_commit_max_batch_size =
          or_kept options.group_commit_max_batch_size wal.group_commit_max_batch_size;
      group_commit_wait_durable =
          (if not (options.group_commit_wait_durable == 0)
            then true
            else wal.group_commit_wait_durable);
      group_commit_idle_flush =
          (if ltb 0 options.group_commit_idle_flush_ms
            then some options.group_commit_idle_flush_ms
            else or_idle wal.group_commit_idle_flush (is_amortized durability));
      engine = engine_of options.wal_engine;
    }

abbrev pub background_of : ℕ → Bool → Bool
background_of n kept = if n == 2 then false else if n == 1 then true else kept

unfoldable pub apply_open_options :
    (WalDurability → WalConfig → WalConfig) → LsmConfig → Option F4KvsOpenOptions → LsmConfig
unfolding apply_wal
apply_open_options apply_to config none = config
apply_open_options apply_to config (some options) =
    let target = or_kept options.sstable_target_size config.sstable_target_size in
    let max = or_kept options.sstable_max_size config.sstable_max_size in
    record {
      wal = apply_wal apply_to options config.wal;
      max_batch_size = or_kept options.max_batch_size config.max_batch_size;
      background_enabled = background_of options.compaction_background config.background_enabled;
      max_sstables_per_level = or_kept options.max_sstables_per_level config.max_sstables_per_level;
      memtable_max_size = or_kept options.memtable_max_size config.memtable_max_size;
      sstable_target_size = target;
      sstable_max_size = (if ltb max target then target else max);
    }
