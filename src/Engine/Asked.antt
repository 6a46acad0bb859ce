-- ===== src/Engine/Asked.antt =====
-- What a configuration has to be for given `OpenOptions` of go/f4kvs.go, field by field, as the
-- comments on the options say.
use f4kvs_ffi.Prelude.{
  ℕ, zero, suc, Bool, true, false, Option, none, some, ◌≡◌, refl, ltb, if◌then◌else◌, ◌==◌, nat_eq,
  not, arith,
}
use f4kvs_ffi.Ffi.Options.{
  WalDurability, strict, amortized, buffered, WalEngine, segment, frame, indexed, WalConfig,
  LsmConfig, durability_of, engine_of, or_kept, or_idle, is_amortized, background_of,
  apply_open_options,
}
use f4kvs_ffi.Engine.Options.{OpenOptions}
use f4kvs_ffi.Engine.Open.{to_c_options}

-- A number that is asked for, where 0 asks for what there is.
abbrev pub Chosen : ℕ → ℕ → ℕ → Type 0
Chosen zero kept found = found ≡ kept
Chosen (suc n) kept found = found ≡ suc n

-- A flag can only be switched on.
abbrev pub Raised : Bool → Bool → Bool → Type 0
Raised true kept found = found ≡ true
Raised false kept found = found ≡ kept

abbrev pub IsDurability : ℕ → WalDurability → Type 0
IsDurability (suc zero) d = d ≡ amortized
IsDurability (suc (suc zero)) d = d ≡ buffered
IsDurability n d = d ≡ strict

abbrev pub IsEngine : ℕ → WalEngine → Type 0
IsEngine (suc zero) e = e ≡ frame
IsEngine (suc (suc zero)) e = e ≡ indexed
IsEngine n e = e ≡ segment

abbrev pub IsBackground : ℕ → Bool → Bool → Type 0
IsBackground (suc zero) kept found = found ≡ true
IsBackground (suc (suc zero)) kept found = found ≡ false
IsBackground n kept found = found ≡ kept

-- Amortized durability waits 50 ms and flushes after 100 idle ms unless something else is asked for.
abbrev pub wait_of : WalDurability → ℕ → ℕ
wait_of amortized kept = 50
wait_of d kept = kept

abbrev pub IdleFlush : ℕ → WalDurability → Option ℕ → Option ℕ → Type 0
IdleFlush (suc n) d kept found = found ≡ some (suc n)
IdleFlush zero amortized none found = found ≡ some 100
IdleFlush zero d kept found = found ≡ kept

-- The largest table is at least the target.
abbrev pub larger : ℕ → ℕ → ℕ
larger target max = if ltb max target then target else max

pub record AsAsked (apply_to : WalDurability → WalConfig → WalConfig) (default : LsmConfig)
    (opts : OpenOptions) (config : LsmConfig) : Type 0 where
  pub durability : WalDurability
  pub durable : IsDurability opts.wal_durability durability
  pub engine : IsEngine opts.wal_engine config.wal.engine
  pub grouped :
      Raised opts.group_commit_enabled
        (apply_to durability default.wal).group_commit_enabled
        config.wal.group_commit_enabled
  pub waits :
      Raised opts.group_commit_wait_durable
        (apply_to durability default.wal).group_commit_wait_durable
        config.wal.group_commit_wait_durable
  pub wait :
      Chosen opts.group_commit_max_wait_ms
        (wait_of durability (apply_to durability default.wal).group_commit_max_wait)
        config.wal.group_commit_max_wait
  pub count :
      Chosen opts.group_commit_max_batch_sz
        (apply_to durability default.wal).group_commit_max_batch_size
        config.wal.group_commit_max_batch_size
  pub idle :
      IdleFlush opts.group_commit_idle_flush_ms durability
        (apply_to durability default.wal).group_commit_idle_flush
        config.wal.group_commit_idle_flush
  pub batch : Chosen opts.max_batch_size default.max_batch_size config.max_batch_size
  pub background :
      IsBackground opts.compaction_background default.background_enabled config.background_enabled
  pub levels :
      Chosen opts.max_sstables_per_level default.max_sstables_per_level
        config.max_sstables_per_level
  pub memtable : Chosen opts.memtable_max_size default.memtable_max_size config.memtable_max_size
  pub target :
      Chosen opts.sstable_target_size default.sstable_target_size config.sstable_target_size
  pub max_asked : ℕ
  pub max_chosen : Chosen opts.sstable_max_size default.sstable_max_size max_asked
  pub max : config.sstable_max_size ≡ larger config.sstable_target_size max_asked

or_kept-Chosen : (n kept : ℕ) → Chosen n kept (or_kept n kept)
or_kept-Chosen zero kept = refl
or_kept-Chosen (suc n) kept = ground arith

raised :
    (b kept : Bool)
    → let byte : ℕ = if b then 1 else 0 in Raised b kept (if not (byte == 0) then true else kept)
raised true kept = refl
raised false kept = refl

durability_of-IsDurability : (n : ℕ) → IsDurability n (durability_of n)
durability_of-IsDurability zero = refl
durability_of-IsDurability (suc zero) = refl
durability_of-IsDurability (suc (suc zero)) = refl
durability_of-IsDurability (suc (suc (suc n))) = ground arith

engine_of-IsEngine : (n : ℕ) → IsEngine n (engine_of n)
engine_of-IsEngine zero = refl
engine_of-IsEngine (suc zero) = refl
engine_of-IsEngine (suc (suc zero)) = refl
engine_of-IsEngine (suc (suc (suc n))) = ground arith

background_of-IsBackground : (n : ℕ) (kept : Bool) → IsBackground n kept (background_of n kept)
background_of-IsBackground zero kept = refl
background_of-IsBackground (suc zero) kept = refl
background_of-IsBackground (suc (suc zero)) kept = refl
background_of-IsBackground (suc (suc (suc n))) kept = ground arith

wait_of-Chosen :
    (n : ℕ) (d : WalDurability) (kept : ℕ)
    → Chosen n (wait_of d kept) (if is_amortized d then or_kept n 50 else or_kept n kept)
wait_of-Chosen n amortized kept = or_kept-Chosen n 50
wait_of-Chosen n strict kept = or_kept-Chosen n kept
wait_of-Chosen n buffered kept = or_kept-Chosen n kept

idle_chosen :
    (n : ℕ) (d : WalDurability) (kept : Option ℕ)
    → IdleFlush n d kept (if ltb 0 n then some n else or_idle kept (is_amortized d))
idle_chosen (suc n) d kept = ground arith
idle_chosen zero amortized none = refl
idle_chosen zero amortized (some ms) = refl
idle_chosen zero strict none = refl
idle_chosen zero strict (some ms) = refl
idle_chosen zero buffered none = refl
idle_chosen zero buffered (some ms) = refl

pub apply_open_options-AsAsked :
    (apply_to : WalDurability → WalConfig → WalConfig) (default : LsmConfig) (opts : OpenOptions)
    → AsAsked apply_to default opts (apply_open_options apply_to default (some (to_c_options opts)))
unfolding apply_open_options to_c_options
apply_open_options-AsAsked apply_to default opts =
    let d = durability_of opts.wal_durability in
    let base = apply_to d default.wal in
    record {
      durability = d;
      durable = durability_of-IsDurability opts.wal_durability;
      engine = engine_of-IsEngine opts.wal_engine;
      grouped = raised opts.group_commit_enabled base.group_commit_enabled;
      waits = raised opts.group_commit_wait_durable base.group_commit_wait_durable;
      wait = wait_of-Chosen opts.group_commit_max_wait_ms d base.group_commit_max_wait;
      count = or_kept-Chosen opts.group_commit_max_batch_sz base.group_commit_max_batch_size;
      idle = idle_chosen opts.group_commit_idle_flush_ms d base.group_commit_idle_flush;
      batch = or_kept-Chosen opts.max_batch_size default.max_batch_size;
      background = background_of-IsBackground opts.compaction_background default.background_enabled;
      levels = or_kept-Chosen opts.max_sstables_per_level default.max_sstables_per_level;
      memtable = or_kept-Chosen opts.memtable_max_size default.memtable_max_size;
      target = or_kept-Chosen opts.sstable_target_size default.sstable_target_size;
      max_asked = or_kept opts.sstable_max_size default.sstable_max_size;
      max_chosen = or_kept-Chosen opts.sstable_max_size default.sstable_max_size;
      max = refl;
    }
