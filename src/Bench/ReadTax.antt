-- ===== src/Bench/ReadTax.antt =====
-- bench/ffi_read_tax/main.go: it loads a store, closes it, and reads it back. What it prints is left
-- out.
pub mod Found
pub mod Calls
pub mod Ends
use f4kvs_ffi.Prelude.{
  ℕ, zero, suc, ◌+◌, ◌*◌, ◌%◌, Bytes, String, Bool, true, false, none, List, [], ◌∷◌, ◌&&◌,
  if◌then◌else◌,
}
use f4kvs_ffi.Prelude.Exec.{Exec, Outcome, ok, err, panic, pure, raise, ◌>>=◌, ◌>>◌}
use f4kvs_ffi.Ffi.Lsm.{Lsm}
use f4kvs_ffi.Engine.{F4kvs, batch_put_bytes, set_bulk_import}
use f4kvs_ffi.Bench.Phase.{Float, zero_float}
use f4kvs_ffi.Bench.Keys.{chunk_keys}
use f4kvs_ffi.Bench.Batching.{same_payload}
use f4kvs_ffi.Bench.Writer.{file_failed, unsupported_value, failing}
use f4kvs_ffi.Bench.Run.{
  Disk, World, Program, WithEngine, Fatal, writer_error, measure, engine_call, beside, random_gets,
  open_engine, close_engine, with_engine,
}
use f4kvs_ffi.Bench.Phases.{if_so}
use f4kvs_ffi.Bench.Main.{on_files}

-- The flags. The counts are not negative: `make` panics at a negative length.
pub record TaxFlags : Type 0 where
  pub dir : Bytes
  pub chunks : ℕ
  pub chunk_bytes : ℕ
  pub random_gets : ℕ
  pub bulk_import : Bool
  pub prepare_only : Bool
  pub read_only : Bool
  pub out : Bytes

pub record TaxReport (F : Type 0) : Type 0 where
  pub host : String
  pub dir : Bytes
  pub chunks : ℕ
  pub chunk_bytes : ℕ
  pub random_gets : ℕ
  pub bulk_import : Bool
  pub ingest_ms : F
  pub ffi_read_ms : F
  pub ffi_read_ops_s : F

-- `os.MkdirTemp`, `os.MkdirAll`, `os.WriteFile` of an encoded report, and whether encoding/json can
-- write a number.
pub record TaxFiles (D F : Type 0) : Type 0 where
  pub mkdir_temp : Exec D Bytes Bytes
  pub mkdir_all : Bytes → Exec D Bytes (Unit {0})
  pub write_file : Bytes → TaxReport F → Exec D Bytes (Unit {0})
  pub is_finite : F → Bool

-- The bytes from the place `i` on.
unfoldable pub letters_from : ℕ → ℕ → Bytes
letters_from i zero = []
letters_from i (suc n) = (b'a' + i * 17 % 26) ∷ letters_from (suc i) n

unfoldable pub sample_payload : ℕ → Bytes
unfolding letters_from
sample_payload n = letters_from 0 n

module _ {F : Type 0} ⦃float : Float F⦄ where
  -- `msSince`, of the microseconds
  abbrev pub ms_since : ℕ → F
  ms_since us = float.over (float.of_nat us) (float.of_nat 1000)

  unfoldable pub ops_per_s : ℕ → F → F
  ops_per_s ops ms =
      if float.above ms zero_float
      then float.over (float.of_nat ops) (float.over ms (float.of_nat 1000))
      else zero_float

module _ {D F : Type 0} (files : TaxFiles D F) where
  -- The directory of the store.
  unfoldable pub store_dir : Bytes → Program D Bytes
  store_dir [] = on_files (failing file_failed files.mkdir_temp)
  store_dir (c ∷ dir) = on_files (failing file_failed (files.mkdir_all (c ∷ dir))) >> pure (c ∷ dir)

  -- `if *out != "" { … }`
  unfoldable pub write_report : Bytes → TaxReport F → Program D (Unit {0})
  write_report [] report = pure tt
  write_report (c ∷ out) report =
      if files.is_finite report.ingest_ms
        && (files.is_finite report.ffi_read_ms && files.is_finite report.ffi_read_ops_s)
      then on_files (failing file_failed (files.write_file (c ∷ out) report))
      else raise (writer_error unsupported_value)

module _ {D S F : Type 0} (on : Disk D S) (files : TaxFiles D F) ⦃lsm : Lsm S⦄ ⦃float : Float F⦄
    (flags : TaxFlags) where
  -- `engine.Close()` at the end of the ingest. It is not deferred.
  abbrev pub closed_at_end :
      {A : Type 0} → Bytes → Outcome Fatal A × (F4kvs S × World D) → Outcome Fatal A × World D
  closed_at_end dir (ok a, (e, w)) = (ok a, close_engine on dir e w)
  closed_at_end dir (err x, (e, w)) = (err x, w)
  closed_at_end dir (panic, (e, w)) = (panic, w)

  abbrev pub ingest_work : WithEngine D S F
  ingest_work =
      if_so flags.bulk_import (engine_call (set_bulk_import true))
      >> engine_call (
          batch_put_bytes
            (same_payload (sample_payload flags.chunk_bytes) (chunk_keys flags.chunks) []))
      >> beside measure
      >>= λ us. pure (ms_since us)

  unfoldable pub ingest : Bytes → Program D F
  unfolding open_engine close_engine set_bulk_import batch_put_bytes chunk_keys sample_payload
  ingest dir = open_engine on dir none >>= λ e. λ w. closed_at_end dir (ingest_work (e, w))

  -- What is reported after the reads.
  abbrev pub tax_report : String → Bytes → F → F → TaxReport F
  tax_report host dir ingest_ms read_ms = record {
    host = host;
    dir = dir;
    chunks = flags.chunks;
    chunk_bytes = flags.chunk_bytes;
    random_gets = flags.random_gets;
    bulk_import = flags.bulk_import;
    ingest_ms = ingest_ms;
    ffi_read_ms = read_ms;
    ffi_read_ops_s = ops_per_s flags.random_gets read_ms;
  }

  abbrev pub finish : String → Bytes → F → ℕ → Program D (Unit {0})
  finish host dir ingest_ms us =
      write_report files flags.out (tax_report host dir ingest_ms (ms_since us))

  unfoldable pub read_back : String → Bytes → F → Program D (Unit {0})
  unfolding open_engine close_engine random_gets chunk_keys write_report ops_per_s
  read_back host dir ingest_ms = with_engine on dir none (
      engine_call (random_gets flags.random_gets 0 (chunk_keys flags.chunks))
      >> beside (measure >>= finish host dir ingest_ms))

  -- The program from the directory on: the ingest, and the reads.
  unfoldable pub load_and_read : String → Bytes → Program D (Unit {0})
  unfolding ingest read_back
  load_and_read host dir =
      (if flags.read_only then pure zero_float else ingest dir) >>= λ ingest_ms.
      if flags.prepare_only then pure tt else read_back host dir ingest_ms

  unfoldable pub read_tax : String → Program D (Unit {0})
  unfolding store_dir load_and_read
  read_tax host = store_dir files flags.dir >>= λ dir. load_and_read host dir
