-- ===== src/Bench/ReadTests.antt =====
-- Runs of the read benchmark on a machine in memory.
use f4kvs_ffi.Prelude.{ℕ, false, true, [], ◌∷◌, ◌≡◌, refl, bytes_beq}
use f4kvs_ffi.Prelude.Exec.{ok}
use f4kvs_ffi.Ffi.Text.{c_string, from_ptr, is_utf8, has_nul}
use f4kvs_ffi.Ffi.Memory.{memory, memory_laws}
use f4kvs_ffi.Ffi.Calls.{batch_items, value_from_raw}
use f4kvs_ffi.Engine.{to_item, go_bytes}
use f4kvs_ffi.Bench.Batching.{same_payload}
use f4kvs_ffi.Bench.Keys.{chunk_keys}
use f4kvs_ffi.Bench.Machine.{Machine, nat_float, engine_disk, engine_disk_laws}
use f4kvs_ffi.Bench.RunTests.{world, segment_dir}
use f4kvs_ffi.Bench.ReadTax.{TaxFlags, TaxFiles, sample_payload, load_and_read, read_tax}
use f4kvs_ffi.Bench.ReadTax.Calls.{loses}
use f4kvs_ffi.Bench.ReadTax.Ends.{load_and_read-finds}

-- Two chunks and three reads, without a report.
abbrev flags : TaxFlags
flags = record {
  dir = segment_dir;
  chunks = 2;
  chunk_bytes = 3;
  random_gets = 3;
  bulk_import = true;
  prepare_only = false;
  read_only = false;
  out = [];
}

abbrev files : TaxFiles Machine ℕ
files = record {
  mkdir_temp = λ d. (ok segment_dir, d);
  mkdir_all = λ dir d. (ok tt, d);
  write_file = λ out report d. (ok tt, d);
  is_finite = λ x. true;
}

payload_of_three : sample_payload 3 ≡ b'a' ∷ b'r' ∷ b'i' ∷ []
unfolding sample_payload
payload_of_three = refl

reads_succeed : (read_tax engine_disk files flags "linux/amd64" world).0 ≡ ok tt
unfolding read_tax chunk_keys sample_payload bytes_beq c_string from_ptr is_utf8 has_nul batch_items
    to_item value_from_raw same_payload go_bytes
reads_succeed = refl

load_and_read-finds_example :
    loses (load_and_read engine_disk files flags "linux/amd64" segment_dir world).0 ≡ false
unfolding has_nul
load_and_read-finds_example =
    load_and_read-finds engine_disk files memory_laws engine_disk_laws (λ s. refl) flags
      "linux/amd64" segment_dir world refl refl
