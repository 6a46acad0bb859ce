-- ===== src/Bench/RepoTests.antt =====
-- What a run records of its repository, at a concrete host, and runs.
use f4kvs_ffi.Prelude.{
  suc, String, false, Option, none, some, [], ◌∷◌, ◌≡◌, refl, ◌==◌, string_eq, length, pos,
  if◌then◌else◌,
}
use f4kvs_ffi.Bench.Texts.{is_some}
use f4kvs_ffi.Bench.Repo.{
  Host, FilePath, walk_up, cargo_lsm_pin, cpu_model, git_dirty, format_harness_command, join_words,
}
use f4kvs_ffi.Bench.Repo.Root.{first_root, ancestors, walk_up-ends}

-- A Cargo.toml with a pin in its second line.
abbrev cargo_toml : String
cargo_toml = "[dependencies]\nf4kvs-lsm = { tag = \"v0.4.2\" }\n"

abbrev texts : FilePath → Option String
texts path =
    if join_words path == "Cargo.toml src"
    then some cargo_toml
    else if join_words path == "cpuinfo proc"
    then some "processor: 0\nmodel name\t: Xeon: 2\n"
    else none

-- A host whose repository is /src, without a checkout of f4kvs-lsm beside it.
abbrev pub host : Host
host = record {
  git = λ dir arguments. none;
  brand_string = none;
  read_file = texts;
  env = λ name. "";
  is_file = λ path. is_some (texts path);
  is_dir = λ path. join_words path == "f4kvs-ffi crates src";
  hostname = "box";
  goos = "linux";
  goarch = "amd64";
  go_version = "go1.22";
  num_cpu = 4;
}

abbrev pub start : FilePath
start = "embed_vs_sqlite" ∷ "bench" ∷ "src" ∷ []

root_of_start : walk_up 4 host start start ≡ some ("src" ∷ [])
unfolding walk_up join_words
root_of_start = refl

pin_of_cargo : cargo_lsm_pin (some cargo_toml) ≡ "v0.4.2"
unfolding cargo_lsm_pin
pin_of_cargo = refl

model_of_cpu : cpu_model host ≡ "Xeon: 2"
unfolding cpu_model join_words
model_of_cpu = refl

nothing_is_clean : git_dirty host start ≡ false
unfolding git_dirty
nothing_is_clean = refl

command_of_flags :
    format_harness_command (pos 50) (pos 2000) (pos 200) (pos 4096) (pos 5) (pos 42) false "product"
    ≡ "go run . -memoirs=50 -chunks=2000 -memoir-bytes=200 -chunk-bytes=4096 -random-gets=5 -seed=42 -profiles=product -include-relaxed=false"
unfolding format_harness_command
command_of_flags = refl

walk_up-ends_example :
    walk_up (suc (length start)) host start start ≡ some (first_root host start (ancestors start))
walk_up-ends_example = walk_up-ends host start
