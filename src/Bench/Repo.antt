-- ===== src/Bench/Repo.antt =====
-- bench/embed_vs_sqlite/de_out.go: what a run records of its repository and its host. Commands, files
-- and the environment are a parameter. A path is absolute and clean; its components stand innermost
-- first, so that `filepath.Dir` drops the first.
pub mod Root
pub mod Pinned
use Prim.Native.Char.{Char, code}
use Prim.Native.String.{String, [] as end, ◌∷◌ as ◌∷ₛ◌, ◌++◌ as ◌++ₛ◌}
use f4kvs_ffi.Prelude.{
  ℕ, zero, suc, Bool, true, false, Option, none, some, List, [], ◌∷◌, ◌++◌, ◌||◌, ◌&&◌, not, ◌==◌,
  nat_eq, string_eq, if◌then◌else◌, length, ℤ, pos, negsuc,
}
use f4kvs_ffi.Prelude.Decimal.{decimal_text}
use f4kvs_ffi.Bench.Manifest.{GitInfo, HostInfo}
use f4kvs_ffi.Bench.Phases.{int_text}
use f4kvs_ffi.Bench.Profiles.{trim_space, add_char}
use f4kvs_ffi.Bench.Texts.{split_on, strip, is_some, cut, has_text}

abbrev pub FilePath : Type 0
FilePath = List String

pub record Host : Type 0 where
  -- the output of `git -C dir …`, and of `sysctl -n machdep.cpu.brand_string`, if it succeeds
  pub git : FilePath → List String → Option String
  pub brand_string : Option String
  pub read_file : FilePath → Option String
  pub env : String → String
  pub is_file : FilePath → Bool
  pub is_dir : FilePath → Bool
  pub hostname : String
  pub goos : String
  pub goarch : String
  pub go_version : String
  pub num_cpu : ℕ

abbrev tag_before : Option (String × String) → Option String
tag_before none = none
tag_before (some (tag, behind)) = some tag

abbrev tag_behind : Option (String × String) → Option String
tag_behind none = none
tag_behind (some (before, rest)) = tag_before (cut "\"" rest)

-- One pass of the loop over the lines.
unfoldable pub pin_of_line : String → Option String
unfolding cut
pin_of_line line =
    if not (has_text "f4kvs-lsm" line) && not (has_text "github.com/noematic-eu/f4kvs-lsm" line)
    then none
    else tag_behind (cut "tag = \"" line)

abbrev or_later : Option String → String → String
or_later none later = later
or_later (some pin) later = pin

unfoldable pub first_pin : List String → String
unfolding pin_of_line
first_pin [] = ""
first_pin (line ∷ lines) = let later = first_pin lines in or_later (pin_of_line line) later

abbrev lines_of : String → List String
lines_of text = split_on 10 text

unfoldable pub cargo_lsm_pin : Option String → String
unfolding first_pin split_on
cargo_lsm_pin none = ""
cargo_lsm_pin (some text) = first_pin (lines_of text)

abbrev trimmed_or : String → Option String → String
trimmed_or other none = other
trimmed_or other (some out) = trim_space out

abbrev has_output : Option String → Bool
has_output none = false
has_output (some out) = not (trim_space out == "")

-- The directory is never empty here.
unfoldable pub git_short_sha : Host → FilePath → String
unfolding trim_space
git_short_sha host dir = trimmed_or "unknown" (host.git dir ("rev-parse" ∷ "--short" ∷ "HEAD" ∷ []))

unfoldable pub git_dirty : Host → FilePath → Bool
unfolding trim_space
git_dirty host dir = has_output (host.git dir ("status" ∷ "--porcelain" ∷ []))

-- `filepath.Dir`
abbrev pub parent : FilePath → FilePath
parent [] = []
parent (c ∷ dir) = dir

-- The three places that are asked for the version of f4kvs-lsm, in their order.
unfoldable pub lsm_version : Host → FilePath → String
unfolding trim_space git_short_sha cargo_lsm_pin
lsm_version host root =
    let ref = trim_space (host.env "F4KVS_LSM_REF") in
    let sha = git_short_sha host ("f4kvs-lsm" ∷ parent root) in
    let tag = cargo_lsm_pin (host.read_file ("Cargo.toml" ∷ root)) in
    if not (ref == "")
    then ref
    else if not (sha == "") && not (sha == "unknown")
    then sha
    else if not (tag == "")
    then tag
    else "unknown"

unfoldable pub collect_git_info : Host → FilePath → GitInfo
unfolding lsm_version git_short_sha git_dirty
collect_git_info host root = record {
  f4kvs_ffi = git_short_sha host root;
  f4kvs_lsm = lsm_version host root;
  dirty = git_dirty host root;
}

abbrev after_colon : Option (String × String) → String
after_colon none = "unknown"
after_colon (some (before, behind)) = trim_space behind

-- `strings.SplitN(line, ":", 2)` of the first line with the prefix that has two parts
unfoldable pub model_name : List String → String
unfolding cut strip
model_name [] = "unknown"
model_name (line ∷ lines) =
    let later = model_name lines in
    if is_some (strip "model name" line) && has_text ":" line
    then after_colon (cut ":" line)
    else later

abbrev model_in : Option String → String
model_in none = "unknown"
model_in (some text) = model_name (lines_of text)

unfoldable pub cpu_model : Host → String
unfolding model_name trim_space split_on
cpu_model host =
    if host.goos == "darwin"
    then trimmed_or "unknown" host.brand_string
    else if host.goos == "linux"
    then model_in (host.read_file ("cpuinfo" ∷ "proc" ∷ []))
    else "unknown"

unfoldable pub collect_host_info : Host → HostInfo
unfolding cpu_model
collect_host_info host = record {
  os = host.goos;
  arch = host.goarch;
  hostname = host.hostname;
  go = host.go_version;
  cpu_model = cpu_model host;
  cpu_cores = host.num_cpu;
}

-- `fileExists(…/Cargo.toml) && dirExists(…/crates/f4kvs-ffi)`
abbrev pub is_repo_root : Host → FilePath → Bool
is_repo_root host dir =
    host.is_file ("Cargo.toml" ∷ dir) && host.is_dir ("f4kvs-ffi" ∷ "crates" ∷ dir)

-- `parent == dir`
abbrev pub is_top : FilePath → Bool
is_top [] = true
is_top (c ∷ dir) = false

-- The loop of `FindRepoRoot`, a pass for each unit of fuel; `none` if there was not enough.
unfoldable pub walk_up : ℕ → Host → FilePath → FilePath → Option FilePath
walk_up zero host start dir = none
walk_up (suc fuel) host start dir =
    let up = walk_up fuel host start (parent dir) in
    if is_repo_root host dir then some dir else if is_top dir then some start else up

abbrev found_or : FilePath → Option FilePath → FilePath
found_or start none = start
found_or start (some dir) = dir

-- `FindRepoRoot`: the loop takes at most a pass for each component of the path, and one.
unfoldable pub find_repo_root : Host → FilePath → FilePath
unfolding walk_up
find_repo_root host start = found_or start (walk_up (suc (length start)) host start start)

-- A part of the command that a test asks for.
abbrev optional : Bool → String → List String
optional test part = if test then part ∷ [] else []

-- `strings.Join(parts, " ")`
unfoldable pub join_words : List String → String
join_words [] = ""
join_words (word ∷ []) = word
join_words (word ∷ (next ∷ words)) = word ++ₛ (" " ++ₛ join_words (next ∷ words))

unfoldable pub format_harness_command : ℤ → ℤ → ℤ → ℤ → ℤ → ℤ → Bool → String → String
unfolding join_words decimal_text
format_harness_command memoirs chunks memoir_bytes chunk_bytes random_gets seed relaxed profiles =
    join_words (
      ("go run ."
        ∷ ("-memoirs=" ++ₛ int_text memoirs)
        ∷ ("-chunks=" ++ₛ int_text chunks)
        ∷ ("-memoir-bytes=" ++ₛ int_text memoir_bytes)
        ∷ ("-chunk-bytes=" ++ₛ int_text chunk_bytes)
        ∷ ("-random-gets=" ++ₛ int_text random_gets)
        ∷ ("-seed=" ++ₛ int_text seed)
        ∷ [])
      ++ (optional (not (profiles == "") && not (profiles == "all")) ("-profiles=" ++ₛ profiles)
          ++ optional (not relaxed) "-include-relaxed=false"))
