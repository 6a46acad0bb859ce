-- ===== src/Bench/Profiles.antt =====
-- bench/embed_vs_sqlite/main.go: which profiles a run selects. A `map[string]bool` that only ever
-- gets `true` is the list of its keys.
pub mod Selected
pub mod Wanted
use Prim.Native.Char.{Char, code}
use Prim.Native.String.{String, [] as end, ◌∷◌ as ◌∷ₛ◌}
use f4kvs_ffi.Prelude.{
  ℕ, Bool, true, false, List, [], ◌∷◌, ◌++◌, ◌&&◌, ◌||◌, ◌⊎◌, inl, inr, leb, ◌==◌, not, string_eq,
  nat_eq, if◌then◌else◌, contains,
}

abbrev pub known_profiles : List String
known_profiles =
    "f4kvs_wal_segment" ∷ "f4kvs_wal_frame" ∷ "f4kvs_wal_indexed" ∷ "f4kvs_group_commit_1ms"
    ∷ "f4kvs_group_commit_10ms" ∷ "f4kvs_group_commit_idle" ∷ "sqlite_wal_full"
    ∷ "sqlite_wal_normal" ∷ []

abbrev pub product_profiles : List String
product_profiles = "f4kvs_wal_segment" ∷ "sqlite_wal_full" ∷ []

abbrev pub durable_compare_profiles : List String
durable_compare_profiles =
    "f4kvs_wal_segment" ∷ "f4kvs_group_commit_1ms" ∷ "sqlite_wal_full" ∷ "sqlite_wal_normal" ∷ []

-- `unicode.IsSpace`, on the code of a character
abbrev pub is_space : Char → Bool
is_space c =
    let n = code c in
    (leb 9 n && leb n 13)
    || n == 32
    || n == 133
    || n == 160
    || n == 5760
    || (leb 8192 n && leb n 8202)
    || n == 8232
    || n == 8233
    || n == 8239
    || n == 8287
    || n == 12288

unfoldable pub trim_left : String → String
trim_left end = end
trim_left (c ∷ₛ s) = let rest = trim_left s in if is_space c then rest else c ∷ₛ s

unfoldable pub trim_right : String → String
trim_right end = end
trim_right (c ∷ₛ s) = let rest = trim_right s in if is_space c && rest == "" then "" else c ∷ₛ rest

-- `strings.TrimSpace`
unfoldable pub trim_space : String → String
unfolding trim_left trim_right
trim_space s = trim_right (trim_left s)

abbrev pub add_char : Char → List String → List String
add_char c [] = (c ∷ₛ end) ∷ []
add_char c (part ∷ parts) = (c ∷ₛ part) ∷ parts

-- `strings.Split(s, ",")`
unfoldable pub split_comma : String → List String
split_comma end = "" ∷ []
split_comma (c ∷ₛ s) =
    let parts = split_comma s in if code c == 44 then "" ∷ parts else add_char c parts

pub data ProfileError : Type 0 where
  unknown_profile : String → ProfileError
  empty_profiles : ProfileError

-- What one pass of the loop does: leave with an answer, or go on with more names.
pub data Pass : Type 0 where
  leave : ProfileError ⊎ List String → Pass
  go_on : List String → Pass

unfoldable pub parse_part : String → List String → Pass
unfolding trim_space
parse_part part out =
    let name = trim_space part in
    if name == ""
    then go_on out
    else if name == "all"
    then leave (inr ("all" ∷ []))
    else if name == "product"
    then go_on (product_profiles ++ out)
    else if name == "durable_compare"
    then go_on (durable_compare_profiles ++ out)
    else if not (contains known_profiles name)
    then leave (inl (unknown_profile name))
    else go_on (name ∷ out)

abbrev pub resume : Pass → (List String → ProfileError ⊎ List String) → ProfileError ⊎ List String
resume (leave answer) loop = answer
resume (go_on out) loop = loop out

-- `len(out) == 0`
abbrev pub or_empty : List String → ProfileError ⊎ List String
or_empty [] = inl empty_profiles
or_empty (name ∷ out) = inr (name ∷ out)

unfoldable pub parse_parts : List String → List String → ProfileError ⊎ List String
unfolding parse_part
parse_parts [] out = or_empty out
parse_parts (part ∷ parts) out = resume (parse_part part out) (parse_parts parts)

unfoldable pub parse_profiles : String → ProfileError ⊎ List String
unfolding trim_space split_comma parse_parts
parse_profiles text =
    let s = trim_space text in
    if s == "" || s == "all"
    then inr ("all" ∷ [])
    else if s == "product"
    then inr product_profiles
    else if s == "durable_compare"
    then inr durable_compare_profiles
    else parse_parts (split_comma s) []

unfoldable pub want_profile : List String → String → Bool
want_profile want name = contains want "all" || contains want name

-- `for _, p := range knownProfiles { if want[p] { … } }`
unfoldable pub pick : List String → List String → List String
pick want [] = []
pick want (p ∷ ps) = let rest = pick want ps in if contains want p then p ∷ rest else rest

unfoldable pub selected_profile_names : List String → List String
unfolding pick
selected_profile_names want =
    if contains want "all" then known_profiles else pick want known_profiles
