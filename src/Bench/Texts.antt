-- ===== src/Bench/Texts.antt =====
-- The functions of package strings that bench/embed_vs_sqlite/de_out.go takes texts apart with.
use Prim.Native.Char.{Char, code}
use Prim.Native.String.{String, [] as end, ◌∷◌ as ◌∷ₛ◌}
use f4kvs_ffi.Prelude.{
  ℕ, Bool, true, false, Option, none, some, List, [], ◌∷◌, ◌==◌, nat_eq, string_eq, if◌then◌else◌,
}
use f4kvs_ffi.Bench.Profiles.{add_char}

-- `strings.Split(s, sep)`, for a separator of one character
unfoldable pub split_on : ℕ → String → List String
split_on sep end = "" ∷ []
split_on sep (c ∷ₛ s) =
    let parts = split_on sep s in if code c == sep then "" ∷ parts else add_char c parts

-- What stands behind a prefix.
unfoldable pub strip : String → String → Option String
strip end s = some s
strip (p ∷ₛ prefix) end = none
strip (p ∷ₛ prefix) (c ∷ₛ s) = let rest = strip prefix s in if code p == code c then rest else none

abbrev pub is_some : {A : Type 0} → Option A → Bool
is_some none = false
is_some (some a) = true

abbrev first_char : Char → Option (String × String) → Option (String × String)
first_char c none = none
first_char c (some (before, behind)) = some (c ∷ₛ before, behind)

abbrev found_at : Option String → Option (String × String) → Option (String × String)
found_at none later = later
found_at (some behind) later = some (end, behind)

-- The text before the first place of `sep`, and the text behind it, as `strings.Index` finds it.
unfoldable pub cut : String → String → Option (String × String)
unfolding strip
cut sep end = found_at (strip sep end) none
cut sep (c ∷ₛ s) = let later = cut sep s in found_at (strip sep (c ∷ₛ s)) (first_char c later)

-- `strings.Contains(s, text)`
abbrev pub has_text : String → String → Bool
has_text text s = is_some (cut text s)
