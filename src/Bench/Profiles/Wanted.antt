-- ===== src/Bench/Profiles/Wanted.antt =====
-- That `parseProfiles` selects every known profile that its text lists.
use mathlib.Core.Path.{subst}
use f4kvs_ffi.Prelude.{
  Bool, true, false, String, List, [], ◌∷◌, ◌≡◌, refl, sym, ◌⊎◌, inl, inr, ◌||◌, ◌==◌, string_eq,
  contains, map, if_cases, arith,
}
use f4kvs_ffi.Bench.Profiles.Selected.{Passes, not_known, parse_part-Passes}
use f4kvs_ffi.Bench.Profiles.{
  known_profiles, ProfileError, Pass, resume, trim_space, split_comma, leave, go_on, parse_part,
  parse_parts, parse_profiles, want_profile,
}

-- Each known profile among the names is selected, if the answer is no error.
abbrev Wants : (String → Bool) → ProfileError ⊎ List String → Type 0
Wants named (inl e) = Unit
Wants named (inr want) =
    (p : String) → named p ≡ true → contains known_profiles p ≡ true → want_profile want p ≡ true

Wants-mono :
    (f g : String → Bool) (r : ProfileError ⊎ List String)
    → ((p : String) → contains known_profiles p ≡ true → g p ≡ true → f p ≡ true)
    → Wants f r
    → Wants g r
Wants-mono f g (inl e) le w = tt
Wants-mono f g (inr want) le w = λ p h k. w p (le p k h) k

-- What is named by the names so far and the parts that are left.
abbrev named : List String → List String → String → Bool
named out parts p = contains out p || contains (map trim_space parts) p

carry :
    (part : String) (out out' parts : List String) (p : String)
    → (contains out p ≡ true → contains out' p ≡ true)
    → (trim_space part ≡ p → contains out' p ≡ true)
    → named out (part ∷ parts) p ≡ true
    → named out' parts p ≡ true
carry part out out' parts p kept added h =
    ground (arith, kept, added, string_eq.beq_iff (trim_space part) p)

named-want_profile :
    (out : List String) (p : String) → named out [] p ≡ true → want_profile out p ≡ true
unfolding want_profile
named-want_profile out p h = ground arith

all_wanted : (f : String → Bool) → Wants f (inr ("all" ∷ []))
unfolding want_profile
all_wanted f p h k = refl

resume-Wants :
    (part : String) (out parts : List String) (pass : Pass)
    (loop : List String → ProfileError ⊎ List String)
    → Passes part out pass
    → ((out' : List String) → Wants (named out' parts) (loop out'))
    → Wants (named out (part ∷ parts)) (resume pass loop)
resume-Wants part out parts (leave (inl e)) loop passes next = tt
resume-Wants part out parts (leave (inr want)) loop passes next =
    subst (λ w. Wants (named out (part ∷ parts)) (inr w)) (sym passes) (all_wanted _)
resume-Wants part out parts (go_on out') loop passes next =
    Wants-mono (named out' parts) (named out (part ∷ parts)) (loop out')
      (λ p k h.
        carry part out out' parts p (passes.1 p)
          (λ e.
            subst (λ q. contains out' q ≡ true) e
              (passes.2 (subst (λ q. contains known_profiles q ≡ true) (sym e) k)))
          h)
      (next out')

parse_parts-Wants : (parts out : List String) → Wants (named out parts) (parse_parts parts out)
unfolding parse_parts
parse_parts-Wants [] [] = tt
parse_parts-Wants [] (n ∷ out) = λ p h k. named-want_profile (n ∷ out) p h
parse_parts-Wants (part ∷ parts) out =
    resume-Wants part out parts (parse_part part out) (parse_parts parts)
      (parse_part-Passes part out) (parse_parts-Wants parts)

only : (word p : String) → contains (word ∷ []) p ≡ true → (p == word) ≡ true
only word p h = ground (arith, string_eq.beq_iff word p, string_eq.beq_iff p word)

-- The name of a group is no known profile.
group_word :
    (want : List String) (t word : String)
    → (t == word) ≡ true
    → map trim_space (split_comma word) ≡ word ∷ []
    → contains known_profiles word ≡ false
    → Wants (named [] (split_comma t)) (inr want)
group_word want t word e single unknown p h k =
    let h' =
      subst (λ u. contains (map trim_space (split_comma u)) p ≡ true)
        ((string_eq.beq_iff t word).0 e) h in
    absurd (not_known p word (only word p (subst (λ ws. contains ws p ≡ true) single h')) unknown k)

parse_profiles-Wants :
    (s : String) → Wants (named [] (split_comma (trim_space s))) (parse_profiles s)
unfolding parse_profiles
parse_profiles-Wants s =
    let t = trim_space s in
    let P = Wants (named [] (split_comma t)) in
    if_cases P (t == "" || t == "all") _ _ (λ e. all_wanted _)
      λ _.
        if_cases P (t == "product") _ _ (λ e. group_word _ t "product" e refl refl)
          λ _.
            if_cases P (t == "durable_compare") _ _
              (λ e. group_word _ t "durable_compare" e refl refl)
              λ _. parse_parts-Wants (split_comma t) []

-- If `parseProfiles` accepts a text, every known profile in its list is selected, after the spaces
-- around each name are cut off.
pub parse_profiles-wants :
    (s : String) (want : List String) (p : String)
    → parse_profiles s ≡ inr want
    → contains (map trim_space (split_comma (trim_space s))) p ≡ true
    → contains known_profiles p ≡ true
    → want_profile want p ≡ true
parse_profiles-wants s want p h =
    (subst (Wants (named [] (split_comma (trim_space s)))) h (parse_profiles-Wants s)) p
