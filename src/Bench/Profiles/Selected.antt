-- ===== src/Bench/Profiles/Selected.antt =====
-- What `parseProfiles` accepts, and that the profiles a run lists are the ones it runs.
use mathlib.Core.Path.{subst}
use f4kvs_ffi.Prelude.{
  true, false, String, List, [], ◌∷◌, ◌++◌, ◌≡◌, refl, sym, ◌⊎◌, inl, inr, ◌&&◌, ◌||◌, not, ◌==◌,
  string_eq, contains, if_cases, All, arith,
}
use f4kvs_ffi.Bench.Profiles.{
  known_profiles, product_profiles, durable_compare_profiles, ProfileError, Pass, resume,
  trim_space, split_comma, leave, go_on, parse_part, parse_parts, parse_profiles, want_profile,
  pick, selected_profile_names,
}

pick-contains :
    (want ps : List String) (p : String)
    → contains (pick want ps) p ≡ (contains want p && contains ps p)
unfolding pick
pick-contains want [] p = ground arith
pick-contains want (q ∷ ps) p = ground (arith, pick-contains want ps p, string_eq.beq_iff q p)

-- The listed profiles are, among the known ones, exactly those that `main` runs.
pub selected_profile_names-want_profile :
    (want : List String) (p : String)
    → contains (selected_profile_names want) p ≡ (want_profile want p && contains known_profiles p)
unfolding selected_profile_names want_profile
selected_profile_names-want_profile want p = ground (arith, pick-contains want known_profiles p)

-- A name that `parseProfiles` may put in its answer.
abbrev pub IsChoice : String → Type 0
IsChoice name = (name ≡ "all") ⊎ (contains known_profiles name ≡ true)

-- What a pass may do: leave with `all` or an error, or add choices and keep the others.
abbrev pub Passes : String → List String → Pass → Type 0
Passes part out (leave (inl e)) = Unit
Passes part out (leave (inr want)) = want ≡ "all" ∷ []
Passes part out (go_on out') =
    (All IsChoice out → All IsChoice out')
    × ((p : String) → contains out p ≡ true → contains out' p ≡ true)
    × (contains known_profiles (trim_space part) ≡ true → contains out' (trim_space part) ≡ true)

contains-append_right :
    (xs ys : List String) (p : String) → contains ys p ≡ true → contains (xs ++ ys) p ≡ true
contains-append_right [] ys p h = h
contains-append_right (x ∷ xs) ys p h = ground (arith, contains-append_right xs ys p h)

pub not_known :
    (name word : String)
    → (name == word) ≡ true
    → contains known_profiles word ≡ false
    → contains known_profiles name ≡ true
    → ⊥
not_known name word e n k = ground (arith, string_eq.beq_iff name word)

pub parse_part-Passes : (part : String) (out : List String) → Passes part out (parse_part part out)
unfolding parse_part
parse_part-Passes part out =
    let P = Passes part out in
    let name = trim_space part in
    if_cases P (name == "") _ _ (λ e. (λ a. a, λ p c. c, λ k. absurd (not_known name "" e refl k)))
      λ _.
        if_cases P (name == "all") _ _ (λ e. refl)
          λ _.
            if_cases P (name == "product") _ _
              (λ e. (
                λ a. (inr refl, (inr refl, a)),
                λ p c. contains-append_right product_profiles out p c,
                λ k. absurd (not_known name "product" e refl k),
              ))
              λ _.
                if_cases P (name == "durable_compare") _ _
                  (λ e. (
                    λ a. (inr refl, (inr refl, (inr refl, (inr refl, a)))),
                    λ p c. contains-append_right durable_compare_profiles out p c,
                    λ k. absurd (not_known name "durable_compare" e refl k),
                  ))
                  λ _.
                    if_cases P (not (contains known_profiles name)) _ _ (λ e. tt)
                      λ k. (
                        λ a. (inr (ground arith), a),
                        λ p c. ground (arith, string_eq.beq_iff name p),
                        λ _. ground (arith, string_eq.beq_iff name name),
                      )

-- A known profile runs.
abbrev pub Runs : List String → Type 0
Runs want = (p : String) × (contains known_profiles p ≡ true) × (want_profile want p ≡ true)

-- An answer holds choices only, and selects a known profile.
abbrev Chosen : ProfileError ⊎ List String → Type 0
Chosen (inl e) = Unit
Chosen (inr want) = All IsChoice want × Runs want

selects : (n : String) (want : List String) → IsChoice n → Runs (n ∷ want)
unfolding want_profile
selects n want (inl e) = ("sqlite_wal_full", refl, ground (arith, string_eq.beq_iff n "all"))
selects n want (inr k) = (n, k, ground (arith, string_eq.beq_iff n n))

resume-Chosen :
    (part : String) (out : List String) (pass : Pass)
    (loop : List String → ProfileError ⊎ List String)
    → Passes part out pass
    → All IsChoice out
    → ((out' : List String) → All IsChoice out' → Chosen (loop out'))
    → Chosen (resume pass loop)
resume-Chosen part out (leave (inl e)) loop passes h next = tt
resume-Chosen part out (leave (inr want)) loop passes h next =
    subst (λ w. Chosen (inr w)) (sym passes) ((inl refl, tt), selects "all" [] (inl refl))
resume-Chosen part out (go_on out') loop passes h next = next out' (passes.0 h)

parse_parts-Chosen : (parts out : List String) → All IsChoice out → Chosen (parse_parts parts out)
unfolding parse_parts
parse_parts-Chosen [] [] h = tt
parse_parts-Chosen [] (n ∷ out) h = (h, selects n out h.0)
parse_parts-Chosen (part ∷ parts) out h =
    resume-Chosen part out (parse_part part out) (parse_parts parts) (parse_part-Passes part out) h
      (parse_parts-Chosen parts)

parse_profiles-Chosen : (s : String) → Chosen (parse_profiles s)
unfolding parse_profiles
parse_profiles-Chosen s =
    let t = trim_space s in
    if_cases Chosen (t == "" || t == "all") _ _ (λ e. ((inl refl, tt), selects "all" [] (inl refl)))
      λ _.
        if_cases Chosen (t == "product") _ _
          (λ e. (
            (inr refl, (inr refl, tt)),
            selects "f4kvs_wal_segment" ("sqlite_wal_full" ∷ []) (inr refl),
          ))
          λ _.
            if_cases Chosen (t == "durable_compare") _ _
              (λ e. (
                (inr refl, (inr refl, (inr refl, (inr refl, tt)))),
                selects "f4kvs_wal_segment"
                    ("f4kvs_group_commit_1ms" ∷ "sqlite_wal_full" ∷ "sqlite_wal_normal" ∷ [])
                    (inr refl),
              ))
              λ _. parse_parts-Chosen (split_comma t) [] tt

-- If `parseProfiles` accepts a text, its answer names only known profiles and `all`, and at least
-- one known profile runs.
pub parse_profiles-choices :
    (s : String) (want : List String) → parse_profiles s ≡ inr want → All IsChoice want × Runs want
parse_profiles-choices s want h = subst Chosen h (parse_profiles-Chosen s)
