-- ===== src/Bench/Repo/Root.antt =====
-- `FindRepoRoot` of bench/embed_vs_sqlite/de_out.go: that its loop ends, and what it finds.
use f4kvs_ffi.Prelude.{ℕ, zero, suc, ◌<◌, some, List, [], ◌∷◌, ◌≡◌, if◌then◌else◌, length, arith}
use f4kvs_ffi.Bench.Repo.{Host, FilePath, is_repo_root, walk_up}

-- The directory and those above it, innermost first.
abbrev pub ancestors : FilePath → List FilePath
ancestors [] = [] ∷ []
ancestors (c ∷ dir) = (c ∷ dir) ∷ ancestors dir

-- The first root among directories, or another path.
abbrev pub first_root : Host → FilePath → List FilePath → FilePath
first_root host start [] = start
first_root host start (dir ∷ dirs) =
    let later = first_root host start dirs in if is_repo_root host dir then dir else later

walk_up-first_root :
    (fuel : ℕ) (host : Host) (start dir : FilePath)
    → length dir < fuel
    → walk_up fuel host start dir ≡ some (first_root host start (ancestors dir))
unfolding walk_up
walk_up-first_root zero host start dir h = absurd (omega arith)
walk_up-first_root (suc fuel) host start [] h = ground arith
walk_up-first_root (suc fuel) host start (c ∷ dir) h =
    ground (arith, walk_up-first_root fuel host start dir (omega arith))

-- The loop of `FindRepoRoot` ends after at most as many passes as the path has components, and one,
-- and it gives the innermost repository root at or above the start, or the start if there is none.
pub walk_up-ends :
    (host : Host) (start : FilePath)
    → walk_up (suc (length start)) host start start ≡ some (first_root host start (ancestors start))
walk_up-ends host start = walk_up-first_root (suc (length start)) host start start (omega arith)
