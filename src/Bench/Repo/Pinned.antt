-- ===== src/Bench/Repo/Pinned.antt =====
-- The version of f4kvs-lsm that bench/embed_vs_sqlite/de_out.go records.
use f4kvs_ffi.Prelude.{
  String, ◌∷◌, false, ◌≡◌, refl, ◌==◌, string_eq, not, ◌&&◌, if◌then◌else◌, if_cases, arith,
}
use f4kvs_ffi.Bench.Profiles.{trim_space}
use f4kvs_ffi.Bench.Repo.{
  Host, FilePath, lsm_version, collect_git_info, parent, git_short_sha, cargo_lsm_pin,
}

-- The version of f4kvs-lsm that a run records is never empty: where the environment, the checkout
-- beside the repository and Cargo.toml name none, it is "unknown".
pub collect_git_info-named :
    (host : Host) (root : FilePath) → ((collect_git_info host root).f4kvs_lsm == "") ≡ false
unfolding collect_git_info lsm_version
collect_git_info-named host root =
    let P = λ (s : String). (s == "") ≡ false in
    let ref = trim_space (host.env "F4KVS_LSM_REF") in
    let sha = git_short_sha host ("f4kvs-lsm" ∷ parent root) in
    let tag = cargo_lsm_pin (host.read_file ("Cargo.toml" ∷ root)) in
    let pinned = if not (tag == "") then tag else "unknown" in
    let built = if not (sha == "") && not (sha == "unknown") then sha else pinned in
    if_cases P (not (ref == "")) ref built (λ h. ground (arith, h))
      λ _.
        if_cases P (not (sha == "") && not (sha == "unknown")) sha pinned (λ h. ground (arith, h))
          λ _. if_cases P (not (tag == "")) tag "unknown" (λ h. ground (arith, h)) λ _. refl
