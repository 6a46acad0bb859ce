-- ===== src/Bench/Writer/Laws.antt =====
-- What the files under bench/embed_vs_sqlite/de_out.go do.
use f4kvs_ffi.Prelude.{
  Bytes, String, false, Option, some, List, [], ◌∷◌, ◌++◌, ◌≡◌, ◌&&◌, ◌==◌, string_eq,
}
use f4kvs_ffi.Prelude.Exec.{Exec, Outcome, ok, err, panic}
use f4kvs_ffi.Prelude.After.{After}
use f4kvs_ffi.Bench.Report.{ResultLine}
use f4kvs_ffi.Bench.Writer.{Content, result_lines, Files, with_error, failing}

-- What the calls do to the files. A call that fails may have changed the file or the directory that
-- it names, and no other.
pub record FilesLaws {D F : Type 0} (files : Files D F) (apart : String → String → Type 0)
    : Type 0 where
  pub view : D → String → String → Option (Content F)
  -- The lines that a buffered writer on a file was given, of which the file may hold a part until the
  -- writer is flushed.
  pub given : D → String → String → List (ResultLine F)
  pub write_holds :
      (dir name : String) (c : Content F) (d : D)
      → After (λ u d'. view d' dir name ≡ some c) (files.write_file dir name c d)
  pub write_frame :
      (dir name dir' name' : String) (c : Content F) (d : D)
      → (dir == dir' && name == name') ≡ false
      → view (files.write_file dir name c d).1 dir' name' ≡ view d dir' name'
  pub create_holds :
      (dir name : String) (d : D) → After (λ u d'. given d' dir name ≡ []) (files.create dir name d)
  pub create_frame :
      (dir name dir' name' : String) (d : D)
      → (dir == dir' && name == name') ≡ false
      → view (files.create dir name d).1 dir' name' ≡ view d dir' name'
  pub append_holds :
      (dir name : String) (line : ResultLine F) (d : D)
      → After
          (λ u d'. given d' dir name ≡ given d dir name ++ line ∷ [])
          (files.append_line dir name line d)
  pub append_frame :
      (dir name dir' name' : String) (line : ResultLine F) (d : D)
      → (dir == dir' && name == name') ≡ false
      → view (files.append_line dir name line d).1 dir' name' ≡ view d dir' name'
  pub flush_holds :
      (dir name : String) (d : D)
      → After
          (λ u d'. view d' dir name ≡ some (result_lines (given d dir name)))
          (files.flush dir name d)
  pub flush_frame :
      (dir name dir' name' : String) (d : D)
      → (dir == dir' && name == name') ≡ false
      → view (files.flush dir name d).1 dir' name' ≡ view d dir' name'
  -- Closing a file writes nothing of what its buffered writer still has.
  pub close_holds :
      (dir name dir' name' : String) (d : D)
      → view (files.close dir name d).1 dir' name' ≡ view d dir' name'
  -- Removing a directory removes those inside it too, and nothing of those apart from it.
  pub remove_frame :
      (dir dir' name : String) (d : D)
      → apart dir dir'
      → view (files.remove_all dir d).1 dir' name ≡ view d dir' name
  pub rename_holds :
      (dir dir' : String) (d : D)
      → After
          (λ u d'. (name : String) → view d' dir' name ≡ view d dir name)
          (files.rename dir dir' d)

pub failing-After :
    {D E A : Type 0} (Q : A → D → Type 0) (f : Bytes → E) (m : Exec D Bytes A) (d : D)
    → After Q (m d)
    → After Q (failing f m d)
failing-After {D = D} {A = A} Q f m d h = at (m d) h
  where
    at : (r : Outcome Bytes A × D) → After Q r → After Q (with_error f r.0, r.1)
    at (ok a, d) h = h
    at (err e, d) h = tt
    at (panic, d) h = tt
