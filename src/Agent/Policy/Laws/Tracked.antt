-- ===== src/Agent/Policy/Laws/Tracked.antt =====
-- What the file system changes when it is called.
use s3_mcp_relay.Base.{ℕ, ◌≡◌, Bool, true, false, some, List, Text}
use s3_mcp_relay.Agent.Policy.{Paths, Files}
use s3_mcp_relay.Agent.Policy.Laws.{IsClear}

-- `I` is an invariant of the world, and `P` holds of the places that may be changed. `Resolves w p
-- c` says that in `w` there is something at `p` and `c` is its canonical path, `Absent w p` that
-- `exists` finds nothing there, and `Plain p` that no component of `p` is `..`. Asking keeps `I`.
-- `create_dir_all` on a plain path makes the directories that are missing below the place to which
-- the nearest directory that is there resolves; where the parent is there it makes at most the path
-- itself, and where the path is there nothing, also if a link that leads nowhere lies on the way,
-- which `mkdir` does not follow. `remove_dir_all` and `rename` change what is below their paths, the
-- other calls only the path that they are given.
pub record IsTracked {W : Type 0} (paths : Paths) (files : Files W) (I : W → Type 0)
    (Resolves : W → Text → Text → Type 0) (Absent : W → Text → Type 0) (Plain : Text → Type 0)
    (P : Text → Type 0) : Type 0 where
  pub plain_parent : (p q : Text) → Plain p → paths.parent p ≡ some q → Plain q
  pub absent : (p : Text) (w : W) → (files.exists p w).0 ≡ false → Absent (files.exists p w).1 p
  pub absent_exists : (p x : Text) (w : W) → Absent w x → Absent (files.exists p w).1 x
  pub absent_canonicalize : (p x : Text) (w : W) → Absent w x → Absent (files.canonicalize p w).1 x
  pub exists_keeps : (p : Text) (w : W) → I w → I (files.exists p w).1
  pub is_dir_keeps : (p : Text) (w : W) → I w → I (files.is_dir p w).1
  pub size_keeps : (p : Text) (w : W) → I w → I (files.size p w).1
  pub canonicalize_keeps : (p : Text) (w : W) → I w → I (files.canonicalize p w).1
  pub open_reader_keeps : (p : Text) (w : W) → I w → I (files.open_reader p w).1
  pub read_dir_keeps : (p : Text) (w : W) → I w → I (files.read_dir p w).1
  pub write_all_keeps : (b : List ℕ) (w : W) → I w → I (files.write_all b w).1
  pub flush_keeps : (w : W) → I w → I (files.flush w).1
  pub resolves :
      (p c : Text) (w : W)
      → (files.canonicalize p w).0 ≡ some c
      → Resolves (files.canonicalize p w).1 p c
  pub resolves_canonical : (p c : Text) (w : W) → Resolves w p c → Resolves w c c
  pub create_dir_all_below :
      (p a c : Text) (w : W)
      → Plain p
      → IsClear paths (Absent w) p a
      → Resolves w a c
      → ((x : Text) → paths.is_within x c ≡ true → P x)
      → I w
      → I (files.create_dir_all p w).1
  pub create_dir_all_one :
      (p d : Text) (w : W)
      → paths.parent p ≡ some d
      → Resolves w d d
      → P p
      → I w
      → I (files.create_dir_all p w).1
  pub create_dir_all_none :
      (p : Text) (w : W) → Resolves w p p → I w → I (files.create_dir_all p w).1
  pub create_dir_keeps : (p : Text) (w : W) → P p → I w → I (files.create_dir p w).1
  pub remove_dir_all_keeps :
      (p : Text) (w : W)
      → ((x : Text) → paths.is_within x p ≡ true → P x)
      → I w
      → I (files.remove_dir_all p w).1
  pub remove_dir_keeps : (p : Text) (w : W) → P p → I w → I (files.remove_dir p w).1
  pub remove_file_keeps : (p : Text) (w : W) → P p → I w → I (files.remove_file p w).1
  pub rename_keeps :
      (p q : Text) (w : W)
      → ((x : Text) → paths.is_within x p ≡ true → P x)
      → ((x : Text) → paths.is_within x q ≡ true → P x)
      → I w
      → I (files.rename p q w).1
  pub open_writer_keeps :
      (p : Text) (append : Bool) (w : W) → P p → I w → I (files.open_writer p append w).1
