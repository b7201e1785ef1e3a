-- ===== src/Driver/Landlock.antt =====
-- `setup_landlock` of driver/src/main.cpp: which paths stay accessible. The landlock library and the
-- paths of the standard library are parameters. The part for address sanitizers is left out.
pub mod Prefixes
use Prim.Native.String.{String}
use ni_traktor_kontrol_f.Base.{◌≡◌, List, [], ◌∷◌, ◌++◌, Result, ok, err, system_error, ◌>>=◌}

-- What opening a path ends in: a descriptor, ENOENT, or another error.
pub data Opened : Type 0 where
  opened missing fails : Opened

-- `std::filesystem`: `append p q` is `p / q`, which is `q` if `q` is an absolute path.
pub record Paths : Type 1 where
  pub FsPath : Type 0
  pub path : String → FsPath
  pub absolute : String → FsPath
  pub append : FsPath → FsPath → FsPath
  pub append-absolute : (p : FsPath) (s : String) → append p (absolute s) ≡ absolute s

-- `landlock::action`.
pub record Actions : Type 1 where
  pub Action : Type 0
  pub fs_execute : Action
  pub fs_write_file : Action
  pub fs_read_file : Action
  pub fs_read_dir : Action
  pub fs_remove_dir : Action
  pub fs_remove_file : Action
  pub fs_make_char : Action
  pub fs_make_dir : Action
  pub fs_make_sock : Action
  pub fs_make_fifo : Action
  pub fs_make_block : Action
  pub fs_make_sym : Action
  pub fs_refer : Action
  pub fs_truncate : Action

module _ (ps : Paths) (l : Actions) where
  -- What a `PathBeneathRule` and a `Ruleset` have been given.
  pub record Rule : Type 0 where
    pub paths : List ps.FsPath
    pub actions : List l.Action

  pub record Ruleset : Type 0 where
    pub handled : List l.Action
    pub rules : List Rule

  -- `handled` of the rule set.
  abbrev pub handled_actions : List l.Action
  handled_actions =
      l.fs_execute ∷ l.fs_write_file ∷ l.fs_read_file ∷ l.fs_read_dir ∷ l.fs_remove_dir
      ∷ l.fs_remove_file ∷ l.fs_make_char ∷ l.fs_make_dir ∷ l.fs_make_sock ∷ l.fs_make_fifo
      ∷ l.fs_make_block ∷ l.fs_make_sym ∷ l.fs_refer ∷ l.fs_truncate ∷ []

  module _ (open_path : ps.FsPath → Opened) where
    -- `add_path`, which opens the path.
    unfoldable pub add_path : ps.FsPath → List ps.FsPath → Result (List ps.FsPath)
    add_path p paths = elim (open_path p) [
      | opened ↦ ok (paths ++ (p ∷ []))
      | missing ↦ err system_error
      | fails ↦ err system_error
    ]

    -- With the handler: paths that do not exist are passed over.
    unfoldable pub try_path : ps.FsPath → List ps.FsPath → Result (List ps.FsPath)
    try_path p paths = elim (open_path p) [
      | opened ↦ ok (paths ++ (p ∷ []))
      | missing ↦ ok paths
      | fails ↦ err system_error
    ]

    -- The loops over the prefixes and over the paths.
    unfoldable pub add_prefixes :
        (path : String) (prefixes : List String) → List ps.FsPath → Result (List ps.FsPath)
    add_prefixes path [] paths = ok paths
    add_prefixes path (prefix ∷ prefixes) paths = do
      paths ← try_path (ps.append (ps.absolute prefix) (ps.absolute path)) paths
      add_prefixes path prefixes paths

    unfoldable pub add_directories :
        (directories prefixes : List String) → List ps.FsPath → Result (List ps.FsPath)
    add_directories [] prefixes paths = ok paths
    add_directories (path ∷ directories) prefixes paths = do
      paths ← add_prefixes path prefixes paths
      add_directories directories prefixes paths

    abbrev pub libjack_directories : List String
    libjack_directories = "/bin" ∷ "/lib" ∷ "/lib32" ∷ "/lib64" ∷ []

    abbrev pub libjack_prefixes : List String
    libjack_prefixes = "/" ∷ "/usr" ∷ "/usr/local" ∷ []

    -- The rule set that is enforced.
    unfoldable pub setup_landlock : Result Ruleset
    unfolding add_path add_directories
    setup_landlock = do
      paths ← add_path (ps.absolute "/dev") []
      paths ← add_path (ps.path "/usr/share") paths
      let hidraw : Rule = record {
        paths = paths;
        actions = l.fs_read_file ∷ l.fs_write_file ∷ l.fs_read_dir ∷ [];
      }
      paths ← add_directories libjack_directories libjack_prefixes []
      let libjack : Rule = record {
        paths = paths;
        actions = l.fs_read_dir ∷ l.fs_read_file ∷ l.fs_execute ∷ [];
      }
      ok (record { handled = handled_actions; rules = hidraw ∷ libjack ∷ [] })
