-- ===== src/Driver/Landlock/Prefixes.antt =====
-- The prefixes have no part in the paths of `setup_landlock` (main.cpp).
use mathlib.Core.List.{append_assoc, append-nil}
use Prim.Native.String.{String}
use ni_traktor_kontrol_f.Base.{◌≡◌, ◌≢◌, refl, ap, ◌∙◌, sym, List, [], ◌∷◌, ◌++◌, map, All, ok}
use ni_traktor_kontrol_f.Driver.Landlock.{
  Opened, opened, missing, fails, Paths, Actions, handled_actions, add_path, try_path, add_prefixes,
  add_directories, libjack_directories, libjack_prefixes, setup_landlock,
}

module _ (ps : Paths) (l : Actions) (open_path : ps.FsPath → Opened) where
  -- As often as there are prefixes.
  repeated : (prefixes : List String) → ps.FsPath → Opened → List ps.FsPath
  repeated prefixes p opened = map (λ _. p) prefixes
  repeated prefixes p missing = []
  repeated prefixes p fails = []

  -- The directories that exist, as often as there are prefixes.
  pub existing : (directories prefixes : List String) → List ps.FsPath
  existing [] prefixes = []
  existing (path ∷ directories) prefixes =
      repeated prefixes (ps.absolute path) (open_path (ps.absolute path))
      ++ existing directories prefixes

  try_path-opened :
      (x path : String) (paths : List ps.FsPath)
      → open_path (ps.absolute path) ≡ opened
      → try_path ps l open_path (ps.append (ps.absolute x) (ps.absolute path)) paths
        ≡ ok (paths ++ (ps.absolute path ∷ []))
  unfolding try_path
  try_path-opened x path paths e =
      ap (λ p. try_path ps l open_path p paths) (ps.append-absolute (ps.absolute x) path)
      ∙ rw (e, try_path) refl

  try_path-missing :
      (x path : String) (paths : List ps.FsPath)
      → open_path (ps.absolute path) ≡ missing
      → try_path ps l open_path (ps.append (ps.absolute x) (ps.absolute path)) paths ≡ ok paths
  unfolding try_path
  try_path-missing x path paths e =
      ap (λ p. try_path ps l open_path p paths) (ps.append-absolute (ps.absolute x) path)
      ∙ rw (e, try_path) refl

  add_prefixes-repeated :
      (path : String) (prefixes : List String) (o : Opened) (paths : List ps.FsPath)
      → open_path (ps.absolute path) ≡ o
      → o ≢ fails
      → add_prefixes ps l open_path path prefixes paths
        ≡ ok (paths ++ repeated prefixes (ps.absolute path) o)
  unfolding add_prefixes repeated
  add_prefixes-repeated path prefixes fails paths e h = absurd (h refl)
  add_prefixes-repeated path [] opened paths e h = ap ok (sym (append-nil paths))
  add_prefixes-repeated path [] missing paths e h = ap ok (sym (append-nil paths))
  add_prefixes-repeated path (x ∷ xs) opened paths e h =
      rw (try_path-opened x path paths e)
        (add_prefixes-repeated path xs opened (paths ++ (ps.absolute path ∷ [])) e h)
      ∙ ap ok (append_assoc paths (ps.absolute path ∷ []) (map (λ _. ps.absolute path) xs))
  add_prefixes-repeated path (x ∷ xs) missing paths e h =
      rw (try_path-missing x path paths e) (add_prefixes-repeated path xs missing paths e h)

  add_directories-existing :
      (directories prefixes : List String) (paths : List ps.FsPath)
      → All (λ path. open_path (ps.absolute path) ≢ fails) directories
      → add_directories ps l open_path directories prefixes paths
        ≡ ok (paths ++ existing directories prefixes)
  unfolding add_directories existing
  add_directories-existing [] prefixes paths a = ap ok (sym (append-nil paths))
  add_directories-existing (path ∷ directories) prefixes paths a =
      rw (add_prefixes-repeated path prefixes (open_path (ps.absolute path)) paths refl a.0)
        (add_directories-existing directories prefixes _ a.1)
      ∙ ap ok (append_assoc paths _ (existing directories prefixes))

  -- If both paths of the first rule can be opened, and the directories of the second one as far as they
  -- exist, the rule set is enforced, and its second rule has those of /bin, /lib, /lib32 and /lib64 that
  -- exist, each three times: no directory under /usr or /usr/local.
  pub setup_landlock-existing :
      open_path (ps.absolute "/dev") ≡ opened
      → open_path (ps.path "/usr/share") ≡ opened
      → All (λ path. open_path (ps.absolute path) ≢ fails) (libjack_directories ps l open_path)
      → setup_landlock ps l open_path
        ≡ ok (record {
          handled = handled_actions ps l;
          rules =
              record {
                paths = ps.absolute "/dev" ∷ ps.path "/usr/share" ∷ [];
                actions = l.fs_read_file ∷ l.fs_write_file ∷ l.fs_read_dir ∷ [];
              }
              ∷ record {
                paths =
                    existing
                      ("/bin" ∷ "/lib" ∷ "/lib32" ∷ "/lib64" ∷ [])
                      ("/" ∷ "/usr" ∷ "/usr/local" ∷ []);
                actions = l.fs_read_dir ∷ l.fs_read_file ∷ l.fs_execute ∷ [];
              }
              ∷ [];
        })
  unfolding setup_landlock add_path
  setup_landlock-existing dev share a = rw (
    dev,
    share,
    add_path,
    setup_landlock,
    add_directories-existing _ (libjack_prefixes ps l open_path) [] a,
  )
