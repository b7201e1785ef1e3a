-- ===== src/Tests/Landlock.antt =====
-- A system without /lib32.
use Prim.Native.String.{String, ◌++◌ as ◌<>◌}
use text.Mathlib.Text.{◌==◌}
use ni_traktor_kontrol_f.Base.{ℕ, ◌≡◌, ◌≢◌, refl, Bool, true, if◌then◌else◌, [], ◌∷◌, ok}
use ni_traktor_kontrol_f.Driver.Landlock.{
  Opened, opened, missing, fails, Paths, Actions, setup_landlock, handled_actions,
}
use ni_traktor_kontrol_f.Driver.Landlock.Prefixes.{existing, setup_landlock-existing}

-- A path with whether it is absolute.
abbrev some_paths : Paths
some_paths = record {
  FsPath = String × Bool;
  path = λ s. (s, true);
  absolute = λ s. (s, true);
  append = λ p q. if q.1 then q else (p.0 <> "/" <> q.0, p.1);
  append-absolute = λ p s. refl;
}

abbrev some_actions : Actions
some_actions = record {
  Action = ℕ;
  fs_execute = 0;
  fs_write_file = 1;
  fs_read_file = 2;
  fs_read_dir = 3;
  fs_remove_dir = 4;
  fs_remove_file = 5;
  fs_make_char = 6;
  fs_make_dir = 7;
  fs_make_sock = 8;
  fs_make_fifo = 9;
  fs_make_block = 10;
  fs_make_sym = 11;
  fs_refer = 12;
  fs_truncate = 13;
}

open_path : String × Bool → Opened
open_path p = if p.0 == "/lib32" then missing else opened

opened-ne-fails : opened ≢ fails
opened-ne-fails e = cc

missing-ne-fails : missing ≢ fails
missing-ne-fails e = cc

setup_landlock-existing_example :
    setup_landlock some_paths some_actions open_path
    ≡ ok (record {
      handled = handled_actions some_paths some_actions;
      rules =
          record { paths = ("/dev", true) ∷ ("/usr/share", true) ∷ []; actions = 2 ∷ 1 ∷ 3 ∷ [] }
          ∷ record {
            paths =
                existing some_paths some_actions open_path
                  ("/bin" ∷ "/lib" ∷ "/lib32" ∷ "/lib64" ∷ [])
                  ("/" ∷ "/usr" ∷ "/usr/local" ∷ []);
            actions = 3 ∷ 2 ∷ 0 ∷ [];
          }
          ∷ [];
    })
unfolding open_path
setup_landlock-existing_example =
    setup_landlock-existing some_paths some_actions open_path refl refl
      (opened-ne-fails, (opened-ne-fails, (missing-ne-fails, (opened-ne-fails, tt))))
