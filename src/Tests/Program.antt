-- ===== src/Tests/Program.antt =====
-- A machine at which the theorems on the OSC driver's `main` are applied: a path that may not be
-- opened, one with a mouse, and the F1, and a program whose owner is root and that root starts.
use mathlib.Core.Option.{some-injective}
use ni_traktor_kontrol_f.Base.{
  ℕ, zero, suc, ◌<◌, ◌≡◌, ◌==◌, ◌||◌, refl, ap, sym, ==_iff, if◌then◌else◌, Bool, true, false,
  Option, none, some, [], ◌∷◌, arith,
}
use ni_traktor_kontrol_f.OscDriver.Program.{
  HidrawNode, finds, search_device, is_f1, Ids, prepare, drop_privileges,
}
use ni_traktor_kontrol_f.OscDriver.Program.Search.{
  IsPassed, not_permitted, other_device, Decides, is_device, search_device-Decides, prepare-geteuid,
}

abbrev nodes : ℕ → HidrawNode
nodes zero = record { opened = none; denied = true; info = none }
nodes (suc zero) = record {
  opened = some 5;
  denied = false;
  info = some (record { vendor = 0x046d; product = 0xc077 });
}
nodes (suc (suc _)) = record {
  opened = some 5;
  denied = false;
  info = some (record { vendor = 0x17cc; product = 0x1120 });
}

mouse_passed : is_f1 (record { vendor = 0x046d; product = 0xc077 }) ≡ false
unfolding is_f1
mouse_passed = refl

f1_found : is_f1 (record { vendor = 0x17cc; product = 0x1120 }) ≡ true
unfolding is_f1
f1_found = refl

passed : (k : ℕ) → k < 2 → IsPassed (nodes k)
passed zero l = not_permitted refl refl
passed (suc zero) l =
    other_device 5 (record { vendor = 0x046d; product = 0xc077 }) refl refl mouse_passed
passed (suc (suc k)) l = absurd (omega arith)

decided : Decides (nodes 2) (finds 5) (5 ∷ [])
decided = is_device 5 (record { vendor = 0x17cc; product = 0x1120 }) refl refl f1_found

search_device-Decides_example : search_device nodes 9 0 [] ≡ (finds 5, 5 ∷ [])
search_device-Decides_example =
    search_device-Decides nodes 9 2 (finds 5) (5 ∷ []) (omega arith) passed decided

record Process : Type 0 where
  pub uid : ℕ
  pub euid : ℕ
  pub gid : ℕ

set_group : ℕ → Process → Option Process
set_group n p =
    if p.euid == 0 || p.gid == n
    then some (record { uid = p.uid; euid = p.euid; gid = n })
    else none

set_user : ℕ → Process → Option Process
set_user n p =
    if p.euid == 0
    then some (record { uid = n; euid = n; gid = p.gid })
    else if p.uid == n
    then some (record { uid = p.uid; euid = n; gid = p.gid })
    else none

if-some :
    {A B : Type 0} (f : A → B) (b : Bool) {a q : A}
    → (if b then some a else none) ≡ some q
    → f q ≡ f a
if-some f true e = ap f (some-injective _ _ (sym e))
if-some f false e = absurd cc

set_group-euid : (n : ℕ) (p q : Process) → set_group n p ≡ some q → q.euid ≡ p.euid
unfolding set_group
set_group-euid n p q e = if-some (λ r. r.euid) (p.euid == 0 || p.gid == n) e

set_group-uid : (n : ℕ) (p q : Process) → set_group n p ≡ some q → q.uid ≡ p.uid
unfolding set_group
set_group-uid n p q e = if-some (λ r. r.uid) (p.euid == 0 || p.gid == n) e

set_user-euid : (n : ℕ) (p q : Process) → p.euid ≡ 0 → set_user n p ≡ some q → q.euid ≡ n
unfolding set_user
set_user-euid n p q root e = sym (
    ap (λ r. r.euid)
      (some-injective (record { uid = n; euid = n; gid = p.gid }) q
        (rw ((==_iff p.euid 0).1 root, set_user) at e)))

-- A root process may set both ids to any, another one its effective ones to its real ones.
abbrev unix_ids : Ids
unix_ids = record {
  Process = Process;
  getuid = λ p. p.uid;
  geteuid = λ p. p.euid;
  getgid = λ p. p.gid;
  setgid = set_group;
  setuid = set_user;
  setgid-geteuid = set_group-euid;
  setgid-getuid = set_group-uid;
  setuid-geteuid = set_user-euid;
}

-- Root starts the program.
abbrev root_process : Process
root_process = record { uid = 0; euid = 0; gid = 0 }

root_prepared : prepare unix_ids root_process ≡ some root_process
unfolding prepare drop_privileges set_group set_user
root_prepared = refl

root_started : unix_ids.geteuid root_process ≡ 0
root_started = refl

prepare-geteuid_example : unix_ids.geteuid root_process ≡ 0
prepare-geteuid_example =
    prepare-geteuid unix_ids root_process root_process root_started root_prepared
