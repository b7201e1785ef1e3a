-- ===== src/OscDriver/Program.antt =====
-- `main` of driver-osc/src/exe/osc_driver.cpp: the search for a device, the privileges, the wait for the
-- session, and the exit codes. What the system and the session's thread do are arguments.
pub mod Search
pub mod Exits
use ni_traktor_kontrol_f.Base.{
  ℕ, zero, suc, ◌==◌, ◌≡◌, if◌then◌else◌, Bool, true, false, ◌&&◌, ◌||◌, Option, none, some, List,
  [], ◌∷◌, Result, ok, err, hid_dev_exception, ◌>>=◌,
}
use ni_traktor_kontrol_f.F1Device.Helpers.{DevInfo}
use ni_traktor_kontrol_f.HidDevice.{remove}
use ni_traktor_kontrol_f.OscDriver.NonSession.{
  State, running, session_await_open, hello_start, failed, session_is_ready,
}
use ni_traktor_kontrol_f.OscDriver.InputChange.{F1InputChange}
use ni_traktor_kontrol_f.OscDriver.Loop.{Core, exec_loop}

-- What the system answers for a path: the descriptor, if it can be opened, whether `errno` is EACCES
-- otherwise, and the device's ids, if they can be asked for.
pub record HidrawNode : Type 0 where
  pub opened : Option ℕ
  pub denied : Bool
  pub info : Option DevInfo

-- The test for the F1.
unfoldable pub is_f1 : DevInfo → Bool
is_f1 d = d.vendor == 0x17cc && d.product == 0x1120

-- How the search ends: by an exit code, with a device's descriptor, or not within the paths tried.
pub data SearchEnd : Type 0 where
  exits : (code : ℕ) → SearchEnd
  finds : (fd : ℕ) → SearchEnd
  searching : SearchEnd

-- A round of the search, with the rounds that follow it and the descriptors that are open. The result
-- of `close` is not looked at.
unfoldable pub try_node :
    HidrawNode → (more : List ℕ → SearchEnd × List ℕ) → List ℕ → SearchEnd × List ℕ
try_node n more open_fds = elim n.opened [
  | none ↦ if n.denied then more open_fds else (exits 2, open_fds)
  | some fd ↦ elim n.info [
    | none ↦ (exits 3, fd ∷ open_fds)
    | some d ↦ if is_f1 d then (finds fd, fd ∷ open_fds) else more (remove fd (fd ∷ open_fds))
  ]
]

-- `rounds` rounds of the loop from path `i` on.
unfoldable pub search_device : (nodes : ℕ → HidrawNode) (rounds i : ℕ) → List ℕ → SearchEnd × List ℕ
search_device nodes zero i open_fds = (searching, open_fds)
search_device nodes (suc rounds) i open_fds =
    try_node (nodes i) (search_device nodes rounds (suc i)) open_fds

-- What is used of a process's ids. A process that may set them gets the new id as its real and as its
-- effective one; setting the group leaves the user alone.
pub record Ids : Type 1 where
  pub Process : Type 0
  pub getuid : Process → ℕ
  pub geteuid : Process → ℕ
  pub getgid : Process → ℕ
  pub setgid : ℕ → Process → Option Process
  pub setuid : ℕ → Process → Option Process
  pub setgid-geteuid : (n : ℕ) (p q : Process) → setgid n p ≡ some q → geteuid q ≡ geteuid p
  pub setgid-getuid : (n : ℕ) (p q : Process) → setgid n p ≡ some q → getuid q ≡ getuid p
  pub setuid-geteuid : (n : ℕ) (p q : Process) → geteuid p ≡ 0 → setuid n p ≡ some q → geteuid q ≡ n

module _ (ids : Ids) where
  -- `drop_privileges`; `none` is the exit with code 1.
  unfoldable pub drop_privileges : ids.Process → Option ids.Process
  drop_privileges p = elim (ids.setgid (ids.getgid p) p) [
    | none ↦ none
    | some q ↦ ids.setuid (ids.getuid q) q
  ]

  -- With its guard in `main`.
  unfoldable pub prepare : ids.Process → Option ids.Process
  unfolding drop_privileges
  prepare p = if ids.getuid p == 0 then drop_privileges p else some p

-- How `exec_driver` ends: it returns a code, or goes on.
pub data Run : Type 0 where
  returns : (code : ℕ) → Run
  goes_on : Run

unfoldable pub session_has_failed : State → Bool
session_has_failed failed = true
session_has_failed _ = false

-- Whether the wait for the session ends: with the state that is seen first, or one of those after each
-- pause.
unfoldable pub await_session : State → List State → Bool
await_session s [] = session_is_ready s || session_has_failed s
await_session s (t ∷ later) = session_is_ready s || session_has_failed s || await_session t later

-- What stands between the search and the loop: with a session, the states that the wait sees and
-- the one that is looked at after it, and with JACK alone, the result of `connect`.
pub data Connection : Type 0 where
  by_session : (first : State) (later : List State) (now : State) → Connection
  by_jack : (connected : Result (Unit {0})) → Connection

module _ (scaled : Bool → ℕ → ℕ) {Sink : Type 0}
    (broadcast : F1InputChange → Sink → Result Sink) where
  -- The loop, for as many reports.
  abbrev pub run_loop :
      (reports : List (Option (List ℕ))) (sent : List ℕ → Option ℕ) (bytes : List ℕ)
      → Sink
      → Result Run
  run_loop reports sent bytes sink =
      exec_loop scaled broadcast reports sent bytes sink >>= λ core. ok goes_on

  unfoldable pub exec_driver :
      Connection
      → (reports : List (Option (List ℕ))) (sent : List ℕ → Option ℕ) (bytes : List ℕ) → Sink
      → Result Run
  exec_driver (by_session first later now) reports sent bytes sink =
      if await_session first later
      then if session_has_failed now then ok (returns 4) else run_loop reports sent bytes sink
      else ok goes_on
  exec_driver (by_jack connected) reports sent bytes sink =
      connected >>= λ _. run_loop reports sent bytes sink

  -- The handler around `exec_driver`.
  unfoldable pub caught : Result Run → Result Run
  caught (ok r) = ok r
  caught (err hid_dev_exception) = ok (returns 1)
  caught (err e) = err e

  -- What follows `drop_privileges`, and what follows the search.
  unfoldable pub after_prepare : {P : Type 0} → Option P → (driven : Result Run) → Result Run
  unfolding caught
  after_prepare none driven = ok (returns 1)
  after_prepare (some _) driven = caught driven

  unfoldable pub after_search : SearchEnd → (found : Result Run) → Result Run
  after_search searching found = ok goes_on
  after_search (exits code) found = ok (returns code)
  after_search (finds fd) found = found

  -- `main`, given the process and as many paths as are looked at.
  unfoldable pub main_program :
      (ids : Ids) (p : ids.Process) (nodes : ℕ → HidrawNode) (rounds : ℕ)
      → Connection
      → (reports : List (Option (List ℕ))) (sent : List ℕ → Option ℕ) (bytes : List ℕ) → Sink
      → Result Run
  unfolding after_prepare after_search
  main_program ids p nodes rounds connection reports sent bytes sink =
      after_search (search_device nodes rounds 0 []).0
        (after_prepare (prepare ids p) (exec_driver connection reports sent bytes sink))
