-- ===== src/HidDevice.antt =====
-- `FileDescriptor` of driver/src/io/FileDescriptor.hpp, the opening of a `HidDevice`
-- (driver/src/io/HidDevice.cpp) and `discover_device` of driver/src/main.cpp.
pub mod Discovery
use ni_traktor_kontrol_f.Base.{
  ℕ, zero, suc, ◌==◌, if◌then◌else◌, Bool, true, false, Option, none, some, List, [], ◌∷◌, ℤ, pos,
  negsuc, Error, Result, ok, err, hid_error, permission_denied, system_error, terminated, check,
  from_option, ◌>>=◌, ◌>>◌,
}
use ni_traktor_kontrol_f.F1Device.Helpers.{DevInfo, is_f1_device}

-- A negative number is no descriptor.
pub record FileDescriptor : Type 0 where
  pub fd : ℤ

-- -1
abbrev pub no_fd : ℤ
no_fd = negsuc 0

-- `operator bool`
unfoldable pub is_open : FileDescriptor → Bool
is_open f = elim f.fd [ pos n ↦ true | negsuc n ↦ false ]

-- The move constructor and the move assignment of different objects: the new object and what is left
-- of the other one. The assignment does not look at the descriptor that it overwrites.
unfoldable pub move_construct : (other : FileDescriptor) → FileDescriptor × FileDescriptor
move_construct other = (other, record other { fd = no_fd })

unfoldable pub move_assign : (this other : FileDescriptor) → FileDescriptor × FileDescriptor
move_assign this other = (record this { fd = other.fd }, record other { fd = no_fd })

-- The descriptors that are open, without `n`.
unfoldable pub remove : ℕ → List ℕ → List ℕ
remove n [] = []
remove n (m ∷ open_fds) = let rest = remove n open_fds in if n == m then rest else m ∷ rest

-- `close`, which the destructor calls. `closes` tells for which descriptors the system call succeeds.
unfoldable pub close :
    (closes : ℕ → Bool) → FileDescriptor → List ℕ → Result (FileDescriptor × List ℕ)
close closes f open_fds = elim f.fd [
  | negsuc n ↦ ok (f, open_fds)
  | pos n ↦ if closes n then ok (record f { fd = no_fd }, remove n open_fds) else err system_error
]

-- What the system answers for a path: the descriptor, if it can be opened, whether the error is EPERM
-- or EACCES otherwise, and the device's ids, if they can be asked for.
pub record Node : Type 0 where
  pub opened : Option ℕ
  pub denied : Bool
  pub info : Option DevInfo

-- The constructor of `HidDevice`, with the descriptors that are open then.
unfoldable pub open_device : Node → List ℕ → Result (FileDescriptor × List ℕ)
open_device node open_fds = elim node.opened [
  | none ↦ if node.denied then err permission_denied else err hid_error
  | some n ↦ ok (record { fd = pos n }, n ∷ open_fds)
]

unfoldable pub devinfo : Node → FileDescriptor → Result DevInfo
devinfo node f = check (is_open f) >> from_option hid_error node.info

abbrev pub max_hidraw_device_idx : ℕ
max_hidraw_device_idx = 100

-- What a round of the search ends with: a device, the next round, or the end.
pub data Trial : Type 0 where
  found : FileDescriptor → Trial
  next stop : Trial

-- The handlers of `discover_device`, for what a round threw.
unfoldable pub handler : Error → List ℕ → Result (Trial × List ℕ)
handler permission_denied open_fds = ok (next, open_fds)
handler hid_error open_fds = ok (stop, open_fds)
handler e open_fds = err e

module _ (closes : ℕ → Bool) where
  -- `hid_dev` is closed when a round ends, also by an exception.
  unfoldable pub unwind : Error → Result (FileDescriptor × List ℕ) → Result (Trial × List ℕ)
  unwind e (err x) = err terminated
  unwind e (ok (f, open_fds)) = handler e open_fds

  unfoldable pub with_info : FileDescriptor → List ℕ → Result DevInfo → Result (Trial × List ℕ)
  with_info f open_fds (err e) = unwind e (close closes f open_fds)
  with_info f open_fds (ok info) =
      if is_f1_device info
      then (close closes (move_construct f).1 open_fds >>= λ r.
          ok (found (move_construct f).0, r.1))
      else (close closes f open_fds >>= λ r. ok (next, r.1))

  unfoldable pub with_device :
      Node → List ℕ → Result (FileDescriptor × List ℕ) → Result (Trial × List ℕ)
  with_device node open_fds (err e) = handler e open_fds
  with_device node open_fds (ok (f, now_open)) = with_info f now_open (devinfo node f)

  -- A round of `discover_device`; the device that is returned has taken its descriptor.
  unfoldable pub try_device : Node → List ℕ → Result (Trial × List ℕ)
  try_device node open_fds = with_device node open_fds (open_device node open_fds)

  -- `rounds` rounds of the loop from the path with number `i` on.
  unfoldable pub discover :
      (nodes : ℕ → Node) (rounds i : ℕ) → List ℕ → Result (Option FileDescriptor × List ℕ)
  discover nodes zero i open_fds = ok (none, open_fds)
  discover nodes (suc rounds) i open_fds = do
    (trial, open_fds) ← try_device (nodes i) open_fds
    elim trial [
      | found f ↦ ok (some f, open_fds)
      | next ↦ discover nodes rounds (suc i) open_fds
      | stop ↦ ok (none, open_fds)
    ]

  unfoldable pub discover_device :
      (nodes : ℕ → Node) → List ℕ → Result (Option FileDescriptor × List ℕ)
  discover_device nodes open_fds = discover nodes max_hidraw_device_idx 0 open_fds
