-- ===== src/HidDevice/Discovery.antt =====
-- Which device `discover_device` (driver/src/main.cpp) finds, and which descriptors it leaves open.
use ni_traktor_kontrol_f.Base.{
  ℕ, zero, suc, Bool, true, false, ◌≡◌, refl, Option, none, some, List, ◌∷◌, pos, ok, Bool-cases,
  Option-cases, inl, inr,
}
use ni_traktor_kontrol_f.F1Device.Helpers.{DevInfo, is_f1_device}
use ni_traktor_kontrol_f.HidDevice.{
  FileDescriptor, no_fd, is_open, move_construct, remove, close, Node, open_device, devinfo,
  handler, unwind, with_info, with_device, try_device, discover, discover_device,
}

-- The search ends at the first path that can neither be opened nor passed over, and finds the first
-- device of the right kind before it.
pub data Outcome (nodes : ℕ → Node) : (rounds i : ℕ) → Option ℕ → Type 0 where
  exhausted : {i : ℕ} → Outcome nodes 0 i none
  no_permission :
      {rounds i : ℕ} {result : Option ℕ}
      → (nodes i).opened ≡ none
      → (nodes i).denied ≡ true
      → Outcome nodes rounds (suc i) result
      → Outcome nodes (suc rounds) i result
  other_device :
      {rounds i n : ℕ} {d : DevInfo} {result : Option ℕ}
      → (nodes i).opened ≡ some n
      → (nodes i).info ≡ some d
      → is_f1_device d ≡ false
      → Outcome nodes rounds (suc i) result
      → Outcome nodes (suc rounds) i result
  no_device :
      {rounds i : ℕ}
      → (nodes i).opened ≡ none
      → (nodes i).denied ≡ false
      → Outcome nodes (suc rounds) i none
  no_info :
      {rounds i n : ℕ}
      → (nodes i).opened ≡ some n
      → (nodes i).info ≡ none
      → Outcome nodes (suc rounds) i none
  this_device :
      {rounds i n : ℕ} {d : DevInfo}
      → (nodes i).opened ≡ some n
      → (nodes i).info ≡ some d
      → is_f1_device d ≡ true
      → Outcome nodes (suc rounds) i (some n)

-- What the search returns, and the descriptors open after it: the device's and those before.
abbrev pub device : Option ℕ → Option FileDescriptor
device none = none
device (some n) = some (record { fd = pos n })

abbrev pub open_after : Option ℕ → List ℕ → List ℕ
open_after none open_fds = open_fds
open_after (some n) open_fds = n ∷ open_fds

-- The system gives a descriptor that is not open.
abbrev pub IsNew : (nodes : ℕ → Node) → List ℕ → Type 0
IsNew nodes open_fds = (i n : ℕ) → (nodes i).opened ≡ some n → remove n (n ∷ open_fds) ≡ open_fds

module _ (closes : ℕ → Bool) (nodes : ℕ → Node) (open_fds : List ℕ) where
  close-open :
      (n : ℕ)
      → closes n ≡ true
      → remove n (n ∷ open_fds) ≡ open_fds
      → close closes (record { fd = pos n }) (n ∷ open_fds) ≡ ok (record { fd = no_fd }, open_fds)
  unfolding close
  close-open n c r = rw (c, r)

  close-none :
      (fds : List ℕ) → close closes (record { fd = no_fd }) fds ≡ ok (record { fd = no_fd }, fds)
  unfolding close
  close-none fds = refl

  discover-Outcome :
      (rounds i : ℕ)
      → ((n : ℕ) → closes n ≡ true)
      → IsNew nodes open_fds
      → (result : Option ℕ) × Outcome nodes rounds i result
        × (discover closes nodes rounds i open_fds ≡ ok (device result, open_after result open_fds))
  unfolding discover try_device with_device with_info unwind open_device devinfo handler
      move_construct is_open
  discover-Outcome zero i c fresh = (none, exhausted, refl)
  discover-Outcome (suc rounds) i c fresh = elim (Option-cases (nodes i).opened) [
    | inl o ↦ elim (Bool-cases (nodes i).denied) [
      | inl d ↦
          let (result, out, e) = discover-Outcome rounds (suc i) c fresh in
          (result, no_permission o d out, rw (o, d) e)
      | inr d ↦ (none, no_device o d, rw (o, d))
    ]
    | inr (n, o) ↦ elim (Option-cases (nodes i).info) [
      | inl x ↦ (none, no_info o x, rw (o, x, close-open n (c n) (fresh i n o)))
      | inr (d, x) ↦ elim (Bool-cases (is_f1_device d)) [
        | inl f ↦ (some n, this_device o x f, rw (o, x, f, close-none (n ∷ open_fds)))
        | inr f ↦
            let (result, out, e) = discover-Outcome rounds (suc i) c fresh in
            (result, other_device o x f out, rw (o, x, f, close-open n (c n) (fresh i n o)) e)
      ]
    ]
  ]

  -- If the system closes what it is asked to close, the search returns without an exception. It tries
  -- a hundred paths in their order, passes over those without permission and other devices, ends at
  -- the first other error, and returns the first device of the right kind; of all descriptors that it
  -- opened, only that device's is open after it.
  pub discover_device-Outcome :
      ((n : ℕ) → closes n ≡ true)
      → IsNew nodes open_fds
      → (result : Option ℕ) × Outcome nodes 100 0 result
        × (discover_device closes nodes open_fds ≡ ok (device result, open_after result open_fds))
  unfolding discover_device
  discover_device-Outcome c fresh = discover-Outcome 100 0 c fresh
