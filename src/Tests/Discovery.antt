-- ===== src/Tests/Discovery.antt =====
-- Paths at which the theorem on the search for a device is applied.
use ni_traktor_kontrol_f.Base.{
  ℕ, zero, suc, ==_iff, true, false, ◌≡◌, refl, Option, none, some, [], ◌∷◌, ok,
}
use ni_traktor_kontrol_f.HidDevice.{Node, remove, discover_device}
use ni_traktor_kontrol_f.HidDevice.Discovery.{Outcome, device, open_after, discover_device-Outcome}

-- No permission, another device, and then the device.
abbrev paths : ℕ → Node
paths zero = record { opened = none; denied = true; info = none }
paths (suc zero) = record {
  opened = some 3;
  denied = false;
  info = some (record { vendor = 0x046d; product = 0xc077 });
}
paths (suc (suc n)) = record {
  opened = some 4;
  denied = false;
  info = some (record { vendor = 0x17cc; product = 0x1120 });
}

removed : (n : ℕ) → remove n (n ∷ []) ≡ []
unfolding remove
removed n = rw ((==_iff n n).1 refl)

discover_device-Outcome_example :
    (result : Option ℕ) × Outcome paths 100 0 result
    × (discover_device (λ n. true) paths [] ≡ ok (device result, open_after result []))
discover_device-Outcome_example =
    discover_device-Outcome (λ n. true) paths [] (λ n. refl) (λ i n e. removed n)
