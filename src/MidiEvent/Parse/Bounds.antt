-- ===== src/MidiEvent/Parse/Bounds.antt =====
-- What the parser finds in any range of bytes, also in one that cannot be read everywhere.
use ni_traktor_kontrol_f.Base.{
  ℕ, ◌<◌, ◌≡◌, false, [], ◌∷◌, Result, ok, err, Ends, Ends-bind, All, Bool-cases, inl, inr, bit_and,
  ◌>>=◌, arith,
}
use ni_traktor_kontrol_f.Base.Bits.{masks_lem}
use ni_traktor_kontrol_f.MidiEvent.Types.{
  MidiEvent, empty_event, type_of_byte, is_status_byte, is_system,
}
use ni_traktor_kontrol_f.MidiEvent.Parse.{Range, skip_data, read_data, parse_status, parse}

-- A position that gives a byte, if it can be read.
abbrev pub IsByte : Result ℕ → Type 0
IsByte = Ends (λ b. b < 256)

-- A byte that is no status byte has seven bits.
data-lt : (b : ℕ) → b < 256 → is_status_byte b ≡ false → b < 128
unfolding is_status_byte
data-lt b l e = let m = (masks_lem b l).3 in ground (arith, m, e)

skip_data-IsByte : (cs : Range) → All IsByte cs → Ends (All IsByte) (skip_data cs)
unfolding skip_data
skip_data-IsByte [] a = tt
skip_data-IsByte (err e ∷ cs) a = tt
skip_data-IsByte (ok b ∷ cs) a = elim (Bool-cases (is_status_byte b)) [
  | inl s ↦ rw s a
  | inr s ↦ rw s (skip_data-IsByte cs a.1)
]

-- The second byte of data has seven bits, and bytes are left.
abbrev pub IsFound : MidiEvent × Range → Type 0
IsFound r = (r.0.data2 < 128) × All IsByte r.1

read_data-IsFound :
    (e : MidiEvent) (cs : Range) → e.data2 < 128 → All IsByte cs → Ends IsFound (read_data e cs)
unfolding read_data
read_data-IsFound e [] d a = (d, tt)
read_data-IsFound e (err x ∷ []) d a = tt
read_data-IsFound e (ok x ∷ []) d a = elim (Bool-cases (is_status_byte x)) [
  | inl s ↦ rw s (d, a)
  | inr s ↦ rw s (d, tt)
]
read_data-IsFound e (err x ∷ c ∷ cs) d a = tt
read_data-IsFound e (ok x ∷ err y ∷ cs) d a = elim (Bool-cases (is_status_byte x)) [
  | inl s ↦ rw s (d, a)
  | inr s ↦ rw s tt
]
read_data-IsFound e (ok x ∷ ok y ∷ cs) d a = elim (Bool-cases (is_status_byte x)) [
  | inl s ↦ rw s (d, a)
  | inr s ↦ elim (Bool-cases (is_status_byte y)) [
    | inl t ↦ rw (s, t) (d, a.1)
    | inr t ↦ rw (s, t) (data-lt y a.1.0 t, a.1.1)
  ]
]

skipped :
    (e : MidiEvent) (cs : Range)
    → e.data2 < 128
    → All IsByte cs
    → Ends IsFound (skip_data cs >>= λ rest. ok (e, rest))
skipped e cs d a =
    Ends-bind (All IsByte) IsFound (skip_data cs) (λ rest. ok (e, rest)) (skip_data-IsByte cs a)
      (λ rest b. (d, b))

parse_status-IsFound : (cs : Range) → All IsByte cs → Ends IsFound (parse_status cs)
unfolding parse_status
parse_status-IsFound [] a = (omega arith, tt)
parse_status-IsFound (err e ∷ cs) a = tt
parse_status-IsFound (ok status ∷ cs) a = elim (Bool-cases (is_system event.type)) [
  | inl s ↦ rw s (
      Ends-bind IsFound IsFound (skip_data cs >>= λ rest. ok (event, rest)) _
        (skipped event cs (omega arith) a.1) (λ r f. skipped r.0 r.1 f.0 f.1))
  | inr s ↦ rw s (
      Ends-bind IsFound IsFound (read_data event cs) _
        (read_data-IsFound event cs (omega arith) a.1) (λ r f. skipped r.0 r.1 f.0 f.1))
]
  where
    event : MidiEvent
    event = record empty_event {
      type = type_of_byte (bit_and status 0xf0);
      channel = bit_and status 0x0f;
    }

-- If the parser returns, the second byte of data has seven bits.
pub parse-IsFound : (cs : Range) → All IsByte cs → Ends IsFound (parse cs)
unfolding parse
parse-IsFound cs a =
    Ends-bind (All IsByte) IsFound (skip_data cs) parse_status (skip_data-IsByte cs a)
      (λ rest b. parse_status-IsFound rest b)
