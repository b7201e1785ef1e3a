-- ===== src/MidiEvent/Parse/Plain.antt =====
-- Parsing a range whose bytes can all be read: a function on byte lists.
use ni_traktor_kontrol_f.Base.{
  ap, suc, length, ℕ, if◌then◌else◌, List, [], ◌∷◌, map, bit_and, ok, ◌≡◌, refl, inl, inr,
  Bool-cases,
}
use ni_traktor_kontrol_f.MidiEvent.Types.{
  MidiEvent, empty_event, type_of_byte, is_status_byte, is_system,
}
use ni_traktor_kontrol_f.MidiEvent.Parse.{Range, skip_data, read_data, parse_status, parse}

abbrev pub readable : List ℕ → Range
readable = map ok

pub length-readable : (bs : List ℕ) → length (readable bs) ≡ length bs
length-readable [] = refl
length-readable (b ∷ bs) = ap suc (length-readable bs)

-- The bytes from the first status byte on.
unfoldable pub from_status : List ℕ → List ℕ
from_status [] = []
from_status (b ∷ bs) = let rest = from_status bs in if is_status_byte b then b ∷ bs else rest

unfoldable pub take_data : MidiEvent → List ℕ → MidiEvent × List ℕ
take_data e [] = (e, [])
take_data e (a ∷ []) = if is_status_byte a then (e, a ∷ []) else (record e { data1 = a }, [])
take_data e (a ∷ b ∷ bs) =
    if is_status_byte a
    then (e, a ∷ b ∷ bs)
    else if is_status_byte b
    then (record e { data1 = a }, b ∷ bs)
    else (record e { data1 = a; data2 = b }, bs)

unfoldable pub begun : ℕ → MidiEvent
begun status = record empty_event {
  type = type_of_byte (bit_and status 0xf0);
  channel = bit_and status 0x0f;
}

unfoldable pub plain_status : List ℕ → MidiEvent × List ℕ
unfolding take_data from_status
plain_status [] = (empty_event, [])
plain_status (status ∷ bs) =
    let p =
      if is_system (begun status).type
      then (begun status, from_status bs)
      else take_data (begun status) bs in
    (p.0, from_status p.1)

skip_data-readable : (bs : List ℕ) → skip_data (readable bs) ≡ ok (readable (from_status bs))
unfolding skip_data from_status
skip_data-readable [] = refl
skip_data-readable (b ∷ bs) = elim (Bool-cases (is_status_byte b)) [
  | inl s ↦ rw s
  | inr d ↦ rw d (skip_data-readable bs)
]

read_data-readable :
    (e : MidiEvent) (bs : List ℕ)
    → read_data e (readable bs) ≡ ok ((take_data e bs).0, readable (take_data e bs).1)
unfolding read_data take_data
read_data-readable e [] = refl
read_data-readable e (a ∷ []) = elim (Bool-cases (is_status_byte a)) [ inl s ↦ rw s | inr d ↦ rw d ]
read_data-readable e (a ∷ b ∷ bs) = elim (Bool-cases (is_status_byte a)) [
  | inl s ↦ rw s
  | inr d ↦ elim (Bool-cases (is_status_byte b)) [ inl s' ↦ rw (d, s') | inr d' ↦ rw (d, d') ]
]

plain_lem :
    (bs : List ℕ)
    → parse_status (readable bs) ≡ ok ((plain_status bs).0, readable (plain_status bs).1)
unfolding parse_status plain_status begun
plain_lem [] = refl
plain_lem (status ∷ bs) = elim (Bool-cases (is_system (begun status).type)) [
  | inl s ↦ rw (s, skip_data-readable bs, skip_data-readable (from_status bs))
  | inr d ↦
      rw (
        d,
        read_data-readable (begun status) bs,
        skip_data-readable (take_data (begun status) bs).1,
      )
]

-- A range that can be read is parsed without an error.
pub parse-readable :
    (bs : List ℕ)
    → parse (readable bs)
      ≡ ok ((plain_status (from_status bs)).0, readable (plain_status (from_status bs)).1)
unfolding parse
parse-readable bs = rw (skip_data-readable bs) (plain_lem (from_status bs))
