-- ===== src/MidiEvent/Types.antt =====
-- `MidiEvent`, its types, constructors, comparison and `to_bytes`.
use ni_traktor_kontrol_f.Base.{
  ℕ, ◌==◌, if◌then◌else◌, Bool, true, false, ◌&&◌, not, List, [], ◌∷◌, Result, ok, ◌>>◌, check,
  bit_and, bit_or, ◌%◌,
}

pub data MidiType : Type 0 where
  note_off note_on polyphonic_aftertouch control_change : MidiType
  program_change monophonic_aftertouch pitch_bend system_message : MidiType

-- `static_cast<byte>(type)`.
unfoldable pub type_byte : MidiType → ℕ
type_byte note_off = 0x80
type_byte note_on = 0x90
type_byte polyphonic_aftertouch = 0xa0
type_byte control_change = 0xb0
type_byte program_change = 0xc0
type_byte monophonic_aftertouch = 0xd0
type_byte pitch_bend = 0xe0
type_byte system_message = 0xf0

-- `static_cast<Type>(b)` of a byte whose lower half is clear. Bytes below 0x80 name no enumerator;
-- `parse` never casts one.
unfoldable pub type_of_byte : ℕ → MidiType
type_of_byte b =
    if b == 0x90
    then note_on
    else if b == 0xa0
    then polyphonic_aftertouch
    else if b == 0xb0
    then control_change
    else if b == 0xc0
    then program_change
    else if b == 0xd0
    then monophonic_aftertouch
    else if b == 0xe0
    then pitch_bend
    else if b == 0xf0
    then system_message
    else note_off

unfoldable pub same_type : MidiType → MidiType → Bool
same_type s t = type_byte s == type_byte t

-- The two data bytes are a union, whose parts read `raw[0]` and `raw[1]`.
pub record MidiEvent : Type 0 where
  pub type : MidiType
  pub channel : ℕ
  pub data1 : ℕ
  pub data2 : ℕ

-- `MidiEvent{}`.
abbrev pub empty_event : MidiEvent
empty_event = record { type = note_off; channel = 0; data1 = 0; data2 = 0 }

abbrev pub midi_event : MidiType → ℕ → ℕ → ℕ → MidiEvent
midi_event t c a b = record { type = t; channel = c; data1 = a; data2 = b }

unfoldable pub is_status_byte : ℕ → Bool
is_status_byte b = not (bit_and b 0x80 == 0)

abbrev pub is_system : MidiType → Bool
is_system system_message = true
is_system _ = false

unfoldable pub to_bytes : MidiEvent → Result (List ℕ)
unfolding type_byte
to_bytes e = do
  check (not (is_system e.type))
  ok (bit_or (type_byte e.type) e.channel % 256 ∷ e.data1 ∷ e.data2 ∷ [])

-- `operator==`.
unfoldable pub same_event : MidiEvent → MidiEvent → Bool
unfolding same_type
same_event a b =
    same_type a.type b.type && a.channel == b.channel && a.data1 == b.data1 && a.data2 == b.data2
