-- ===== src/MidiEvent/Notes.antt =====
-- `MidiEvent::note_from_name` and the events that are named by a note.
use Prim.Native.Nat.{bit_and}
use ni_traktor_kontrol_f.Base.{
  ℕ, ◌+◌, ◌*◌, ◌%◌, ◌==◌, leb, if◌then◌else◌, ◌&&◌, List, [], ◌∷◌, length, Result, ok, undefined,
  index, ◌>>=◌, ◌>>◌, check,
}
use ni_traktor_kontrol_f.MidiEvent.Types.{
  MidiEvent, midi_event, note_on as on_type, note_off as off_type, control_change as cc_type,
}

-- `NOTE_NAME_VALUE`: * A B C D E F G.
abbrev note_name_value : List ℕ
note_name_value = 0 ∷ 9 ∷ 11 ∷ 0 ∷ 2 ∷ 4 ∷ 5 ∷ 7 ∷ []

-- A name is the list of its characters' codes. `-1` is 255 in a byte.
unfoldable pub note_from_name : List ℕ → Result ℕ
note_from_name name = do
  check (leb 2 (length name) && leb (length name) 3)
  first ← index undefined name 0
  second ← index undefined name 1
  let column = first % 8
  check (leb column 8)
  base ← index undefined note_name_value column
  let note_val = (base + (if second == b'b' then 255 else if second == b'#' then 1 else 0)) % 256
  octave_char ← if length name == 2 then ok second else index undefined name 2
  check (bit_and octave_char 0x30 == 0x30)
  let octave = bit_and octave_char 0x0f
  ok ((octave * 12 + note_val + 12) % 256)

unfoldable pub note_off : List ℕ → ℕ → ℕ → Result MidiEvent
unfolding note_from_name
note_off name velocity channel = do
  n ← note_from_name name
  ok (midi_event off_type channel n velocity)

unfoldable pub note_on : List ℕ → ℕ → ℕ → Result MidiEvent
unfolding note_from_name
note_on name velocity channel = do
  n ← note_from_name name
  ok (midi_event on_type channel n velocity)

unfoldable pub control_change : ℕ → ℕ → ℕ → MidiEvent
control_change controller value channel = midi_event cc_type channel controller value
