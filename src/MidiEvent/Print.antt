-- ===== src/MidiEvent/Print.antt =====
-- `operator<<` of MidiEvent.cpp. How the stream prints a number in hexadecimal is a parameter.
use Prim.Native.String.{String, ◌++◌ as ◌<>◌}
use ni_traktor_kontrol_f.Base.{ℕ}
use ni_traktor_kontrol_f.MidiEvent.Types.{
  MidiType, MidiEvent, note_off, note_on, polyphonic_aftertouch, control_change, program_change,
  monophonic_aftertouch, pitch_bend, system_message,
}

unfoldable pub type_text : MidiType → String
type_text note_off = "Note Off"
type_text note_on = "Note On"
type_text polyphonic_aftertouch = "PAftertouch"
type_text control_change = "CC"
type_text program_change = "PC"
type_text monophonic_aftertouch = "MAftertouch"
type_text pitch_bend = "Pitch Bend"
type_text system_message = "SysMsg"

-- The text that is appended to the stream.
unfoldable pub print_event : (hex : ℕ → String) → MidiEvent → String
unfolding type_text
print_event hex e =
    "MIDI["
    <> type_text e.type
    <> " "
    <> hex e.channel
    <> ":"
    <> " "
    <> hex e.data1
    <> "/"
    <> hex e.data2
    <> "]"
