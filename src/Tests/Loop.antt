-- ===== src/Tests/Loop.antt =====
-- Reports at which the theorems on the OSC driver's loop are applied: a stop button is pressed with a
-- matrix button, and then both are released. The changes go to the JACK client.
use ni_traktor_kontrol_f.Base.{
  ℕ, ◌/◌, ◌≡◌, if◌then◌else◌, Bool, true, false, refl, some, List, [], ◌∷◌, replicate, ok, All,
}
use ni_traktor_kontrol_f.OscDriver.InputChange.Follow.{turned, expected}
use ni_traktor_kontrol_f.OscDriver.JackClient.{
  JackClient, push_event, push_notes, push_controllers, write_midi,
}
use ni_traktor_kontrol_f.OscDriver.Loop.{exec_loop, zero_state}
use ni_traktor_kontrol_f.OscDriver.Loop.Toggles.{flip_all, switched}
use ni_traktor_kontrol_f.OscDriver.Loop.Lights.{shown_core}
use ni_traktor_kontrol_f.OscDriver.Loop.Rounds.{
  DeviceReport, IsDeviceReport, received, CanWrite, last_state, last_toggles, all_changes,
  broadcast_all, exec_loop-shown_core,
}
use ni_traktor_kontrol_f.Tests.Rings.{byte_ring}
use ni_traktor_kontrol_f.Tests.Samples.{
  at_rest, moved, at_rest-HasShape, at_rest-InRange, moved-HasShape, moved-InRange,
}

abbrev pub lightness : Bool → ℕ → ℕ
lightness b c = if b then c else c / 5

abbrev pub reports : List DeviceReport
reports =
    record { state = moved; bit_a = true; bit_b = false; bit_c = true }
    ∷ record { state = at_rest; bit_a = false; bit_b = false; bit_c = true }
    ∷ []

abbrev pub client : JackClient byte_ring
client = record {
  is_connected = true;
  out_port = true;
  input_buf = some (record { stored = []; free = 255; before_wrap = 255 });
  midi_channel = 0;
  created_midi_bytes = 0;
  sent_midi_bytes = 0;
}

-- A note on, a controller, and a note off.
abbrev pub told_client : JackClient byte_ring
told_client = record client {
  input_buf = some (record {
    stored = 0x90 ∷ 49 ∷ 127 ∷ 0xb0 ∷ 0x70 ∷ 127 ∷ 0x80 ∷ 49 ∷ 0 ∷ [];
    free = 246;
    before_wrap = 255;
  });
  created_midi_bytes = 9;
}

pub told :
    broadcast_all lightness
      (push_event byte_ring)
      (all_changes zero_state (replicate 4 false) reports)
      client
    ≡ ok told_client
unfolding push_event push_notes push_controllers write_midi turned expected flip_all switched
told = refl

pub reports-IsDeviceReport : All IsDeviceReport reports
reports-IsDeviceReport = (
  record { shape = moved-HasShape; range = moved-InRange; id = refl },
  (record { shape = at_rest-HasShape; range = at_rest-InRange; id = refl }, tt),
)

pub written : CanWrite lightness (push_event byte_ring) (λ report. some 81) (replicate 81 99)
written = record { taken = λ report. refl; size = refl }

exec_loop-shown_core_example :
    exec_loop lightness
      (push_event byte_ring)
      (received reports)
      (λ report. some 81)
      (replicate 81 99)
      client
    ≡ ok (
        shown_core lightness
          (push_event byte_ring)
          (last_state zero_state reports)
          (last_toggles zero_state (replicate 4 false) reports)
          told_client)
exec_loop-shown_core_example =
    exec_loop-shown_core lightness (push_event byte_ring) reports (λ report. some 81)
      (replicate 81 99) client written reports-IsDeviceReport told
