-- ===== src/OscDriver/JackClient.antt =====
-- `JackClient` of driver-osc/src/JackClient.hpp and JackClient.cpp: button changes become MIDI
-- messages in a ring of bytes, which JACK's process thread sends.
pub mod Queue
pub mod Send
pub mod Account
use ni_traktor_kontrol_f.Base.{
  ℕ, zero, suc, ◌+◌, ◌/◌, ◌%◌, ◌^◌, ◌==◌, if◌then◌else◌, Bool, true, false, not, bit_and, bit_or,
  Option, some, none, List, [], ◌∷◌, length, Result, ok, err, jack_client_exception, assert_failed,
  undefined, check, index, from_option, ◌>>=◌, ◌>>◌,
}
use ni_traktor_kontrol_f.Jack.{JackRing, JackMidi}
use ni_traktor_kontrol_f.OscDriver.InputChange.{F1InputChange}

abbrev pub input_buf_size : ℕ
input_buf_size = 256

abbrev pub midi_note_off : ℕ
midi_note_off = 0x80

abbrev pub midi_note_on : ℕ
midi_note_on = 0x90

abbrev pub midi_note_off_vel : ℕ
midi_note_off_vel = 0

abbrev pub midi_note_on_vel : ℕ
midi_note_on_vel = 0x7f

abbrev pub midi_control_change : ℕ
midi_control_change = 0xb0

abbrev pub midi_cc_off : ℕ
midi_cc_off = 0

abbrev pub midi_cc_on : ℕ
midi_cc_on = 0x7f

-- `MIDI_CONTROLLER::SPECIAL`, `MIDI_CONTROLLER::STOP` and `MIDI_NOTE::MATRIX_BASE`
abbrev pub special_controllers : List ℕ
special_controllers = 0x66 ∷ 0x67 ∷ 0x68 ∷ 0x69 ∷ 0x6a ∷ 0x6b ∷ 0x6c ∷ 0x6d ∷ 0x6e ∷ []

abbrev pub stop_controllers : List ℕ
stop_controllers = 0x70 ∷ 0x71 ∷ 0x72 ∷ 0x73 ∷ []

abbrev pub matrix_base : ℕ
matrix_base = 48

-- `assert((b & 0x80) == 0)` and `assert(b & 0x80)`
abbrev pub check_data : ℕ → Result (Unit {0})
check_data b = check (bit_and b 0x80 == 0)

abbrev pub check_status : ℕ → Result (Unit {0})
check_status b = check (not (bit_and b 0x80 == 0))

-- What JACK answers to the calls of `connect`.
pub record Answers : Type 0 where
  pub client_open : Bool
  pub set_process_callback : ℕ
  pub port_register : Bool
  pub activate : ℕ

module _ (j : JackRing) where
  -- Whether the pointers to the client and to the port are set; the ring is not checked when it is
  -- made, so its pointer may be null.
  pub record JackClient : Type 0 where
    pub is_connected : Bool
    pub out_port : Bool
    pub input_buf : Option j.Ring
    pub midi_channel : ℕ
    pub created_midi_bytes : ℕ
    pub sent_midi_bytes : ℕ

  unfoldable pub new_client : JackClient
  new_client = record {
    is_connected = false;
    out_port = false;
    input_buf = j.create input_buf_size;
    midi_channel = 0;
    created_midi_bytes = 0;
    sent_midi_bytes = 0;
  }

  unfoldable pub set_channel : ℕ → JackClient → JackClient
  set_channel channel c = record c { midi_channel = channel }

  -- `connect`: what it ends in, and the client after it, which keeps what was set before a throw.
  unfoldable pub connect : Answers → JackClient → Result (Unit {0}) × JackClient
  connect a c =
      if c.is_connected
      then (err assert_failed, c)
      else if not a.client_open
      then (err jack_client_exception, c)
      else if not (a.set_process_callback == 0)
      then (err jack_client_exception, record c { is_connected = true })
      else if not a.port_register
      then (err jack_client_exception, record c { is_connected = true })
      else if not (a.activate == 0)
      then (err jack_client_exception, record c { is_connected = true; out_port = true })
      else (ok tt, record c { is_connected = true; out_port = true })

  -- `disconnect`, given what JACK answers.
  unfoldable pub disconnect : (deactivated closed : ℕ) → JackClient → Result JackClient
  disconnect deactivated closed c = do
    connected ← check c.is_connected
    inactive ← check (deactivated == 0)
    gone ← check (closed == 0)
    ok (record c { is_connected = false })

  unfoldable pub write_midi : (status v1 v2 : ℕ) → JackClient → Result JackClient
  write_midi status v1 v2 c = do
    r ← from_option undefined c.input_buf
    let (written, r') = j.write r (status ∷ v1 ∷ v2 ∷ [])
    whole ← check (written == 3)
    ok (record c { input_buf = some r'; created_midi_bytes = (c.created_midi_bytes + 3) % 2 ^ 64 })

  -- The loops over the matrix buttons.
  unfoldable pub push_notes : (status vel : ℕ) → List ℕ → JackClient → Result JackClient
  push_notes status vel [] c = ok c
  push_notes status vel (btn ∷ btns) c = do
    let key = (matrix_base + btn) % 256
    checked ← check_data key
    c ← write_midi status key vel c
    push_notes status vel btns c

  -- The loops over the stop and the special buttons.
  unfoldable pub push_controllers :
      (controllers : List ℕ) (status value : ℕ) → List ℕ → JackClient → Result JackClient
  push_controllers controllers status value [] c = ok c
  push_controllers controllers status value (btn ∷ btns) c = do
    cc_controller ← index undefined controllers btn
    checked ← check_data cc_controller
    c ← write_midi status cc_controller value c
    push_controllers controllers status value btns c

  unfoldable pub push_event : F1InputChange → JackClient → Result JackClient
  push_event event c = do
    let note_on = bit_or midi_note_on c.midi_channel % 256
    let note_off = bit_or midi_note_off c.midi_channel % 256
    let cc = bit_or midi_control_change c.midi_channel % 256
    on ← check_status note_on
    c ← push_notes note_on midi_note_on_vel event.pressed_buttons.matrix c
    off ← check_status note_off
    c ← push_notes note_off midi_note_off_vel event.released_buttons.matrix c
    control ← check_status cc
    c ← push_controllers stop_controllers cc midi_cc_on event.pressed_buttons.stop c
    c ← push_controllers stop_controllers cc midi_cc_off event.released_buttons.stop c
    c ← push_controllers special_controllers cc midi_cc_on event.pressed_buttons.special c
    push_controllers special_controllers cc midi_cc_off event.released_buttons.special c

  module _ (k : JackMidi) where
    -- The loop of `process_cb`: three bytes are read in a round, or it ends with result 2.
    unfoldable pub send_events : (rounds : ℕ) → j.Ring → k.Port → ℕ × j.Ring × k.Port
    send_events zero in_buf port = (0, in_buf, port)
    send_events (suc rounds) in_buf port =
        let (midi_event, in_buf) = j.read in_buf 3 in
        if not (length midi_event == 3)
        then (2, in_buf, port)
        else elim (k.event_write port midi_event) [
          | none ↦ (2, in_buf, port)
          | some port' ↦ send_events rounds in_buf port'
        ]

    -- What `process_cb` returns after its loop: the bytes are counted if all were sent.
    unfoldable pub finish : JackClient → ℕ → ℕ × j.Ring × k.Port → ℕ × k.Port × JackClient
    finish c bytes_to_send (res, in_buf, port) = (
      res,
      port,
      record c {
        input_buf = some in_buf;
        sent_midi_bytes =
            if res == 0 then (c.sent_midi_bytes + bytes_to_send) % 2 ^ 64 else c.sent_midi_bytes;
      },
    )

    -- `process_cb`, with the buffer that JACK hands out. The loop runs while its counter, which
    -- grows by 3, is below the number of bytes.
    unfoldable pub process_cb : Option k.Port → JackClient → Result (ℕ × k.Port × JackClient)
    process_cb buffer c = do
      in_buf ← from_option assert_failed c.input_buf
      port ← from_option assert_failed buffer
      let out_buf = k.clear_buffer port
      let bytes_to_send = j.read_space in_buf
      if bytes_to_send == 0
          then ok (0, out_buf, c)
          else ok (finish c bytes_to_send (send_events ((bytes_to_send + 2) / 3) in_buf out_buf))
