-- ===== src/OscDriver/JackClient/Queue.antt =====
-- What `JackClient::push_event` (JackClient.cpp) puts into the ring: one MIDI event per button.
use mathlib.Core.List.{append-nil, append_assoc}
use ni_traktor_kontrol_f.Base.{
  ℕ, zero, suc, ◌+◌, ◌*◌, ◌%◌, ◌^◌, ◌<◌, ◌≤◌, ◌==◌, ==_iff, Bool, true, false, not, ◌≡◌, refl, ap,
  ap₂, sym, ◌∙◌, bit_and, bit_or, some, List, [], ◌∷◌, ◌++◌, map, length, length-append, take,
  tabulate, All, Result, ok, Returns, undefined, index, check, arith, ◌>>=◌,
}
use ni_traktor_kontrol_f.Jack.{JackRing}
use ni_traktor_kontrol_f.MidiEvent.Types.{
  MidiType, MidiEvent, midi_event, type_byte, note_off, note_on, control_change, is_status_byte,
}
use ni_traktor_kontrol_f.MidiEvent.Parse.RoundTrip.{event_bytes, status-data, is_status_byte-status}
use ni_traktor_kontrol_f.MidiEvent.Parse.Stream.{bytes_of_all}
use ni_traktor_kontrol_f.OscDriver.InputChange.{F1InputChange, BtnDiff}
use ni_traktor_kontrol_f.OscDriver.JackClient.{
  JackClient, check_data, check_status, write_midi, push_notes, push_controllers, push_event,
}

-- The events of a change: notes from 48 on for the matrix, a controller per other button.
unfoldable pub button_events : (channel : ℕ) → F1InputChange → List MidiEvent
button_events channel event =
    map (λ b. midi_event note_on channel (48 + b) 0x7f) event.pressed_buttons.matrix
    ++ (map (λ b. midi_event note_off channel (48 + b) 0) event.released_buttons.matrix
        ++ (map (λ b. midi_event control_change channel (0x70 + b) 0x7f) event.pressed_buttons.stop
            ++ (map (λ b. midi_event control_change channel (0x70 + b) 0)
                  event.released_buttons.stop
                ++ (map (λ b. midi_event control_change channel (0x66 + b) 0x7f)
                      event.pressed_buttons.special
                    ++ map (λ b. midi_event control_change channel (0x66 + b) 0)
                        event.released_buttons.special))))

-- The buttons of a difference exist.
pub record IsBtnDiff (d : BtnDiff) : Type 0 where
  pub matrix : All (λ b. b < 16) d.matrix
  pub stop : All (λ b. b < 4) d.stop
  pub special : All (λ b. b < 9) d.special

bytes_of_all-append :
    (es fs : List MidiEvent) → bytes_of_all (es ++ fs) ≡ bytes_of_all es ++ bytes_of_all fs
unfolding bytes_of_all
bytes_of_all-append [] fs = refl
bytes_of_all-append (e ∷ es) fs =
    ap (λ r. event_bytes e ++ r) (bytes_of_all-append es fs)
    ∙ sym (append_assoc (event_bytes e) (bytes_of_all es) (bytes_of_all fs))

check_data-lt : (b : ℕ) → b < 128 → check_data b ≡ ok tt
unfolding is_status_byte
check_data-lt b h = ap check (is_true (bit_and b 0x80 == 0) (status-data b h))
  where
    is_true : (x : Bool) → not x ≡ false → x ≡ true
    is_true true e = refl
    is_true false e = sym e

check_status-type :
    (t : MidiType) (c : ℕ) → c < 16 → check_status (bit_or (type_byte t) c % 256) ≡ ok tt
unfolding is_status_byte
check_status-type t c h = ap check (is_status_byte-status t c h)

index-tabulate : (n k i : ℕ) → i < n → index undefined (tabulate n k (λ x. x)) i ≡ ok (k + i)
index-tabulate zero k i h = absurd (omega arith)
index-tabulate (suc n) k zero h = ap ok (omega arith)
index-tabulate (suc n) k (suc i) h = index-tabulate n (suc k) i (omega arith) ∙ ap ok (omega arith)

module _ (j : JackRing) where
  -- The ring holds the bytes of the events, and `free` more bytes fit.
  pub record Queued (channel free : ℕ) (es : List MidiEvent) (c : JackClient j) : Type 0 where
    pub ring : j.Ring
    pub is_ring : c.input_buf ≡ some ring
    pub bytes : j.contents ring ≡ bytes_of_all es
    pub space : j.write_space ring ≡ free
    pub is_channel : c.midi_channel ≡ channel

  module _ (channel : ℕ) where
    write_midi-Queued :
        {free : ℕ} {es : List MidiEvent} {c : JackClient j} (t : MidiType) (a b : ℕ)
        → Queued channel (free + 3) es c
        → Returns
            (Queued channel free (es ++ (midi_event t channel a b ∷ [])))
            (write_midi j (bit_or (type_byte t) channel % 256) a b c)
    unfolding write_midi
    write_midi-Queued {free} {es} {c} t a b h = (
      record c {
        input_buf = some (j.write h.ring bs).1;
        created_midi_bytes = (c.created_midi_bytes + 3) % 2 ^ 64;
      },
      rw (h.is_ring, (==_iff (j.write h.ring bs).0 3).1 count),
      record {
        ring = (j.write h.ring bs).1;
        is_ring = refl;
        bytes =
            j.write-contents h.ring bs
            ∙ ap₂ (λ x n. x ++ take n bs) h.bytes count
            ∙ sym (bytes_of_all-append es (midi_event t channel a b ∷ []) ∙ last);
        space = omega (arith, j.write-space h.ring bs, count, h.space);
        is_channel = h.is_channel;
      },
    )
      where
        bs : List ℕ
        bs = bit_or (type_byte t) channel % 256 ∷ a ∷ b ∷ []

        count : (j.write h.ring bs).0 ≡ 3
        count = omega (arith, j.write-count h.ring bs, h.space)

        last :
            bytes_of_all es ++ bytes_of_all (midi_event t channel a b ∷ []) ≡ bytes_of_all es ++ bs
        last = unfold bytes_of_all in unfold event_bytes in refl

    Queued-cast :
        {free free' : ℕ} {es fs : List MidiEvent} {c : JackClient j}
        → free ≡ free'
        → es ≡ fs
        → Queued channel free es c
        → Queued channel free' fs c
    Queued-cast e f h = record {
      ring = h.ring;
      is_ring = h.is_ring;
      bytes = h.bytes ∙ ap bytes_of_all f;
      space = h.space ∙ e;
      is_channel = h.is_channel;
    }

    -- A call puts new events behind those that wait, if they fit.
    pub record Puts (call : JackClient j → Result (JackClient j)) (new : List MidiEvent)
        : Type 0 where
      pub run :
          (free : ℕ) (es : List MidiEvent) (c : JackClient j)
          → Queued channel (free + 3 * length new) es c
          → Returns (Queued channel free (es ++ new)) (call c)

    Puts-then :
        {f g : JackClient j → Result (JackClient j)} {new more : List MidiEvent}
        → Puts f new
        → Puts g more
        → Puts (λ c. f c >>= g) (new ++ more)
    Puts-then {new = new} {more = more} p q = record {
      run = λ free es c h.
          let (c', e, h') =
            p.run (free + 3 * length more) es c
              (Queued-cast (omega (arith, length-append new more)) refl h) in
          let (c'', e', h'') = q.run free (es ++ new) c' h' in
          (c'', rw (e, e'), Queued-cast refl (append_assoc es new more) h'');
    }

    -- A loop over buttons whose round writes one event and goes on.
    Puts-nil : Puts ok []
    Puts-nil = record {
      run = λ free es c h. (c, refl, Queued-cast (omega arith) (sym (append-nil es)) h);
    }

    Puts-write :
        (t : MidiType) (a b : ℕ)
        → Puts
            (write_midi j (bit_or (type_byte t) channel % 256) a b)
            (midi_event t channel a b ∷ [])
    Puts-write t a b = record { run = λ free es c h. write_midi-Queued t a b h }

    push_notes-Puts :
        (t : MidiType) (vel : ℕ) (btns : List ℕ)
        → All (λ b. b < 16) btns
        → Puts
            (push_notes j (bit_or (type_byte t) channel % 256) vel btns)
            (map (λ b. midi_event t channel (48 + b) vel) btns)
    unfolding push_notes
    push_notes-Puts t vel [] a = Puts-nil
    push_notes-Puts t vel (b ∷ bs) a = record {
      run = λ free es c h.
          rw (key, check_data-lt (48 + b) (omega arith))
            ((Puts-then (Puts-write t (48 + b) vel) (push_notes-Puts t vel bs a.1)).run free es c
              h);
    }
      where
        key : (48 + b) % 256 ≡ 48 + b
        key = omega arith

    push_controllers-Puts :
        (n base value : ℕ) (btns : List ℕ)
        → base + n ≤ 128
        → All (λ b. b < n) btns
        → Puts
            (push_controllers j
              (tabulate n base (λ x. x))
              (bit_or (type_byte control_change) channel % 256)
              value
              btns)
            (map (λ b. midi_event control_change channel (base + b) value) btns)
    unfolding push_controllers
    push_controllers-Puts n base value [] l a = Puts-nil
    push_controllers-Puts n base value (b ∷ bs) l a = record {
      run = λ free es c h.
          rw (index-tabulate n base b a.0, check_data-lt (base + b) (omega (arith, a.0)))
            ((Puts-then (Puts-write control_change (base + b) value)
                (push_controllers-Puts n base value bs l a.1)).run
              free es c h);
    }

  -- If the ring has room, a change puts one message per button into the ring, behind those that
  -- wait: notes for the matrix buttons, then controllers for the stop and the special buttons,
  -- pressed buttons before released ones. No assertion fails.
  pub push_event-Queued :
      (event : F1InputChange) (free : ℕ) (es : List MidiEvent) (c : JackClient j)
      → c.midi_channel < 16
      → IsBtnDiff event.pressed_buttons
      → IsBtnDiff event.released_buttons
      → Queued c.midi_channel (free + 3 * length (button_events c.midi_channel event)) es c
      → Returns
          (Queued c.midi_channel free (es ++ button_events c.midi_channel event))
          (push_event j event c)
  unfolding push_event button_events type_byte
  push_event-Queued event free es c l p r h =
      let ch = c.midi_channel in
      let pressed = event.pressed_buttons in
      let released = event.released_buttons in
      rw
        (
          check_status-type note_on ch l,
          check_status-type note_off ch l,
          check_status-type control_change ch l,
        )
        ((Puts-then ch (push_notes-Puts ch note_on 0x7f pressed.matrix p.matrix) (
            Puts-then ch (push_notes-Puts ch note_off 0 released.matrix r.matrix) (
              Puts-then ch (push_controllers-Puts ch 4 0x70 0x7f pressed.stop (omega arith) p.stop)
                (Puts-then ch (push_controllers-Puts ch 4 0x70 0 released.stop (omega arith) r.stop)
                  (Puts-then ch
                    (push_controllers-Puts ch 9 0x66 0x7f pressed.special (omega arith) p.special)
                    (push_controllers-Puts ch 9 0x66 0 released.special (omega arith)
                      r.special)))))).run
          free es c h)
