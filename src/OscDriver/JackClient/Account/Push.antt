-- ===== src/OscDriver/JackClient/Account/Push.antt =====
-- The counters while messages are put into the ring (JackClient.cpp).
use mathlib.Core.Option.{some-injective}
use ni_traktor_kontrol_f.Base.{
  ℕ, bit_and, bit_or, index, undefined, ◌+◌, ◌%◌, ◌^◌, ◌<◌, ◌==◌, ==_iff, not, ◌≡◌, ap, subst, some,
  List, [], ◌∷◌, length, take, length-append, arith, Result-cases, Option-cases, inl, inr,
}
use ni_traktor_kontrol_f.Jack.{JackRing}
use ni_traktor_kontrol_f.OscDriver.InputChange.{F1InputChange, BtnDiff}
use ni_traktor_kontrol_f.OscDriver.JackClient.{
  JackClient, write_midi, push_notes, push_controllers, push_event, stop_controllers,
  special_controllers,
}
use ni_traktor_kontrol_f.OscDriver.JackClient.Account.Outcome.{
  After, returned, thrown, After-bind, After-check,
}

module _ (j : JackRing) where
  -- The bytes created are those sent and those that wait, up to the width of the counters.
  pub record IsAccounted (c : JackClient j) : Type 0 where
    pub in_width : c.created_midi_bytes < 2 ^ 64
    pub account :
        (r : j.Ring)
        → c.input_buf ≡ some r
        → (c.sent_midi_bytes + length (j.contents r)) % 2 ^ 64 ≡ c.created_midi_bytes

  -- Only the ring and the counters matter.

  -- Three bytes more, on both sides.
  waits :
      (sent created : ℕ) (s r : j.Ring)
      → length (j.contents s) ≡ length (j.contents r) + 3
      → (sent + length (j.contents r)) % 2 ^ 64 ≡ created
      → (sent + length (j.contents s)) % 2 ^ 64 ≡ (created + 3) % 2 ^ 64
  waits sent created s r e h = omega arith

  write_midi-IsAccounted :
      (status v1 v2 : ℕ) (c : JackClient j)
      → IsAccounted c
      → After IsAccounted (write_midi j status v1 v2 c)
  unfolding write_midi
  write_midi-IsAccounted status v1 v2 c h = elim (Option-cases c.input_buf) [
    | inl e ↦ rw e thrown
    | inr (r, e) ↦ rw e (
        After-check IsAccounted ((j.write r bs).0 == 3) _
          (λ t. returned (wrote r e ((==_iff _ 3).0 t))))
  ]
    where
      bs : List ℕ
      bs = status ∷ v1 ∷ v2 ∷ []

      wrote :
          (r : j.Ring)
          → c.input_buf ≡ some r
          → (j.write r bs).0 ≡ 3
          → IsAccounted (record c {
            input_buf = some (j.write r bs).1;
            created_midi_bytes = (c.created_midi_bytes + 3) % 2 ^ 64;
          })
      wrote r e w = record {
        in_width = omega arith;
        account = λ r' e'.
            subst
              (λ x.
                (c.sent_midi_bytes + length (j.contents x)) % 2 ^ 64
                ≡ (c.created_midi_bytes + 3) % 2 ^ 64)
              (some-injective _ _ e')
              (waits c.sent_midi_bytes c.created_midi_bytes (j.write r bs).1 r
                (omega (
                  arith,
                  ap length (j.write-contents r bs),
                  length-append (j.contents r) (take (j.write r bs).0 bs),
                  ap (λ n. length (take n bs)) w,
                ))
                (h.account r e));
      }

  push_notes-IsAccounted :
      (status vel : ℕ) (btns : List ℕ) (c : JackClient j)
      → IsAccounted c
      → After IsAccounted (push_notes j status vel btns c)
  unfolding push_notes
  push_notes-IsAccounted status vel [] c h = returned h
  push_notes-IsAccounted status vel (b ∷ bs) c h =
      After-check IsAccounted (bit_and ((48 + b) % 256) 0x80 == 0) _ λ t.
        After-bind IsAccounted (write_midi j status ((48 + b) % 256) vel c) _
          (write_midi-IsAccounted status ((48 + b) % 256) vel c h)
          (push_notes-IsAccounted status vel bs)

  push_controllers-IsAccounted :
      (controllers : List ℕ) (status value : ℕ) (btns : List ℕ) (c : JackClient j)
      → IsAccounted c
      → After IsAccounted (push_controllers j controllers status value btns c)
  unfolding push_controllers
  push_controllers-IsAccounted controllers status value [] c h = returned h
  push_controllers-IsAccounted controllers status value (b ∷ bs) c h =
      elim (Result-cases (index undefined controllers b)) [
        | inr (x, e) ↦ rw e thrown
        | inl (v, e) ↦ rw e (
            After-check IsAccounted (bit_and v 0x80 == 0) _ λ t.
              After-bind IsAccounted (write_midi j status v value c) _
                (write_midi-IsAccounted status v value c h)
                (push_controllers-IsAccounted controllers status value bs))
      ]

  pub push_event-IsAccounted :
      (event : F1InputChange) (c : JackClient j)
      → IsAccounted c
      → After IsAccounted (push_event j event c)
  unfolding push_event
  push_event-IsAccounted event c h =
      After-check IsAccounted (not (bit_and note_on 0x80 == 0)) _ λ on.
        After-bind IsAccounted (push_notes j note_on 0x7f pressed.matrix c) _
          (push_notes-IsAccounted note_on 0x7f pressed.matrix c h)
          λ c h. After-check IsAccounted (not (bit_and note_off 0x80 == 0)) _ λ off.
            After-bind IsAccounted (push_notes j note_off 0 released.matrix c) _
              (push_notes-IsAccounted note_off 0 released.matrix c h)
              λ c h. After-check IsAccounted (not (bit_and cc 0x80 == 0)) _ λ con.
                After-bind IsAccounted (push_controllers j stop_controllers cc 0x7f pressed.stop c)
                  _ (push_controllers-IsAccounted stop_controllers cc 0x7f pressed.stop c h)
                  λ c h.
                    After-bind IsAccounted
                      (push_controllers j stop_controllers cc 0 released.stop c) _
                      (push_controllers-IsAccounted stop_controllers cc 0 released.stop c h)
                      λ c h.
                        After-bind IsAccounted
                          (push_controllers j special_controllers cc 0x7f pressed.special c) _
                          (push_controllers-IsAccounted special_controllers cc 0x7f pressed.special
                            c h)
                          (push_controllers-IsAccounted special_controllers cc 0 released.special)
    where
      note_on : ℕ
      note_on = bit_or 0x90 c.midi_channel % 256

      note_off : ℕ
      note_off = bit_or 0x80 c.midi_channel % 256

      cc : ℕ
      cc = bit_or 0xb0 c.midi_channel % 256

      pressed : BtnDiff
      pressed = event.pressed_buttons

      released : BtnDiff
      released = event.released_buttons
