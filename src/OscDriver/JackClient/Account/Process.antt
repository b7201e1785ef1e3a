-- ===== src/OscDriver/JackClient/Account/Process.antt =====
-- The counters of the process callback (JackClient.cpp).
use mathlib.Core.Option.{some-injective}
use ni_traktor_kontrol_f.Base.{
  ℕ, zero, suc, ◌+◌, ◌*◌, ◌/◌, ◌==◌, ==_iff, ◌≡◌, ap, sym, some, length, take, drop,
  take-append-drop, length-append, from_option, assert_failed, true, arith, Bool-cases,
  Option-cases, inl, inr,
}
use ni_traktor_kontrol_f.Jack.{JackRing, JackMidi}
use ni_traktor_kontrol_f.OscDriver.JackClient.{JackClient, send_events, finish, process_cb}
use ni_traktor_kontrol_f.OscDriver.JackClient.Account.Outcome.{
  After, returned, After-bind, After-option,
}
use ni_traktor_kontrol_f.OscDriver.JackClient.Account.Push.{IsAccounted}

module _ (j : JackRing) where
  module _ (k : JackMidi) where
    -- As many rounds as end with result 0 take three bytes each.
    send_events-drained :
        (rounds : ℕ) (r : j.Ring) (port : k.Port)
        → (send_events j k rounds r port).0 ≡ 0
        → length (j.contents r) ≡ 3 * rounds + length (j.contents (send_events j k rounds r port).1)
    unfolding send_events
    send_events-drained zero r port = λ h. omega arith
    send_events-drained (suc rounds) r port = elim (Bool-cases (length (j.read r 3).0 == 3)) [
      | inr f ↦ rw f (λ z. absurd (omega (arith, z)))
      | inl t ↦ rw t (elim (Option-cases (k.event_write port (j.read r 3).0)) [
        | inl e ↦ rw e (λ z. absurd (omega (arith, z)))
        | inr (port', e) ↦
            rw e (λ z. omega (arith, send_events-drained rounds (j.read r 3).1 port' z, three t))
      ])
    ]
      where
        three :
            (length (j.read r 3).0 == 3) ≡ true
            → length (j.contents r) ≡ 3 + length (j.contents (j.read r 3).1)
        three t = omega (
          arith,
          (==_iff (length (j.read r 3).0) 3).0 t,
          ap length (j.read-bytes r 3),
          ap length (j.read-contents r 3),
          ap length (take-append-drop 3 (j.contents r)),
          length-append (take 3 (j.contents r)) (drop 3 (j.contents r)),
        )

    -- What the process callback returns keeps the account if its result is 0.
    abbrev pub Keeps : ℕ × k.Port × JackClient j → Type 0
    Keeps r = r.0 ≡ 0 → IsAccounted j r.2

    finish-IsAccounted :
        (port : k.Port) (c : JackClient j) (r : j.Ring)
        → IsAccounted j c
        → c.input_buf ≡ some r
        → Keeps (
            finish j k c
              (j.read_space r)
              (send_events j k ((j.read_space r + 2) / 3) r (k.clear_buffer port)))
    unfolding finish
    finish-IsAccounted port c r h e res = record {
      in_width = h.in_width;
      account = λ s e'.
          rw (res, ap (λ x. length (j.contents x)) (sym (some-injective _ _ e')))
            (omega (arith, drained, j.read_space-contents r, h.account r e));
    }
      where
        drained :
            length (j.contents r)
            ≡ 3 * ((j.read_space r + 2) / 3)
              + length (
                  j.contents (send_events j k ((j.read_space r + 2) / 3) r (k.clear_buffer port)).1)
        drained = send_events-drained ((j.read_space r + 2) / 3) r (k.clear_buffer port) res

    pub process_cb-Keeps :
        (port : k.Port) (c : JackClient j)
        → IsAccounted j c
        → After Keeps (process_cb j k (some port) c)
    unfolding process_cb
    process_cb-Keeps port c h =
        After-bind Keeps (from_option assert_failed c.input_buf) _
          (After-option assert_failed c.input_buf)
          λ r e. elim (Bool-cases (j.read_space r == 0)) [
            | inl z ↦ rw z (returned (λ zero_res. h))
            | inr n ↦ rw n (returned (finish-IsAccounted port c r h e))
          ]
