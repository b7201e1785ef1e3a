-- ===== src/F1Device/Input/RoundTrip.antt =====
-- Reading a report that was laid out by hid-messages/INPUT-PROTOCOL.md.
use ni_traktor_kontrol_f.Base.{
  ℕ, ◌+◌, ◌*◌, ◌/◌, ◌%◌, ◌^◌, ◌<◌, ◌==◌, ◌≡◌, ◌≢◌, refl, ap, ◌∙◌, sym, subst, Bool, true, false,
  List, [], ◌∷◌, bit_or, bit_and, ok, get_or, arith, All-get_or,
}
use ni_traktor_kontrol_f.Base.Loops.{for_range}
use ni_traktor_kontrol_f.Base.Bits.{
  bit_set, bit_set_lem, bit_value, bit_value-odd, bit_or_bytes, masks_lem,
}
use ni_traktor_kontrol_f.F1Device.Types.{InputState, Impl, HasShape, InRange, input_report_id}
use ni_traktor_kontrol_f.F1Device.Shape.{built, rebuilt, rebuilt_lem}
use ni_traktor_kontrol_f.F1Device.Input.Total.{IsReport}
use ni_traktor_kontrol_f.F1Device.Input.{read_report, update_in_state}

-- A byte by its bits, the most significant first.
byte_of : (b7 b6 b5 b4 b3 b2 b1 b0 : Bool) → ℕ
byte_of b7 b6 b5 b4 b3 b2 b1 b0 =
    128 * bit_value b7
    + 64 * bit_value b6
    + 32 * bit_value b5
    + 16 * bit_value b4
    + 8 * bit_value b3
    + 4 * bit_value b2
    + 2 * bit_value b1
    + bit_value b0

abbrev word_lo : ℕ → ℕ
word_lo v = v % 256

abbrev word_hi : ℕ → ℕ
word_hi v = v / 256

-- The report that the device sends in a state. The lowest two bits of byte 3 and the lowest of
-- byte 4 stand for no control.
unfoldable pub encode : (p q r : Bool) → InputState → List ℕ
unfolding byte_of
encode p q r s =
    input_report_id
    ∷ byte_of (m 0) (m 1) (m 2) (m 3) (m 4) (m 5) (m 6) (m 7)
    ∷ byte_of (m 8) (m 9) (m 10) (m 11) (m 12) (m 13) (m 14) (m 15)
    ∷ byte_of (sp 5) (sp 4) (sp 3) (sp 2) (sp 1) (sp 0) p q
    ∷ byte_of (st 0) (st 1) (st 2) (st 3) (sp 8) (sp 7) (sp 6) r
    ∷ s.wheel
    ∷ word_lo (kn 0)
    ∷ word_hi (kn 0)
    ∷ word_lo (kn 1)
    ∷ word_hi (kn 1)
    ∷ word_lo (kn 2)
    ∷ word_hi (kn 2)
    ∷ word_lo (kn 3)
    ∷ word_hi (kn 3)
    ∷ word_lo (fa 0)
    ∷ word_hi (fa 0)
    ∷ word_lo (fa 1)
    ∷ word_hi (fa 1)
    ∷ word_lo (fa 2)
    ∷ word_hi (fa 2)
    ∷ word_lo (fa 3)
    ∷ word_hi (fa 3)
    ∷ []
  where
    m : ℕ → Bool
    m i = get_or s.matrix_btns i false

    sp : ℕ → Bool
    sp i = get_or s.special_btns i false

    st : ℕ → Bool
    st i = get_or s.stop_btns i false

    kn : ℕ → ℕ
    kn i = get_or s.knobs i 0

    fa : ℕ → ℕ
    fa i = get_or s.faders i 0

bit_value-lt : (b : Bool) → bit_value b < 2
bit_value-lt true = omega arith
bit_value-lt false = omega arith

-- Each bit of a byte is the bit that it was made of.
module _ (b7 b6 b5 b4 b3 b2 b1 b0 : Bool) where
  abbrev joined : ℕ
  joined = byte_of b7 b6 b5 b4 b3 b2 b1 b0

  byte_of-lt : joined < 256
  unfolding byte_of
  byte_of-lt = omega (arith, bit_value-lt)

  bit_by : (k : ℕ) (b : Bool) → k < 8 → joined / 2 ^ k % 2 ≡ bit_value b → bit_set k joined ≡ b
  bit_by k b p e = bit_set_lem k _ p byte_of-lt ∙ ap (λ v. v == 1) e ∙ bit_value-odd b

  bit_7 : bit_set 7 joined ≡ b7
  unfolding byte_of
  bit_7 = bit_by 7 b7 (omega arith) (omega (arith, bit_value-lt))

  bit_6 : bit_set 6 joined ≡ b6
  unfolding byte_of
  bit_6 = bit_by 6 b6 (omega arith) (omega (arith, bit_value-lt))

  bit_5 : bit_set 5 joined ≡ b5
  unfolding byte_of
  bit_5 = bit_by 5 b5 (omega arith) (omega (arith, bit_value-lt))

  bit_4 : bit_set 4 joined ≡ b4
  unfolding byte_of
  bit_4 = bit_by 4 b4 (omega arith) (omega (arith, bit_value-lt))

  bit_3 : bit_set 3 joined ≡ b3
  unfolding byte_of
  bit_3 = bit_by 3 b3 (omega arith) (omega (arith, bit_value-lt))

  bit_2 : bit_set 2 joined ≡ b2
  unfolding byte_of
  bit_2 = bit_by 2 b2 (omega arith) (omega (arith, bit_value-lt))

  bit_1 : bit_set 1 joined ≡ b1
  unfolding byte_of
  bit_1 = bit_by 1 b1 (omega arith) (omega (arith, bit_value-lt))

  bit_0 : bit_set 0 joined ≡ b0
  unfolding byte_of
  bit_0 = bit_by 0 b0 (omega arith) (omega (arith, bit_value-lt))

ruleset bits = (bit_7, bit_6, bit_5, bit_4, bit_3, bit_2, bit_1, bit_0)

knob_word : (v : ℕ) → v < 65536 → bit_or (v % 256) (v / 256 * 256 % 65536) % 65536 ≡ v
knob_word v h =
    let e : v / 256 * 256 % 65536 ≡ v / 256 * 256 = omega arith in
    rw e (omega (arith, bit_or_bytes (v % 256) (v / 256) (omega arith)))

fader_word :
    (v : ℕ) → v < 65536 → bit_or (v % 256) (bit_and (v / 256) 0xff % 65536 * 256) % 65536 ≡ v
fader_word v h =
    let m = masks_lem (v / 256) (omega arith) in
    let e : bit_and (v / 256) 0xff % 65536 ≡ v / 256 = omega (arith, m.2) in
    rw e (omega (arith, bit_or_bytes (v % 256) (v / 256) (omega arith)))

module _ (id : ℕ) (f g h f' g' h' : ℕ → Bool) (w w' : ℕ) (k d k' d' : ℕ → ℕ) (p q r : Bool) where
  decode-built :
      ((i : ℕ) → i < 4 → k i < 65536)
      → ((i : ℕ) → i < 4 → d i < 65536)
      → read_report (encode p q r (built input_report_id f g h w k d)) (built id f' g' h' w' k' d')
        ≡ ok (built input_report_id f g h w k d)
  unfolding read_report for_range encode
  decode-built hk hd = simp (
    bits,
    knob_word (k 0) (hk 0 (omega arith)),
    knob_word (k 1) (hk 1 (omega arith)),
    knob_word (k 2) (hk 2 (omega arith)),
    knob_word (k 3) (hk 3 (omega arith)),
    fader_word (d 0) (hd 0 (omega arith)),
    fader_word (d 1) (hd 1 (omega arith)),
    fader_word (d 2) (hd 2 (omega arith)),
    fader_word (d 3) (hd 3 (omega arith)),
  )

module _ (o t : InputState) (p q r : Bool) where
  pub read_report-encode :
      HasShape o
      → HasShape t
      → InRange t
      → t.report_id ≡ input_report_id
      → read_report (encode p q r t) o ≡ ok t
  read_report-encode vs vt bt e =
      let e' : rebuilt t ≡ t = sym (rebuilt_lem t vt) in
      let both =
        decode-built o.report_id (λ i. get_or t.matrix_btns i false)
          (λ i. get_or t.special_btns i false) (λ i. get_or t.stop_btns i false)
          (λ i. get_or o.matrix_btns i false) (λ i. get_or o.special_btns i false)
          (λ i. get_or o.stop_btns i false) t.wheel o.wheel (λ i. get_or t.knobs i 0)
          (λ i. get_or t.faders i 0) (λ i. get_or o.knobs i 0) (λ i. get_or o.faders i 0) p q r
          (λ i l. All-get_or (λ v. v < 65536) t.knobs i 0 (rw vt.knobs_4 l) bt.knob_words)
          (λ i l. All-get_or (λ v. v < 65536) t.faders i 0 (rw vt.faders_4 l) bt.fader_words) in
      let whole : read_report (encode p q r (rebuilt t)) (rebuilt o) ≡ ok (rebuilt t) =
        subst
          (λ n.
            read_report (encode p q r (record (rebuilt t) { report_id = n })) (rebuilt o)
            ≡ ok (record (rebuilt t) { report_id = n }))
          (sym e) both in
      subst (λ u. read_report (encode p q r t) u ≡ ok t) (sym (rebuilt_lem o vs))
        (subst (λ u. read_report (encode p q r u) (rebuilt o) ≡ ok u) e' whole)

  -- It is a whole report of bytes.
  pub encode-IsReport : HasShape t → InRange t → IsReport (encode p q r t)
  unfolding encode
  encode-IsReport vt bt = record {
    size = refl;
    bytes = (
      omega arith,
      (
        byte_of-lt _ _ _ _ _ _ _ _,
        (
          byte_of-lt _ _ _ _ _ _ _ _,
          (
            byte_of-lt _ _ _ _ _ _ _ _,
            (
              byte_of-lt _ _ _ _ _ _ _ _,
              (
                bt.wheel_byte,
                (
                  omega arith,
                  (
                    omega (arith, knob 0 (omega arith)),
                    (
                      omega arith,
                      (
                        omega (arith, knob 1 (omega arith)),
                        (
                          omega arith,
                          (
                            omega (arith, knob 2 (omega arith)),
                            (
                              omega arith,
                              (
                                omega (arith, knob 3 (omega arith)),
                                (
                                  omega arith,
                                  (
                                    omega (arith, fader 0 (omega arith)),
                                    (
                                      omega arith,
                                      (
                                        omega (arith, fader 1 (omega arith)),
                                        (
                                          omega arith,
                                          (
                                            omega (arith, fader 2 (omega arith)),
                                            (
                                              omega arith,
                                              (omega (arith, fader 3 (omega arith)), tt),
                                            ),
                                          ),
                                        ),
                                      ),
                                    ),
                                  ),
                                ),
                              ),
                            ),
                          ),
                        ),
                      ),
                    ),
                  ),
                ),
              ),
            ),
          ),
        ),
      ),
    );
  }
    where
      knob : (i : ℕ) → i < 4 → get_or t.knobs i 0 < 65536
      knob i l = All-get_or (λ v. v < 65536) t.knobs i 0 (rw vt.knobs_4 l) bt.knob_words

      fader : (i : ℕ) → i < 4 → get_or t.faders i 0 < 65536
      fader i l = All-get_or (λ v. v < 65536) t.faders i 0 (rw vt.faders_4 l) bt.fader_words

module _ (s : Impl) (t : InputState) (p q r : Bool) where
  -- An input report laid out as the protocol notes describe, whatever its unused bits, is read back
  -- as the very state that it encodes, and the state before it is kept as the old one. No access is
  -- out of range.
  pub update_in_state-encode :
      HasShape s.input_state
      → HasShape t
      → InRange t
      → t.report_id ≡ input_report_id
      → s.in_report ≡ encode p q r t
      → update_in_state s ≡ ok (record s { old_input_state = s.input_state; input_state = t })
  unfolding update_in_state encode
  update_in_state-encode vs vt bt e r' =
      rw (r', read_report-encode s.input_state t p q r vs vt bt e)

-- A report with another id changes nothing but the old state, so it causes no event.
update_in_state_other_id :
    (s : Impl) (id : ℕ) (rest : List ℕ)
    → s.in_report ≡ id ∷ rest
    → id ≢ input_report_id
    → update_in_state s ≡ ok (record s { old_input_state = s.input_state })
unfolding update_in_state
update_in_state_other_id s id rest e n = rw e (ground arith)
