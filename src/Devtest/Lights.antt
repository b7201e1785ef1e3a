-- ===== src/Devtest/Lights.antt =====
-- What a round of the first thread of devtest.cpp shows.
use ni_traktor_kontrol_f.Base.{
  length-map, All-map, All-tabulate, ℕ, zero, suc, ◌+◌, ◌*◌, ◌/◌, ◌%◌, ◌<◌, ◌==◌, ◌≡◌, ◌⊎◌, inl,
  inr, refl, if◌then◌else◌, Bool, true, false, List, ◌∙◌, map, take, length, get_or, tabulate, ok,
  some, Returns, arith,
}
use ni_traktor_kontrol_f.Base.Loops.{for_range}
use ni_traktor_kontrol_f.F1Device.Types.{
  InputState, OutputState, ButtonColor, Brightness, HasShape, black, dark, full_brightness,
}
use ni_traktor_kontrol_f.F1Device.SegmentChar.{SegmentChar}
use ni_traktor_kontrol_f.F1Device.Shape.{full}
use ni_traktor_kontrol_f.F1Device.Output.Sendable.{IsSendable, IsBright, IsBrightColor}
use ni_traktor_kontrol_f.F1Device.Helpers.Laws.{shown, num_to_segments_lem}
use ni_traktor_kontrol_f.Devtest.{color, light_button, light_special, light_all}

-- The lights for a colour counter and an input state: matrix lights eight apart in a cycle of 128,
-- the stop lights as the first four of them, a special light fully on if its button is pressed, the
-- counter's last two decimal digits, and one of the dots dark.
pub record Shows (offset : ℕ) (input : InputState) (o : OutputState) : Type 0 where
  pub matrix_lights : o.matrix_btns ≡ tabulate 16 0 (λ i. color ((8 * i + 8 + offset) % 128))
  pub stop_lights : o.stop_btns ≡ map (λ c. c.0) (take 4 o.matrix_btns)
  pub special_lights :
      o.special_btns ≡ map (λ b. if b then full_brightness else offset % 128) input.special_btns
  pub digits :
      (hi : ℕ) × (lo : ℕ) × (shown o.segment_left_char ≡ some hi)
      × (shown o.segment_right_char ≡ some lo)
      × (lo < 10)
      × (hi * 10 + lo ≡ offset % 100)
  pub dots :
      ((offset / 10 % 2 ≡ 0)
        × (o.segment_left_dot ≡ full_brightness)
        × (o.segment_right_dot ≡ dark))
      ⊎ ((offset / 10 % 2 ≡ 1) × (o.segment_left_dot ≡ dark) × (o.segment_right_dot ≡ offset % 128))

abbrev shade : (offset i : ℕ) → Brightness
shade offset i = (8 * i + 8 + offset) % 128

buttons_built :
    (offset : ℕ) (f : ℕ → ButtonColor) (g : ℕ → Brightness)
    → for_range 16 0 (light_button offset) (tabulate 16 0 f, tabulate 4 0 g)
      ≡ ok (tabulate 16 0 (λ i. color (shade offset i)), tabulate 4 0 (shade offset))
unfolding for_range light_button
buttons_built offset f g = refl

special_built :
    (offset : ℕ) (p : ℕ → Bool) (g : ℕ → Brightness)
    → for_range 9 0 (light_special offset (tabulate 9 0 p)) (tabulate 9 0 g)
      ≡ ok (tabulate 9 0 (λ i. if p i then full_brightness else offset % 128))
unfolding for_range light_special
special_built offset p g = refl

buttons_lem :
    (offset : ℕ) (ms : List ButtonColor) (ss : List Brightness)
    → length ms ≡ 16
    → length ss ≡ 4
    → for_range 16 0 (light_button offset) (ms, ss)
      ≡ ok (tabulate 16 0 (λ i. color (shade offset i)), tabulate 4 0 (shade offset))
buttons_lem offset ms ss m n =
    rw (full 16 ms black m, full 4 ss dark n)
      (buttons_built offset (λ i. get_or ms i black) (λ i. get_or ss i dark))

special_lem :
    (offset : ℕ) (bs : List Bool) (os : List Brightness)
    → length bs ≡ 9
    → length os ≡ 9
    → for_range 9 0 (light_special offset bs) os
      ≡ ok (map (λ b. if b then full_brightness else offset % 128) bs)
special_lem offset bs os m n =
    rw (full 9 bs false m, full 9 os dark n)
      (special_built offset (λ i. get_or bs i false) (λ i. get_or os i dark))

-- The output state after a round, with the characters of the display.
abbrev lit : (offset : ℕ) → InputState → OutputState → SegmentChar × SegmentChar → OutputState
lit offset input o c = record {
  report_id = o.report_id;
  matrix_btns = tabulate 16 0 (λ i. color (shade offset i));
  stop_btns = tabulate 4 0 (shade offset);
  special_btns = map (λ b. if b then full_brightness else offset % 128) input.special_btns;
  segment_left_char = c.0;
  segment_right_char = c.1;
  segment_left_dot = if offset / 10 % 2 == 0 then full_brightness else dark;
  segment_right_dot = if offset / 10 % 2 == 0 then dark else offset % 128;
  segment_left_brightness = full_brightness;
  segment_right_brightness = full_brightness;
}

dots_lem :
    (n v : ℕ)
    → n < 2
    → ((n ≡ 0)
        × ((if n == 0 then full_brightness else dark) ≡ full_brightness)
        × ((if n == 0 then dark else v) ≡ dark))
      ⊎ ((n ≡ 1)
          × ((if n == 0 then full_brightness else dark) ≡ dark)
          × ((if n == 0 then dark else v) ≡ v))
dots_lem zero v l = inl (refl, refl, refl)
dots_lem (suc zero) v l = inr (refl, refl, refl)
dots_lem (suc (suc n)) v l = absurd (omega arith)

if-IsBright :
    (b : Bool) (x y : Brightness) → IsBright x → IsBright y → IsBright (if b then x else y)
if-IsBright true x y p q = p
if-IsBright false x y p q = q

lit-IsSendable :
    (offset : ℕ) (input : InputState) (o : OutputState) (c : SegmentChar × SegmentChar)
    → HasShape input
    → IsSendable (lit offset input o c)
lit-IsSendable offset input o c h = record {
  matrix_16 = refl;
  stop_4 = refl;
  special_9 = length-map _ input.special_btns ∙ h.special_9;
  matrix_bright =
      All-tabulate IsBrightColor 16 0 (λ i. color (shade offset i))
        (λ k p q. (omega arith, omega arith, omega arith));
  stop_bright = All-tabulate IsBright 4 0 (shade offset) (λ k p q. omega arith);
  special_bright =
      All-map IsBright _ input.special_btns
        (λ b. if-IsBright b full_brightness (offset % 128) (omega arith) (omega arith));
  left_bright = omega arith;
  right_bright = omega arith;
  left_dot_bright =
      if-IsBright (offset / 10 % 2 == 0) full_brightness dark (omega arith) (omega arith);
  right_dot_bright =
      if-IsBright (offset / 10 % 2 == 0) dark (offset % 128) (omega arith) (omega arith);
}

pub light_all-Shows :
    (offset : ℕ) (input : InputState) (o : OutputState)
    → HasShape input
    → IsSendable o
    → Returns (λ p. Shows offset input p × IsSendable p) (light_all offset input o)
unfolding light_all
light_all-Shows offset input o h v =
    let (c, e, (hi, lo, left, right, hi_digit, lo_digit, sum)) =
      (num_to_segments_lem (offset % 100)).0 (omega arith) in
    (
      lit offset input o c,
      rw (
        buttons_lem offset o.matrix_btns o.stop_btns v.matrix_16 v.stop_4,
        special_lem offset input.special_btns o.special_btns h.special_9 v.special_9,
        e,
      ),
      (
        record {
          matrix_lights = refl;
          stop_lights = refl;
          special_lights = refl;
          digits = (hi, lo, left, right, lo_digit, sum);
          dots = dots_lem (offset / 10 % 2) (offset % 128) (omega arith);
        },
        lit-IsSendable offset input o c h,
      ),
    )
