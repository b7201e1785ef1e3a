-- ===== src/F1Device/Output/Layout.antt =====
-- Where each light stands in the output report (hid-messages/outputs.md).
mod Buttons
pub mod Segments
use ni_traktor_kontrol_f.Base.{
  ℕ, zero, suc, ◌-◌, ◌/◌, ◌≡◌, refl, ap, ◌∙◌, sym, subst, List, [], ◌∷◌, ok, get_or, set, tabulate,
  arith, length, length-set, lt→ltb, store-lt, out_of_range,
}
use ni_traktor_kontrol_f.Base.Loops.{repeat}
use ni_traktor_kontrol_f.F1Device.Types.{OutputState, Impl, black, output_report_size}
use ni_traktor_kontrol_f.F1Device.Shape.{full}
use ni_traktor_kontrol_f.F1Device.Output.{write_report, update_out_report}
use ni_traktor_kontrol_f.F1Device.Output.Sendable.{IsSendable}
use ni_traktor_kontrol_f.F1Device.Output.Layout.Buttons.{
  IsReport, matrix_step, stop_step, special_step, matrix_ok, stop_ok, special_ok,
}
use ni_traktor_kontrol_f.F1Device.Output.Layout.Segments.{segment_level, segment_step, segments_ok}

-- The report for an output state: its id, the right and the left display (dot first), the special
-- buttons but the first, the matrix in the order blue, red, green, and the stop buttons from the
-- last to the first, each twice.
unfoldable pub layout : OutputState → List ℕ
layout o =
    o.report_id
    ∷ o.segment_right_dot
    ∷ right 1
    ∷ right 2
    ∷ right 3
    ∷ right 4
    ∷ right 5
    ∷ right 6
    ∷ right 7
    ∷ o.segment_left_dot
    ∷ left 1
    ∷ left 2
    ∷ left 3
    ∷ left 4
    ∷ left 5
    ∷ left 6
    ∷ left 7
    ∷ sp 1
    ∷ sp 2
    ∷ sp 3
    ∷ sp 4
    ∷ sp 5
    ∷ sp 6
    ∷ sp 7
    ∷ sp 8
    ∷ colors 16 0 (st 3 ∷ st 3 ∷ st 2 ∷ st 2 ∷ st 1 ∷ st 1 ∷ st 0 ∷ st 0 ∷ [])
  where
    right : ℕ → ℕ
    right = segment_level o.segment_right_char o.segment_right_brightness

    left : ℕ → ℕ
    left = segment_level o.segment_left_char o.segment_left_brightness

    sp : ℕ → ℕ
    sp i = get_or o.special_btns i 0

    st : ℕ → ℕ
    st i = get_or o.stop_btns i 0

    colors : ℕ → ℕ → List ℕ → List ℕ
    colors zero i rest = rest
    colors (suc n) i rest =
        let c = get_or o.matrix_btns i black in c.0 ∷ c.1 ∷ c.2 ∷ colors n (suc i) rest

abbrev written : OutputState → List ℕ → List ℕ
written o report =
    let report = set report 0 o.report_id in
    let report = repeat 16 0 (matrix_step o.matrix_btns) report in
    let report = repeat 4 0 (stop_step o.stop_btns) report in
    let report = repeat 8 1 (special_step o.special_btns) report in
    let report = repeat 7 1 (segment_step o) report in
    set (set report 0x09 o.segment_left_dot) 0x01 o.segment_right_dot

-- Every byte of the report is written, and by one control only.
written-layout : (o : OutputState) (a : ℕ → ℕ) → written o (tabulate 81 0 a) ≡ layout o
unfolding repeat layout
written-layout o a = refl

write_report-layout :
    (o : OutputState) (report : List ℕ)
    → IsSendable o
    → IsReport report
    → write_report o report ≡ ok (layout o)
unfolding write_report
write_report-layout o report v r =
    let r0 = set report 0 o.report_id in
    let p0 : IsReport r0 = length-set report 0 o.report_id ∙ r in
    let (e1, p1) = matrix_ok o.matrix_btns r0 v.matrix_16 v.matrix_bright p0 in
    let r1 = repeat 16 0 (matrix_step o.matrix_btns) r0 in
    let (e2, p2) = stop_ok o.stop_btns r1 v.stop_4 v.stop_bright p1 in
    let r2 = repeat 4 0 (stop_step o.stop_btns) r1 in
    let (e3, p3) = special_ok o.special_btns r2 v.special_9 v.special_bright p2 in
    let r3 = repeat 8 1 (special_step o.special_btns) r2 in
    let (e4, p4) = segments_ok o r3 v.left_bright v.right_bright p3 in
    let r4 = repeat 7 1 (segment_step o) r3 in
    let whole : written o report ≡ layout o =
      subst (λ u. written o u ≡ layout o) (sym (full 81 report 0 r))
        (written-layout o (λ i. get_or report i 0)) in
    rw
      (
        store-lt out_of_range report 0 o.report_id (omega (arith, r)),
        e1,
        e2,
        e3,
        lt→ltb o.segment_left_brightness 128 v.left_bright,
        lt→ltb o.segment_right_brightness 128 v.right_bright,
        e4,
        lt→ltb o.segment_left_dot 128 v.left_dot_bright,
        lt→ltb o.segment_right_dot 128 v.right_dot_bright,
        store-lt out_of_range r4 0x09 o.segment_left_dot (omega (arith, p4)),
        store-lt out_of_range (set r4 0x09 o.segment_left_dot) 0x01 o.segment_right_dot
            (omega (arith, p4, length-set r4 0x09 o.segment_left_dot)),
      )
      (ap ok whole)

pub update_out_report-layout :
    (s : Impl)
    → IsSendable s.output_state
    → length s.out_report ≡ output_report_size
    → update_out_report s ≡ ok (record s { out_report = layout s.output_state })
unfolding update_out_report
update_out_report-layout s v r = rw (write_report-layout s.output_state s.out_report v r)
