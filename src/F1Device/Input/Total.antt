-- ===== src/F1Device/Input/Total.antt =====
-- Reading any report of 22 bytes.
use ni_traktor_kontrol_f.Base.{
  ℕ, ◌<◌, ◌==◌, ◌≡◌, refl, sym, subst, Bool, false, List, All, get_or, tabulate, arith, length, inl,
  inr, Bool-cases, Returns, index-lt, out_of_range,
}
use ni_traktor_kontrol_f.Base.Loops.{for_range}
use ni_traktor_kontrol_f.F1Device.Types.{
  InputState, Impl, HasShape, InRange, input_report_id, input_report_size,
}
use ni_traktor_kontrol_f.F1Device.Shape.{full, built, rebuilt, rebuilt_lem}
use ni_traktor_kontrol_f.F1Device.Input.{read_report, update_in_state}

-- What the device can send: 22 bytes.
pub record IsReport (raw : List ℕ) : Type 0 where
  pub size : length raw ≡ input_report_size
  pub bytes : All (λ b. b < 256) raw

-- The extents and the ranges of the words, which the C++ types fix.
pub record IsWellFormed (s : InputState) : Type 0 where
  pub shape : HasShape s
  pub range : InRange s

read_built :
    (r : ℕ → ℕ) (id : ℕ) (f g h : ℕ → Bool) (w : ℕ) (k d : ℕ → ℕ)
    → r 5 < 256
    → Returns IsWellFormed (read_report (tabulate 22 0 r) (built id f g h w k d))
unfolding read_report for_range
read_built r id f g h w k d b = (_, refl, record { shape = omega arith; range = omega arith })

pub read_report-IsWellFormed :
    (report : List ℕ) (s : InputState)
    → length report ≡ input_report_size
    → get_or report 5 0 < 256
    → HasShape s
    → Returns IsWellFormed (read_report report s)
read_report-IsWellFormed report s n b v =
    subst (λ u. Returns IsWellFormed (read_report report u)) (sym (rebuilt_lem s v))
      (subst (λ u. Returns IsWellFormed (read_report u (rebuilt s))) (sym (full 22 report 0 n))
        (read_built (λ i. get_or report i 0) s.report_id (λ i. get_or s.matrix_btns i false)
          (λ i. get_or s.special_btns i false) (λ i. get_or s.stop_btns i false) s.wheel
          (λ i. get_or s.knobs i 0) (λ i. get_or s.faders i 0) b))

-- Every report of 22 bytes is read without an access out of range. The previous state is kept as
-- the old one, a well-formed state stays well-formed, and nothing else changes.
pub update_in_state_total :
    (s : Impl)
    → length s.in_report ≡ input_report_size
    → get_or s.in_report 5 0 < 256
    → IsWellFormed s.input_state
    → Returns
        (λ (t : Impl).
          (t ≡ record s { old_input_state = s.input_state; input_state = t.input_state })
          × IsWellFormed t.input_state)
        (update_in_state s)
unfolding update_in_state
update_in_state_total s n b v =
    let (t, e, wf) = read_report-IsWellFormed s.in_report s.input_state n b v.shape in
    let first = index-lt out_of_range s.in_report 0 0 (rw n (omega arith)) in
    elim (Bool-cases (get_or s.in_report 0 0 == input_report_id)) [
      | inl same ↦ (
        record s { old_input_state = s.input_state; input_state = t },
        rw (first, same, e),
        (refl, wf),
      )
      | inr other ↦ (record s { old_input_state = s.input_state }, rw (first, other), (refl, v))
    ]
