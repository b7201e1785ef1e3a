-- ===== src/OscDriver/HidDev/Laws.antt =====
-- The two drivers read and write the same reports.
use ni_traktor_kontrol_f.Base.{
  ℕ, ◌*◌, ◌%◌, ◌<◌, ◌≡◌, refl, sym, subst, Bool, false, List, Option, some, ok, get_or, index-lt,
  out_of_range, ==_iff, ◌∙◌, tabulate, arith, length, All, All-get_or,
}
use ni_traktor_kontrol_f.Base.Loops.{for_range}
use ni_traktor_kontrol_f.F1Device.SegmentChar.{to_byte}
use ni_traktor_kontrol_f.F1Device.Types.{
  Impl, input_report_id, InputState, OutputState, HasShape, ButtonColor, black, initial_output,
  input_report_size, output_report_size,
}
use ni_traktor_kontrol_f.F1Device.Shape.{full, built, rebuilt, rebuilt_lem}
use ni_traktor_kontrol_f.F1Device.Input.{read_report, update_in_state}
use ni_traktor_kontrol_f.F1Device.Input.Total.{read_report-IsWellFormed}
use ni_traktor_kontrol_f.F1Device.Output.Layout.{layout}
use ni_traktor_kontrol_f.OscDriver.HidDev.{Output, decode, read, fill, write}

shifted : (b : ℕ) → b < 256 → b * 256 % 65536 ≡ b * 256
shifted b h = omega arith

decode-built :
    (r : ℕ → ℕ) (id : ℕ) (f g h : ℕ → Bool) (w : ℕ) (k d : ℕ → ℕ)
    → ((i : ℕ) → i < 22 → r i < 256)
    → decode (tabulate 22 0 r) (built id f g h w k d)
      ≡ read_report (tabulate 22 0 r) (built id f g h w k d)
unfolding decode read_report for_range
decode-built r id f g h w k d b = rw (
  shifted (r 7) (b 7 (omega arith)),
  shifted (r 9) (b 9 (omega arith)),
  shifted (r 11) (b 11 (omega arith)),
  shifted (r 13) (b 13 (omega arith)),
)

-- The decoding of the OSC driver is that of the other driver behind its test for the id.
pub read-read_report :
    (raw : List ℕ) (s : InputState)
    → length raw ≡ input_report_size
    → All (λ b. b < 256) raw
    → HasShape s
    → read (some raw) s ≡ read_report raw s
unfolding read
read-read_report raw s n b v =
    subst (λ u. decode raw u ≡ read_report raw u) (sym (rebuilt_lem s v))
      (subst (λ l. decode l (rebuilt s) ≡ read_report l (rebuilt s)) (sym (full 22 raw 0 n))
        (decode-built (λ i. get_or raw i 0) s.report_id (λ i. get_or s.matrix_btns i false)
          (λ i. get_or s.special_btns i false) (λ i. get_or s.stop_btns i false) s.wheel
          (λ i. get_or s.knobs i 0) (λ i. get_or s.faders i 0)
          (λ i l. All-get_or (λ b. b < 256) raw i 0 (rw n l) b)))

-- A whole report of 22 bytes with the id of input reports is decoded by both drivers to the same state,
-- if they knew the same one before.
pub read-update_in_state :
    (raw : List ℕ) (d : Impl)
    → length raw ≡ input_report_size
    → All (λ b. b < 256) raw
    → get_or raw 0 0 ≡ input_report_id
    → HasShape d.input_state
    → (t : InputState) × (read (some raw) d.input_state ≡ ok t)
      × (update_in_state (record d { in_report = raw })
          ≡ ok (record d { in_report = raw; old_input_state = d.input_state; input_state = t }))
unfolding update_in_state
read-update_in_state raw d n b same v =
    let (t, e, w) =
      read_report-IsWellFormed raw d.input_state n
        (All-get_or (λ b. b < 256) raw 5 0 (omega (arith, n)) b) v in
    (
      t,
      read-read_report raw d.input_state n b v ∙ e,
      rw (
        index-lt out_of_range raw 0 0 (omega (arith, n)),
        (==_iff (get_or raw 0 0) input_report_id).1 same,
        e,
      ),
    )

-- The output state of the other driver with the same lights and all others dark.
unfoldable pub as_output_state : Output → OutputState
unfolding initial_output
as_output_state o = record initial_output { matrix_btns = o.matrix_btns; stop_btns = o.stop_btns }

fill_built :
    (c : ℕ → ButtonColor) (b a : ℕ → ℕ)
    → let o : Output = record { matrix_btns = tabulate 16 0 c; stop_btns = tabulate 4 0 b } in
      fill o (tabulate 81 0 a) ≡ ok (layout (as_output_state o))
unfolding fill for_range layout as_output_state initial_output to_byte
fill_built c b a = refl

-- If the system call takes the whole report, then it is the report that the other driver lays out
-- for the same lights, and nothing of the uninitialised array is sent.
pub write-layout :
    (sent : List ℕ → Option ℕ) (o : Output) (bytes : List ℕ)
    → length o.matrix_btns ≡ 16
    → length o.stop_btns ≡ 4
    → length bytes ≡ output_report_size
    → sent (layout (as_output_state o)) ≡ some output_report_size
    → write sent o bytes ≡ ok (layout (as_output_state o))
unfolding write
write-layout sent o bytes m s n taken =
    let c = λ (i : ℕ). get_or o.matrix_btns i black in
    let b = λ (i : ℕ). get_or o.stop_btns i 0 in
    let o' : Output = record { matrix_btns = tabulate 16 0 c; stop_btns = tabulate 4 0 b } in
    let e : o' ≡ o = λ i. record {
      matrix_btns = sym (full 16 o.matrix_btns black m) i;
      stop_btns = sym (full 4 o.stop_btns 0 s) i;
    } in
    let filled : fill o bytes ≡ ok (layout (as_output_state o)) =
      subst (λ d. fill o d ≡ ok (layout (as_output_state o))) (sym (full 81 bytes 0 n))
        (subst
          (λ p. fill p (tabulate 81 0 (λ i. get_or bytes i 0)) ≡ ok (layout (as_output_state p))) e
          (fill_built c b (λ i. get_or bytes i 0))) in
    rw (filled, taken)
