-- ===== src/F1Device/Input.antt =====
-- `F1Device::Impl::update_in_state` of driver/src/tkf1/F1Device.cpp: from the bytes of an input
-- report to the input state.
pub mod RoundTrip
pub mod Total
use ni_traktor_kontrol_f.Base.{
  ℕ, ◌+◌, ◌-◌, ◌*◌, ◌%◌, ◌==◌, if◌then◌else◌, Bool, not, List, Result, ok, undefined, store,
  bit_and, bit_or, ◌>>=◌, at, set_at,
}
use ni_traktor_kontrol_f.Base.Bits.{bit_set}
use ni_traktor_kontrol_f.Base.Loops.{for_range}
use ni_traktor_kontrol_f.F1Device.Types.{InputState, Impl, input_report_id}

-- The bits of bytes 1 and 2, most significant first.
read_matrix : List ℕ → List Bool → Result (List Bool)
read_matrix report = for_range 2 0 λ i btns.
    for_range 8 0
      (λ j btns. do b ← at report (i + 1); store undefined btns (j + 8 * i) (bit_set (7 - j) b))
      btns

-- Bits 2 to 7 of byte 3, then bits 1 to 3 of byte 4.
read_special : List ℕ → List Bool → Result (List Bool)
read_special report btns = do
  btns ←
      for_range 6 2 (λ i btns. do b ← at report 3; store undefined btns (i - 2) (bit_set i b)) btns
  for_range 3 1 (λ i btns. do b ← at report 4; store undefined btns (i + 5) (bit_set i b)) btns

-- Bits 7 to 4 of byte 4.
read_stop : List ℕ → List Bool → Result (List Bool)
read_stop report =
    for_range 4 0 λ i btns. do b ← at report 4; store undefined btns i (bit_set (4 + (3 - i)) b)

-- Four words, low byte first; the result is stored in a `std::uint16_t`.
read_knobs : List ℕ → List ℕ → Result (List ℕ)
read_knobs report = for_range 4 0 λ i knobs. do
  lo ← at report (6 + i * 2)
  hi ← at report (7 + i * 2)
  set_at knobs i (bit_or lo (hi * 256 % 65536) % 65536)

read_faders : List ℕ → List ℕ → Result (List ℕ)
read_faders report = for_range 4 0 λ i faders. do
  lo ← at report (14 + i * 2)
  hi ← at report (15 + i * 2)
  set_at faders i (bit_or lo (bit_and hi 0xff % 65536 * 256) % 65536)

-- The new input state, once the report's id has been accepted.
unfoldable pub read_report : List ℕ → InputState → Result InputState
unfolding read_matrix read_special read_stop read_knobs read_faders
read_report report s = do
  id ← at report 0
  matrix_btns ← read_matrix report s.matrix_btns
  special_btns ← read_special report s.special_btns
  stop_btns ← read_stop report s.stop_btns
  wheel ← at report 5
  knobs ← read_knobs report s.knobs
  faders ← read_faders report s.faders
  ok (record {
    report_id = id;
    matrix_btns = matrix_btns;
    special_btns = special_btns;
    stop_btns = stop_btns;
    wheel = wheel;
    knobs = knobs;
    faders = faders;
  })

unfoldable pub update_in_state : Impl → Result Impl
update_in_state s =
    let s' = record s { old_input_state = s.input_state } in
    do
      id ← at s.in_report 0
      if not (id == input_report_id) then ok s' else do
        input_state ← read_report s.in_report s.input_state
        ok (record s' { input_state = input_state })
