-- ===== src/OscDriver/Loop/Rounds.antt =====
-- The whole loop of `exec_driver` (osc_driver.cpp).
use ni_traktor_kontrol_f.Base.{
  ℕ, ◌≡◌, refl, ◌∙◌, ap, ok-injective, bind-ok, Bool, false, replicate, Option, some, List, [], ◌∷◌,
  map, length, All, Result, ok, ◌>>=◌,
}
use ni_traktor_kontrol_f.Base.Loops.{for_range}
use ni_traktor_kontrol_f.F1Device.Types.{
  InputState, HasShape, InRange, input_report_id, output_report_size,
}
use ni_traktor_kontrol_f.F1Device.Input.RoundTrip.{encode, read_report-encode, encode-IsReport}
use ni_traktor_kontrol_f.F1Device.Output.Layout.{layout}
use ni_traktor_kontrol_f.OscDriver.HidDev.{Output, read, write}
use ni_traktor_kontrol_f.OscDriver.HidDev.Laws.{as_output_state, read-read_report, write-layout}
use ni_traktor_kontrol_f.OscDriver.InputChange.{F1InputChange}
use ni_traktor_kontrol_f.OscDriver.Loop.{
  zero_state, no_change, dark_output, first_colors, change_colors, light_matrix, light_stop,
  set_colors, driver_round, driver_rounds, exec_loop,
}
use ni_traktor_kontrol_f.OscDriver.Loop.Lights.{
  lights_of, shown_output, shown_core, next_toggles, round_change, length-next_toggles,
  handle_input-shown_core,
}

-- A report of the device: its state, and the three bits of the report that stand for no control.
pub record DeviceReport : Type 0 where
  pub state : InputState
  pub bit_a : Bool
  pub bit_b : Bool
  pub bit_c : Bool

abbrev pub bytes_of : DeviceReport → List ℕ
bytes_of r = encode r.bit_a r.bit_b r.bit_c r.state

pub record IsDeviceReport (r : DeviceReport) : Type 0 where
  pub shape : HasShape r.state
  pub range : InRange r.state
  pub id : r.state.report_id ≡ input_report_id

abbrev pub received : List DeviceReport → List (Option (List ℕ))
received = map (λ r. some (bytes_of r))

read-bytes_of :
    (r : DeviceReport) (s : InputState)
    → IsDeviceReport r
    → HasShape s
    → read (some (bytes_of r)) s ≡ ok r.state
read-bytes_of r s d v =
    let w = encode-IsReport s r.state r.bit_a r.bit_b r.bit_c d.shape d.range in
    read-read_report (bytes_of r) s w.size w.bytes v
    ∙ read_report-encode s r.state r.bit_a r.bit_b r.bit_c v d.shape d.range d.id

-- The state known last, the toggles of the stop buttons and the changes that are broadcast, from a state
-- and toggles on.
abbrev pub last_state : InputState → List DeviceReport → InputState
last_state last [] = last
last_state last (r ∷ reports) = last_state r.state reports

abbrev pub last_toggles : InputState → List Bool → List DeviceReport → List Bool
last_toggles last toggles [] = toggles
last_toggles last toggles (r ∷ reports) =
    last_toggles r.state (next_toggles r.state last toggles) reports

abbrev pub all_changes : InputState → List Bool → List DeviceReport → List F1InputChange
all_changes last toggles [] = []
all_changes last toggles (r ∷ reports) =
    round_change r.state last toggles
    ∷ all_changes r.state (next_toggles r.state last toggles) reports

module _ (scaled : Bool → ℕ → ℕ) {Sink : Type 0}
    (broadcast : F1InputChange → Sink → Result Sink) where
  -- Changes are broadcast one behind another.
  abbrev pub broadcast_all : List F1InputChange → Sink → Result Sink
  broadcast_all [] sink = ok sink
  broadcast_all (c ∷ cs) sink = broadcast c sink >>= broadcast_all cs

  -- The system call takes whole reports, and the report's array has its extent.
  pub record CanWrite (sent : List ℕ → Option ℕ) (bytes : List ℕ) : Type 0 where
    pub taken : (report : List ℕ) → sent report ≡ some output_report_size
    pub size : length bytes ≡ output_report_size

  driver_rounds-shown_core :
      (reports : List DeviceReport) (sent : List ℕ → Option ℕ) (bytes : List ℕ) (last : InputState)
      (toggles : List Bool) (sink : Sink) {final : Sink}
      → CanWrite sent bytes
      → All IsDeviceReport reports
      → broadcast_all (all_changes last toggles reports) sink ≡ ok final
      → HasShape last
      → length toggles ≡ 4
      → driver_rounds scaled broadcast
          (received reports)
          sent
          bytes
          (shown_core scaled broadcast last toggles sink)
        ≡ ok (
            shown_core scaled broadcast
              (last_state last reports)
              (last_toggles last toggles reports)
              final)
  unfolding driver_rounds driver_round
  driver_rounds-shown_core [] sent bytes last toggles sink run a can v m =
      ap (λ x. ok (shown_core scaled broadcast last toggles x)) (ok-injective can)
  driver_rounds-shown_core (r ∷ reports) sent bytes last toggles sink run a can v m =
      let (next, first, rest) =
        bind-ok (broadcast (round_change r.state last toggles) sink) (broadcast_all _) can in
      rw
        (
          read-bytes_of r last a.0 v,
          handle_input-shown_core scaled broadcast sent bytes r.state last toggles sink first
              run.taken run.size a.0.shape v m,
        )
        (driver_rounds-shown_core reports sent bytes r.state (next_toggles r.state last toggles)
          next run a.1 rest a.0.shape (length-next_toggles r.state last toggles ∙ m))

  -- If the changes between the reports can be broadcast one behind another, and the system call takes
  -- whole reports, the loop ends without an exception on every sequence of reports of the device. After
  -- it the last report's state is known, each matrix light shows whether its button is pressed in it,
  -- each stop button was toggled as often as it was pressed and its light shows that, and the changes were
  -- broadcast in their order, with the stop buttons as they were switched.
  pub exec_loop-shown_core :
      (reports : List DeviceReport) (sent : List ℕ → Option ℕ) (bytes : List ℕ) (sink : Sink)
      {final : Sink}
      → CanWrite sent bytes
      → All IsDeviceReport reports
      → broadcast_all (all_changes zero_state (replicate 4 false) reports) sink ≡ ok final
      → exec_loop scaled broadcast (received reports) sent bytes sink
        ≡ ok (
            shown_core scaled broadcast
              (last_state zero_state reports)
              (last_toggles zero_state (replicate 4 false) reports)
              final)
  unfolding exec_loop set_colors
  exec_loop-shown_core reports sent bytes sink run a can =
      rw (colored, wrote, unchanged, wrote)
        (driver_rounds-shown_core reports sent bytes zero_state (replicate 4 false) sink run a can
          (record {
            matrix_16 = refl;
            special_9 = refl;
            stop_4 = refl;
            knobs_4 = refl;
            faders_4 = refl;
          })
          refl)
    where
      start : Output
      start = shown_output scaled (replicate 16 false) (replicate 4 false)

      colored : first_colors scaled dark_output ≡ ok start
      colored = unfold first_colors in unfold for_range in unfold lights_of in refl

      unchanged : change_colors scaled no_change start ≡ ok start
      unchanged = unfold change_colors in unfold light_matrix in unfold light_stop in refl

      wrote : write sent start bytes ≡ ok (layout (as_output_state start))
      wrote =
          write-layout sent start bytes (unfold lights_of in refl) (unfold lights_of in refl)
            run.size (run.taken _)
