-- ===== src/Driver/Main/Start.antt =====
-- The system that `main` starts with is fit for its threads.
use ni_traktor_kontrol_f.Base.{replicate, ℕ, ◌≡◌, refl, List, [], length, Ends, inl, inr, arith}
use ni_traktor_kontrol_f.F1Device.Types.{
  InputState, HasShape, initial_output, input_report_size, output_report_size,
}
use ni_traktor_kontrol_f.F1Device.Output.Layout.{update_out_report-layout}
use ni_traktor_kontrol_f.F1Device.Output.Sendable.{initial_output-IsSendable}
use ni_traktor_kontrol_f.Jack.{JackRing}
use ni_traktor_kontrol_f.Ringbuffer.{byte_count}
use ni_traktor_kontrol_f.Ringbuffer.Holds.{Holds}
use ni_traktor_kontrol_f.Ringbuffer.Copy.{HasRoom, construct-Holds}
use ni_traktor_kontrol_f.JackWrapper.{byte_layout, in_buf_size}
use ni_traktor_kontrol_f.JackWrapper.Reading.{Bytes}
use ni_traktor_kontrol_f.IoMapper.Floats.{Floats, FloatLaws}
use ni_traktor_kontrol_f.IoMapper.Hid.Valid.{IsValid}
use ni_traktor_kontrol_f.IoMapper.Safety.Config.{IsSafe}
use ni_traktor_kontrol_f.Driver.Round.{IsReady}
use ni_traktor_kontrol_f.Driver.Report.{length-layout}
use ni_traktor_kontrol_f.Driver.Main.{System, red, green, blue, yellow, main_mapper, start}

module _ (fl : Floats) (laws : FloatLaws fl) where
  main_mapper-IsValid : IsValid (main_mapper fl)
  unfolding main_mapper
  main_mapper-IsValid = record {
    toggles = (refl, refl, refl);
    notes = (refl, refl, refl);
    modes = (refl, refl, refl);
    lights = (refl, refl, refl);
    colors_16 = refl;
    last_matrix = refl;
    last_special = refl;
    last_stop = refl;
    last_fader = refl;
    last_knob = refl;
    knobs_4 = refl;
    faders_4 = refl;
  }

  main_mapper-IsSafe : IsSafe fl laws (main_mapper fl)
  unfolding main_mapper red green blue yellow
  main_mapper-IsSafe = record {
    valid = main_mapper-IsValid;
    colors = omega arith;
    low_color = laws.one_fifth_unit;
    high_color = laws.one_unit;
    low = omega arith;
    high = omega arith;
    channel = omega arith;
    on_velocity = omega arith;
    off_velocity = omega arith;
    matrix_notes = omega arith;
    special_notes = omega arith;
    stop_notes = omega arith;
    knob_controllers = omega arith;
    fader_controllers = omega arith;
    wheel_controller = omega arith;
    wheel_dec = omega arith;
    wheel_inc = omega arith;
  }

module _ (fl : Floats) (laws : FloatLaws fl) (j : JackRing) where
  -- How many bytes JACK's ring for the input has room for.
  abbrev pub in_places : ℕ
  in_places = j.room (byte_count 1 in_buf_size)

  in_room : HasRoom j byte_layout in_places in_buf_size
  in_room = record { enough = omega arith; not_more = omega arith }

  -- The mapper, the lights and the waiting events are well-formed, the arrays have their extents, and
  -- the input ring holds bytes.
  pub record IsRunning (s : System fl j) : Type 0 where
    pub ready : IsReady fl laws s.driver
    pub report_81 : length s.driver.dev.out_report ≡ output_report_size
    pub shape : HasShape s.driver.dev.input_state
    pub bytes : (bs : List ℕ) × Bytes bs × Holds j byte_layout in_places s.in_buf bs

  pub start-IsRunning : (a b : InputState) → HasShape a → Ends IsRunning (start fl j a b)
  unfolding start
  start-IsRunning a b h =
      rw
        (update_out_report-layout
          (record {
            input_state = a;
            old_input_state = b;
            output_state = initial_output;
            in_report = replicate input_report_size 0;
            out_report = replicate output_report_size 0;
            input_events = [];
          })
          initial_output-IsSendable refl)
        (elim (construct-Holds j byte_layout in_places in_buf_size in_room) [
          | inl (none_left, e) ↦ rw e tt
          | inr (ring, e, (empty, made)) ↦ rw e (record {
            ready = record {
              safe = main_mapper-IsSafe fl laws;
              sendable = initial_output-IsSendable;
              voices = tt;
            };
            report_81 = length-layout initial_output;
            shape = h;
            bytes = ([], tt, empty);
          })
        ])
