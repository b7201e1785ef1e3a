-- ===== src/IoMapper/Safety/Colors.antt =====
-- The mapper's colours stay in seven bits.
use ni_traktor_kontrol_f.Base.{
  ℕ, ◌<◌, if◌then◌else◌, Bool, true, false, none, some, get_or, All-get_or, arith,
}
use ni_traktor_kontrol_f.F1Device.Types.{ButtonColor, black}
use ni_traktor_kontrol_f.F1Device.Output.Sendable.{IsBrightColor}
use ni_traktor_kontrol_f.MidiEvent.Types.{MidiEvent, note_on, same_type}
use ni_traktor_kontrol_f.IoMapper.Floats.{Floats, FloatLaws}
use ni_traktor_kontrol_f.IoMapper.Types.{BrightnessMode, hid, midi_note, midi_cc, midi_max}
use ni_traktor_kontrol_f.IoMapper.Hid.{Mapper, dim_color}
use ni_traktor_kontrol_f.IoMapper.Midi.{cc_color, note_color}
use ni_traktor_kontrol_f.IoMapper.Midi.Painted.Color.{new_color, color_by, painted}
use ni_traktor_kontrol_f.IoMapper.Safety.Config.{Is7Bit, IsSafe, factor}

painted_if :
    (b : Bool) (c old : ButtonColor)
    → IsBrightColor c
    → IsBrightColor old
    → IsBrightColor (painted (if b then some c else none) old)
painted_if true c old p q = p
painted_if false c old p q = q

module _ (fl : Floats) (laws : FloatLaws fl) where
  pub dim-IsBright :
      (f : fl.Float) (c : ButtonColor)
      → laws.IsUnit f
      → IsBrightColor c
      → IsBrightColor (dim_color fl f c)
  unfolding dim_color
  dim-IsBright f c u b = (
    omega (arith, laws.lround-le f c.0 u (omega arith)),
    omega (arith, laws.lround-le f c.1 u (omega arith)),
    omega (arith, laws.lround-le f c.2 u (omega arith)),
  )

  note-IsBright :
      (f : fl.Float) (c : ButtonColor)
      → laws.IsUnit f
      → IsBrightColor c
      → IsBrightColor (note_color fl f c)
  unfolding note_color
  note-IsBright f c u b = (
    omega (arith, laws.trunc_float-le f c.0 u (omega arith)),
    omega (arith, laws.trunc_float-le f c.1 u (omega arith)),
    omega (arith, laws.trunc_float-le f c.2 u (omega arith)),
  )

  cc-IsBright :
      (v : ℕ) (c : ButtonColor) → v < 128 → IsBrightColor c → IsBrightColor (cc_color fl v c)
  unfolding cc_color
  cc-IsBright v c h b = (
    omega (
      arith,
      laws.trunc_double-le v midi_max c.0 (omega arith) (omega arith) (omega arith) (omega arith),
    ),
    omega (
      arith,
      laws.trunc_double-le v midi_max c.1 (omega arith) (omega arith) (omega arith) (omega arith),
    ),
    omega (
      arith,
      laws.trunc_double-le v midi_max c.2 (omega arith) (omega arith) (omega arith) (omega arith),
    ),
  )

  pub color-IsBright :
      (m : Mapper fl) (e : MidiEvent) (i : ℕ) (old : ButtonColor)
      → IsSafe fl laws m
      → Is7Bit e.data2
      → i < 16
      → IsBrightColor old
      → IsBrightColor (painted (new_color fl m e i) old)
  unfolding new_color
  color-IsBright m e i old s d h b = by (get_or m.brightness_mode.matrix i hid)
    where
      c : IsBrightColor (get_or m.matrix_colors i black)
      c = All-get_or IsBrightColor m.matrix_colors i black (rw s.valid.colors_16 h) s.colors

      by : (mode : BrightnessMode) → IsBrightColor (painted (color_by fl m e mode i) old)
      by hid = unfold color_by in b
      by midi_cc =
          unfold color_by in
          painted_if _ _ old (cc-IsBright e.data2 (get_or m.matrix_colors i black) d c) b
      by midi_note =
          unfold color_by in
          painted_if _ _ old
            (note-IsBright _ (get_or m.matrix_colors i black)
              (factor fl laws m (same_type e.type note_on) s) c)
            b
