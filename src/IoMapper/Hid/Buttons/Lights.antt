-- ===== src/IoMapper/Hid/Buttons/Lights.antt =====
-- The light that a button event sets.
use ni_traktor_kontrol_f.Base.{
  ℕ, ◌<◌, ◌≡◌, if◌then◌else◌, Bool, ok, out_of_range, index-lt, store-lt, get_or, set, length, inl,
  inr, Bool-cases,
}
use ni_traktor_kontrol_f.F1Device.Types.{OutputState, black}
use ni_traktor_kontrol_f.IoMapper.Floats.{Floats}
use ni_traktor_kontrol_f.IoMapper.Types.{hid}
use ni_traktor_kontrol_f.IoMapper.Hid.{
  Mapper, is_hid, dim_color, button_light_matrix_hid, button_light_special_hid,
  button_light_stop_hid,
}

module _ (fl : Floats) where
  -- The lights behind an event of each group.
  abbrev pub lit_matrix : Mapper fl → OutputState → ℕ → Bool → OutputState
  lit_matrix m o idx on =
      if is_hid (get_or m.brightness_mode.matrix idx hid)
      then record o {
        matrix_btns = set o.matrix_btns idx (
            dim_color fl (if on then m.brightness_high_color else m.brightness_low_color)
              (get_or m.matrix_colors idx black));
      }
      else o

  abbrev pub lit_special : Mapper fl → OutputState → ℕ → Bool → OutputState
  lit_special m o idx on =
      if is_hid (get_or m.brightness_mode.special idx hid)
      then record o {
        special_btns = set o.special_btns idx (if on then m.brightness_high else m.brightness_low);
      }
      else o

  abbrev pub lit_stop : Mapper fl → OutputState → ℕ → Bool → OutputState
  lit_stop m o idx on =
      if is_hid (get_or m.brightness_mode.stop idx hid)
      then record o {
        stop_btns = set o.stop_btns idx (if on then m.brightness_high else m.brightness_low);
      }
      else o

  pub light_matrix_lem :
      (m : Mapper fl) (o : OutputState) (idx : ℕ) (on : Bool)
      → idx < length m.brightness_mode.matrix
      → idx < length m.matrix_colors
      → idx < length o.matrix_btns
      → button_light_matrix_hid fl m o idx on ≡ ok (lit_matrix m o idx on)
  unfolding button_light_matrix_hid
  light_matrix_lem m o idx on p q r =
      rw (index-lt out_of_range m.brightness_mode.matrix idx hid p)
        (elim (Bool-cases (is_hid (get_or m.brightness_mode.matrix idx hid))) [
          | inl e ↦
              rw (e, index-lt out_of_range m.matrix_colors idx black q)
                (rw (store-lt out_of_range o.matrix_btns idx _ r))
          | inr e ↦ rw e
        ])

  pub light_special_lem :
      (m : Mapper fl) (o : OutputState) (idx : ℕ) (on : Bool)
      → idx < length m.brightness_mode.special
      → idx < length o.special_btns
      → button_light_special_hid fl m o idx on ≡ ok (lit_special m o idx on)
  unfolding button_light_special_hid
  light_special_lem m o idx on p r =
      rw (index-lt out_of_range m.brightness_mode.special idx hid p)
        (elim (Bool-cases (is_hid (get_or m.brightness_mode.special idx hid))) [
          | inl e ↦ rw e (rw (store-lt out_of_range o.special_btns idx _ r))
          | inr e ↦ rw e
        ])

  pub light_stop_lem :
      (m : Mapper fl) (o : OutputState) (idx : ℕ) (on : Bool)
      → idx < length m.brightness_mode.stop
      → idx < length o.stop_btns
      → button_light_stop_hid fl m o idx on ≡ ok (lit_stop m o idx on)
  unfolding button_light_stop_hid
  light_stop_lem m o idx on p r =
      rw (index-lt out_of_range m.brightness_mode.stop idx hid p)
        (elim (Bool-cases (is_hid (get_or m.brightness_mode.stop idx hid))) [
          | inl e ↦ rw e (rw (store-lt out_of_range o.stop_btns idx _ r))
          | inr e ↦ rw e
        ])
