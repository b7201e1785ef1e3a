-- ===== src/F1Device/Output/Layout/Buttons.antt =====
-- The loops over the buttons in update_out_report (F1Device.cpp).
use ni_traktor_kontrol_f.Base.{
  ℕ, ◌+◌, ◌-◌, ◌*◌, ◌≡◌, List, ok, get_or, set, arith, length, length-set, All, All-get_or, lt→ltb,
  index-lt, store-lt, out_of_range,
}
use ni_traktor_kontrol_f.Base.Loops.{repeat, for_range-ok}
use ni_traktor_kontrol_f.F1Device.Types.{ButtonColor, Brightness, black, output_report_size}
use ni_traktor_kontrol_f.F1Device.Output.{write_matrix, write_stop, write_special}
use ni_traktor_kontrol_f.F1Device.Output.Sendable.{IsBright, IsBrightColor}

abbrev pub IsReport : List ℕ → Type 0
IsReport report = length report ≡ output_report_size

abbrev pub matrix_step : List ButtonColor → ℕ → List ℕ → List ℕ
matrix_step m i report =
    let c = get_or m i black in
    set (set (set report (i * 3 + 0x19) c.0) (i * 3 + 1 + 0x19) c.1) (i * 3 + 2 + 0x19) c.2

pub matrix_ok :
    (m : List ButtonColor) (report : List ℕ)
    → length m ≡ 16
    → All IsBrightColor m
    → IsReport report
    → (write_matrix m report ≡ ok (repeat 16 0 (matrix_step m) report))
      × IsReport (repeat 16 0 (matrix_step m) report)
unfolding write_matrix
matrix_ok m report n a r =
    for_range-ok IsReport _ (matrix_step m) 16 0 report
      (λ j t _ l p.
        let c = get_or m j black in
        let bright : IsBrightColor c = All-get_or IsBrightColor m j black (omega arith) a in
        (
          rw
              (
                index-lt out_of_range m j black (omega arith),
                lt→ltb c.1 128 bright.1,
                lt→ltb c.2 128 bright.2,
                lt→ltb c.0 128 bright.0,
                store-lt out_of_range t (j * 3 + 25) c.0 (omega arith),
                store-lt out_of_range (set t (j * 3 + 25) c.0) (j * 3 + 1 + 25) c.1
                    (omega (arith, length-set t (j * 3 + 25) c.0)),
              )
              (store-lt out_of_range (set (set t (j * 3 + 25) c.0) (j * 3 + 1 + 25) c.1)
                (j * 3 + 2 + 25) c.2
                (omega (
                  arith,
                  length-set t (j * 3 + 25) c.0,
                  length-set (set t (j * 3 + 25) c.0) (j * 3 + 1 + 25) c.1,
                ))),
          omega (arith, length-set {0}),
        ))
      r

abbrev pub stop_step : List Brightness → ℕ → List ℕ → List ℕ
stop_step b i report =
    let v = get_or b (3 - i) 0 in set (set report (i * 2 + 0x49) v) (i * 2 + 0x4a) v

pub stop_ok :
    (b : List Brightness) (report : List ℕ)
    → length b ≡ 4
    → All IsBright b
    → IsReport report
    → (write_stop b report ≡ ok (repeat 4 0 (stop_step b) report))
      × IsReport (repeat 4 0 (stop_step b) report)
unfolding write_stop
stop_ok b report n a r =
    for_range-ok IsReport _ (stop_step b) 4 0 report
      (λ j t _ l p.
        let v = get_or b (3 - j) 0 in
        (
          rw
              (
                index-lt out_of_range b (3 - j) 0 (omega arith),
                lt→ltb v 128 (All-get_or IsBright b (3 - j) 0 (omega arith) a),
                store-lt out_of_range t (j * 2 + 0x49) v (omega arith),
              )
              (store-lt out_of_range (set t (j * 2 + 0x49) v) (j * 2 + 0x4a) v
                (omega (arith, length-set t (j * 2 + 0x49) v))),
          omega (arith, length-set {0}),
        ))
      r

abbrev pub special_step : List Brightness → ℕ → List ℕ → List ℕ
special_step b i report = set report (i + 0x10) (get_or b i 0)

pub special_ok :
    (b : List Brightness) (report : List ℕ)
    → length b ≡ 9
    → All IsBright b
    → IsReport report
    → (write_special b report ≡ ok (repeat 8 1 (special_step b) report))
      × IsReport (repeat 8 1 (special_step b) report)
unfolding write_special
special_ok b report n a r =
    for_range-ok IsReport _ (special_step b) 8 1 report
      (λ j t _ l p.
        let v = get_or b j 0 in
        (
          rw
              (
                index-lt out_of_range b j 0 (omega arith),
                lt→ltb v 128 (All-get_or IsBright b j 0 (omega arith) a),
              )
              (store-lt out_of_range t (j + 0x10) v (omega arith)),
          omega (arith, length-set {0}),
        ))
      r
