-- ===== src/F1Device/Output/Lights.antt =====
-- Sendable output states with new lights.
use ni_traktor_kontrol_f.Base.{◌≡◌, List, length, All}
use ni_traktor_kontrol_f.F1Device.Types.{ButtonColor, Brightness, OutputState}
use ni_traktor_kontrol_f.F1Device.Output.Sendable.{IsSendable, IsBright, IsBrightColor}

pub set_matrix-IsSendable :
    (o : OutputState) (xs : List ButtonColor)
    → length xs ≡ 16
    → All IsBrightColor xs
    → IsSendable o
    → IsSendable (record o { matrix_btns = xs })
set_matrix-IsSendable o xs n a v = record {
  matrix_16 = n;
  stop_4 = v.stop_4;
  special_9 = v.special_9;
  matrix_bright = a;
  stop_bright = v.stop_bright;
  special_bright = v.special_bright;
  left_bright = v.left_bright;
  right_bright = v.right_bright;
  left_dot_bright = v.left_dot_bright;
  right_dot_bright = v.right_dot_bright;
}

pub set_special-IsSendable :
    (o : OutputState) (xs : List Brightness)
    → length xs ≡ 9
    → All IsBright xs
    → IsSendable o
    → IsSendable (record o { special_btns = xs })
set_special-IsSendable o xs n a v = record {
  matrix_16 = v.matrix_16;
  stop_4 = v.stop_4;
  special_9 = n;
  matrix_bright = v.matrix_bright;
  stop_bright = v.stop_bright;
  special_bright = a;
  left_bright = v.left_bright;
  right_bright = v.right_bright;
  left_dot_bright = v.left_dot_bright;
  right_dot_bright = v.right_dot_bright;
}

pub set_stop-IsSendable :
    (o : OutputState) (xs : List Brightness)
    → length xs ≡ 4
    → All IsBright xs
    → IsSendable o
    → IsSendable (record o { stop_btns = xs })
set_stop-IsSendable o xs n a v = record {
  matrix_16 = v.matrix_16;
  stop_4 = n;
  special_9 = v.special_9;
  matrix_bright = v.matrix_bright;
  stop_bright = a;
  special_bright = v.special_bright;
  left_bright = v.left_bright;
  right_bright = v.right_bright;
  left_dot_bright = v.left_dot_bright;
  right_dot_bright = v.right_dot_bright;
}
