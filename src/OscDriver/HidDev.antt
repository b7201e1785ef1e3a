-- ===== src/OscDriver/HidDev.antt =====
-- driver-osc/src/F1HidDev.{hpp,cpp}: reading and writing the device's reports. `F1InpuState` has the
-- members of `F1Device::InputState`.
pub mod Laws
use ni_traktor_kontrol_f.Base.{
  ℕ, ◌+◌, ◌-◌, ◌*◌, ◌%◌, ◌==◌, if◌then◌else◌, Bool, List, Option, some, none, Result, ok, err,
  undefined, hid_dev_exception, out_of_range, bit_and, bit_or, ◌>>=◌, at, set_at, index, store,
  from_option,
}
use ni_traktor_kontrol_f.Base.Bits.{bit_set}
use ni_traktor_kontrol_f.Base.Loops.{for_range}
use ni_traktor_kontrol_f.F1Device.Types.{InputState, ButtonColor, Brightness, output_report_id}

-- `F1HidDev::output`.
pub record Output : Type 0 where
  pub matrix_btns : List ButtonColor
  pub stop_btns : List Brightness

-- A byte of `raw_input`, which is indeterminate where the kernel has not written.
abbrev raw_at : List ℕ → ℕ → Result ℕ
raw_at = index undefined

read_row : List ℕ → (byte base : ℕ) → List Bool → Result (List Bool)
read_row raw byte base =
    for_range 8 0
      λ i btns. do b ← raw_at raw byte; store undefined btns (i + base) (bit_set (7 - i) b)

read_special : List ℕ → List Bool → Result (List Bool)
read_special raw btns = do
  btns ←
      for_range 6 2 (λ i btns. do b ← raw_at raw 3; store undefined btns (i - 2) (bit_set i b)) btns
  for_range 3 1 (λ i btns. do b ← raw_at raw 4; store undefined btns (i + 5) (bit_set i b)) btns

read_stop : List ℕ → List Bool → Result (List Bool)
read_stop raw =
    for_range 4 0 λ i btns. do b ← raw_at raw 4; store undefined btns i (bit_set (4 + (3 - i)) b)

read_knobs : List ℕ → List ℕ → Result (List ℕ)
read_knobs raw = for_range 4 0 λ i knobs. do
  lo ← raw_at raw (6 + i * 2)
  hi ← raw_at raw (7 + i * 2)
  store undefined knobs i (bit_or lo (hi * 256) % 65536)

read_faders : List ℕ → List ℕ → Result (List ℕ)
read_faders raw = for_range 4 0 λ i faders. do
  lo ← raw_at raw (14 + i * 2)
  hi ← raw_at raw (15 + i * 2)
  store undefined faders i (bit_or lo (bit_and hi 0xff % 65536 * 256) % 65536)

unfoldable pub decode : List ℕ → InputState → Result InputState
unfolding read_row read_special read_stop read_knobs read_faders
decode raw s = do
  id ← raw_at raw 0
  matrix_btns ← read_row raw 1 0 s.matrix_btns
  matrix_btns ← read_row raw 2 8 matrix_btns
  special_btns ← read_special raw s.special_btns
  stop_btns ← read_stop raw s.stop_btns
  wheel ← raw_at raw 5
  knobs ← read_knobs raw s.knobs
  faders ← read_faders raw s.faders
  ok (record {
    report_id = id;
    matrix_btns = matrix_btns;
    special_btns = special_btns;
    stop_btns = stop_btns;
    wheel = wheel;
    knobs = knobs;
    faders = faders;
  })

-- `F1HidDev::read`, given what the system call stored: nothing if it failed, else its bytes.
unfoldable pub read : Option (List ℕ) → InputState → Result InputState
read received s = do raw ← from_option hid_dev_exception received; decode raw s

-- `output.matrix_btns.at(i).at(j)`.
component : ButtonColor → ℕ → Result Brightness
component c j =
    if j == 0
    then ok c.0
    else if j == 1
    then ok c.1
    else if j == 2
    then ok c.2
    else err out_of_range

-- The bytes of the report. The array is not initialised before.
unfoldable pub fill : Output → List ℕ → Result (List ℕ)
unfolding component
fill output bytes = do
  bytes ← set_at bytes 0 output_report_id
  bytes ← for_range 80 1 (λ i bytes. set_at bytes i 0) bytes
  bytes ←
      for_range 16 0
        (λ i bytes.
          for_range 3 0
            (λ j bytes. do
              color ← at output.matrix_btns i
              c ← component color j
              set_at bytes (i * 3 + j + 0x19) c)
            bytes)
        bytes
  for_range 4 0
      (λ i bytes. do
        first ← at output.stop_btns (3 - i)
        bytes ← set_at bytes (i * 2 + 0x49) first
        second ← at output.stop_btns (3 - i)
        set_at bytes (i * 2 + 0x4a) second)
      bytes

-- `F1HidDev::write`: what is handed to the system call, of which `sent` tells how many bytes it
-- wrote (nothing if it failed).
unfoldable pub write : (sent : List ℕ → Option ℕ) → Output → List ℕ → Result (List ℕ)
write sent output bytes = do
  report ← fill output bytes
  n ← from_option hid_dev_exception (sent report)
  if n == 81 then ok report else err hid_dev_exception
