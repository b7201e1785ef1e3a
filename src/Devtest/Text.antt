-- ===== src/Devtest/Text.antt =====
-- What devtest.cpp prints.
use Prim.Native.String.{String, ◌++◌ as ◌<>◌}
use text.Mathlib.TextLemmas.{append-nil, append_assoc}
use ni_traktor_kontrol_f.Base.{
  ℕ, zero, suc, ◌+◌, ◌*◌, ◌<◌, ◌≡◌, refl, ap, sym, subst, ◌∙◌, Bool, true, false, List, [], ◌∷◌,
  length, take, drop, get_or, Result, ok, ◌>>=◌, index, index-lt, undefined, out_of_range,
  if◌then◌else◌, arith,
}
use ni_traktor_kontrol_f.Base.Loops.{for_range}
use ni_traktor_kontrol_f.F1Device.Types.{InputState, HasShape, faders_max, knobs_max}
use ni_traktor_kontrol_f.F1Device.Helpers.{matrix_pos, special_btn_name}
use ni_traktor_kontrol_f.F1Device.Shape.{built, rebuilt_lem}
use ni_traktor_kontrol_f.Devtest.{
  border, print_position, print_special, print_cell, print_row, print_stop, print_state,
}

flat :
    (a b c d e f g h i j k : String)
    → ((((((((((a <> b) <> c) <> d) <> e) <> f) <> g) <> h) <> i) <> j) <> k)
      ≡ a <> (b <> (c <> (d <> (e <> (f <> (g <> (h <> (i <> (j <> k)))))))))
flat a b c d e f g h i j k = simp append_assoc

-- The texts of the items of a list, one behind another.
abbrev texts : {A : Type 0} → (A → String) → List A → String
texts f [] = ""
texts f (x ∷ xs) = f x <> texts f xs

-- The names of the pressed buttons from button `i` on.
abbrev pressed_names : ℕ → List Bool → String
pressed_names i [] = ""
pressed_names i (b ∷ bs) = (if b then " " <> special_btn_name i else "") <> pressed_names (suc i) bs

abbrev cell : Bool → String
cell b = "| " <> (if b then "x " else "  ")

-- A row of the matrix, with the line above it.
abbrev row : List Bool → String
row bs = border <> (texts cell bs <> "|\n")

-- The matrix by its rows.
abbrev rows : List Bool → List (List Bool)
rows bs = take 4 bs ∷ take 4 (drop 4 bs) ∷ take 4 (drop 8 bs) ∷ take 4 (drop 12 bs) ∷ []

abbrev stop_cell : Bool → String
stop_cell b = if b then "|STP" else "|   "

-- As many texts from number `i` on.
joined : (n i : ℕ) → (ℕ → String) → String
joined zero i f = ""
joined (suc n) i f = f i <> joined n (suc i) f

-- A loop whose rounds append texts.
for_range-joined :
    (body : ℕ → String → Result String) (f : ℕ → String) (n i : ℕ) (out : String)
    → ((k : ℕ) (o : String) → k < i + n → body k o ≡ ok (o <> f k))
    → for_range n i body out ≡ ok (out <> joined n i f)
unfolding for_range joined
for_range-joined body f zero i out h = ap ok (sym (append-nil out))
for_range-joined body f (suc n) i out h = rw (h i out (omega arith)) (
    for_range-joined body f n (suc i) (out <> f i) (λ k o l. h k o (omega arith))
    ∙ ap ok (append_assoc out (f i) (joined n (suc i) f)))

position_in_row : (i j : ℕ) → i < 4 → j < 0 + 4 → matrix_pos j i ≡ i * 4 + j
unfolding matrix_pos
position_in_row i j l m = omega arith

module _ (number : ℕ → String) (percentage : (part whole : ℕ) → String) where
  abbrev position : (whole v : ℕ) → String
  position whole v = " " <> (percentage v whole <> "%")

  -- The positions of knobs and faders in percent, the wheel's number, the names of the pressed special
  -- buttons, and tables of the matrix, four buttons in a row, and of the stop buttons.
  pub printed : InputState → String
  printed s =
      "KNOBS:"
      <> (texts (position knobs_max) s.knobs
          <> ("\nFADERS:"
              <> (texts (position faders_max) s.faders
                  <> (("\nWHEEL: " <> (number s.wheel <> "\nSP:"))
                      <> (pressed_names 0 s.special_btns
                          <> ("\n"
                              <> (texts row (rows s.matrix_btns)
                                  <> ((border <> border)
                                      <> (texts stop_cell s.stop_btns <> ("|\n" <> border))))))))))

  print_position-text :
      (whole : ℕ) (xs : List ℕ) (n : ℕ) (out : String)
      → length xs ≡ n
      → for_range n 0 (print_position number percentage whole xs) out
        ≡ ok (out <> joined n 0 (λ k. position whole (get_or xs k 0)))
  print_position-text whole xs n out e =
      for_range-joined _ _ n 0 out
        (λ k o l. rw (index-lt out_of_range xs k 0 (rw e (omega arith))) refl)

  special_text : (o x : String) (b : Bool) → (if b then o <> x else o) ≡ o <> (if b then x else "")
  special_text o x true = refl
  special_text o x false = sym (append-nil o)

  special-text :
      (bs : List Bool) (n : ℕ) (out : String)
      → length bs ≡ n
      → for_range n 0 (print_special number percentage bs) out
        ≡ ok (out <> joined n 0 (λ k. if get_or bs k false then " " <> special_btn_name k else ""))
  special-text bs n out e = for_range-joined _ _ n 0 out (λ k o l.
      rw (index-lt undefined bs k false (rw e (omega arith)))
        (ap ok (special_text o (" " <> special_btn_name k) (get_or bs k false))))

  stop-text :
      (bs : List Bool) (n : ℕ) (out : String)
      → length bs ≡ n
      → for_range n 0 (print_stop number percentage bs) out
        ≡ ok (out <> joined n 0 (λ k. stop_cell (get_or bs k false)))
  stop-text bs n out e =
      for_range-joined _ _ n 0 out
        (λ k o l. rw (index-lt undefined bs k false (rw e (omega arith))) refl)

  -- The cells of row `i`.
  abbrev cells : List Bool → ℕ → String
  cells bs i = joined 4 0 (λ j. cell (get_or bs (i * 4 + j) false))

  row-text :
      (bs : List Bool) (i : ℕ) (out : String)
      → i < 4
      → length bs ≡ 16
      → print_row number percentage bs i out ≡ ok (out <> (border <> (cells bs i <> "|\n")))
  row-text bs i out l e =
      rw
        (for_range-joined (print_cell number percentage bs i)
          (λ j. cell (get_or bs (i * 4 + j) false)) 4 0 (out <> border)
          (λ j o m.
            ap (λ k. index undefined bs k >>= λ b. ok (o <> cell b)) {x = matrix_pos j i}
              {y = i * 4 + j} (position_in_row i j l m)
            ∙ rw (index-lt undefined bs (i * 4 + j) false (omega (arith, e))) refl))
        (ap ok (
          append_assoc (out <> border) (cells bs i) "|\n"
          ∙ append_assoc out border (cells bs i <> "|\n")))

  rows-text :
      (bs : List Bool) (out : String)
      → length bs ≡ 16
      → for_range 4 0 (print_row number percentage bs) out
        ≡ ok (out <> joined 4 0 (λ i. border <> (cells bs i <> "|\n")))
  rows-text bs out e = for_range-joined _ _ 4 0 out (λ i o l. row-text bs i o (omega arith) e)

  -- The loops' texts of a state are those of its lists.
  abbrev SameParts : InputState → Type 0
  SameParts s =
      (joined 4 0 (λ k. position knobs_max (get_or s.knobs k 0))
        ≡ texts (position knobs_max) s.knobs)
      × (joined 4 0 (λ k. position faders_max (get_or s.faders k 0))
          ≡ texts (position faders_max) s.faders)
      × (joined 9 0 (λ k. if get_or s.special_btns k false then " " <> special_btn_name k else "")
          ≡ pressed_names 0 s.special_btns)
      × (joined 4 0 (λ i. border <> (cells s.matrix_btns i <> "|\n"))
          ≡ texts row (rows s.matrix_btns))
      × (joined 4 0 (λ k. stop_cell (get_or s.stop_btns k false)) ≡ texts stop_cell s.stop_btns)

  SameParts-built :
      (id : ℕ) (f g h : ℕ → Bool) (w : ℕ) (k d : ℕ → ℕ) → SameParts (built id f g h w k d)
  unfolding joined
  SameParts-built id f g h w k d = (refl, refl, refl, refl, refl)

  same_parts : (s : InputState) → HasShape s → SameParts s
  same_parts s v = subst SameParts (sym (rebuilt_lem s v)) (
      SameParts-built s.report_id (λ i. get_or s.matrix_btns i false)
        (λ i. get_or s.special_btns i false) (λ i. get_or s.stop_btns i false) s.wheel
        (λ i. get_or s.knobs i 0) (λ i. get_or s.faders i 0))

  -- What is printed.
  pub print_state-printed :
      (s : InputState) → HasShape s → print_state number percentage s ≡ ok (printed s)
  unfolding print_state printed
  print_state-printed s v =
      let (knobs, faders, special, matrix, stop) = same_parts s v in
      rw
        (
          print_position-text knobs_max s.knobs 4 "KNOBS:" v.knobs_4,
          print_position-text faders_max s.faders 4 _ v.faders_4,
          special-text s.special_btns 9 _ v.special_9,
          rows-text s.matrix_btns _ v.matrix_16,
          stop-text s.stop_btns 4 _ v.stop_4,
          knobs,
          faders,
          special,
          matrix,
          stop,
        )
        (ap ok (
          flat "KNOBS:" _ "\nFADERS:" _ ("\nWHEEL: " <> (number s.wheel <> "\nSP:")) _ "\n" _
            (border <> border) _ ("|\n" <> border)))
