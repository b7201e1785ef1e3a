-- ===== src/OscDriver/Loop/Toggles.antt =====
-- The toggling of stop buttons (osc_driver.cpp): the lists of buttons that were switched on and off.
use mathlib.Core.List.{append-nil, append_assoc}
use ni_traktor_kontrol_f.Base.{
  same_bool, not, ap₂, sym, if◌then◌else◌, ℕ, zero, suc, ◌<◌, ◌≤◌, ◌≢◌, ◌≡◌, refl, ap, ◌∙◌, Bool,
  true, false, Bool-cases, inl, inr, List, [], ◌∷◌, ◌++◌, length, length-set, get_or, set,
  get_or-set_self, All, ok, Returns, out_of_range, undefined, index, store, index-lt, store-lt,
  arith,
}
use ni_traktor_kontrol_f.OscDriver.InputChange.Follow.{set_all}
use ni_traktor_kontrol_f.OscDriver.InputChange.Rising.{IsRising}
use ni_traktor_kontrol_f.OscDriver.Loop.{toggle_stop}

set_comm :
    (xs : List Bool) (i k : ℕ) (v w : Bool) → i ≢ k → set (set xs i v) k w ≡ set (set xs k w) i v
set_comm [] i k v w d = refl
set_comm (x ∷ xs) zero zero v w d = absurd (d refl)
set_comm (x ∷ xs) zero (suc k) v w d = refl
set_comm (x ∷ xs) (suc i) zero v w d = refl
set_comm (x ∷ xs) (suc i) (suc k) v w d = ap (λ r. x ∷ r) (set_comm xs i k v w (λ e. d (ap suc e)))

set_all_snoc :
    (b : Bool) (is : List ℕ) (k : ℕ) (xs : List Bool)
    → set_all b (is ++ (k ∷ [])) xs ≡ set (set_all b is xs) k b
unfolding set_all
set_all_snoc b [] k xs = refl
set_all_snoc b (i ∷ is) k xs = set_all_snoc b is k (set xs i b)

set_all-set :
    (b v : Bool) (is : List ℕ) (k : ℕ) (xs : List Bool)
    → All (λ i. i < k) is
    → set_all b is (set xs k v) ≡ set (set_all b is xs) k v
unfolding set_all
set_all-set b v [] k xs a = refl
set_all-set b v (i ∷ is) k xs a =
    ap (set_all b is) (set_comm xs k i v b (λ e. omega (arith, a.0)))
    ∙ set_all-set b v is k (set xs i b) a.1

All-lt_suc : (is : List ℕ) (k n : ℕ) → k ≤ n → All (λ i. i < k) is → All (λ i. i < n) is
All-lt_suc [] k n l a = tt
All-lt_suc (i ∷ is) k n l a = (omega (arith, a.0), All-lt_suc is k n l a.1)

All-snoc :
    (is : List ℕ) (k b : ℕ) → k ≤ b → All (λ i. i < k) is → All (λ i. i < suc b) (is ++ (b ∷ []))
All-snoc [] k b l a = (omega arith, tt)
All-snoc (i ∷ is) k b l a = (omega (arith, a.0), All-snoc is k b l a.1)

-- The buttons switched on and then those switched off carry the old toggles over to the new ones.
pub record IsToggled (n : ℕ) (old : List Bool) (r : List Bool × List ℕ × List ℕ) : Type 0 where
  pub follows : set_all false r.2 (set_all true r.1 old) ≡ r.0
  pub length_kept : length r.0 ≡ n
  pub on_below : All (λ i. i < n) r.1
  pub off_below : All (λ i. i < n) r.2

toggle_from :
    (btns : List ℕ) (k n : ℕ) (old toggles : List Bool) (on off : List ℕ)
    → IsRising k n btns
    → All (λ i. i < k) on
    → All (λ i. i < k) off
    → k ≤ n
    → length toggles ≡ n
    → set_all false off (set_all true on old) ≡ toggles
    → Returns (IsToggled n old) (toggle_stop btns toggles on off)
unfolding toggle_stop IsRising
toggle_from [] k n old toggles on off r a b l m f = (
  _,
  refl,
  record {
    follows = f;
    length_kept = m;
    on_below = All-lt_suc on k n l a;
    off_below = All-lt_suc off k n l b;
  },
)
toggle_from (btn ∷ btns) k n old toggles on off r a b l m f =
    elim (Bool-cases (get_or toggles btn false)) [
      | inl was_on ↦
          let (s, e, p) =
            toggle_from btns (suc btn) n old (set toggles btn false) on (off ++ (btn ∷ [])) r.2
              (All-lt_suc on k (suc btn) (omega (arith, r.0)) a) (All-snoc off k btn r.0 b) r.1
              (length-set toggles btn false ∙ m) switched_off in
          (s, rw (read_old, was_on, written false, read_new false, e), p)
      | inr was_off ↦
          let (s, e, p) =
            toggle_from btns (suc btn) n old (set toggles btn true) (on ++ (btn ∷ [])) off r.2
              (All-snoc on k btn r.0 a) (All-lt_suc off k (suc btn) (omega (arith, r.0)) b) r.1
              (length-set toggles btn true ∙ m) switched_on in
          (s, rw (read_old, was_off, written true, read_new true, e), p)
    ]
  where
    inside : btn < length toggles
    inside = omega (arith, r.1, m)

    read_old : index out_of_range toggles btn ≡ ok (get_or toggles btn false)
    read_old = index-lt out_of_range toggles btn false inside

    written : (v : Bool) → store out_of_range toggles btn v ≡ ok (set toggles btn v)
    written v = store-lt out_of_range toggles btn v inside

    read_new : (v : Bool) → index undefined (set toggles btn v) btn ≡ ok v
    read_new v =
        index-lt undefined (set toggles btn v) btn false
          (omega (arith, inside, length-set toggles btn v))
        ∙ ap ok (get_or-set_self toggles btn v false inside)

    switched_off : set_all false (off ++ (btn ∷ [])) (set_all true on old) ≡ set toggles btn false
    switched_off = set_all_snoc false off btn (set_all true on old) ∙ ap (λ x. set x btn false) f

    switched_on : set_all false off (set_all true (on ++ (btn ∷ [])) old) ≡ set toggles btn true
    switched_on =
        ap (set_all false off) (set_all_snoc true on btn old)
        ∙ set_all-set false true off btn (set_all true on old) (All-lt_suc off k btn r.0 b)
        ∙ ap (λ x. set x btn true) f

-- The loop over pressed stop buttons toggles each of them, and whoever switches the buttons of both
-- lists has the new toggles.
pub toggle_stop-IsToggled :
    (btns : List ℕ) (n : ℕ) (old : List Bool)
    → IsRising 0 n btns
    → length old ≡ n
    → Returns (IsToggled n old) (toggle_stop btns old [] [])
unfolding set_all
toggle_stop-IsToggled btns n old r m =
    toggle_from btns 0 n old old [] [] r tt tt (omega arith) m refl

-- The toggles after some buttons were pressed, one behind another.
abbrev pub flip : ℕ → List Bool → List Bool
flip i toggles = set toggles i (not (get_or toggles i false))

unfoldable pub flip_all : List ℕ → List Bool → List Bool
flip_all [] toggles = toggles
flip_all (i ∷ is) toggles = flip_all is (flip i toggles)

pub length-flip_all :
    (is : List ℕ) (toggles : List Bool) → length (flip_all is toggles) ≡ length toggles
unfolding flip_all
length-flip_all [] toggles = refl
length-flip_all (i ∷ is) toggles =
    length-flip_all is (flip i toggles) ∙ length-set toggles i (not (get_or toggles i false))

-- Which of them were switched to `b`.
unfoldable pub switched : Bool → List ℕ → List Bool → List ℕ
switched b [] toggles = []
switched b (i ∷ is) toggles =
    (if same_bool (not (get_or toggles i false)) b then i ∷ [] else [])
    ++ switched b is (flip i toggles)

toggle_stop-from :
    (btns : List ℕ) (n : ℕ) (toggles : List Bool) (on off : List ℕ)
    → All (λ i. i < n) btns
    → length toggles ≡ n
    → toggle_stop btns toggles on off
      ≡ ok (
        flip_all btns toggles,
        on ++ switched true btns toggles,
        off ++ switched false btns toggles,
      )
unfolding toggle_stop flip_all switched
toggle_stop-from [] n toggles on off a m =
    ap₂ (λ x y. ok (toggles, x, y)) (sym (append-nil on)) (sym (append-nil off))
toggle_stop-from (btn ∷ btns) n toggles on off a m = elim (Bool-cases (get_or toggles btn false)) [
  | inl was_on ↦
      rw (read_old, was_on, written false, read_new false)
        (toggle_stop-from btns n (set toggles btn false) on (off ++ (btn ∷ [])) a.1
            (length-set toggles btn false ∙ m)
          ∙ ap
              (λ y. ok (
                flip_all btns (set toggles btn false),
                on ++ switched true btns (set toggles btn false),
                y,
              ))
              (append_assoc off (btn ∷ []) (switched false btns (set toggles btn false))))
  | inr was_off ↦
      rw (read_old, was_off, written true, read_new true)
        (toggle_stop-from btns n (set toggles btn true) (on ++ (btn ∷ [])) off a.1
            (length-set toggles btn true ∙ m)
          ∙ ap
              (λ x. ok (
                flip_all btns (set toggles btn true),
                x,
                off ++ switched false btns (set toggles btn true),
              ))
              (append_assoc on (btn ∷ []) (switched true btns (set toggles btn true))))
]
  where
    inside : btn < length toggles
    inside = omega (arith, a.0, m)

    read_old : index out_of_range toggles btn ≡ ok (get_or toggles btn false)
    read_old = index-lt out_of_range toggles btn false inside

    written : (v : Bool) → store out_of_range toggles btn v ≡ ok (set toggles btn v)
    written v = store-lt out_of_range toggles btn v inside

    read_new : (v : Bool) → index undefined (set toggles btn v) btn ≡ ok v
    read_new v =
        index-lt undefined (set toggles btn v) btn false
          (omega (arith, inside, length-set toggles btn v))
        ∙ ap ok (get_or-set_self toggles btn v false inside)

-- What the loop computes.
pub toggle_stop-flip_all :
    (btns : List ℕ) (n : ℕ) (toggles : List Bool)
    → All (λ i. i < n) btns
    → length toggles ≡ n
    → toggle_stop btns toggles [] []
      ≡ ok (flip_all btns toggles, switched true btns toggles, switched false btns toggles)
toggle_stop-flip_all btns n toggles a m = toggle_stop-from btns n toggles [] [] a m
