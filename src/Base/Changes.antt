-- ===== src/Base/Changes.antt =====
-- The items in which two arrays differ, as the drivers' comparison loops collect them.
use ni_traktor_kontrol_f.Base.Tests.{if◌then◌else◌, Bool-cases}
use ni_traktor_kontrol_f.Base.Lists.{length, get_elem?, set}
use ni_traktor_kontrol_f.Base.Results.{Error, Result, ok, ◌>>=◌, index}
use ni_traktor_kontrol_f.Base.Loops.{for_range}
use Prim.Native.Nat.{ℕ, suc, ◌+◌}
use mathlib.Core.Path.{◌≡◌, refl, ap, ◌∙◌, sym}
use mathlib.Core.Bool.{Bool, true}
use mathlib.Core.Logic.{◌↔◌, inl, inr}
use mathlib.Core.List.{List, [], ◌∷◌, ◌++◌, map, append-nil, append_assoc}
use native.Mathlib.Omega.{arith}

module _ {ℓ} {A : Type ℓ} (same : A → A → Bool) where
  -- The indices, counted from `i`, at which `new` differs from `old`, with the new items.
  unfoldable pub changes : ℕ → List A → List A → List (ℕ × A)
  changes i [] ys = []
  changes i (x ∷ xs) [] = []
  changes i (x ∷ xs) (y ∷ ys) =
      let rest = changes (suc i) xs ys in if same x y then rest else (i, x) ∷ rest

  -- The loop of the drivers: compare item `i` of both arrays, and append what `mk` makes of it.
  unfoldable pub compare_round {κ} :
      {E : Type κ} → Error → (ℕ → A → E) → List A → List A → ℕ → List E → Result (List E)
  compare_round e mk new old i out = do
    x ← index e new i
    y ← index e old i
    ok (if same x y then out else out ++ (mk i x ∷ []))

  -- It appends the changes, in order.
  compare_from {κ} :
      {E : Type κ} (e : Error) (mk : ℕ → A → E) (new old xs ys : List A) (i : ℕ) (out : List E)
      → length xs ≡ length ys
      → ((k : ℕ) → get_elem? new (i + k) ≡ get_elem? xs k)
      → ((k : ℕ) → get_elem? old (i + k) ≡ get_elem? ys k)
      → for_range (length xs) i (compare_round e mk new old) out
        ≡ ok (out ++ map (λ c. mk c.0 c.1) (changes i xs ys))
  unfolding for_range compare_round changes
  compare_from e mk new old [] ys i out n p q = ap ok (sym (append-nil out))
  compare_from e mk new old (x ∷ xs) [] i out n p q = absurd (omega arith)
  compare_from e mk new old (x ∷ xs) (y ∷ ys) i out n p q =
      let px : get_elem? new i ≡ get_elem? (x ∷ xs) 0 = ap (get_elem? new) (omega arith) ∙ p 0 in
      let qy : get_elem? old i ≡ get_elem? (y ∷ ys) 0 = ap (get_elem? old) (omega arith) ∙ q 0 in
      let next = λ (r : List _).
        compare_from e mk new old xs ys (suc i) r (omega arith)
          (λ k. ap (get_elem? new) (omega arith) ∙ p (suc k))
          (λ k. ap (get_elem? old) (omega arith) ∙ q (suc k)) in
      rw (px, qy)
        (elim (Bool-cases (same x y)) [
          | inl s ↦ rw s (next out)
          | inr d ↦ rw d (next (out ++ (mk i x ∷ [])) ∙ ap ok (append_assoc out _ _))
        ])

  pub compare_lem {κ} :
      {E : Type κ} (e : Error) (mk : ℕ → A → E) (new old : List A) (n : ℕ) (out : List E)
      → length new ≡ n
      → length old ≡ n
      → for_range n 0 (compare_round e mk new old) out
        ≡ ok (out ++ map (λ c. mk c.0 c.1) (changes 0 new old))
  compare_lem e mk new old n out p q = rw (← p) (
      compare_from e mk new old new old 0 out (p ∙ sym q) (λ k. ap (get_elem? new) (omega arith))
        (λ k. ap (get_elem? old) (omega arith)))

  -- Writing the changes over the old array.
  unfoldable pub patch : List A → List (ℕ × A) → List A
  patch old [] = old
  patch old ((i, x) ∷ cs) = patch (set old i x) cs

  module _ (same_iff : (a b : A) → (same a b ≡ true) ↔ (a ≡ b)) where
    patch_cons :
        (z : A) (i : ℕ) (xs ys ws : List A)
        → patch (z ∷ ws) (changes (suc i) xs ys) ≡ z ∷ patch ws (changes i xs ys)
    unfolding patch changes
    patch_cons z i [] ys ws = refl
    patch_cons z i (x ∷ xs) [] ws = refl
    patch_cons z i (x ∷ xs) (y ∷ ys) ws = elim (Bool-cases (same x y)) [
      | inl s ↦ rw s (patch_cons z (suc i) xs ys ws)
      | inr d ↦ rw d (patch_cons z (suc i) xs ys (set ws i x))
    ]

    -- The changes carry the old array over to the new one.
    pub patch-changes :
        (new old : List A) → length new ≡ length old → patch old (changes 0 new old) ≡ new
    unfolding patch changes
    patch-changes [] [] n = refl
    patch-changes [] (y ∷ ys) n = absurd (omega arith)
    patch-changes (x ∷ xs) [] n = absurd (omega arith)
    patch-changes (x ∷ xs) (y ∷ ys) n = elim (Bool-cases (same x y)) [
      | inl s ↦
          rw s
            (patch_cons y 0 xs ys ys ∙ rw (patch-changes xs ys (omega arith), (same_iff x y).0 s))
      | inr d ↦ rw d (patch_cons x 0 xs ys ys ∙ rw (patch-changes xs ys (omega arith)))
    ]

    -- Equal arrays have no changes.
    pub changes_self : (i : ℕ) (xs : List A) → changes i xs xs ≡ []
    unfolding changes
    changes_self i [] = refl
    changes_self i (x ∷ xs) = rw ((same_iff x x).1 refl) (changes_self (suc i) xs)
