-- ===== src/Base/Loops.antt =====
-- Counted loops whose body can fail.
use ni_traktor_kontrol_f.Base.Results.{Result, ok, ◌>>=◌}
use Prim.Native.Nat.{ℕ, zero, suc, ◌+◌, ◌≤◌, ◌<◌}
use mathlib.Core.Path.{◌≡◌, refl}
use native.Mathlib.Omega.{arith}

module _ {ℓ} {S : Type ℓ} where
  -- `for (i = first; i < first + rounds; ++i) body`.
  unfoldable pub for_range : ℕ → ℕ → (ℕ → S → Result S) → S → Result S
  for_range zero i body s = ok s
  for_range (suc n) i body s = body i s >>= λ s'. for_range n (suc i) body s'

  -- The same for a body that cannot fail.
  unfoldable pub repeat : ℕ → ℕ → (ℕ → S → S) → S → S
  repeat zero i body s = s
  repeat (suc n) i body s = repeat n (suc i) body (body i s)

  -- A loop whose rounds succeed while an invariant holds is the loop of their results.
  pub for_range-ok {κ} :
      (P : S → Type κ) (body : ℕ → S → Result S) (step : ℕ → S → S) (n i : ℕ) (s : S)
      → ((j : ℕ) (t : S) → i ≤ j → j < i + n → P t → (body j t ≡ ok (step j t)) × P (step j t))
      → P s
      → (for_range n i body s ≡ ok (repeat n i step s)) × P (repeat n i step s)
  unfolding for_range repeat
  for_range-ok P body step zero i s h p = (refl, p)
  for_range-ok P body step (suc n) i s h p =
      let (e, q) = h i s (omega arith) (omega arith) p in
      let (e', q') =
        for_range-ok P body step n (suc i) (step i s)
          (λ j t a b r. h j t (omega arith) (omega arith) r) q in
      (rw e e', q')
