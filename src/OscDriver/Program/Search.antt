-- ===== src/OscDriver/Program/Search.antt =====
-- The search ends at the first path that decides it (osc_driver.cpp).
use mathlib.Core.Option.{some-injective}
use ni_traktor_kontrol_f.Base.{
  ◌≢◌, ◌==◌, ◌-◌, ==_iff, ℕ, zero, suc, ◌+◌, ◌<◌, ◌≡◌, refl, inl, inr, true, false, none, some,
  List, [], ◌∷◌, arith, subst, ap, Bool-cases, Option-cases, ◌∙◌,
}
use ni_traktor_kontrol_f.F1Device.Helpers.{DevInfo}
use ni_traktor_kontrol_f.HidDevice.{remove}
use ni_traktor_kontrol_f.OscDriver.Program.{
  HidrawNode, is_f1, SearchEnd, exits, finds, search_device, try_node, Ids, drop_privileges,
  prepare,
}

-- A path that is passed over: it may not be opened, or another device is behind it.
pub data IsPassed (n : HidrawNode) : Type 0 where
  not_permitted : n.opened ≡ none → n.denied ≡ true → IsPassed n
  other_device :
      (fd : ℕ) (d : DevInfo) → n.opened ≡ some fd → n.info ≡ some d → is_f1 d ≡ false → IsPassed n

-- A path that ends the search, how, and the descriptor that stays open.
pub data Decides (n : HidrawNode) : SearchEnd → List ℕ → Type 0 where
  cannot_open : n.opened ≡ none → n.denied ≡ false → Decides n (exits 2) []
  no_info : (fd : ℕ) → n.opened ≡ some fd → n.info ≡ none → Decides n (exits 3) (fd ∷ [])
  is_device :
      (fd : ℕ) (d : DevInfo)
      → n.opened ≡ some fd
      → n.info ≡ some d
      → is_f1 d ≡ true
      → Decides n (finds fd) (fd ∷ [])

module _ (nodes : ℕ → HidrawNode) where
  search-Decides :
      (rounds i : ℕ) (s : SearchEnd) (fds : List ℕ)
      → Decides (nodes i) s fds
      → search_device nodes (suc rounds) i [] ≡ (s, fds)
  unfolding search_device try_node
  search-Decides rounds i _ _ (cannot_open o d) = rw (o, d)
  search-Decides rounds i _ _ (no_info fd o x) = rw (o, x)
  search-Decides rounds i _ _ (is_device fd d o x f) = rw (o, x, f)

  search-IsPassed :
      (rounds i : ℕ)
      → IsPassed (nodes i)
      → search_device nodes (suc rounds) i [] ≡ search_device nodes rounds (suc i) []
  unfolding search_device try_node remove
  search-IsPassed rounds i (not_permitted o d) = rw (o, d)
  search-IsPassed rounds i (other_device fd d o x f) = rw (o, x, f, (==_iff fd fd).1 refl)

  search_from :
      (m extra i : ℕ) (s : SearchEnd) (fds : List ℕ)
      → ((k : ℕ) → k < m → IsPassed (nodes (i + k)))
      → Decides (nodes (i + m)) s fds
      → search_device nodes (m + suc extra) i [] ≡ (s, fds)
  search_from zero extra i s fds passed decides =
      ap (λ n. search_device nodes n i []) {x = 0 + suc extra} {y = suc extra} (omega arith)
      ∙ search-Decides extra i s fds
          (subst (λ n. Decides (nodes n) s fds) {x = i + 0} {y = i} (omega arith) decides)
  search_from (suc m) extra i s fds passed decides =
      ap (λ n. search_device nodes n i []) {x = suc m + suc extra} {y = suc (m + suc extra)}
        (omega arith)
      ∙ search-IsPassed (m + suc extra) i (
          subst (λ n. IsPassed (nodes n)) {x = i + 0} {y = i} (omega arith)
            (passed 0 (omega arith)))
      ∙ search_from m extra (suc i) s fds
          (λ k l.
            subst (λ n. IsPassed (nodes n)) {x = i + suc k} {y = suc i + k} (omega arith)
              (passed (suc k) (omega arith)))
          (subst (λ n. Decides (nodes n) s fds) {x = i + suc m} {y = suc i + m} (omega arith)
            decides)

  -- If all paths before one are passed over and that one decides, the search ends there, with its
  -- exit code or its device, and of all descriptors that were opened only that path's is open.
  pub search_device-Decides :
      (rounds m : ℕ) (s : SearchEnd) (fds : List ℕ)
      → m < rounds
      → ((k : ℕ) → k < m → IsPassed (nodes k))
      → Decides (nodes m) s fds
      → search_device nodes rounds 0 [] ≡ (s, fds)
  search_device-Decides rounds m s fds l passed decides =
      ap (λ n. search_device nodes n 0 []) {x = rounds} {y = m + suc (rounds - suc m)} (omega arith)
      ∙ search_from m (rounds - suc m) 0 s fds
          (λ k h. subst (λ n. IsPassed (nodes n)) {x = k} {y = 0 + k} (omega arith) (passed k h))
          (subst (λ n. Decides (nodes n) s fds) {x = m} {y = 0 + m} (omega arith) decides)

none-ne-some : {A : Type 0} {a : A} → none ≢ some a
none-ne-some e = cc

module _ (ids : Ids) where
  drop_privileges-geteuid :
      (p q : ids.Process)
      → ids.geteuid p ≡ 0
      → ids.getuid p ≡ 0
      → drop_privileges ids p ≡ some q
      → ids.geteuid q ≡ 0
  unfolding drop_privileges
  drop_privileges-geteuid p q root user e = elim (Option-cases (ids.setgid (ids.getgid p) p)) [
    | inl o ↦ absurd (none-ne-some (rw (o, drop_privileges) at e))
    | inr (r, o) ↦
        ids.setuid-geteuid (ids.getuid r) r q (ids.setgid-geteuid _ p r o ∙ root)
          (rw (o, drop_privileges) at e)
        ∙ ids.setgid-getuid _ p r o
        ∙ user
  ]

  -- A process that has root's rights when it finds a device still has them when its driver is run,
  -- whoever its real user is, if it does not exit.
  pub prepare-geteuid :
      (p q : ids.Process) → ids.geteuid p ≡ 0 → prepare ids p ≡ some q → ids.geteuid q ≡ 0
  unfolding prepare
  prepare-geteuid p q root e = elim (Bool-cases (ids.getuid p == 0)) [
    | inr n ↦ subst (λ r. ids.geteuid r ≡ 0) (some-injective _ _ (rw n at e)) root
    | inl z ↦ drop_privileges-geteuid p q root ((==_iff (ids.getuid p) 0).0 z) (rw z at e)
  ]
