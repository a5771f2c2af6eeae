-- ===== src/Window/Loop.antt =====
-- A counting loop whose body can stop the machine, and its rule.
use tos_sfsu_fall.Base.{ℕ, zero, suc, ◌+◌, ◌≤◌, ◌<◌, ◌≡◌, refl, subst, arith}
use tos_sfsu_fall.Kernel.State.{Outcome, done, ◌>>=◌}

module _ {ℓ} {S : Type ℓ} where
  -- `for (j = i; j < i + n; j++)`
  unfoldable pub for_up : ℕ → ℕ → (ℕ → S → Outcome S) → S → Outcome S
  for_up zero i body s = done s
  for_up (suc n) i body s = body i s >>= for_up n (suc i) body

  -- An invariant of the rounds holds at the end, and the loop is done.
  pub for_up-rule :
      (n i : ℕ) (body : ℕ → S → Outcome S) (P : ℕ → S → Type 0)
      → ((j : ℕ) (s : S)
          → i ≤ j
          → j < i + n
          → P j s
          → (s' : S) × (body j s ≡ done s') × P (suc j) s')
      → (s : S) → P i s
      → (s' : S) × (for_up n i body s ≡ done s') × P (i + n) s'
  unfolding for_up
  for_up-rule zero i body P step s p = (s, refl, subst (λ k. P k s) (omega arith) p)
  for_up-rule (suc n) i body P step s p =
      let (s₁, e, p₁) = step i s (omega arith) (omega arith) p in
      let (s₂, f, p₂) =
        for_up-rule n (suc i) body P (λ j t a b. step j t (omega (arith, a)) (omega (arith, b))) s₁
          p₁ in
      (s₂, rw e f, subst (λ k. P k s₂) (omega arith) p₂)

  -- The same for a loop that starts at 0.
  pub for_up-from_zero :
      (n : ℕ) (body : ℕ → S → Outcome S) (P : ℕ → S → Type 0)
      → ((j : ℕ) (s : S) → j < n → P j s → (s' : S) × (body j s ≡ done s') × P (suc j) s')
      → (s : S) → P 0 s
      → (s' : S) × (for_up n 0 body s ≡ done s') × P n s'
  for_up-from_zero n body P step s p =
      let (s', e, q) = for_up-rule n 0 body P (λ j t a b. step j t (omega (arith, b))) s p in
      (s', e, subst (λ k. P k s') (omega arith) q)
