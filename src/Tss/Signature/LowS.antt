-- ===== src/Tss/Signature/LowS.antt =====
-- ToLowS (utils/tss/tssManager.go): signatures have their `s` in the lower half of the order.
use meemaw.Prelude.{◌/◌, ◌≡◌, ◌≢◌, ◌⊎◌, true, arith}
use meemaw.Prelude.Int.{ℤ, pos, negsuc, ◌-ℤ◌, ◌≤ℤ◌}
use meemaw.Tss.Signature.{Ecdsa, is_low_s, to_low_s}

module _ (c : Ecdsa) where
  -- For 0 < s < N, ToLowS returns s or N - s: a number above zero and at most N / 2, which IsLowS
  -- accepts and which ToLowS leaves as it is.
  pub to_low_s_canonical :
      (s : ℤ)
      → pos 1 ≤ℤ s
      → s ≤ℤ pos c.order
      → (s ≢ pos c.order)
      → ((to_low_s c s ≡ s) ⊎ (to_low_s c s ≡ pos c.order -ℤ s))
        × (pos 1 ≤ℤ to_low_s c s)
        × (to_low_s c s ≤ℤ pos (c.order / 2))
        × (is_low_s c (to_low_s c s) ≡ true)
        × (to_low_s c (to_low_s c s) ≡ to_low_s c s)
  unfolding to_low_s ◌-ℤ◌
  to_low_s_canonical (pos s) lo hi ne = ground arith
  to_low_s_canonical (negsuc s) lo hi ne = absurd (omega arith)
