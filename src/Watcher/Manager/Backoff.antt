-- ===== src/Watcher/Manager/Backoff.antt =====
-- The waiting times of `retryBackoff`.
use k8s_deploy_monitor_opera.Prelude.{
  ℕ, zero, suc, ◌*◌, ◌^◌, ◌≤◌, ◌<◌, true, false, ltb, ◌≡◌, arith, Bool-cases, inl, inr, ap, ◌∙◌,
}
use k8s_deploy_monitor_opera.Watcher.Manager.{second, backoff_loop, retry_backoff}
use Prim.Native.Nat.{min}
use native.Mathlib.Nat.{pow-suc}

doubling : (n d : ℕ) → d * 2 * 2 ^ n ≡ d * 2 ^ suc n
doubling n d = grind (arith, pow-suc)

pow_pos : (n : ℕ) → 1 ≤ 2 ^ n
pow_pos zero = omega arith
pow_pos (suc n) = rw pow-suc (omega (arith, pow_pos n))

le-mul-pow : (d n : ℕ) → d ≤ d * 2 ^ n
le-mul-pow d n = grind (arith, pow_pos n)

lt_of_ltb : (a b : ℕ) → ltb a b ≡ true → a < b
lt_of_ltb a b h = ground arith

le_of_ltb : (a b : ℕ) → ltb a b ≡ false → b ≤ a
le_of_ltb a b h = ground arith

backoff_loop-min : (n d : ℕ) → d ≤ 300 * second → backoff_loop n d ≡ min (300 * second) (d * 2 ^ n)
unfolding backoff_loop
backoff_loop-min zero d h = omega arith
backoff_loop-min (suc n) d h = elim (Bool-cases (ltb (300 * second) (d * 2))) [
  | inl over ↦ rw over (omega (arith, le-mul-pow (d * 2) n, doubling n d, lt_of_ltb _ _ over))
  | inr below ↦
      rw below
        (backoff_loop-min n (d * 2) (le_of_ltb _ _ below) ∙ ap (min (300 * second)) (doubling n d))
]

-- The wait before attempt n + 1 is 10 s doubled n times, and never more than 5 min: 10, 20, 40, 80,
-- 160 s, and 300 s from then on.
retry_backoff-min : (n : ℕ) → retry_backoff n ≡ min (300 * second) (10 * second * 2 ^ n)
unfolding retry_backoff
retry_backoff-min n = backoff_loop-min n (10 * second) (omega arith)
