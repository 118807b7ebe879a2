-- ===== src/Tunnel/Backoff.antt =====
-- personal_mcp/tunnel_supervisor.py: the delays between the tries.
use unified_personal_mcp.Prelude.{ℕ, ◌+◌, ◌-◌, ◌*◌, ◌/◌, ◌^◌, ◌≤◌, min, arith}
use native.Mathlib.Nat.{mul-le-mul_left, pow-le-pow_right}
use unified_personal_mcp.Tunnel.Supervisor.{retry_delay}

-- The delay before the jitter.
abbrev plain_delay : ℕ → ℕ → ℕ
plain_delay base failures = min 30000 (base * 2 ^ min (failures - 1) 5)

plain_delay_grows : (base n m : ℕ) → n ≤ m → plain_delay base n ≤ plain_delay base m
plain_delay_grows base n m h = omega (
  arith,
  mul-le-mul_left base (
      pow-le-pow_right {n = 2} (omega arith) {i = min (n - 1) 5} {j = min (m - 1) 5} (omega arith)),
)

jitter_grows : (d e jitter : ℕ) → d ≤ e → d + d * jitter / 10000 ≤ e + e * jitter / 10000
jitter_grows d e jitter h = omega (arith, mul-le-mul_left jitter h)

plain_delay_least : (base n : ℕ) → min 30000 base ≤ plain_delay base n
plain_delay_least base n = omega (
  arith,
  mul-le-mul_left base
      (pow-le-pow_right {n = 2} (omega arith) {i = 0} {j = min (n - 1) 5} (omega arith)),
)

-- The delay after a failure is at least retry_base and at most 30 seconds, or 30 seconds if retry_base is
-- more; with the same jitter it does not get shorter as failures go on.
pub retry_delay_grows :
    (base jitter n m : ℕ)
    → n ≤ m
    → (min 30000 base ≤ retry_delay base jitter n)
      × (retry_delay base jitter n ≤ retry_delay base jitter m)
      × (retry_delay base jitter m ≤ 30000)
unfolding retry_delay
retry_delay_grows base jitter n m h = (
  omega (arith, plain_delay_least base n),
  omega (
    arith,
    jitter_grows (plain_delay base n) (plain_delay base m) jitter (plain_delay_grows base n m h),
  ),
  omega arith,
)
