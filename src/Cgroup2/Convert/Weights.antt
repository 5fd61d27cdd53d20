-- ===== src/Cgroup2/Convert/Weights.antt =====
-- The weight of block I/O, the CPU weight, and the limits on throughput.
use cgroups.Prelude.{ℕ, ◌+◌, ◌-◌, ◌*◌, ◌/◌, ◌≤◌, ◌<◌, ◌≡◌, ◌↔◌, arith}
use cgroups.Cgroup2.Convert.{Float, weight_curve, convert_cpu_shares, bfq_weight}

-- A v1 weight between 10 and 1000 becomes the intended number between 1 and 10000,
-- 1 + (w - 10) * 9999 / 990, exactly if it is at most 16: from 17 on the product does not fit in
-- the uint16.
pub bfq_weight_exact :
    (w : ℕ) → 10 ≤ w → w ≤ 1000 → (bfq_weight w ≡ 1 + (w - 10) * 9999 / 990) ↔ (w ≤ 16)
unfolding bfq_weight
bfq_weight_exact w low high = (λ e. omega (arith, e), λ small. omega arith)

-- No v1 weight, whatever its value, becomes a v2 weight above 67.
bfq_weight-le : (w : ℕ) → bfq_weight w ≤ 67
unfolding bfq_weight
bfq_weight-le w = omega arith

-- Whatever the float operations, the CPU weight is unset exactly if the shares are, provided that the
-- curve gives at least 1 between its ends.
convert_cpu_shares_unset :
    (m : Float) (shares : ℕ)
    → ((s : ℕ) → 2 < s → s < 262144 → 1 ≤ weight_curve m s)
    → (convert_cpu_shares m shares ≡ 0) ↔ (shares ≡ 0)
unfolding convert_cpu_shares
convert_cpu_shares_unset m shares curve = (λ e. ground (arith, curve shares), λ e. ground arith)
