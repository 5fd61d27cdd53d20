-- ===== src/Cgroup2/Convert/Swap.antt =====
-- The memory limits of v2.
use cgroups.Prelude.{ℕ, suc, ◌+◌, ◌-◌, ◌^◌, ◌≤◌, ◌<◌, some, ◌≡◌, arith}
use cgroups.Prelude.Int.{pos, negsuc, ◌-ℤ◌}
use cgroups.Cgroup2.Convert.{convert_swap, convert_memory}
use cgroups.Spec.{LinuxMemory}

-- With a limit and a larger limit of memory and swap together, both below 2 ^ 63, the converted limits
-- of memory and of swap add up to the latter.
pub convert_memory_total :
    (mem : LinuxMemory) (limit swap : ℕ)
    → mem.limit ≡ some (pos limit)
    → mem.swap ≡ some (pos swap)
    → limit ≤ swap
    → swap < 2 ^ 63
    → (reduced : ℕ) × ((convert_memory mem).max ≡ some (pos limit))
      × ((convert_memory mem).swap ≡ some (pos reduced))
      × (limit + reduced ≡ swap)
unfolding convert_memory
convert_memory_total mem limit swap hl hs le fits =
    (swap - limit, hl, simp (hl, hs) (difference limit swap le fits), omega arith)
  where
    difference :
        (limit swap : ℕ)
        → limit ≤ swap
        → swap < 2 ^ 63
        → convert_swap (some (pos swap)) (some (pos limit)) ≡ some (pos (swap - limit))
    difference limit swap le fits = unfold convert_swap ◌-ℤ◌ in ground arith

-- Unlimited swap, -1, with a positive limit n becomes -1 - n, a negative number that does not stand for
-- unlimited.
pub convert_memory_unlimited_swap :
    (mem : LinuxMemory) (n : ℕ)
    → mem.limit ≡ some (pos (suc n))
    → mem.swap ≡ some (negsuc 0)
    → suc n < 2 ^ 63
    → (convert_memory mem).swap ≡ some (negsuc (suc n))
unfolding convert_memory
convert_memory_unlimited_swap mem n hl hs fits = simp (hl, hs) (difference n fits)
  where
    difference :
        (n : ℕ)
        → suc n < 2 ^ 63
        → convert_swap (some (negsuc 0)) (some (pos (suc n))) ≡ some (negsuc (suc n))
    difference n fits = unfold convert_swap ◌-ℤ◌ in ground arith
