-- ===== src/Tests/Parse.antt =====
-- Tests of the parsers.
use cgroups.Prelude.{ℕ, List, [], ◌∷◌, ◌≡◌, refl, arith, map}
use cgroups.Error.{ok}
use cgroups.Text.{Bytes, codes, is_space}
use cgroups.Text.Scan.{whole}
use cgroups.Map.{get_uint64}
use cgroups.Cgroup2.Parse.{read_kv_stats, find_kv}
use cgroups.Cgroup2.Parse.Tables.{
  kv_line, AreEntries, insert_all, read_kv_stats-kv_line, find_kv-lookup,
}
use cgroups.Text.{Bytes}
use cgroups.Cgroup2.Resources.{RdmaEntry, rdma_entry_text}
use cgroups.Cgroup2.Stats.{to_rdma_entry}
use cgroups.Cgroup2.Stats.Rdma.{IsRdmaEntry, to_rdma_entry-rdma_entry_text}

abbrev counters : List (Bytes × ℕ)
counters = (codes "max", 7) ∷ (codes "fail", 0) ∷ (codes "max", 9) ∷ []

counters-AreEntries : AreEntries counters
unfolding is_space
counters-AreEntries = (
  ((refl, (refl, (refl, tt))), (λ e. cc), omega arith),
  (
    ((refl, (refl, (refl, (refl, tt)))), (λ e. cc), omega arith),
    (((refl, (refl, (refl, tt))), (λ e. cc), omega arith), tt),
  ),
)

read_kv_stats-kv_line_example :
    read_kv_stats [] (whole (map kv_line counters)) ≡ ok (insert_all [] counters)
read_kv_stats-kv_line_example = read_kv_stats-kv_line [] counters counters-AreEntries

find_kv-lookup_example :
    find_kv (codes "max") (map kv_line counters) ≡ get_uint64 (codes "max") counters
find_kv-lookup_example = find_kv-lookup (codes "max") counters counters-AreEntries

abbrev card : RdmaEntry
card = record { device = codes "mlx4"; hca_handles = 2; hca_objects = 2000 }

card-IsRdmaEntry : IsRdmaEntry card
unfolding is_space
card-IsRdmaEntry = record {
  word = (refl, (refl, (refl, (refl, tt))));
  ne_nil = λ e. cc;
  handles_fit = omega arith;
  objects_fit = omega arith;
}

to_rdma_entry-rdma_entry_text_example : to_rdma_entry (map rdma_entry_text (card ∷ [])) ≡ card ∷ []
to_rdma_entry-rdma_entry_text_example =
    to_rdma_entry-rdma_entry_text (card ∷ []) (card-IsRdmaEntry, tt)
