-- ===== src/Cgroup1/HugePages.antt =====
-- cgroup1/utils.go: the sizes of huge pages. The functions of docker/go-units are parameters.
use cgroups.Prelude.{List, [], ◌∷◌}
use cgroups.Prelude.Int.{ℤ}
use cgroups.Error.{Outcome, ok, panic, ◌>>=◌}
use cgroups.Text.{Bytes, split}

-- `units.RAMInBytes`, and `units.CustomSize` with the format and the units of the source
module _ (ram_in_bytes : Bytes → Outcome ℤ) (custom_size : ℤ → Bytes) where
  -- `nameArray[1]` is an index out of range for a name without a dash.
  abbrev pub page_size_text : List Bytes → Outcome Bytes
  page_size_text (_ ∷ text ∷ _) = ok text
  page_size_text _ = panic

  -- `hugePageSizes`, behind the reading of the directory
  unfoldable pub huge_page_sizes : List Bytes → Outcome (List Bytes)
  huge_page_sizes [] = ok []
  huge_page_sizes (name ∷ files) = do
    text ← page_size_text (split name b'-')
    page_size ← ram_in_bytes text
    page_sizes ← huge_page_sizes files
    ok (custom_size page_size ∷ page_sizes)
