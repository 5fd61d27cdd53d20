-- ===== src/Mode.antt =====
-- utils.go: the mode of the control groups of a host.
use cgroups.Prelude.{Bool, Option, none, some, if◌then◌else◌}
use cgroups.Error.{Outcome, ok, err, panic}
use cgroups.Text.{Bytes, codes}
use cgroups.Os.{Os, Action, pure, lift, call}
use cgroups.Os.{statfs}
use cgroups.FilePath.{join_path}

-- `CGMode`
pub data CgMode : Type 0 where
  unavailable legacy hybrid unified : CgMode

abbrev pub unified_mountpoint : Bytes
unified_mountpoint = codes "/sys/fs/cgroup"

-- The type of a file system is part of the answer to `Statfs`.
module _ (os : Os) (is_cgroup2 : Bytes → Bool) where
  abbrev pub if_hybrid : Outcome Bytes → Outcome CgMode
  if_hybrid (ok st) = ok (if is_cgroup2 st then hybrid else legacy)
  if_hybrid (err e) = ok legacy
  if_hybrid panic = panic

  abbrev pub below_unified : Action CgMode
  below_unified h =
      let (o, h') = call os (statfs (join_path unified_mountpoint (codes "unified"))) h in
      (if_hybrid o, h')

  abbrev pub by_type : Outcome Bytes → Action CgMode
  by_type (ok st) = if is_cgroup2 st then pure unified else below_unified
  by_type (err e) = pure unavailable
  by_type panic = lift panic

  -- `Mode`, with the mode that is known since the first call, if it is
  unfoldable pub mode : Option CgMode → Action CgMode
  mode (some known) h = (ok known, h)
  mode none h = let (o, h') = call os (statfs unified_mountpoint) h in by_type o h'
