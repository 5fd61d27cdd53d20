-- ===== src/Cgroup2/Paths.antt =====
-- cgroup2/paths.go (VerifyGroupPath), and the paths of systemd slices in cgroup2/manager.go.
pub mod Process
use cgroups.Prelude.{
  true, false, not, ◌&&◌, List, [], ◌∷◌, ◌++◌, ◌≡◌, ◌↔◌, refl, arith, if◌then◌else◌,
}
use cgroups.Error.{Outcome, ok, err, invalid_group_path}
use cgroups.Text.{
  Bytes, codes, equal, cut_prefix, has_prefix, has_suffix, contains, split, join, equal_iff,
}
use cgroups.FilePath.{
  is_rooted, clean, join_path, AreNames, clean-AreNames, clean-names, join_path-names,
}

abbrev pub sys_fs_cgroup : Bytes
sys_fs_cgroup = codes "/sys/fs/cgroup"

-- `VerifyGroupPath`
unfoldable pub verify_group_path : Bytes → Outcome (Unit {0})
verify_group_path g =
    if not (has_prefix g (codes "/"))
    then err invalid_group_path
    else if not (equal (clean g) g)
    then err invalid_group_path
    else if has_prefix g sys_fs_cgroup
    then err invalid_group_path
    else ok tt

-- The loop of `dashesToPath`: the prefixes that end before a dash, and the whole, as slices. `front`
-- is what stands before the parts that are left.
unfoldable pub slice_path : Bytes → Bytes → List Bytes → Bytes
slice_path path front [] = path
slice_path path front (part ∷ parts) =
    let s = front ++ part in
    let slice = if has_suffix s (codes ".slice") then s else s ++ codes ".slice" in
    slice_path (join_path path slice) (s ++ b'-' ∷ []) parts

-- `dashesToPath`
unfoldable pub dashes_to_path : Bytes → Bytes
unfolding slice_path
dashes_to_path name =
    if has_suffix name (codes ".slice") && contains name b'-'
    then slice_path [] [] (split name b'-')
    else join_path [] name

-- `getSystemdFullPath`
unfoldable pub get_systemd_full_path : Bytes → Bytes → Bytes
get_systemd_full_path slice group =
    join_path (join_path sys_fs_cgroup (dashes_to_path slice)) (dashes_to_path group)

-- What a group path has to be: a slash and names, and not below the mount point.
pub record IsGroupPath (g : Bytes) : Type 0 where
  pub names : List Bytes
  pub is_rooted_path : g ≡ b'/' ∷ join names b'/'
  pub are_names : AreNames names
  pub outside : has_prefix g sys_fs_cgroup ≡ false

has_slash : (s : Bytes) → has_prefix s (codes "/") ≡ is_rooted s
unfolding has_prefix cut_prefix
has_slash [] = refl
has_slash (c ∷ s) = ground arith

verify-ok :
    (g : Bytes)
    → verify_group_path g ≡ ok tt
    → (is_rooted g ≡ true) × (clean g ≡ g) × (has_prefix g sys_fs_cgroup ≡ false)
unfolding verify_group_path
verify-ok g h = ground (arith, has_slash g, equal_iff (clean g) g)

-- A path is accepted exactly if it is a slash and names with slashes between them, none of them
-- empty, "." or "..", and does not begin with /sys/fs/cgroup.
pub verify_group_path_iff : (g : Bytes) → (verify_group_path g ≡ ok tt) ↔ IsGroupPath g
verify_group_path_iff g = (to, from)
  where
    to : verify_group_path g ≡ ok tt → IsGroupPath g
    to h =
        let (rooted, fixed, outside) = verify-ok g h in
        let (names, e, are) = clean-AreNames g rooted fixed in
        record { names = names; is_rooted_path = e; are_names = are; outside = outside }

    from : IsGroupPath g → verify_group_path g ≡ ok tt
    from h =
        let fixed : clean g ≡ g = rw h.is_rooted_path (clean-names h.names h.are_names) in
        let rooted : is_rooted g ≡ true = rw h.is_rooted_path (unfold has_prefix in ground arith) in
        unfold verify_group_path in
        ground (arith, has_slash g, (equal_iff (clean g) g).1 fixed, rooted, h.outside)

-- Below a mount point that is a clean rooted path, the directory of an accepted group is the mount
-- point's names and then those of the group: it cannot lie outside the mount point.
pub group_directory :
    (g : Bytes) (mountpoint : List Bytes)
    → AreNames mountpoint
    → verify_group_path g ≡ ok tt
    → (names : List Bytes) × (g ≡ b'/' ∷ join names b'/')
      × (join_path (b'/' ∷ join mountpoint b'/') g ≡ b'/' ∷ join (mountpoint ++ names) b'/')
group_directory g mountpoint hm h =
    let p = (verify_group_path_iff g).0 h in
    (
      p.names,
      p.is_rooted_path,
      rw p.is_rooted_path (join_path-names mountpoint p.names hm p.are_names),
    )
