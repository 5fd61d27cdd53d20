-- ===== src/ProcFile/RoundTrip.antt =====
-- utils.go: the lines of /proc/PID/cgroup, as the kernel writes them, and their parser.
use cgroups.Prelude.{false, none, List, [], ◌∷◌, ◌++◌, ◌≡◌, ◌≢◌, refl, ap, ◌∙◌, map}
use cgroups.Error.{ok, ◌>>=◌}
use cgroups.Text.{Bytes, contains, split, split_n, join}
use cgroups.Text.Scan.{whole}
use cgroups.Text.{split_n-append, split-join, contains-join, LacksAll}
use cgroups.Map.{insert}
use cgroups.ProcFile.{
  CgroupPaths, add_path, add_paths, add_entry, read_entries, at_end,
  parse_cgroup_from_reader_unified,
}

-- A line of the file: the number of a hierarchy, its controllers, none for the unified hierarchy, and
-- the path of the group in it.
pub record Membership : Type 0 where
  pub id : Bytes
  pub controllers : List Bytes
  pub path : Bytes

unfoldable pub membership_line : Membership → Bytes
unfolding join
membership_line m = m.id ++ (b':' ∷ (join m.controllers b',' ++ (b':' ∷ m.path)))

abbrev pub AllNonempty : List Bytes → Type 0
AllNonempty [] = Unit {0}
AllNonempty (c ∷ cs) = (c ≢ []) × AllNonempty cs

-- The separators occur where the file has them.
abbrev pub IsWritten : Membership → Type 0
IsWritten m =
    (contains m.id b':' ≡ false)
    × (LacksAll m.controllers b':' × (LacksAll m.controllers b',' × AllNonempty m.controllers))

abbrev pub AllWritten : List Membership → Type 0
AllWritten [] = Unit {0}
AllWritten (m ∷ ms) = IsWritten m × AllWritten ms

abbrev pub insert_each : Bytes → List Bytes → List (Bytes × Bytes) → List (Bytes × Bytes)
insert_each path [] paths = paths
insert_each path (c ∷ cs) paths = insert_each path cs (insert c path paths)

abbrev pub place : List Bytes → Bytes → CgroupPaths → CgroupPaths
place [] path r = record { cgroups = r.cgroups; unified = path }
place (c ∷ cs) path r = record {
  cgroups = insert_each path (c ∷ cs) r.cgroups;
  unified = r.unified;
}

-- What the file says: the path of each controller, and that of the unified hierarchy.
unfoldable pub stated : List Membership → CgroupPaths → CgroupPaths
stated [] r = r
stated (m ∷ ms) r = stated ms (place m.controllers m.path r)

add_paths_lem :
    (path : Bytes) (cs : List Bytes) (r : CgroupPaths)
    → AllNonempty cs
    → add_paths path cs r ≡ record { cgroups = insert_each path cs r.cgroups; unified = r.unified }
unfolding add_paths add_path
add_paths_lem path [] r h = refl
add_paths_lem path ([] ∷ cs) r h = absurd (h.0 refl)
add_paths_lem path ((x ∷ c) ∷ cs) r h = add_paths_lem path cs (add_path path (x ∷ c) r) h.1

add_paths-split :
    (path : Bytes) (cs : List Bytes) (r : CgroupPaths)
    → LacksAll cs b','
    → AllNonempty cs
    → add_paths path (split (join cs b',') b',') r ≡ place cs path r
unfolding add_paths add_path join split
add_paths-split path [] r h ne = refl
add_paths-split path (c ∷ cs) r h ne =
    ap (λ pieces. add_paths path pieces r) (split-join c cs b',' h)
    ∙ add_paths_lem path (c ∷ cs) r ne

split_n-line :
    (m : Membership)
    → IsWritten m
    → split_n (membership_line m) b':' 3 ≡ m.id ∷ join m.controllers b',' ∷ m.path ∷ []
unfolding membership_line split_n
split_n-line m h =
    split_n-append m.id (join m.controllers b',' ++ (b':' ∷ m.path)) b':' 1 h.0
    ∙ ap (λ rest. m.id ∷ rest)
        (split_n-append (join m.controllers b',') m.path b':' 0
          (contains-join m.controllers b',' b':' h.1.0 refl))

read_entries-map :
    (ms : List Membership) (r : CgroupPaths)
    → AllWritten ms
    → read_entries (map membership_line ms) r ≡ ok (stated ms r)
unfolding read_entries stated add_entry
read_entries-map [] r h = refl
read_entries-map (m ∷ ms) r h =
    ap (λ fields. add_entry fields r >>= (λ r'. read_entries (map membership_line ms) r'))
      (split_n-line m h.0)
    ∙ ap (λ r'. read_entries (map membership_line ms) r')
        (add_paths-split m.path m.controllers r h.0.1.1.0 h.0.1.1.1)
    ∙ read_entries-map ms (place m.controllers m.path r) h.1

-- From a file of lines that each hold the number of a hierarchy without a colon, nonempty controllers
-- without colons and commas, and any path, ParseCgroupFromReaderUnified reads without an error the
-- path of each controller, and as the unified path that of the last line without controllers.
pub parse_cgroup_from_reader_unified-lines :
    (ms : List Membership)
    → AllWritten ms
    → parse_cgroup_from_reader_unified (whole (map membership_line ms))
      ≡ ok (stated ms (record { cgroups = []; unified = [] }))
unfolding parse_cgroup_from_reader_unified
parse_cgroup_from_reader_unified-lines ms h =
    ap (λ o. o >>= (λ r. at_end none r))
      (read_entries-map ms (record { cgroups = []; unified = [] }) h)
