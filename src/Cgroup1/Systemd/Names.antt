-- ===== src/Cgroup1/Systemd/Names.antt =====
-- cgroup1/systemd.go: the unit that a path of a group stands for.
use cgroups.Prelude.{Bool, false, some, ◌∷◌, ◌++◌, ◌≡◌, refl}
use cgroups.Error.{ok}
use cgroups.Text.{Bytes, codes, contains}
use cgroups.Os.{Call, done, History, Os, call}
use cgroups.Os.{bus_connect, start_unit, stop_unit, await_job}
use cgroups.FilePath.{dir_name-append, file_name-append}
use cgroups.Text.{trim_suffix-append}
use cgroups.Cgroup1.Systemd.{split_name, unit_properties, check_delegate, create_unit, delete_unit}

split_name-append :
    (slice name : Bytes)
    → contains name b'/' ≡ false
    → split_name (slice ++ (b'/' ∷ name)) ≡ (slice, name)
unfolding split_name
split_name-append slice name h =
    rw
      (
        dir_name-append slice name h,
        file_name-append slice name h,
        trim_suffix-append slice (codes "/"),
      )
      refl

module _ (os : Os) (slice name : Bytes) (is_unit : contains name b'/' ≡ false) where
  abbrev path : Bytes
  path = slice ++ (b'/' ∷ name)

  abbrev start : Bool → Call
  start delegate = start_unit name (codes "replace") (unit_properties slice name delegate)

  -- Where all calls to systemd succeed, Create of the path "slice/name", whose name has no slash, makes
  -- the unit "name" wanted by "slice", with the property Delegate if systemd is known to delegate, and
  -- waits for its job; and then Delete of the same path stops exactly this unit.
  create_unit-delete_unit :
      (known : Bool) (h : History)
      → ((h' : History) (c : Call) → (b : Bytes) × (os.answer h' c ≡ done b))
      → (create_unit os (some known) path h ≡ (ok tt, await_job ∷ start known ∷ bus_connect ∷ h))
        × (delete_unit os path h
            ≡ (ok tt, await_job ∷ stop_unit name (codes "replace") ∷ bus_connect ∷ h))
  unfolding create_unit delete_unit check_delegate call
  create_unit-delete_unit known h works = (
    simp
        (
          split_name-append slice name is_unit,
          (works h bus_connect).1,
          (works (bus_connect ∷ h) (start known)).1,
          (works (start known ∷ bus_connect ∷ h) await_job).1,
        )
        refl,
    simp
        (
          split_name-append slice name is_unit,
          (works h bus_connect).1,
          (works (bus_connect ∷ h) (stop_unit name (codes "replace"))).1,
          (works (stop_unit name (codes "replace") ∷ bus_connect ∷ h) await_job).1,
        )
        refl,
  )
