-- ===== src/Cgroup2/DeviceFilter/Wildcard.antt =====
-- The entries before a wildcard entry have no effect on the program.
use cgroups.Prelude.{
  ℕ, ◌+◌, Bool, true, false, none, some, List, [], ◌∷◌, ◌++◌, ◌≡◌, refl, arith, ap, ◌∙◌, reverse,
}
use cgroups.Prelude.Int.{pos, negsuc}
use cgroups.Error.{Error, Outcome, ok, err, panic, ◌>>=◌}
use cgroups.Cgroup2.DeviceFilter.Asm.{Instruction}
use cgroups.Cgroup2.DeviceFilter.{
  Device, Program, header, init, bpf_type, bpf_access, all_access, append_block, append_rule,
  append_device, finalize, append_all, device_filter,
}
use cgroups.Cgroup2.DeviceFilter.Blocks.{block, labelled}
use cgroups.Cgroup2.DeviceFilter.Reading.{Read, open_program, append_device-ok, append_device-open}
use cgroups.Cgroup2.DeviceFilter.Loop.{append_block-eq, is_wild, closed_program, append_all-closed}
use mathlib.Core.List.{reverse-append, reverse-cons}

-- An entry for all types, numbers and accesses.
pub record IsWildcard (d : Device) : Type 0 where
  pub type : bpf_type d.type ≡ ok none
  pub major_number : ℕ
  pub major : d.major ≡ some (negsuc major_number)
  pub minor_number : ℕ
  pub minor : d.minor ≡ some (negsuc minor_number)
  pub access : bpf_access 0 d.access ≡ ok all_access

append_all-append :
    (a b : List Device) (p : Program)
    → append_all p (a ++ b) ≡ (append_all p a >>= λ q. append_all q b)
unfolding append_all
append_all-append [] b p = refl
append_all-append (d ∷ a) b p =
    elim (append_device p d)
      as (λ r.
        (r >>= λ q. append_all q (a ++ b))
        ≡ ((r >>= λ q. append_all q a) >>= λ q. append_all q b)) [
          | ok q ↦ append_all-append a b q
          | err e ↦ refl
          | panic ↦ refl
        ]

-- Every step from an open program gives an open or a closed one.
data Reached : Outcome Program → Type 0 where
  opened : (is : List Instruction) (k : ℕ) → Reached (ok (open_program is k))
  closed : (is : List Instruction) (k : ℕ) → Reached (ok (closed_program is k))
  failed : (e : Error) → Reached (err e)
  panicked : Reached panic

reached :
    (b : Bool) (is : List Instruction) (k : ℕ)
    → Reached (ok (record { insts = is; has_wild_card = b; block_id = pos k }))
reached true is k = closed is k
reached false is k = opened is k

append_device-Reached :
    (is : List Instruction) (k : ℕ) (d : Device) → Reached (append_device (open_program is k) d)
append_device-Reached is k d = go (append_device (open_program is k) d) refl
  where
    go : (o : Outcome Program) → append_device (open_program is k) d ≡ o → Reached o
    go (err e) h = failed e
    go panic h = panicked
    go (ok p) h =
        let (r, e) = append_device-ok is k d h in
        rw (e, append_block-eq is k d r) (reached (is_wild r.type r.mask r.major r.minor) _ (k + 1))

Reached-bind :
    (ds : List Device) {o : Outcome Program}
    → ((is : List Instruction) (k : ℕ) → Reached (append_all (open_program is k) ds))
    → Reached o
    → Reached (o >>= λ q. append_all q ds)
Reached-bind ds go_on (opened is k) = go_on is k
Reached-bind ds go_on (closed is k) = rw (append_all-closed ds is k) (closed is k)
Reached-bind ds go_on (failed e) = failed e
Reached-bind ds go_on panicked = panicked

append_all-Reached :
    (ds : List Device) (is : List Instruction) (k : ℕ) → Reached (append_all (open_program is k) ds)
unfolding append_all
append_all-Reached [] is k = opened is k
append_all-Reached (d ∷ ds) is k =
    Reached-bind ds (append_all-Reached ds) (append_device-Reached is k d)

-- A result that further entries do not change.
abbrev IsFinal : Outcome Program → Type 0
IsFinal o = (ds : List Device) → (o >>= λ q. append_all q ds) ≡ o

closed-IsFinal : (is : List Instruction) (k : ℕ) → IsFinal (ok (closed_program is k))
closed-IsFinal is k ds = append_all-closed ds is k

module _ (w : Device) (wild : IsWildcard w) where
  read_wildcard : Read w
  read_wildcard = record {
    type = none;
    mask = all_access;
    major = negsuc wild.major_number;
    minor = negsuc wild.minor_number;
    type_is = wild.type;
    mask_is = wild.access;
    major_is = wild.major;
    minor_is = wild.minor;
  }

  append_rule-wildcard :
      (p : Program)
      → append_rule p w
        ≡ ok (
            append_block p none all_access
              (negsuc wild.major_number)
              (negsuc wild.minor_number)
              w.allow)
  unfolding append_rule
  append_rule-wildcard p = simp (wild.type, wild.major, wild.minor, wild.access) (ground arith)

  is_wild-wildcard :
      is_wild none all_access (negsuc wild.major_number) (negsuc wild.minor_number) ≡ true
  is_wild-wildcard = ground arith

  open_wildcard :
      (is : List Instruction) (k : ℕ)
      → (is' : List Instruction) × (append_device (open_program is k) w
          ≡ ok (closed_program is' (k + 1)))
  unfolding read_wildcard
  open_wildcard is k = (
    _,
    append_device-open is k w
        ∙ append_rule-wildcard (open_program is k)
        ∙ ap ok (append_block-eq is k w read_wildcard)
        ∙ ap
            (λ b. ok (record {
              insts =
                  is
                  ++ labelled (pos k) (
                      block none all_access (negsuc wild.major_number) (negsuc wild.minor_number)
                        w.allow (pos (k + 1)));
              has_wild_card = b;
              block_id = pos (k + 1);
            }))
            is_wild-wildcard,
  )

  IsFinal-wildcard : {o : Outcome Program} → Reached o → IsFinal (o >>= λ q. append_all q (w ∷ []))
  unfolding append_all
  IsFinal-wildcard (opened is k) =
      let (is', e) = open_wildcard is k in rw e (closed-IsFinal is' (k + 1))
  IsFinal-wildcard (closed is k) = rw (append_all-closed (w ∷ []) is k) (closed-IsFinal is k)
  IsFinal-wildcard (failed e) = λ ds. refl
  IsFinal-wildcard panicked = λ ds. refl

-- The entries before a wildcard entry, valid or not, do not change the result: neither the program
-- nor an error.
pub device_filter-wildcard :
    (before after : List Device) (w : Device)
    → IsWildcard w
    → device_filter (before ++ (w ∷ after)) ≡ device_filter (w ∷ after)
unfolding device_filter init
device_filter-wildcard before after w wild =
    ap (λ o. o >>= λ p. ok (finalize p).1)
      (rw
        (
          reverse-append before (w ∷ after),
          reverse-cons w after,
          append_all-append (reverse after ++ w ∷ []) (reverse before) init,
        )
        (final (reverse before)))
  where
    final : IsFinal (append_all init (reverse after ++ w ∷ []))
    final =
        rw (append_all-append (reverse after) (w ∷ []) init)
          (IsFinal-wildcard w wild (append_all-Reached (reverse after) header 0))
