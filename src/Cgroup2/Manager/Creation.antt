-- ===== src/Cgroup2/Manager/Creation.antt =====
-- cgroup2/manager.go: what a failed creation leaves behind.
use cgroups.Prelude.{Option, none, some, ◌∷◌, ◌≡◌, refl}
use cgroups.Error.{Error, Outcome, ok, err, panic}
use cgroups.Text.{Bytes}
use cgroups.Os.{
  mkdir_all, remove, Reply, done, failed, History, Os, Action, pure, raise, lift, continue, ◌>>◌,
  outcome_of, call, run, caught,
}
use cgroups.Cgroup2.Resources.{Resources}
use cgroups.Cgroup2.Paths.{verify_group_path}
use cgroups.FilePath.{join_path}
use cgroups.Cgroup2.Manager.{undo, or_remove, new_manager}

-- What a creation that fails has called: nothing, the failed `MkdirAll` alone, or calls that end
-- with the removal of the path.
pub data CleanedUp (path : Bytes) (h : History) : History → Type 0 where
  nothing : CleanedUp path h h
  no_directory : CleanedUp path h (mkdir_all path ∷ h)
  removed : {h' : History} → CleanedUp path h (remove path ∷ h')

-- The action cleans up where it fails.
abbrev pub Cleans {ℓ} : {A : Type ℓ} → Bytes → History → Action A → History → Type ℓ
Cleans path h m h' = (e : Error) → (m h').0 ≡ err e → CleanedUp path h (m h').1

module _ (path : Bytes) (h : History) where
  continue-Cleans {ℓ} :
      {A : Type 0} {B : Type ℓ} (o : Outcome A) (k : A → Action B) (h' : History)
      → ((e : Error) → o ≡ err e → CleanedUp path h h')
      → ((a : A) → o ≡ ok a → Cleans path h (k a) h')
      → Cleans path h (continue o k) h'
  continue-Cleans (ok a) k h' here there e eq = there a refl e eq
  continue-Cleans (err e') k h' here there e eq = here e' refl
  continue-Cleans panic k h' here there e eq = cc

  >>-Cleans {ℓ} :
      {B : Type ℓ} (m : Action (Unit {0})) (k : Action B) (h' : History)
      → Cleans path h m h'
      → Cleans path h k (m h').1
      → Cleans path h (m >> k) h'
  >>-Cleans m k h' here there = continue-Cleans (m h').0 (λ _. k) (m h').1 here (λ _ _. there)

  module _ (os : Os) where
    -- A reply to a call for its effect, and its history.
    replied : Reply → History → Outcome (Unit {0}) × History
    replied r = continue (outcome_of r) (λ _. pure tt)

    replied-history : (r : Reply) (h' : History) → (replied r h').1 ≡ h'
    unfolding replied
    replied-history (done b) h' = refl
    replied-history (failed e) h' = refl

    removal :
        (r : Reply) (e : Error) (h' : History)
        → CleanedUp path h
            (continue
              (caught (replied r (remove path ∷ h')).0)
              (λ _. raise {A = Unit {0}} e)
              (replied r (remove path ∷ h')).1).1
    unfolding replied
    removal (done b) e h' = removed
    removal (failed e'') e h' = removed

    undo-Cleans :
        (o : Outcome (Unit {0})) (h' : History)
        → Cleans path h (continue (caught o) (λ f. undo os path f)) h'
    unfolding undo run call replied
    undo-Cleans (ok a) h' e eq = cc
    undo-Cleans (err e') h' e eq = removal (os.answer h' (remove path)) e' h'
    undo-Cleans panic h' e eq = cc

    or_remove-Cleans :
        (m : Action (Unit {0})) (h' : History) → Cleans path h (or_remove os path m) h'
    unfolding or_remove
    or_remove-Cleans m h' e eq = undo-Cleans (m h').0 (m h').1 e eq

    mkdir_all-Cleans : Cleans path h (run os (mkdir_all path)) h
    unfolding run call replied
    mkdir_all-Cleans e eq =
        rw (replied-history (os.answer h (mkdir_all path)) (mkdir_all path ∷ h)) no_directory

-- Where `NewManager` returns an error, it came before any call, or from `MkdirAll` as the only call, or
-- the last call is a removal of the group's directory.
pub new_manager-Cleans :
    (os : Os) (mountpoint group : Bytes) (resources : Option Resources) (h : History)
    → {e : Error} → (new_manager os mountpoint group resources h).0 ≡ err e
    → CleanedUp (join_path mountpoint group) h (new_manager os mountpoint group resources h).1
unfolding new_manager run call
new_manager-Cleans os mountpoint group none h eq = nothing
new_manager-Cleans os mountpoint group (some r) h {e} eq =
    >>-Cleans path h (lift (verify_group_path group)) _ h (λ _ _. nothing)
      (>>-Cleans path h (run os (mkdir_all path)) _ h (mkdir_all-Cleans path h os) (
        >>-Cleans path h (or_remove os path _) _ _ (or_remove-Cleans path h os _ _) (
          >>-Cleans path h (or_remove os path _) _ _ (or_remove-Cleans path h os _ _)
            (λ e eq. cc))))
      e eq
  where
    path : Bytes
    path = join_path mountpoint group
