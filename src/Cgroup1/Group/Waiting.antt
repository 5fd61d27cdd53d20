-- ===== src/Cgroup1/Group/Waiting.antt =====
-- cgroup1/freezer.go: when the loop of `waitState` ends.
use cgroups.Prelude.{ℕ, zero, suc, ◌<◌, Bool, true, false, ◌∷◌, ◌≡◌, refl, arith, ◌∙◌}
use cgroups.Error.{ok}
use cgroups.Text.{Bytes, codes, equal, trim_space, to_lower, to_upper}
use cgroups.Os.{read_file, write_file, sleep_ms, done, History, Os, call, run}
use cgroups.FilePath.{join_path}
use cgroups.Text.{to_upper, to_lower}
use cgroups.Cgroup1.Controllers.{Controller}
use cgroups.Os.{attempt-sleep_ms}
use cgroups.Cgroup1.Group.Operations.{change_state, freezer_state, wait_again, wait_state}

module _ (os : Os) (f : Controller) (path s : Bytes) where
  abbrev pub state_file : Bytes
  state_file = join_path (join_path f.root path) (codes "freezer.state")

  -- The history of a round up to the reading, and with its pause.
  abbrev pub asked : History → History
  asked h = read_file state_file ∷ write_file state_file (to_upper s) ∷ h

  abbrev pub rounds : ℕ → History → History
  rounds zero h = h
  rounds (suc k) h = rounds k (sleep_ms 1 ∷ asked h)

  -- Whether the state read in a round that begins with this history is the one asked for.
  unfoldable pub Reads : History → Bool → Type 0
  Reads h same =
      (content : Bytes) × (os.answer (write_file state_file (to_upper s) ∷ h) (read_file state_file)
        ≡ done content)
      × (equal (to_lower (trim_space content)) s ≡ same)

  unfoldable pub SettlesAfter : ℕ → History → Type 0
  SettlesAfter zero h = Reads h true
  SettlesAfter (suc k) h = Reads h false × SettlesAfter k (sleep_ms 1 ∷ asked h)

  module _
      (writes : (h : History)
        → (b : Bytes) × (os.answer h (write_file state_file (to_upper s)) ≡ done b)) where
    one_round :
        (n : ℕ) (h : History) (same : Bool)
        → Reads h same
        → wait_state os f path s (suc n) h ≡ wait_again os same (wait_state os f path s n) (asked h)
    unfolding wait_state change_state freezer_state run call Reads
    one_round n h same r = simp ((writes h).1, r.1, r.2) refl

    -- Where every write of the state succeeds: if k rounds read another state, and the next one reads
    -- the state that was written, the loop ends there without an error, with any fuel above k. It has
    -- written before each read and paused after each of the k rounds.
    wait_state_ends :
        (k fuel : ℕ) (h : History)
        → k < fuel
        → SettlesAfter k h
        → wait_state os f path s fuel h ≡ (ok true, asked (rounds k h))
    unfolding SettlesAfter wait_again
    wait_state_ends k zero h enough settles = absurd (omega (arith, enough))
    wait_state_ends zero (suc n) h enough r = one_round n h true r
    wait_state_ends (suc k) (suc n) h enough (r, later) =
        one_round n h false r
        ∙ attempt-sleep_ms os 1 (wait_state os f path s n) (asked h)
        ∙ wait_state_ends k n (sleep_ms 1 ∷ asked h) (omega (arith, enough)) later
