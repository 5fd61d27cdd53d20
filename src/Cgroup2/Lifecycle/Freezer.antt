-- ===== src/Cgroup2/Lifecycle/Freezer.antt =====
-- cgroup2/manager.go: the loop of `freeze`. The source has no bound on it; here it has fuel, and `false`
-- stands for a loop that is still running when the fuel is spent.
use cgroups.Prelude.{ℕ, zero, suc, ◌<◌, Bool, true, false, ◌∷◌, ◌≡◌, refl, arith, ◌∙◌}
use cgroups.Error.{ok}
use cgroups.Text.{Bytes, codes}
use cgroups.Os.{
  attempt-sleep_ms, read_file, write_file, sleep_ms, done, History, Os, Action, pure, ◌>>=◌, ◌>>◌,
  call, run, attempt,
}
use cgroups.FilePath.{join_path}
use cgroups.Cgroup2.Resources.{string, value_data}
use cgroups.Cgroup2.Manager.{write_values, write_value}
use cgroups.Cgroup2.Lifecycle.{
  State, unknown, thawed, frozen, deleted, freeze_value, state_values, state_of, fetch_state,
}

-- `current == state`
unfoldable pub same_state : State → State → Bool
same_state unknown unknown = true
same_state thawed thawed = true
same_state frozen frozen = true
same_state deleted deleted = true
same_state _ _ = false

-- `return nil`, or what follows.
abbrev pub settle : Bool → Action Bool → Action Bool
settle true again = pure true
settle false again = again

module _ (os : Os) (path : Bytes) (s : State) where
  unfoldable pub freeze : ℕ → Action Bool
  freeze zero = pure false
  freeze (suc n) = do
    write_values os path (state_values s)
    current ← fetch_state os path
    settle (same_state current s) (attempt (run os (sleep_ms 1)) >> freeze n)

  abbrev pub freeze_file : Bytes
  freeze_file = join_path path (codes "cgroup.freeze")

  -- The history of a round, behind its pause.
  abbrev pub round : Bytes → History → History
  round text h = sleep_ms 1 ∷ read_file freeze_file ∷ write_file freeze_file text ∷ h

  abbrev pub rounds : Bytes → ℕ → History → History
  rounds text zero h = h
  rounds text (suc k) h = rounds text k (round text h)

  -- The state that is read after the write in a round that begins with this history.
  unfoldable pub Reads : Bytes → History → Bool → Type 0
  Reads text h same =
      (content : Bytes) × (os.answer (write_file freeze_file text ∷ h) (read_file freeze_file)
        ≡ done content)
      × (same_state (state_of content) s ≡ same)

  -- In the first k rounds another state is read, and then the one that was written.
  unfoldable pub SettlesAfter : Bytes → ℕ → History → Type 0
  SettlesAfter text zero h = Reads text h true
  SettlesAfter text (suc k) h = Reads text h false × SettlesAfter text k (round text h)

  module _ (text : Bytes)
      (is_text : freeze_value s ≡ record { filename = codes "cgroup.freeze"; value = string text })
      (writes : (h : History)
        → (b : Bytes) × (os.answer h (write_file freeze_file text) ≡ done b)) where
    one_round :
        (n : ℕ) (h : History) (same : Bool)
        → Reads text h same
        → freeze (suc n) h
          ≡ settle same
              (attempt (run os (sleep_ms 1)) >> freeze n)
              (read_file freeze_file ∷ write_file freeze_file text ∷ h)
    unfolding freeze write_values write_value state_values value_data fetch_state run call Reads
    one_round n h same r = simp (is_text, (writes h).1, r.1, r.2) refl

    -- For a state with a value to write, and where every write of it succeeds: if the k rounds read
    -- another state, and the next one reads the state that was written, the loop ends there without an
    -- error, with any fuel above k. It has written before each read and paused after each of the k
    -- rounds.
    pub freeze_ends :
        (k fuel : ℕ) (h : History)
        → k < fuel
        → SettlesAfter text k h
        → freeze fuel h
          ≡ (ok true, read_file freeze_file ∷ write_file freeze_file text ∷ rounds text k h)
    unfolding SettlesAfter
    freeze_ends k zero h enough settles = absurd (omega (arith, enough))
    freeze_ends zero (suc n) h enough r = one_round n h true r
    freeze_ends (suc k) (suc n) h enough (r, later) =
        one_round n h false r
        ∙ attempt-sleep_ms os 1 (freeze n) _
        ∙ freeze_ends k n (round text h) (omega (arith, enough)) later
