-- ===== src/Tests/Gathering.antt =====
-- Tests of the gathering of metrics in cgroup1.
use cgroups.Prelude.{
  ℕ, true, false, arith, ◌*◌, ◌<◌, ◌≤◌, Option, none, some, List, [], ◌∷◌, ◌≡◌, refl, length,
  if◌then◌else◌,
}
use cgroups.Error.{not_exist, sys, Error, ok, err}
use cgroups.Text.{Bytes, codes, equal}
use cgroups.Cgroup1.Subsystem.{Subsystem, static_path}
use cgroups.Cgroup1.Group.{Group}
use cgroups.Cgroup1.Group.Gathering.{
  ErrorHandler, ignore_not_exist, err_passthrough, or_passthrough, Reading, Goroutine, reading,
  sending, Shared, handled, to_send, reads, sends, Steps, first, later, stop, step, all_done,
  answer, at_start, start_all, start_stat,
}
use cgroups.Cgroup1.Group.Gathering.Ends.{unsent}
use cgroups.Cgroup1.Group.Gathering.Independence.{gathered}
use cgroups.Cgroup1.Group.Gathering.Answer.{stat_finishes, stat_blocks, stat_answer}

abbrev subsystem : Bytes → Subsystem
subsystem name = record {
  name = name;
  path = none;
  create = none;
  update = none;
  delete = none;
  freezer = none;
}

abbrev two : Group
two = record {
  path = static_path (codes "/g");
  subsystems = subsystem (codes "pids") ∷ subsystem (codes "rdma") ∷ [];
  err = none;
}

abbrev pids_reading : Reading (ℕ × ℕ)
pids_reading = record { metrics = λ m. (7, m.1); failure = none }

abbrev rdma_reading : Reading (ℕ × ℕ)
rdma_reading = record { metrics = λ m. (m.0, 8); failure = some (sys not_exist) }

abbrev stater : Subsystem → Option (Bytes → Reading (ℕ × ℕ))
stater s =
    if equal s.name (codes "pids") then some (λ p. pids_reading) else some (λ p. rdma_reading)

abbrev both : List (Goroutine (ℕ × ℕ))
both = reading pids_reading ∷ reading rdma_reading ∷ []

started : start_stat stater two ≡ ok both
unfolding start_stat start_all static_path equal
started = refl

abbrev after_rdma : List (Goroutine (ℕ × ℕ))
after_rdma = reading pids_reading ∷ sending (sys not_exist ∷ []) ∷ []

one_step :
    Steps
      (or_passthrough [])
      2
      1
      both
      (at_start (0, 0))
      after_rdma
      (record { stats = (0, 8); errs = [] })
unfolding or_passthrough to_send handled
one_step = step (later (first reads)) stop

abbrev last_state : List (Goroutine (ℕ × ℕ))
last_state = sending [] ∷ sending [] ∷ []

both_ignored :
    Steps
      (or_passthrough (ignore_not_exist ∷ []))
      2
      2
      both
      (at_start (0, 0))
      last_state
      (record { stats = (7, 8); errs = [] })
unfolding or_passthrough to_send handled ignore_not_exist
both_ignored = step (later (first reads)) (step (first reads) stop)

stat_finishes_example :
    (1 ≤ 2 * length two.subsystems)
    × ((k : ℕ) × (last : List (Goroutine (ℕ × ℕ))) × (t : Shared (ℕ × ℕ)) × Steps
          (or_passthrough [])
          (length two.subsystems)
          k
          after_rdma
          (record { stats = (0, 8); errs = [] })
          last
          t
        × (all_done last ≡ true))
stat_finishes_example = stat_finishes stater two [] (0, 0) (omega arith) started one_step

abbrev thrice : List ErrorHandler
thrice = err_passthrough ∷ err_passthrough ∷ err_passthrough ∷ []

too_many : length two.subsystems < unsent (or_passthrough thrice) both
unfolding or_passthrough to_send handled
too_many = omega arith

abbrev waiting : List (Goroutine (ℕ × ℕ))
waiting = reading pids_reading ∷ sending (sys not_exist ∷ []) ∷ []

full_channel :
    Steps
      (or_passthrough thrice)
      2
      3
      both
      (at_start (0, 0))
      waiting
      (record { stats = (0, 8); errs = sys not_exist ∷ sys not_exist ∷ [] })
unfolding or_passthrough to_send handled
full_channel =
    step (later (first reads))
      (step (later (first (sends (omega arith)))) (step (later (first (sends (omega arith)))) stop))

stat_blocks_example : all_done waiting ≡ false
stat_blocks_example = stat_blocks stater two thrice (0, 0) started too_many full_channel

both_done : all_done last_state ≡ true
unfolding all_done
both_done = refl

stat_answer_example :
    (unsent (or_passthrough (ignore_not_exist ∷ [])) both ≡ 0
      → answer {M = ℕ × ℕ} (record { stats = (7, 8); errs = [] }) ≡ ok (gathered both (0, 0)))
    × (0 < unsent (or_passthrough (ignore_not_exist ∷ [])) both
        → (e : Error) × (answer {M = ℕ × ℕ} (record { stats = (7, 8); errs = [] }) ≡ err e))
stat_answer_example =
    stat_answer stater two (ignore_not_exist ∷ []) (0, 0) started ((λ m. refl, tt), (tt, tt))
      both_ignored both_done
