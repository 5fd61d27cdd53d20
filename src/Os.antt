-- ===== src/Os.antt =====
-- The operating system as a parameter, and actions that call it.
use cgroups.Cgroup2.DeviceFilter.Asm.{Instruction}
use cgroups.Prelude.{ℕ, Bool, Option, none, some, List, ◌∷◌, ◌≡◌, refl, ap, fun_ext}
use cgroups.Error.{Error, Outcome, ok, err, panic}
use cgroups.Text.{Bytes}
use cgroups.Text.Scan.{Scanner}

-- Properties of a unit of systemd: those that go-systemd makes, and those by a name and a value.
pub data PropertyValue : Type 0 where
  flag : Bool → PropertyValue
  amount : ℕ → PropertyValue
  amounts : List ℕ → PropertyValue

pub data UnitProperty : Type 0 where
  description wants in_slice : Bytes → UnitProperty
  property : Bytes → PropertyValue → UnitProperty

-- The calls of the package os, of golang.org/x/sys and over D-Bus that the source makes, with their
-- arguments.
-- A file mode is the same at every call of one kind, and is left out.
pub data Call : Type 0 where
  mkdir_all : Bytes → Call
  remove : Bytes → Call
  remove_all : Bytes → Call
  read_file : Bytes → Call
  write_file : Bytes → Bytes → Call
  lstat : Bytes → Call
  open_file : Bytes → Call
  open_read : Bytes → Call
  read : Bytes → ℕ → Call
  write : Bytes → Bytes → Call
  sleep_ms : ℕ → Call
  open_dir : Bytes → Call
  attach_filter : List Instruction → Call
  kill : ℕ → Call
  wait : ℕ → Call
  get_subreaper : Call
  inotify_init : Call
  stat : Bytes → Call
  eventfd : Call
  open_fd : Bytes → Call
  statfs : Bytes → Call
  inotify_add_watch : Bytes → Call
  bus_connect : Call
  start_unit : Bytes → Bytes → List UnitProperty → Call
  stop_unit : Bytes → Bytes → Call
  reset_failed_unit : Bytes → Call
  await_job : Call
  manager_version : Call

pub data Reply : Type 0 where
  done : Bytes → Reply
  failed : Error → Reply

-- The calls so far, the newest first.
abbrev pub History : Type 0
History = List Call

-- What `filepath.Walk` visits below a path: each entry's path and whether it is a directory, or the
-- error that ends the walk.
pub record Visit : Type 0 where
  pub path : Bytes
  pub is_dir : Bool

pub record Walk : Type 0 where
  pub visits : List Visit
  pub error : Option Error

-- The system answers a call as it likes, by all that was called before.
pub record Os : Type 0 where
  pub answer : History → Call → Reply
  pub walk : History → Bytes → Walk
  pub scan : Bytes → Scanner

-- An action: what was called stays called, also before an error.
abbrev pub Action {ℓ} : Type ℓ → Type ℓ
Action A = History → Outcome A × History

module _ {ℓ} {A : Type ℓ} where
  abbrev pub pure : A → Action A
  pure a h = (ok a, h)

  abbrev pub raise : Error → Action A
  raise e h = (err e, h)

  abbrev pub lift : Outcome A → Action A
  lift o h = (o, h)

module _ {ℓ κ} {A : Type ℓ} {B : Type κ} where
  abbrev pub continue : Outcome A → (A → Action B) → Action B
  continue (ok a) f h = f a h
  continue (err e) f h = (err e, h)
  continue panic f h = (panic, h)

  infixl 5 ◌>>=◌
  abbrev pub ◌>>=◌ : Action A → (A → Action B) → Action B
  ◌>>=◌ m f h = let (o, h') = m h in continue o f h'

module _ {ℓ κ} {A : Type ℓ} {B : Type κ} where
  infixl 5 ◌>>◌
  abbrev pub ◌>>◌ : Action A → Action B → Action B
  m >> k = m >>= λ _. k

abbrev pub outcome_of : Reply → Outcome Bytes
outcome_of (done b) = ok b
outcome_of (failed e) = err e

-- One call.
unfoldable pub call : Os → Call → Action Bytes
call os c h = (outcome_of (os.answer h c), c ∷ h)

-- A call for its effect alone.
unfoldable pub run : Os → Call → Action (Unit {0})
unfolding call
run os c = do _ ← call os c; pure tt

-- `if err := m; err != nil { ... }`: the error as a value
abbrev pub caught {ℓ} : {A : Type ℓ} → Outcome A → Outcome (Option Error)
caught (ok a) = ok none
caught (err e) = ok (some e)
caught panic = panic

abbrev pub attempt {ℓ} : {A : Type ℓ} → Action A → Action (Option Error)
attempt m h = let (o, h') = m h in (caught o, h')

-- A chain of two actions that succeeds has two successful parts.
pub continue-eq-ok {ℓ κ} :
    {A : Type ℓ} {B : Type κ} (o : Outcome A) (f : A → Action B) (h : History) {b : B}
    {h' : History}
    → continue o f h ≡ (ok b, h')
    → (a : A) × (o ≡ ok a) × (f a h ≡ (ok b, h'))
continue-eq-ok (ok a) f h e = (a, refl, e)
continue-eq-ok (err x) f h e = cc (ap (λ p. p.0) e)
continue-eq-ok panic f h e = cc (ap (λ p. p.0) e)

-- The same for the outcome alone.
pub continue-ok {ℓ κ} :
    {A : Type ℓ} {B : Type κ} (o : Outcome A) (f : A → Action B) (h : History) {b : B}
    → (continue o f h).0 ≡ ok b
    → (a : A) × (o ≡ ok a) × ((f a h).0 ≡ ok b)
continue-ok (ok a) f h e = (a, refl, e)
continue-ok (err x) f h e = cc
continue-ok panic f h e = cc

continue-continue {ℓ κ μ} :
    {A : Type ℓ} {B : Type κ} {C : Type μ} (o : Outcome A) (f : A → Action B) (g : B → Action C)
    (h : History)
    → continue (continue o f h).0 g (continue o f h).1 ≡ continue o (λ a. f a >>= g) h
continue-continue (ok a) f g h = refl
continue-continue (err x) f g h = refl
continue-continue panic f g h = refl

-- Chains of actions may be grouped at will.
pub >>=_assoc {ℓ κ μ} :
    {A : Type ℓ} {B : Type κ} {C : Type μ} (m : Action A) (f : A → Action B) (g : B → Action C)
    → ((m >>= f) >>= g) ≡ (m >>= λ a. f a >>= g)
>>=_assoc m f g = fun_ext (λ h. continue-continue (m h).0 f g (m h).1)

after_pause {ℓ} :
    {A : Type ℓ} (r : Reply) (k : Action A) (h : History)
    → (attempt (λ h'. continue (outcome_of r) (λ _. pure {A = Unit {0}} tt) h') >> k) h ≡ k h
after_pause (done b) k h = refl
after_pause (failed e) k h = refl

-- A pause is one call, whatever comes of it.
pub attempt-sleep_ms {ℓ} :
    {A : Type ℓ} (os : Os) (ms : ℕ) (k : Action A) (h : History)
    → (attempt (run os (sleep_ms ms)) >> k) h ≡ k (sleep_ms ms ∷ h)
unfolding run call
attempt-sleep_ms os ms k h = after_pause (os.answer h (sleep_ms ms)) k (sleep_ms ms ∷ h)
