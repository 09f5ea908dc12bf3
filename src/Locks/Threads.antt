-- ===== src/Locks/Threads.antt =====
-- Threads that run such lists side by side, one action at a time and in any order.
pub mod Order
pub mod Progress
pub mod Exclusion
pub mod Covering
use mathlib.Core.Logic.{ite}
use endpoint.Base.{
  ℕ, Bool, true, false, not, ◌&&◌, ◌||◌, ◌≡◌, List, [], ◌∷◌, Option, none, some, if◌then◌else◌,
  get_elem?, modify,
}
use endpoint.Locks.{Mutex, Action, acquire, release, touch, mutex_discrete}

pub record Thread : Type 0 where
  pub held : List Mutex
  pub todo : List Action

-- A thread that has not begun.
abbrev pub begin : List Action → Thread
begin actions = record { held = []; todo = actions }

abbrev pub begin_all : List (List Action) → List Thread
begin_all [] = []
begin_all (actions ∷ more) = begin actions ∷ begin_all more

abbrev pub same : Mutex → Mutex → Bool
same m k = ite (mutex_discrete m k) true false

abbrev pub holds : Mutex → List Mutex → Bool
holds m [] = false
holds m (k ∷ ks) = same m k || holds m ks

abbrev pub drop_mutex : Mutex → List Mutex → List Mutex
drop_mutex m [] = []
drop_mutex m (k ∷ ks) = if same m k then ks else k ∷ drop_mutex m ks

abbrev pub is_free : Mutex → List Thread → Bool
is_free m [] = true
is_free m (t ∷ ts) = not (holds m t.held) && is_free m ts

abbrev pub after : List Mutex → List Action → Thread
after held [] = record { held = held; todo = [] }
after held (acquire m ∷ todo) = record { held = m ∷ held; todo = todo }
after held (release m ∷ todo) = record { held = drop_mutex m held; todo = todo }
after held (touch d ∷ todo) = record { held = held; todo = todo }

-- A mutex is acquired only where no thread has it, the thread itself included.
abbrev pub can_go : List Action → List Thread → Bool
can_go [] ts = false
can_go (acquire m ∷ todo) ts = is_free m ts
can_go (release m ∷ todo) ts = true
can_go (touch d ∷ todo) ts = true

-- The next action of the thread at a place, if there is one and it need not wait.
unfoldable pub move : ℕ → List Thread → Option (List Thread)
move i ts = elim (get_elem? ts i) [
  | none ↦ none
  | some t ↦ if can_go t.todo ts then some (modify (λ t. after t.held t.todo) i ts) else none
]

pub data Reach (ts : List Thread) : List Thread → Type 0 where
  start : Reach ts ts
  later : {us vs : List Thread} (i : ℕ) → Reach ts us → move i us ≡ some vs → Reach ts vs

abbrev pub IsDone : Thread → Type 0
IsDone t = t.todo ≡ []
