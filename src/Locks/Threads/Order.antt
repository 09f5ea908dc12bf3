-- ===== src/Locks/Threads/Order.antt =====
-- The discipline: a mutex is taken only above those that are held, and the last taken is the first
-- released.
use mathlib.Core.List.{append_assoc, append-nil}
use endpoint.Base.{
  Bool, true, false, if◌then◌else◌, ℕ, ◌+◌, ◌≤◌, ◌<◌, ◌≡◌, refl, List, [], ◌∷◌, ◌++◌, All, arith,
}
use endpoint.Locks.{
  Mutex, endpoint_mutex, mutex, acceptor_mutex, connections_mutex, socket_mutex,
  connect_timer_mutex, sent_mutex, unicast_mutex, multicast_mutex, connection_mutex, Action,
  acquire, release, touch, Member, guarded,
}

-- The order that the program keeps to.
abbrev pub rank : Mutex → ℕ
rank endpoint_mutex = 0
rank (mutex n) = 1
rank (acceptor_mutex n) = 1
rank (connections_mutex n) = 2
rank (socket_mutex n) = 3
rank (connection_mutex n id) = 3
rank (connect_timer_mutex n) = 4
rank (sent_mutex n) = 4
rank (unicast_mutex n) = 4
rank (multicast_mutex n) = 4

pub rank-lt : (m : Mutex) → rank m < 5
rank-lt endpoint_mutex = omega arith
rank-lt (mutex n) = omega arith
rank-lt (acceptor_mutex n) = omega arith
rank-lt (connections_mutex n) = omega arith
rank-lt (socket_mutex n) = omega arith
rank-lt (connection_mutex n id) = omega arith
rank-lt (connect_timer_mutex n) = omega arith
rank-lt (sent_mutex n) = omega arith
rank-lt (unicast_mutex n) = omega arith
rank-lt (multicast_mutex n) = omega arith

abbrev pub Below : ℕ → List Mutex → Type 0
Below n held = All (λ m. rank m < n) held

-- What a thread that holds `held` still does keeps to the discipline and ends with nothing held.
abbrev pub IsOrderly : List Mutex → List Action → Type 0
IsOrderly held [] = held ≡ []
IsOrderly held (touch d ∷ todo) = IsOrderly held todo
IsOrderly held (acquire m ∷ todo) = Below (rank m) held × IsOrderly (m ∷ held) todo
IsOrderly [] (release m ∷ todo) = ⊥
IsOrderly (k ∷ held) (release m ∷ todo) = (k ≡ m) × IsOrderly held todo

-- A part of a function that may run wherever only mutexes below `n` are held, and leaves them held.
pub record IsNested (n : ℕ) (actions : List Action) : Type 0 where
  pub runs :
      (held : List Mutex) (todo : List Action)
      → Below n held
      → IsOrderly held todo
      → IsOrderly held (actions ++ todo)

Below-le : (m n : ℕ) (held : List Mutex) → m ≤ n → Below m held → Below n held
Below-le m n [] le h = tt
Below-le m n (k ∷ held) le h = (omega arith, Below-le m n held le h.1)

pub nil-IsNested : (n : ℕ) → IsNested n []
nil-IsNested n = record { runs = λ held todo below orderly. orderly }

pub append-IsNested :
    {n : ℕ} {p q : List Action} → IsNested n p → IsNested n q → IsNested n (p ++ q)
append-IsNested {p = p} {q = q} hp hq = record {
  runs = λ held todo below orderly.
      rw append_assoc (hp.runs held (q ++ todo) below (hq.runs held todo below orderly));
}

pub touch-IsNested :
    {n : ℕ} (d : Member) {p : List Action} → IsNested n p → IsNested n (touch d ∷ p)
touch-IsNested d hp = record { runs = λ held todo below orderly. hp.runs held todo below orderly }

pub guarded-IsNested :
    {n : ℕ} (m : Mutex) {inside : List Action}
    → n ≤ rank m
    → IsNested (rank m + 1) inside
    → IsNested n (guarded m inside)
unfolding guarded
guarded-IsNested {n} m {inside} le nested = record {
  runs = λ held todo below orderly. (
    Below-le n (rank m) held le below,
    rw append_assoc (
        nested.runs (m ∷ held) (release m ∷ todo)
          (omega arith, Below-le n (rank m + 1) held (omega arith) below) (refl, orderly)),
  );
}

pub if-IsNested :
    {n : ℕ} (b : Bool) {p q : List Action}
    → IsNested n p
    → IsNested n q
    → IsNested n (if b then p else q)
if-IsNested true hp hq = hp
if-IsNested false hp hq = hq

pub ruleset nesting = (nil-IsNested, append-IsNested, touch-IsNested, guarded-IsNested, if-IsNested)

-- A whole function runs with nothing held.
pub IsNested-IsOrderly : (actions : List Action) → IsNested 0 actions → IsOrderly [] actions
IsNested-IsOrderly actions h = rw (← append-nil actions) (h.runs [] [] tt refl)
