-- ===== src/Locks/Threads/Covering.antt =====
-- Uses of members, and the mutexes that are held at each.
use mathlib.Core.List.{append_assoc, append-nil}
use endpoint.Base.{
  refl, ℕ, ◌≡◌, true, false, List, [], ◌∷◌, ◌++◌, some, get_elem?, modify, Bool, All, All-modify,
  All-get_elem?, Bool-cases, Option-cases, inl, inr, arith, if◌then◌else◌, ◌≢◌,
}
use endpoint.Locks.{Mutex, Member, guardian, Action, acquire, release, touch, guarded}
use endpoint.Locks.Threads.{
  Thread, begin_all, holds, drop_mutex, after, can_go, move, Reach, start, later,
}
use endpoint.Locks.Threads.Exclusion.{holds_unique}
use endpoint.Locks.Threads.Progress.{same_self}

-- Each use of the member `d` comes while its guardian is held.
abbrev pub IsCovered : Member → List Mutex → List Action → Type 0
IsCovered d held [] = Unit {0}
IsCovered d held (acquire m ∷ todo) = IsCovered d (m ∷ held) todo
IsCovered d held (release m ∷ todo) = IsCovered d (drop_mutex m held) todo
IsCovered d held (touch e ∷ todo) = (e ≡ d → holds (guardian d) held ≡ true) × IsCovered d held todo

-- A part of a function in which each use of `d` is covered where `held` is held, and which leaves it
-- held.
pub record Covers (d : Member) (held : List Mutex) (actions : List Action) : Type 0 where
  pub runs : (todo : List Action) → IsCovered d held todo → IsCovered d held (actions ++ todo)

pub nil-Covers : (d : Member) (held : List Mutex) → Covers d held []
nil-Covers d held = record { runs = λ todo h. h }

pub append-Covers :
    {d : Member} {held : List Mutex} {p q : List Action}
    → Covers d held p
    → Covers d held q
    → Covers d held (p ++ q)
append-Covers {p = p} {q = q} hp hq = record {
  runs = λ todo h. rw append_assoc (hp.runs (q ++ todo) (hq.runs todo h));
}

pub if-Covers :
    {d : Member} {held : List Mutex} (b : Bool) {p q : List Action}
    → Covers d held p
    → Covers d held q
    → Covers d held (if b then p else q)
if-Covers true hp hq = hp
if-Covers false hp hq = hq

pub guarded-Covers :
    {d : Member} {held : List Mutex} (m : Mutex) {inside : List Action}
    → Covers d (m ∷ held) inside
    → Covers d held (guarded m inside)
unfolding guarded
guarded-Covers {held} m {inside} h = record {
  runs = λ todo k. rw append_assoc (
      h.runs (release m ∷ todo)
        (let dropped : drop_mutex m (m ∷ held) ≡ held = rw (same_self m) in rw dropped k));
}

-- The guardian is the mutex that was taken last, or the one before it; or another member is used.
pub touch-Covers :
    {d : Member} {held : List Mutex} (m : Mutex) (e : Member) {p : List Action}
    → guardian e ≡ m
    → Covers d (m ∷ held) p
    → Covers d (m ∷ held) (touch e ∷ p)
touch-Covers {d} {held} m e own h = record {
  runs = λ todo k. (
    λ same.
        (let taken : guardian d ≡ m = rw (← same) own in
          let now : holds (guardian d) (m ∷ held) ≡ true = rw (taken, same_self m) in now),
    h.runs todo k,
  );
}

pub touch_outer-Covers :
    {d : Member} {held : List Mutex} (m k : Mutex) (e : Member) {p : List Action}
    → guardian e ≡ k
    → Covers d (m ∷ k ∷ held) p
    → Covers d (m ∷ k ∷ held) (touch e ∷ p)
touch_outer-Covers {d} {held} m k e own h = record {
  runs = λ todo c. (
    λ same.
        (let taken : guardian d ≡ k = rw (← same) own in
          let now : holds (guardian d) (m ∷ k ∷ held) ≡ true = ground (arith, taken, same_self k) in
          now),
    h.runs todo c,
  );
}

pub touch_other-Covers :
    {d : Member} {held : List Mutex} (e : Member) {p : List Action}
    → e ≢ d
    → Covers d held p
    → Covers d held (touch e ∷ p)
touch_other-Covers e other h = record {
  runs = λ todo k. (λ same. absurd (other same), h.runs todo k);
}

pub ruleset covering =
    (nil-Covers, append-Covers, if-Covers, guarded-Covers, touch-Covers, touch_outer-Covers)

-- A whole function runs with nothing held.
pub Covers-IsCovered :
    (d : Member) (actions : List Action) → Covers d [] actions → IsCovered d [] actions
Covers-IsCovered d actions h = rw (← append-nil actions) (h.runs [] tt)

after-IsCovered :
    (d : Member) (held : List Mutex) (todo : List Action)
    → IsCovered d held todo
    → IsCovered d (after held todo).held (after held todo).todo
after-IsCovered d held [] h = h
after-IsCovered d held (acquire m ∷ todo) h = h
after-IsCovered d held (release m ∷ todo) h = h
after-IsCovered d held (touch e ∷ todo) h = h.1

move-IsCovered :
    (d : Member) (i : ℕ) (ts us : List Thread)
    → move i ts ≡ some us
    → All (λ t. IsCovered d t.held t.todo) ts
    → All (λ t. IsCovered d t.held t.todo) us
unfolding move
move-IsCovered d i ts us e h = elim (Option-cases (get_elem? ts i)) [
  | inl gone ↦ absurd (ground arith)
  | inr (t, there) ↦ elim (Bool-cases (can_go t.todo ts)) [
    | inr waits ↦ absurd (ground arith)
    | inl free ↦
        let moved : modify (λ u. after u.held u.todo) i ts ≡ us = ground arith in
        rw (← moved) (
          All-modify (λ u. IsCovered d u.held u.todo) (λ u. after u.held u.todo) i ts
            (λ u k. after-IsCovered d u.held u.todo k) h)
  ]
]

Reach-IsCovered :
    (d : Member) {ts us : List Thread}
    → All (λ t. IsCovered d t.held t.todo) ts
    → Reach ts us
    → All (λ t. IsCovered d t.held t.todo) us
Reach-IsCovered d h start = h
Reach-IsCovered d h (later i r e) = move-IsCovered d i _ _ e (Reach-IsCovered d h r)

begin_all-IsCovered :
    (d : Member) (programs : List (List Action))
    → All (IsCovered d []) programs
    → All (λ t. IsCovered d t.held t.todo) (begin_all programs)
begin_all-IsCovered d [] h = tt
begin_all-IsCovered d (actions ∷ more) h = (h.0, begin_all-IsCovered d more h.1)

-- The next action of a thread is a use of a member.
abbrev pub Touches : Member → Thread → Type 0
Touches d t = (rest : List Action) × (t.todo ≡ touch d ∷ rest)

Touches-holds :
    (d : Member) (t : Thread)
    → IsCovered d t.held t.todo
    → Touches d t
    → holds (guardian d) t.held ≡ true
Touches-holds d t h (rest, e) = (rw e at h).0 refl

pub Reach-Touches :
    (programs : List (List Action)) (ts : List Thread) (d : Member) (i j : ℕ) {t u : Thread}
    → All (IsCovered d []) programs
    → Reach (begin_all programs) ts
    → get_elem? ts i ≡ some t
    → get_elem? ts j ≡ some u
    → Touches d t
    → Touches d u
    → i ≡ j
Reach-Touches programs ts d i j {t} {u} h r there there' next next' =
    let covered = Reach-IsCovered d (begin_all-IsCovered d programs h) r in
    let mine =
      Touches-holds d t (All-get_elem? (λ v. IsCovered d v.held v.todo) ts i covered there) next in
    let yours =
      Touches-holds d u (All-get_elem? (λ v. IsCovered d v.held v.todo) ts j covered there')
        next' in
    holds_unique programs ts (guardian d) i j r there there' mine yours
