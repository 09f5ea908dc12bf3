-- ===== src/Locks/Threads/Progress.antt =====
-- Threads that keep to the discipline never wait for one another in a circle.
use mathlib.Core.Logic.{if_pos, if_neg}
use endpoint.Base.{
  ℕ, zero, suc, ◌+◌, ◌≤◌, ◌<◌, ◌≡◌, ◌≢◌, refl, true, false, List, [], ◌∷◌, some, get_elem?, modify,
  All, All-modify, All-get_elem?, Bool-cases, Option-cases, ◌⊎◌, inl, inr, arith,
}
use endpoint.Locks.{Mutex, mutex_discrete, Action, acquire, release, touch, Member}
use endpoint.Locks.Threads.{
  Thread, begin_all, same, holds, drop_mutex, is_free, after, can_go, move, Reach, start, later,
  IsDone,
}
use endpoint.Locks.Threads.Order.{rank, rank-lt, Below, IsOrderly}

abbrev pub IsDisciplined : List Thread → Type 0
IsDisciplined ts = All (λ t. IsOrderly t.held t.todo) ts

pub same_self : (m : Mutex) → same m m ≡ true
same_self m = if_pos (mutex_discrete m m) refl _ _

pub same-eq : (m k : Mutex) → same m k ≡ true → m ≡ k
same-eq m k h = elim (mutex_discrete m k) [
  | yes e ↦ e
  | no differ ↦ absurd (let no_match = if_neg (mutex_discrete m k) differ true false in cc)
]

after-IsOrderly :
    (held : List Mutex) (todo : List Action)
    → IsOrderly held todo
    → IsOrderly (after held todo).held (after held todo).todo
after-IsOrderly held [] h = h
after-IsOrderly held (acquire m ∷ todo) h = h.1
after-IsOrderly held (touch d ∷ todo) h = h
after-IsOrderly [] (release m ∷ todo) h = absurd h
after-IsOrderly (k ∷ held) (release m ∷ todo) h =
    let dropped : drop_mutex m (k ∷ held) ≡ held = rw (h.0, same_self m) in rw dropped h.1

move-IsDisciplined :
    (i : ℕ) (ts us : List Thread) → move i ts ≡ some us → IsDisciplined ts → IsDisciplined us
unfolding move
move-IsDisciplined i ts us e h = elim (Option-cases (get_elem? ts i)) [
  | inl gone ↦ absurd (ground arith)
  | inr (t, there) ↦ elim (Bool-cases (can_go t.todo ts)) [
    | inr waits ↦ absurd (ground arith)
    | inl free ↦
        let moved : modify (λ u. after u.held u.todo) i ts ≡ us = ground arith in
        rw (← moved) (
          All-modify (λ u. IsOrderly u.held u.todo) (λ u. after u.held u.todo) i ts
            (λ u k. after-IsOrderly u.held u.todo k) h)
  ]
]

Reach-IsDisciplined : {ts us : List Thread} → IsDisciplined ts → Reach ts us → IsDisciplined us
Reach-IsDisciplined h start = h
Reach-IsDisciplined h (later i r e) = move-IsDisciplined i _ _ e (Reach-IsDisciplined h r)

-- A mutex that is not free has an owner.
owner :
    (m : Mutex) (ts : List Thread)
    → is_free m ts ≡ false
    → (j : ℕ) × (t : Thread) × (get_elem? ts j ≡ some t) × (holds m t.held ≡ true)
owner m [] h = absurd (ground arith)
owner m (t ∷ ts) h = elim (Bool-cases (holds m t.held)) [
  | inl mine ↦ (0, t, refl, mine)
  | inr other ↦ let (j, u, there, held) = owner m ts (ground arith) in (suc j, u, there, held)
]

holds-Below :
    (m : Mutex) (n : ℕ) (held : List Mutex) → Below n held → holds m held ≡ true → rank m < n
holds-Below m n [] below h = absurd (ground arith)
holds-Below m n (k ∷ held) below h = elim (Bool-cases (same m k)) [
  | inl e ↦ rw (same-eq m k e) below.0
  | inr other ↦ holds-Below m n held below.1 (ground arith)
]

abbrev pub CanMove : List Thread → Type 0
CanMove ts = (i : ℕ) × (us : List Thread) × (move i ts ≡ some us)

goes :
    (i : ℕ) (ts : List Thread) (t : Thread)
    → get_elem? ts i ≡ some t
    → can_go t.todo ts ≡ true
    → CanMove ts
unfolding move
goes i ts t there free = (i, modify (λ u. after u.held u.todo) i ts, rw (there, move, free))

-- What a thread does next.
next_action :
    (todo : List Action)
    → (todo ≡ [])
      ⊎ ((m : Mutex) × (rest : List Action) × (todo ≡ acquire m ∷ rest))
      ⊎ ((m : Mutex) × (rest : List Action) × (todo ≡ release m ∷ rest))
      ⊎ ((d : Member) × (rest : List Action) × (todo ≡ touch d ∷ rest))
next_action [] = inl refl
next_action (acquire m ∷ rest) = inr (inl (m, rest, refl))
next_action (release m ∷ rest) = inr (inr (inl (m, rest, refl)))
next_action (touch d ∷ rest) = inr (inr (inr (d, rest, refl)))

-- From the owner of a mutex one climbs to a thread that can go on; each step goes up in the order.
climb :
    (fuel j : ℕ) (ts : List Thread) (t : Thread) (m : Mutex)
    → IsDisciplined ts
    → get_elem? ts j ≡ some t
    → holds m t.held ≡ true
    → 5 ≤ fuel + rank m
    → CanMove ts
climb zero j ts t m h there held enough = absurd (omega (arith, rank-lt m))
climb (suc fuel) j ts t m h there held enough =
    let orderly = All-get_elem? (λ u. IsOrderly u.held u.todo) ts j h there in
    elim (next_action t.todo) [
      | inl over ↦ absurd (let none_held = rw over at orderly in ground arith)
      | inr (inl (k, rest, e)) ↦ elim (Bool-cases (is_free k ts)) [
        | inl free ↦ goes j ts t there (rw e free)
        | inr taken ↦
            let (j', u, there', held') = owner k ts taken in
            let higher = holds-Below m (rank k) t.held (rw e at orderly).0 held in
            climb fuel j' ts u k h there' held' (omega arith)
      ]
      | inr (inr (inl (k, rest, e))) ↦ goes j ts t there (rw e refl)
      | inr (inr (inr (d, rest, e))) ↦ goes j ts t there (rw e refl)
    ]

unfinished :
    (ts : List Thread)
    → All IsDone ts ⊎ ((i : ℕ) × (t : Thread) × (get_elem? ts i ≡ some t) × (t.todo ≢ []))
unfinished [] = inl tt
unfinished (t ∷ ts) = elim (next_action t.todo) [
  | inl over ↦ elim (unfinished ts) [
    | inl rest ↦ inl (over, rest)
    | inr (i, u, there, more) ↦ inr (suc i, u, there, more)
  ]
  | inr (inl (k, rest, e)) ↦ inr (0, t, refl, λ none_left. cc)
  | inr (inr (inl (k, rest, e))) ↦ inr (0, t, refl, λ none_left. cc)
  | inr (inr (inr (d, rest, e))) ↦ inr (0, t, refl, λ none_left. cc)
]

disciplined-CanMove : (ts : List Thread) → IsDisciplined ts → All IsDone ts ⊎ CanMove ts
disciplined-CanMove ts h = elim (unfinished ts) [
  | inl done ↦ inl done
  | inr (i, t, there, more) ↦ inr (elim (next_action t.todo) [
    | inl over ↦ absurd (more over)
    | inr (inl (k, rest, e)) ↦ elim (Bool-cases (is_free k ts)) [
      | inl free ↦ goes i ts t there (rw e free)
      | inr taken ↦
          let (j, u, there', held) = owner k ts taken in
          climb 5 j ts u k h there' held (omega arith)
    ]
    | inr (inr (inl (k, rest, e))) ↦ goes i ts t there (rw e refl)
    | inr (inr (inr (d, rest, e))) ↦ goes i ts t there (rw e refl)
  ])
]

begin_all-IsDisciplined :
    (programs : List (List Action))
    → All (IsOrderly []) programs
    → IsDisciplined (begin_all programs)
begin_all-IsDisciplined [] h = tt
begin_all-IsDisciplined (actions ∷ more) h = (h.0, begin_all-IsDisciplined more h.1)

pub Reach-CanMove :
    (programs : List (List Action)) (ts : List Thread)
    → All (IsOrderly []) programs
    → Reach (begin_all programs) ts
    → All IsDone ts ⊎ CanMove ts
Reach-CanMove programs ts h r =
    disciplined-CanMove ts (Reach-IsDisciplined (begin_all-IsDisciplined programs h) r)
