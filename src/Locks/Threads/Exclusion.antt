-- ===== src/Locks/Threads/Exclusion.antt =====
-- How often a mutex is held at once.

use endpoint.Base.{
  ℕ, zero, suc, ◌+◌, ◌≤◌, ◌≡◌, ◌≢◌, refl, true, false, List, [], ◌∷◌, some, get_elem?, modify,
  Bool-cases, Option-cases, inl, inr, arith, if◌then◌else◌, ℕ_discrete, sym, ap,
}
use endpoint.Locks.{Mutex, Action, acquire, release, touch}
use endpoint.Locks.Threads.{
  Thread, begin_all, same, holds, drop_mutex, is_free, after, can_go, move, Reach, start, later,
}
use endpoint.Locks.Threads.Progress.{same-eq}

-- How often a mutex is held, by a thread and by all.
abbrev times : Mutex → List Mutex → ℕ
times m [] = 0
times m (k ∷ ks) = if same m k then suc (times m ks) else times m ks

abbrev total : Mutex → List Thread → ℕ
total m [] = 0
total m (t ∷ ts) = times m t.held + total m ts

abbrev IsExclusive : List Thread → Type 0
IsExclusive ts = (m : Mutex) → total m ts ≤ 1

not_holds-times : (m : Mutex) (held : List Mutex) → holds m held ≡ false → times m held ≡ 0
not_holds-times m [] h = refl
not_holds-times m (k ∷ ks) h = ground (arith, not_holds-times m ks)

is_free-total : (m : Mutex) (ts : List Thread) → is_free m ts ≡ true → total m ts ≡ 0
is_free-total m [] h = refl
is_free-total m (t ∷ ts) h = ground (arith, not_holds-times m t.held, is_free-total m ts)

holds-times : (m : Mutex) (held : List Mutex) → holds m held ≡ true → 1 ≤ times m held
holds-times m [] h = absurd (ground arith)
holds-times m (k ∷ ks) h = ground (arith, holds-times m ks)

drop_mutex-times : (m k : Mutex) (held : List Mutex) → times m (drop_mutex k held) ≤ times m held
drop_mutex-times m k [] = omega arith
drop_mutex-times m k (l ∷ held) = ground (arith, drop_mutex-times m k held)

total-one :
    (m : Mutex) (ts : List Thread) (i : ℕ) {t : Thread}
    → get_elem? ts i ≡ some t
    → times m t.held ≤ total m ts
total-one m [] i e = absurd (ground arith)
total-one m (u ∷ ts) zero {t} e = let same : u ≡ t = ground arith in rw (sym same) (omega arith)
total-one m (u ∷ ts) (suc i) e = omega (arith, total-one m ts i e)

total-two :
    (m : Mutex) (ts : List Thread) (i j : ℕ) {t u : Thread}
    → get_elem? ts i ≡ some t
    → get_elem? ts j ≡ some u
    → i ≢ j
    → times m t.held + times m u.held ≤ total m ts
total-two m [] i j e f n = absurd (ground arith)
total-two m (v ∷ ts) zero zero e f n = absurd (n refl)
total-two m (v ∷ ts) zero (suc j) {t} e f n =
    let same : v ≡ t = ground arith in rw (sym same) (omega (arith, total-one m ts j f))
total-two m (v ∷ ts) (suc i) zero {t} {u} e f n =
    let same : v ≡ u = ground arith in rw (sym same) (omega (arith, total-one m ts i e))
total-two m (v ∷ ts) (suc i) (suc j) e f n =
    omega (arith, total-two m ts i j e f (λ same. n (ap suc same)))

modify-total :
    (m : Mutex) (f : Thread → Thread) (ts : List Thread) (i : ℕ) {t : Thread}
    → get_elem? ts i ≡ some t
    → total m (modify f i ts) + times m t.held ≡ total m ts + times m (f t).held
modify-total m f [] i e = absurd (ground arith)
modify-total m f (u ∷ ts) zero {t} e =
    let same : u ≡ t = ground arith in rw (sym same) (omega arith)
modify-total m f (u ∷ ts) (suc i) e = omega (arith, modify-total m f ts i e)

-- An action takes no mutex that another thread holds.
after-times :
    (m : Mutex) (ts : List Thread) (held : List Mutex) (todo : List Action)
    → can_go todo ts ≡ true
    → total m ts ≤ 1
    → times m held ≤ total m ts
    → total m ts + times m (after held todo).held ≤ 1 + times m held
after-times m ts held [] free one own = absurd (ground arith)
after-times m ts held (acquire k ∷ todo) free one own = elim (Bool-cases (same m k)) [
  | inl e ↦
      let none : total m ts ≡ 0 = rw (same-eq m k e) (is_free-total k ts free) in
      rw e (omega (arith, none))
  | inr others ↦ rw others (omega (arith, one))
]
after-times m ts held (release k ∷ todo) free one own = omega (arith, drop_mutex-times m k held)
after-times m ts held (touch d ∷ todo) free one own = omega arith

move-IsExclusive :
    (i : ℕ) (ts us : List Thread) → move i ts ≡ some us → IsExclusive ts → IsExclusive us
unfolding move
move-IsExclusive i ts us e h m = elim (Option-cases (get_elem? ts i)) [
  | inl gone ↦ absurd (ground arith)
  | inr (t, there) ↦ elim (Bool-cases (can_go t.todo ts)) [
    | inr waits ↦ absurd (ground arith)
    | inl free ↦
        let moved : modify (λ u. after u.held u.todo) i ts ≡ us = ground arith in
        rw (← moved) (
          omega (
            arith,
            modify-total m (λ u. after u.held u.todo) ts i there,
            after-times m ts t.held t.todo free (h m) (total-one m ts i there),
          ))
  ]
]

begin_all-total : (m : Mutex) (programs : List (List Action)) → total m (begin_all programs) ≡ 0
begin_all-total m [] = refl
begin_all-total m (actions ∷ more) = omega (arith, begin_all-total m more)

Reach-IsExclusive : {ts us : List Thread} → IsExclusive ts → Reach ts us → IsExclusive us
Reach-IsExclusive h start = h
Reach-IsExclusive h (later i r e) = move-IsExclusive i _ _ e (Reach-IsExclusive h r)

-- Two threads that hold a mutex are one.
pub holds_unique :
    (programs : List (List Action)) (ts : List Thread) (m : Mutex) (i j : ℕ) {t u : Thread}
    → Reach (begin_all programs) ts
    → get_elem? ts i ≡ some t
    → get_elem? ts j ≡ some u
    → holds m t.held ≡ true
    → holds m u.held ≡ true
    → i ≡ j
holds_unique programs ts m i j {t} {u} r there there' hold hold' = elim (ℕ_discrete i j) [
  | yes e ↦ e
  | no n ↦
      let none : IsExclusive (begin_all programs) =
        λ k. omega (arith, begin_all-total k programs) in
      absurd (
        omega (
          arith,
          Reach-IsExclusive none r m,
          total-two m ts i j there there' n,
          holds-times m t.held hold,
          holds-times m u.held hold',
        ))
]
