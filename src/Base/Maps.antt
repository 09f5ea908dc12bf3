-- ===== src/Base/Maps.antt =====
-- std::map as an association list: find, operator[] with an assignment, erase by key, empty.
use mathlib.Core.Path.{◌≡◌, refl, subst}
use mathlib.Core.Logic.{ite, if_pos, if_neg}
use mathlib.Core.Bool.{Bool, true, false}
use mathlib.Core.List.{List, [], ◌∷◌}
use mathlib.Core.Option.{Option, none, some}
use endpoint.Base.Lists.{All}
use native.Mathlib.Omega.{arith}

module _ {ℓ κ} {K : Type ℓ} {V : Type κ} where
  abbrev pub is_empty : List (K × V) → Bool
  is_empty [] = true
  is_empty (e ∷ m) = false

module _ {ℓ} {K V : Type ℓ} (eq : Discrete K) where
  unfoldable pub find : K → List (K × V) → Option V
  find k [] = none
  find k ((j, v) ∷ m) = ite (eq j k) (some v) (find k m)

  unfoldable pub assign : K → V → List (K × V) → List (K × V)
  assign k v [] = (k, v) ∷ []
  assign k v ((j, w) ∷ m) = ite (eq j k) ((k, v) ∷ m) ((j, w) ∷ assign k v m)

  unfoldable pub erase : K → List (K × V) → List (K × V)
  erase k [] = []
  erase k ((j, w) ∷ m) = ite (eq j k) (erase k m) ((j, w) ∷ erase k m)

  pub find-nil : (k : K) → find k [] ≡ none
  unfolding find
  find-nil k = refl

  pub find-assign :
      (k j : K) (v : V) (m : List (K × V))
      → find j (assign k v m) ≡ ite (eq k j) (some v) (find j m)
  unfolding find assign
  find-assign k j v [] = refl
  find-assign k j v ((i, w) ∷ m) = ground (arith, find-assign k j v m)

  pub find-assign_self : (k : K) (v : V) (m : List (K × V)) → find k (assign k v m) ≡ some v
  find-assign_self k v m = ground (arith, find-assign k k v m)

  pub find-erase : (k j : K) (m : List (K × V)) → find j (erase k m) ≡ ite (eq k j) none (find j m)
  unfolding find erase
  find-erase k j [] = ground arith
  find-erase k j ((i, w) ∷ m) = ground (arith, find-erase k j m)

  pub is_empty-find : (k : K) (m : List (K × V)) → is_empty m ≡ true → find k m ≡ none
  unfolding find
  is_empty-find k [] h = refl
  is_empty-find k (x ∷ m) h = absurd (ground arith)

  pub is_empty-assign : (k : K) (v : V) (m : List (K × V)) → is_empty (assign k v m) ≡ false
  unfolding assign
  is_empty-assign k v [] = refl
  is_empty-assign k v ((j, w) ∷ m) = ground arith

  pub All-assign_entry :
      (P : K × V → Type 0) (k : K) (v : V) (m : List (K × V))
      → P (k, v)
      → All P m
      → All P (assign k v m)
  unfolding assign
  All-assign_entry P k v [] p h = (p, tt)
  All-assign_entry P k v ((j, w) ∷ m) p h = elim (eq j k) [
    | yes e ↦ rw (if_pos _ e) (p, h.1)
    | no e ↦ rw (if_neg _ e) (h.0, All-assign_entry P k v m p h.1)
  ]

  pub All-assign :
      (P : V → Type 0) (k : K) (v : V) (m : List (K × V))
      → P v
      → All (λ entry. P entry.1) m
      → All (λ entry. P entry.1) (assign k v m)
  All-assign P = All-assign_entry (λ entry. P entry.1)

  pub All-erase :
      (P : V → Type 0) (k : K) (m : List (K × V))
      → All (λ entry. P entry.1) m
      → All (λ entry. P entry.1) (erase k m)
  unfolding erase
  All-erase P k [] h = h
  All-erase P k ((j, w) ∷ m) h = elim (eq j k) [
    | yes e ↦ rw (if_pos _ e) (All-erase P k m h.1)
    | no e ↦ rw (if_neg _ e) (h.0, All-erase P k m h.1)
  ]

  pub All-find :
      (P : V → Type 0) (k : K) {v : V} (m : List (K × V))
      → find k m ≡ some v
      → All (λ entry. P entry.1) m
      → P v
  unfolding find
  All-find P k [] e h = absurd (ground arith)
  All-find P k ((j, w) ∷ m) e h = elim (eq j k) [
    | yes p ↦ subst P (ground arith) h.0
    | no n ↦ All-find P k m (ground arith) h.1
  ]
