-- ===== src/Base/Lists.antt =====
-- Lists measured and indexed by native numbers, under the library's names.
use Prim.Native.Nat.{ℕ, zero, suc, ◌+◌, ◌≤◌, ◌<◌}
use mathlib.Core.Path.{◌≡◌, refl, ap, subst}
use mathlib.Core.List.{List, [], ◌∷◌, ◌++◌}
use mathlib.Core.Option.{Option, none, some}
use native.Mathlib.Omega.{arith}

module _ {ℓ} {A : Type ℓ} where
  abbrev pub length : List A → ℕ
  length [] = 0
  length (x ∷ xs) = suc (length xs)

  abbrev pub get_elem? : List A → ℕ → Option A
  get_elem? [] i = none
  get_elem? (x ∷ xs) zero = some x
  get_elem? (x ∷ xs) (suc i) = get_elem? xs i

  abbrev pub erase_idx : List A → ℕ → List A
  erase_idx [] i = []
  erase_idx (x ∷ xs) zero = xs
  erase_idx (x ∷ xs) (suc i) = x ∷ erase_idx xs i

  abbrev pub take : ℕ → List A → List A
  take zero xs = []
  take (suc n) [] = []
  take (suc n) (x ∷ xs) = x ∷ take n xs

  abbrev pub replicate : ℕ → A → List A
  replicate zero a = []
  replicate (suc n) a = a ∷ replicate n a

  -- A change out of bounds changes nothing.
  abbrev pub modify : (A → A) → ℕ → List A → List A
  modify f i [] = []
  modify f zero (x ∷ xs) = f x ∷ xs
  modify f (suc i) (x ∷ xs) = x ∷ modify f i xs

  -- The elements from `i` on are overwritten, as far as the list goes.
  abbrev pub write_at : ℕ → List A → List A → List A
  write_at i new [] = []
  write_at zero [] (x ∷ xs) = x ∷ xs
  write_at zero (y ∷ ys) (x ∷ xs) = y ∷ write_at zero ys xs
  write_at (suc i) new (x ∷ xs) = x ∷ write_at i new xs

  pub length-write_at : (i : ℕ) (new xs : List A) → length (write_at i new xs) ≡ length xs
  length-write_at i new [] = refl
  length-write_at zero [] (x ∷ xs) = refl
  length-write_at zero (y ∷ ys) (x ∷ xs) = ap suc (length-write_at zero ys xs)
  length-write_at (suc i) new (x ∷ xs) = ap suc (length-write_at i new xs)

  pub take-all : (n : ℕ) (xs : List A) → length xs ≤ n → take n xs ≡ xs
  take-all zero [] h = refl
  take-all zero (x ∷ xs) h = absurd (omega arith)
  take-all (suc n) [] h = refl
  take-all (suc n) (x ∷ xs) h = ap (λ ys. x ∷ ys) (take-all n xs (omega arith))

  pub take-write_at :
      (new xs : List A) → length new ≤ length xs → take (length new) (write_at 0 new xs) ≡ new
  take-write_at [] [] h = refl
  take-write_at [] (x ∷ xs) h = refl
  take-write_at (y ∷ ys) [] h = absurd (omega arith)
  take-write_at (y ∷ ys) (x ∷ xs) h = ap (λ zs. y ∷ zs) (take-write_at ys xs (omega arith))

  pub length-modify : (f : A → A) (i : ℕ) (xs : List A) → length (modify f i xs) ≡ length xs
  length-modify f i [] = refl
  length-modify f zero (x ∷ xs) = refl
  length-modify f (suc i) (x ∷ xs) = ap suc (length-modify f i xs)

  pub get_elem?-modify :
      (f : A → A) (i : ℕ) (xs : List A) {x : A}
      → get_elem? xs i ≡ some x
      → get_elem? (modify f i xs) i ≡ some (f x)
  get_elem?-modify f i [] e = absurd (ground arith)
  get_elem?-modify f zero (x ∷ xs) e = ground arith
  get_elem?-modify f (suc i) (x ∷ xs) e = get_elem?-modify f i xs e

  pub get_elem?-modify_last :
      (f : A → A) (xs : List A) (x : A)
      → get_elem? (modify f (length xs) (xs ++ x ∷ [])) (length xs) ≡ some (f x)
  get_elem?-modify_last f [] x = refl
  get_elem?-modify_last f (y ∷ xs) x = get_elem?-modify_last f xs x

  pub get_elem?-lt : (xs : List A) (i : ℕ) {x : A} → get_elem? xs i ≡ some x → i < length xs
  get_elem?-lt [] i e = absurd (ground arith)
  get_elem?-lt (y ∷ xs) zero e = omega arith
  get_elem?-lt (y ∷ xs) (suc i) e = omega (arith, get_elem?-lt xs i e)

  pub length-append : (xs ys : List A) → length (xs ++ ys) ≡ length xs + length ys
  length-append [] ys = omega arith
  length-append (x ∷ xs) ys = omega (arith, length-append xs ys)

  pub length-replicate : (n : ℕ) (a : A) → length (replicate n a) ≡ n
  length-replicate zero a = refl
  length-replicate (suc n) a = ap suc (length-replicate n a)

module _ {ℓ κ} {A : Type ℓ} (P : A → Type κ) where
  abbrev pub All : List A → Type κ
  All [] = Unit
  All (x ∷ xs) = P x × All xs

module _ {ℓ κ} {A : Type ℓ} (P : A → Type κ) where
  pub All-append : (xs ys : List A) → All P xs → All P ys → All P (xs ++ ys)
  All-append [] ys hx hy = hy
  All-append (x ∷ xs) ys hx hy = (hx.0, All-append xs ys hx.1 hy)

  pub All-modify :
      (f : A → A) (i : ℕ) (xs : List A)
      → ((x : A) → P x → P (f x))
      → All P xs
      → All P (modify f i xs)
  All-modify f i [] keeps h = h
  All-modify f zero (x ∷ xs) keeps h = (keeps x h.0, h.1)
  All-modify f (suc i) (x ∷ xs) keeps h = (h.0, All-modify f i xs keeps h.1)

  pub All-erase_idx : (xs : List A) (i : ℕ) → All P xs → All P (erase_idx xs i)
  All-erase_idx [] i h = h
  All-erase_idx (x ∷ xs) zero h = h.1
  All-erase_idx (x ∷ xs) (suc i) h = (h.0, All-erase_idx xs i h.1)

  pub All-get_elem? : (xs : List A) (i : ℕ) {x : A} → All P xs → get_elem? xs i ≡ some x → P x
  All-get_elem? [] i h e = absurd (ground arith)
  All-get_elem? (x ∷ xs) zero h e = subst P (ground arith) h.0
  All-get_elem? (x ∷ xs) (suc i) h e = All-get_elem? xs i h.1 e
