-- ===== src/Manager/Objects/Made.antt =====
-- What a create of the manager leaves in the store, from what the constructor has yielded.
use mathlib.Core.Path.{subst}
use endpoint.Base.{
  ℕ, ◌≡◌, List, [], ◌∷◌, ◌++◌, some, get_elem?, get_elem?-modify_last, modify, length, arith,
}
use endpoint.Asio.{Asio, Outcome, made, threw}
use endpoint.Manager.Objects.{Object, start_object, make}

module _ {asio : Asio} (P : Object asio → Type 0) where
  -- `P` of the object when it is made and started, or an exception.
  abbrev pub MadeWith : Outcome (Object asio) → Type 0
  MadeWith (made o) = P (start_object o)
  MadeWith (threw e) = Unit {0}

  -- `P` of the object at a pointer.
  abbrev pub StandsAt : ℕ → List (Object asio) → Type 0
  StandsAt ptr store = (o : Object asio) × (get_elem? store ptr ≡ some o) × P o

  pub made-StandsAt :
      (result : Outcome (Object asio)) (store : List (Object asio)) (ptr : ℕ)
      → MadeWith result
      → (make result store).0 ≡ some ptr
      → StandsAt ptr (modify start_object ptr (make result store).1)
  unfolding make
  made-StandsAt (made o) store ptr h e =
      let here : length store ≡ ptr = ground arith in
      subst (λ p. StandsAt p (modify start_object p (store ++ o ∷ []))) here
        (start_object o, get_elem?-modify_last start_object store o, h)
  made-StandsAt (threw error) store ptr h e = absurd (ground arith)

  pub StandsAt-get_elem? :
      (ptr : ℕ) (store : List (Object asio)) (o : Object asio)
      → StandsAt ptr store
      → get_elem? store ptr ≡ some o
      → P o
  StandsAt-get_elem? ptr store o (p, there, h) e = let same : p ≡ o = ground arith in subst P same h
