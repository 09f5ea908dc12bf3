-- ===== src/Buffer/Bounds.antt =====
-- Where the bytes go that a receive function asks for.
use endpoint.Base.{
  ℕ, zero, suc, ◌+◌, ◌-◌, ◌^◌, ◌≤◌, ◌<◌, ◌%◌, ◌≡◌, some, List, [], ◌∷◌, length, take, length-append,
  length-replicate, arith, Option-cases, inl, inr, refl, Bool-cases, ltb, ◌&&◌, ◌==◌, ◌≢◌, ◌⊎◌,
}
use endpoint.Buffer.{
  Memory, MessageBuffer, size, resized, Room, ready, too_large, thrown, Sizes,
  message_size_unlimited, reserve, resize, shrink_to_fit, make_room, grow_room, shrink_room, sub64,
}

length-take-le : (n : ℕ) (xs : List ℕ) → length (take n xs) + (n - length xs) ≡ n
length-take-le zero xs = omega arith
length-take-le (suc n) [] = omega arith
length-take-le (suc n) (x ∷ xs) = omega (arith, length-take-le n xs)

length-resized : (n : ℕ) (xs : List ℕ) → length (resized n xs) ≡ n
length-resized n xs = omega (
  arith,
  length-append (take n xs) _,
  length-replicate {A = ℕ} (n - length xs) 0,
  length-take-le n xs,
)

-- A buffer holds no more than its capacity, and its capacity is one that a vector can have.
pub record IsSound (v : MessageBuffer) : Type 0 where
  pub held : size v ≤ v.capacity
  pub addressable : v.capacity < 2 ^ 63

module _ (memory : Memory) where
  reserve-IsSound :
      (n : ℕ) (v w : MessageBuffer)
      → reserve memory n v ≡ some w
      → IsSound v
      → IsSound w × (n ≤ w.capacity) × (w.bytes ≡ v.bytes)
  unfolding reserve
  reserve-IsSound n v w e h = grind (arith, memory.allocate_enough, memory.allocate_addressable)

  resize-IsSound :
      (n : ℕ) (v w : MessageBuffer)
      → resize memory n v ≡ some w
      → IsSound v
      → IsSound w × (size w ≡ n)
  unfolding resize
  resize-IsSound n v w e h = elim (Option-cases (reserve memory n v)) [
    | inl f ↦ absurd (ground arith)
    | inr (u, f) ↦ ground (arith, reserve-IsSound n v u f h, length-resized n u.bytes)
  ]

  shrink_to_fit-IsSound :
      (v : MessageBuffer)
      → IsSound v
      → IsSound (shrink_to_fit memory v) × ((shrink_to_fit memory v).bytes ≡ v.bytes)
  unfolding shrink_to_fit
  shrink_to_fit-IsSound v h =
      ground
        (arith, memory.shrink_fits v.capacity (size v) h.held, memory.shrink-le v.capacity (size v))

-- The bytes that a read may fill lie in the memory that the vector has allocated.
abbrev pub FitsCapacity : ℕ → Room → Type 0
FitsCapacity filled (ready w amount shrinks) = IsSound w × (filled + amount ≤ w.capacity)
FitsCapacity filled too_large = Unit {0}
FitsCapacity filled (thrown w) = IsSound w

module _ (memory : Memory) (sizes : Sizes) where
  grow_room-FitsCapacity :
      (v : MessageBuffer) (filled missing shrinks : ℕ)
      → IsSound v
      → filled ≤ v.capacity
      → missing ≤ message_size_unlimited
      → FitsCapacity filled (grow_room memory sizes v filled missing shrinks)
  unfolding grow_room
  grow_room-FitsCapacity v filled missing shrinks h f m =
      let required : ℕ = (filled + missing) % 2 ^ 64 in
      let small : required ≡ filled + missing = omega arith in
      elim (Bool-cases (ltb v.capacity required)) [
        | inr enough ↦ ground arith
        | inl short ↦ elim (Option-cases (reserve memory required v)) [
          | inl e ↦ ground arith
          | inr (w, e) ↦ elim (Option-cases (resize memory required w)) [
            | inl e' ↦ ground (arith, reserve-IsSound memory required v w e h)
            | inr (x, e') ↦ ground (
              arith,
              reserve-IsSound memory required v w e h,
              resize-IsSound memory required w x e',
            )
          ]
        ]
      ]

  shrink_room-FitsCapacity :
      (v : MessageBuffer) → IsSound v → FitsCapacity 0 (shrink_room memory sizes v)
  unfolding shrink_room
  shrink_room-FitsCapacity v h = elim (Option-cases (resize memory sizes.initial v)) [
    | inl e ↦ ground arith
    | inr (w, e) ↦
        ground (arith, resize-IsSound memory sizes.initial v w e h, shrink_to_fit-IsSound memory w)
  ]

  -- For a sound buffer whose filled part is no more than its capacity, the read that make_room prepares
  -- ends inside the memory of the buffer, and the buffer is sound, also where an allocation has thrown.
  pub make_room-FitsCapacity :
      (v : MessageBuffer) (filled missing shrinks : ℕ)
      → IsSound v
      → filled ≤ v.capacity
      → FitsCapacity filled (make_room memory sizes v filled missing shrinks)
  unfolding make_room
  make_room-FitsCapacity v filled missing shrinks h f = elim (Bool-cases (ltb 0 missing)) [
    | inl some_missing ↦ elim (Bool-cases (ltb message_size_unlimited missing)) [
      | inl huge ↦ ground arith
      | inr fine ↦
          let grows : make_room memory sizes v filled missing shrinks
              ≡ grow_room memory sizes v filled missing shrinks =
            ground arith in
          rw grows (grow_room-FitsCapacity v filled missing shrinks h f (ground arith))
    ]
    | inr none_missing ↦
        elim (Bool-cases
          (ltb 0 sizes.shrink_threshold && ltb sizes.shrink_threshold shrinks && filled == 0)) [
            | inl shrinking ↦
                let shrinks' : make_room memory sizes v filled missing shrinks
                    ≡ shrink_room memory sizes v =
                  rw (make_room, none_missing, shrinking) refl in
                let empty : filled ≡ 0 = ground arith in
                rw (shrinks', empty) (shrink_room-FitsCapacity v h)
            | inr keeps ↦ ground arith
          ]
  ]

  -- Without missing bytes, and before the threshold is passed, a read asks for all that is free.
  pub make_room-ready :
      (v : MessageBuffer) (filled shrinks : ℕ)
      → shrinks ≤ sizes.shrink_threshold
      → make_room memory sizes v filled 0 shrinks ≡ ready v (sub64 v.capacity filled) shrinks
  unfolding make_room
  make_room-ready v filled shrinks h = ground arith

  -- The guard on the missing bytes never fires where they are counted in a uint32_t.
  make_room-ne-too_large :
      (v : MessageBuffer) (filled missing shrinks : ℕ)
      → missing < 2 ^ 32
      → make_room memory sizes v filled missing shrinks ≢ too_large
  unfolding make_room grow_room shrink_room
  make_room-ne-too_large v filled missing shrinks h = ground arith

pub Room-cases :
    (r : Room)
    → ((v : MessageBuffer) × (amount : ℕ) × (shrinks : ℕ) × (r ≡ ready v amount shrinks))
      ⊎ ((r ≡ too_large) ⊎ ((v : MessageBuffer) × (r ≡ thrown v)))
Room-cases (ready v amount shrinks) = inl (v, amount, shrinks, refl)
Room-cases too_large = inr (inl refl)
Room-cases (thrown v) = inr (inr (v, refl))
