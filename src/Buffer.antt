-- ===== src/Buffer.antt =====
-- buffer.h: a message buffer is a std::vector of bytes. The allocator is the parameter `Memory`: a
-- vector keeps its size and its capacity apart, as the endpoints read both. Then how the two TCP
-- receive functions make room before they read (tcp_client_endpoint_impl.cpp, receive, and
-- tcp_server_endpoint_impl.cpp, connection::receive: the same lines).
pub mod Bounds
use endpoint.Base.{
  ℕ, ◌+◌, ◌-◌, ◌%◌, ◌^◌, ◌≤◌, ◌<◌, ◌≡◌, ◌&&◌, Option, none, some, List, [], ◌++◌, length, take,
  replicate, ltb, leb, ◌==◌, if◌then◌else◌, write_at,
}

-- What a standard library may choose: the capacity that an allocation yields, or that it throws, and
-- how far shrink_to_fit goes. A vector holds less than 2 ^ 63 bytes (max_size).
pub record Memory : Type 0 where
  pub allocate : ℕ → ℕ → Option ℕ
  pub shrink : ℕ → ℕ → ℕ
  pub allocate_enough : (c n m : ℕ) → allocate c n ≡ some m → n ≤ m
  pub allocate_addressable : (c n m : ℕ) → allocate c n ≡ some m → m < 2 ^ 63
  pub shrink_fits : (c n : ℕ) → n ≤ c → n ≤ shrink c n
  pub shrink-le : (c n : ℕ) → shrink c n ≤ c

pub record MessageBuffer : Type 0 where
  pub bytes : List ℕ
  pub capacity : ℕ

abbrev pub size : MessageBuffer → ℕ
size v = length v.bytes

abbrev pub resized : ℕ → List ℕ → List ℕ
resized n bytes = take n bytes ++ replicate (n - length bytes) 0

-- What async_receive does to a buffer that is given to it from `filled` on, for `amount` bytes. Bytes
-- past the size of the vector are not part of it.
abbrev pub put : ℕ → ℕ → List ℕ → MessageBuffer → MessageBuffer
put filled amount received v = record v { bytes = write_at filled (take amount received) v.bytes }

-- MESSAGE_SIZE_UNLIMITED, of endpoint_impl.h.
abbrev pub message_size_unlimited : ℕ
message_size_unlimited = 2 ^ 32 - 1

-- a - b on size_t.
abbrev pub sub64 : ℕ → ℕ → ℕ
sub64 a b = (a + 2 ^ 64 - b) % 2 ^ 64

module _ (memory : Memory) where
  open memory use {allocate, shrink}

  unfoldable pub reserve : ℕ → MessageBuffer → Option MessageBuffer
  reserve n v =
      if leb n v.capacity
      then some v
      else elim (allocate v.capacity n) [ none ↦ none | some c ↦ some (record v { capacity = c }) ]

  unfoldable pub resize : ℕ → MessageBuffer → Option MessageBuffer
  resize n v = elim (reserve n v) [
    | none ↦ none
    | some w ↦ some (record w { bytes = resized n w.bytes })
  ]

  unfoldable pub shrink_to_fit : MessageBuffer → MessageBuffer
  shrink_to_fit v = record v { capacity = shrink v.capacity (size v) }

pub clear : MessageBuffer → MessageBuffer
clear v = record v { bytes = [] }

-- What a receive function goes on with: a read of `amount` bytes, an early return, or the handler of
-- the exception.
pub data Room : Type 0 where
  ready : MessageBuffer → ℕ → ℕ → Room
  too_large : Room
  thrown : MessageBuffer → Room

-- The parameters of the buffer's growth: recv_buffer_size_initial_ and buffer_shrink_threshold_.
pub record Sizes : Type 0 where
  pub initial : ℕ
  pub shrink_threshold : ℕ

module _ (memory : Memory) (sizes : Sizes) where
  open sizes use {initial, shrink_threshold}

  unfoldable pub grow_room : MessageBuffer → ℕ → ℕ → ℕ → Room
  grow_room v filled missing shrinks =
      let required = (filled + missing) % 2 ^ 64 in
      if ltb v.capacity required
      then elim (reserve memory required v) [
        | none ↦ thrown v
        | some w ↦ elim (resize memory required w) [
          | none ↦ thrown w
          | some x ↦ ready x missing shrinks
        ]
      ]
      else ready v missing shrinks

  unfoldable pub shrink_room : MessageBuffer → Room
  shrink_room v = elim (resize memory initial v) [
    | none ↦ thrown v
    | some w ↦ ready (shrink_to_fit memory w) initial 0
  ]

  -- `filled` is _recv_buffer_size, `missing` _missing_capacity, `shrinks` shrink_count_.
  unfoldable pub make_room : MessageBuffer → ℕ → ℕ → ℕ → Room
  make_room v filled missing shrinks =
      if ltb 0 missing
      then (if ltb message_size_unlimited missing
          then too_large
          else grow_room v filled missing shrinks)
      else (if ltb 0 shrink_threshold && ltb shrink_threshold shrinks && filled == 0
          then shrink_room v
          else ready v (sub64 v.capacity filled) shrinks)
