-- ===== src/Dump/RoundTrip.antt =====
-- What a dump shows: every byte that was read, in order, and nothing else.
use endpoint.Base.{
  ℕ, zero, suc, ◌+◌, ◌-◌, ◌*◌, ◌≤◌, ◌<◌, ◌≡◌, refl, ap, some, List, [], ◌∷◌, ◌++◌, Text, hex_byte,
  hex_digit, get_elem?, ◌/◌, ◌%◌, length, take, ltb, if◌then◌else◌, arith,
}
use mathlib.Core.List.{reverse, reverse-append}
use endpoint.Buffer.{MessageBuffer, size}
use endpoint.Dump.{dump, dump_byte, dump_up, dump_down, exception_start, exception_last, dump_at}

-- The value of a digit of std::hex.
abbrev digit_value : ℕ → ℕ
digit_value c = if ltb c b'a' then c - b'0' else c - b'a' + 10

-- The bytes that a dump stands for.
pub undump : Text → List ℕ
undump (h ∷ l ∷ gap ∷ rest) = (16 * digit_value h + digit_value l) ∷ undump rest
undump _ = []

abbrev pub AllBytes : List ℕ → Type 0
AllBytes [] = Unit {0}
AllBytes (b ∷ bs) = (b < 256) × AllBytes bs

digit_value-hex_digit : (d : ℕ) → d < 16 → digit_value (hex_digit d) ≡ d
unfolding hex_digit
digit_value-hex_digit d h = ground arith

-- A dump gives back the bytes that were dumped, if each is a byte.
pub undump-dump : (bs : List ℕ) → AllBytes bs → undump (dump bs) ≡ bs
unfolding dump undump dump_byte hex_byte
undump-dump [] h = refl
undump-dump (b ∷ bs) h =
    let high = digit_value-hex_digit (b / 16) (omega arith) in
    let low = digit_value-hex_digit (b % 16) (omega arith) in
    rw (high, low, undump-dump bs h.1) (ap (λ (x : ℕ). x ∷ bs) (omega arith))

-- The bytes from `first` on.
abbrev pub drop : ℕ → List ℕ → List ℕ
drop zero bs = bs
drop (suc n) [] = []
drop (suc n) (b ∷ bs) = drop n bs

get_elem?-drop :
    (first : ℕ) (bs : List ℕ)
    → first < length bs
    → (b : ℕ) × (get_elem? bs first ≡ some b) × (drop first bs ≡ b ∷ drop (suc first) bs)
get_elem?-drop first [] h = elim h [ ]
get_elem?-drop zero (b ∷ bs) h = (b, refl, refl)
get_elem?-drop (suc first) (b ∷ bs) h = get_elem?-drop first bs (omega arith)

dump_at-some :
    (v : MessageBuffer) (i : ℕ) {b : ℕ}
    → get_elem? v.bytes i ≡ some b
    → dump_at v i ≡ some (dump_byte b)
unfolding dump_at
dump_at-some v i e = ground arith

pub dump_up-drop :
    (v : MessageBuffer) (first rounds : ℕ)
    → first + rounds ≤ size v
    → dump_up v first rounds ≡ some (dump (take rounds (drop first v.bytes)))
unfolding dump_up dump
dump_up-drop v first zero h = refl
dump_up-drop v first (suc rounds) h =
    let (b, here, split) = get_elem?-drop first v.bytes (omega arith) in
    rw (split, dump_at-some v first here, dump_up-drop v (suc first) rounds (omega arith))

take-suc :
    (n : ℕ) (bs : List ℕ)
    → n < length bs
    → (b : ℕ) × (get_elem? bs n ≡ some b) × (take (suc n) bs ≡ take n bs ++ b ∷ [])
take-suc n [] h = elim h [ ]
take-suc zero (b ∷ bs) h = (b, refl, refl)
take-suc (suc n) (b ∷ bs) h =
    let (c, here, split) = take-suc n bs (omega arith) in
    (c, here, ap (λ (t : List ℕ). b ∷ t) split)

dump_down-take :
    (v : MessageBuffer) (rounds : ℕ)
    → rounds ≤ size v
    → dump_down v rounds ≡ some (dump (reverse (take rounds v.bytes)))
unfolding dump_down dump
dump_down-take v zero h = refl
dump_down-take v (suc rounds) h =
    let (b, here, split) = take-suc rounds v.bytes (omega arith) in
    rw (
      split,
      dump_at-some v rounds here,
      dump_down-take v rounds (omega arith),
      reverse-append (take rounds v.bytes) (b ∷ []),
    )

-- Where the vector holds the bytes that are counted as filled, the first dump of the exception handler
-- shows them, the first sixteen if there are more, and reads nothing outside the vector.
exception_start-take :
    (v : MessageBuffer) (filled : ℕ)
    → filled ≤ size v
    → exception_start v filled ≡ some (dump (take (if ltb filled 16 then filled else 16) v.bytes))
unfolding exception_start
exception_start-take v filled h = dump_up-drop v 0 _ (ground arith)

-- Where more than fifteen bytes are filled and the vector holds them, what is announced as the last
-- sixteen bytes is the first sixteen, backwards.
pub exception_last-reverse :
    (v : MessageBuffer) (filled : ℕ)
    → 15 < filled
    → filled ≤ size v
    → exception_last v filled ≡ some (dump (reverse (take 16 v.bytes)))
unfolding exception_last
exception_last-reverse v filled long h = ground (arith, dump_down-take v 16 (omega arith))
