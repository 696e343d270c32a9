-- ===== src/Hash.antt =====
-- The hash functions of src/hash.c, in the variant for machines without unaligned access: 32-bit
-- words that wrap, and bytes that are read as signed `char`s, from left to right.
use lpc.Base.{
  ℕ, zero, suc, ◌+◌, ◌-◌, ◌*◌, ◌/◌, ◌%◌, ◌^◌, List, [], ◌∷◌, ltb, ◌==◌, if◌then◌else◌, length,
  get_or, drop, min,
}
use Prim.Native.Nat.{bit_xor}

-- a `char`, converted to `unsigned int`
unfoldable pub char_word : ℕ → ℕ
char_word c = if ltb c 128 then c else c + 2 ^ 32 - 256

-- `ret ^= (ret << k) + c`, and with `>>`
unfoldable pub mix_left : ℕ → ℕ → ℕ → ℕ
mix_left k ret c = bit_xor ret ((ret * 2 ^ k + c) % 2 ^ 32)

unfoldable pub mix_right : ℕ → ℕ → ℕ → ℕ
mix_right k ret c = bit_xor ret ((ret / 2 ^ k + c) % 2 ^ 32)

-- `*a`
abbrev pub char_at : List ℕ → ℕ → ℕ
char_at a i = char_word (get_or a i 0)

-- The shift of each case of the `switch` on `mlen & 7`.
abbrev pub case_shift : ℕ → ℕ
case_shift n =
    if n == 6
    then 4
    else if n == 5
    then 7
    else if n == 4
    then 6
    else if n == 3
    then 3
    else if n == 2
    then 7
    else 5

-- The cases from `n` down, which fall through: the hash so far.
unfoldable pub switch_rounds : ℕ → ℕ → List ℕ → ℕ
unfolding char_word mix_left
switch_rounds zero ret a = ret
switch_rounds (suc n) ret a =
    switch_rounds n
      (if suc n == 7
        then bit_xor ret (char_at a 0)
        else mix_left (case_shift (suc n)) ret (char_at a 0))
      (drop 1 a)

-- four bytes, packed
unfoldable pub pack : List ℕ → ℕ
unfolding char_word
pack a =
    (((char_at a 0 * 2 ^ 3 + char_at a 1) * 2 ^ 4 + char_at a 2) * 2 ^ 5 + char_at a 3) % 2 ^ 32

-- the loop over the blocks of eight bytes
unfoldable pub block_rounds : ℕ → ℕ → List ℕ → ℕ
unfolding pack mix_left mix_right
block_rounds zero ret a = ret
block_rounds (suc n) ret a =
    block_rounds n (mix_right 6 (mix_left 7 ret (pack a)) (pack (drop 4 a))) (drop 8 a)

unfoldable pub hashmem : List ℕ → ℕ → ℕ
unfolding switch_rounds block_rounds
hashmem a mlen =
    let m = min (length a) mlen in
    let ret = 9248339 * length a % 2 ^ 32 in
    block_rounds (m / 8) (switch_rounds (m % 8) ret a) (drop (m % 8) a)

-- `strlen`: the bytes before the first zero
unfoldable pub c_string : List ℕ → List ℕ
c_string [] = []
c_string (c ∷ a) = if c == 0 then [] else c ∷ c_string a

unfoldable pub hashstr : List ℕ → ℕ → ℕ
unfolding hashmem c_string
hashstr str maxn = hashmem (c_string str) maxn
