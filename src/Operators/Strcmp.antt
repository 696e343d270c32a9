-- ===== src/Operators/Strcmp.antt =====
-- `my_strcmp` of src/stralloc.c and the order of words.
use lpc.Base.{
  ℕ, ◌≡◌, refl, ap, sym, ◌∙◌, Bool, true, false, List, [], ◌∷◌, ℤ, pos, negsuc, ltb, length, arith,
  if◌then◌else◌, Bool-cases, inl, inr, subst,
}
use lpc.Value.{nonzero}
use lpc.Operators.{memcmp, or_else, my_strcmp}

-- The order of words: the first byte that differs decides, and a prefix is the lesser.
unfoldable pub lex : List ℕ → List ℕ → ℤ
lex [] [] = pos 0
lex [] (y ∷ b) = negsuc 0
lex (x ∷ a) [] = pos 1
lex (x ∷ a) (y ∷ b) = let r = lex a b in if ltb x y then negsuc 0 else if ltb y x then pos 1 else r

by_length : List ℕ → List ℕ → ℤ
unfolding memcmp
by_length a b =
    if ltb (length b) (length a)
    then or_else (memcmp (length b) a b) (pos 1)
    else if ltb (length a) (length b)
    then or_else (memcmp (length a) a b) (negsuc 0)
    else memcmp (length a) a b

abbrev step : ℕ → ℕ → ℤ → ℤ
step x y r = if ltb x y then negsuc 0 else if ltb y x then pos 1 else r

by_length-step : (x y : ℕ) (a b : List ℕ) → by_length (x ∷ a) (y ∷ b) ≡ step x y (by_length a b)
unfolding by_length memcmp
by_length-step x y a b = elim (Bool-cases (ltb x y)) [
  | inl lt ↦ rw lt (ground arith)
  | inr ge ↦ elim (Bool-cases (ltb y x)) [
    | inl gt ↦ rw (ge, gt) (ground arith)
    | inr le ↦ rw (ge, le) (ground arith)
  ]
]

by_length-lex : (a b : List ℕ) → by_length a b ≡ lex a b
unfolding by_length lex memcmp
by_length-lex [] [] = refl
by_length-lex [] (y ∷ b) = ground arith
by_length-lex (x ∷ a) [] = ground arith
by_length-lex (x ∷ a) (y ∷ b) = by_length-step x y a b ∙ ap (step x y) (by_length-lex a b)

pub lex_refl : (a : List ℕ) → lex a a ≡ pos 0
unfolding lex
lex_refl [] = refl
lex_refl (x ∷ a) = ground (arith, lex_refl a)

pub lex-eq : (a b : List ℕ) → nonzero (lex a b) ≡ false → a ≡ b
unfolding lex
lex-eq [] [] h = refl
lex-eq [] (y ∷ b) h = ground arith
lex-eq (x ∷ a) [] h = ground arith
lex-eq (x ∷ a) (y ∷ b) h = elim (Bool-cases (ltb x y)) [
  | inl lt ↦ absurd (ground arith)
  | inr ge ↦ elim (Bool-cases (ltb y x)) [
    | inl gt ↦ absurd (ground arith)
    | inr le ↦ let e : x ≡ y = ground arith in rw e (ap (◌∷◌ y) (lex-eq a b (rw (ge, le) at h)))
  ]
]

-- `my_strcmp` compares the bytes of two strings from the left, and a string that goes on is greater,
-- if equal pointers have equal bytes.
pub my_strcmp-lex :
    (same : Bool) (a b : List ℕ) → (same ≡ true → a ≡ b) → my_strcmp same a b ≡ lex a b
unfolding my_strcmp by_length
my_strcmp-lex true a b h = sym (subst (λ c. lex a c ≡ pos 0) (h refl) (lex_refl a))
my_strcmp-lex false a b h = by_length-lex a b
