-- ===== src/Value/Order.antt =====
-- `alist_cmp` of src/array.c and the rank of a value.
use lpc.Base.{
  ℕ, ◌+◌, ◌*◌, ◌^◌, ◌<◌, ◌≡◌, Bool, true, false, ℤ, pos, negsuc, neg_part, arith, ltb, ◌==◌,
  if◌then◌else◌, sub_ℕ, ◌-ℤ◌, ltb_ℤ, wrap_int, IsInt, negative, positive,
}
use lpc.Value.{
  Svalue, IsValid, alist_cmp, function_cmp, same_type_cmp, nonzero, three_way, word, last, rank,
}

sub_ℕ-negative : (a b : ℕ) → negative (sub_ℕ a b) ≡ ltb a b
sub_ℕ-negative a b = ground arith

sub_ℕ-positive : (a b : ℕ) → positive (sub_ℕ a b) ≡ ltb b a
sub_ℕ-positive a b = ground arith

sub_ℕ-nonzero : (a b : ℕ) → nonzero (sub_ℕ a b) ≡ (if a == b then false else true)
sub_ℕ-nonzero a b = ground arith

three_way-negative : (a b : ℤ) → negative (three_way a b) ≡ ltb_ℤ a b
three_way-negative a b = ground arith

three_way-positive : (a b : ℤ) → positive (three_way a b) ≡ ltb_ℤ b a
three_way-positive a b = ground arith

ltb_ℤ-word : (a b : ℤ) → IsInt a → IsInt b → ltb_ℤ a b ≡ ltb (word a) (word b)
unfolding word
ltb_ℤ-word a b ha hb = ground arith

wrap_sub :
    (a b : ℤ) → IsInt a → IsInt b → neg_part a ≡ 0 → neg_part b ≡ 0 → wrap_int (a -ℤ b) ≡ a -ℤ b
wrap_sub (pos a) (pos b) ha hb na nb = ground arith
wrap_sub (pos a) (negsuc b) ha hb na nb = absurd (omega arith)
wrap_sub (negsuc a) b ha hb na nb = absurd (omega arith)

word_bound : (a : ℤ) → IsInt a → word a < 2 ^ 32
unfolding word
word_bound (pos a) h = omega arith
word_bound (negsuc a) h = omega arith

-- Numbers in three places compare place by place.
ltb_places :
    (t w s t' w' s' : ℕ)
    → w < 2 ^ 32
    → w' < 2 ^ 32
    → s < 2 ^ 16
    → s' < 2 ^ 16
    → ltb (t * 2 ^ 49 + w * 2 ^ 16 + s) (t' * 2 ^ 49 + w' * 2 ^ 16 + s')
      ≡ (if t == t' then (if w == w' then ltb s s' else ltb w w') else ltb t t')
ltb_places t w s t' w' s' h h' k k' = ground arith

last_bound : (v : Svalue) → IsValid v → last v < 2 ^ 16
unfolding last
last_bound v h = ground arith

ltb-rank :
    (a b : Svalue)
    → IsValid a
    → IsValid b
    → ltb (rank a) (rank b) ≡ (
        if a.type == b.type
        then (if word a.u == word b.u then ltb (last a) (last b) else ltb (word a.u) (word b.u))
        else ltb a.type b.type)
unfolding rank
ltb-rank a b va vb =
    ltb_places a.type (word a.u) (last a) b.type (word b.u) (last b) (word_bound a.u va.u_int)
      (word_bound b.u vb.u_int) (last_bound a va) (last_bound b vb)

-- Words first, then subtypes.
abbrev pair_ltb : ℤ → ℕ → ℤ → ℕ → Bool
pair_ltb u s v t = if word u == word v then ltb s t else ltb (word u) (word v)

function_cmp-negative :
    (a b : Svalue)
    → IsInt a.u
    → IsInt b.u
    → neg_part a.u ≡ 0
    → neg_part b.u ≡ 0
    → negative (function_cmp a b) ≡ pair_ltb a.u a.subtype b.u b.subtype
unfolding function_cmp word
function_cmp-negative a b ha hb na nb = rw (wrap_sub a.u b.u ha hb na nb) (ground arith)

function_cmp-positive :
    (a b : Svalue)
    → IsInt a.u
    → IsInt b.u
    → neg_part a.u ≡ 0
    → neg_part b.u ≡ 0
    → positive (function_cmp a b) ≡ pair_ltb b.u b.subtype a.u a.subtype
unfolding function_cmp word
function_cmp-positive a b ha hb na nb = rw (wrap_sub a.u b.u ha hb na nb) (ground arith)

-- Below the types: the words, and then the subtypes of functions.
module _ (a b : Svalue) (va : IsValid a) (vb : IsValid b) (e : a.type ≡ b.type) where
  same_type-negative : negative (same_type_cmp a b) ≡ pair_ltb a.u (last a) b.u (last b)
  unfolding same_type_cmp last
  same_type-negative = ground (
    arith,
    function_cmp-negative a b va.u_int vb.u_int,
    va.low_function,
    vb.low_function,
    three_way-negative a.u b.u,
    ltb_ℤ-word a.u b.u va.u_int vb.u_int,
  )

  same_type-positive : positive (same_type_cmp a b) ≡ pair_ltb b.u (last b) a.u (last a)
  unfolding same_type_cmp last
  same_type-positive = ground (
    arith,
    function_cmp-positive a b va.u_int vb.u_int,
    va.low_function,
    vb.low_function,
    three_way-positive a.u b.u,
    ltb_ℤ-word b.u a.u vb.u_int va.u_int,
  )

-- The sign of `alist_cmp` is the order of the ranks, for all values that are valid.
pub alist_cmp-rank :
    (a b : Svalue)
    → IsValid a
    → IsValid b
    → (negative (alist_cmp a b) ≡ ltb (rank a) (rank b))
      × (positive (alist_cmp a b) ≡ ltb (rank b) (rank a))
unfolding alist_cmp
alist_cmp-rank a b va vb = ground (
  arith,
  sub_ℕ-negative a.type b.type,
  sub_ℕ-positive a.type b.type,
  sub_ℕ-nonzero a.type b.type,
  same_type-negative a b va vb,
  same_type-positive a b va vb,
  ltb-rank a b va vb,
  ltb-rank b a vb va,
)
