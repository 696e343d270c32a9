-- ===== src/Surgery/Multisets.antt =====
-- The five operators of src/list.h as operations on multisets of keys.
use lpc.Base.{
  ℕ, suc, ◌+◌, ◌-◌, ◌≤◌, ◌<◌, ◌≡◌, refl, List, [], ◌∷◌, some, min, max, ◌==◌, if◌then◌else◌, All,
  arith, ltb,
}
use lpc.Value.{Svalue, IsValid, rank}
use lpc.Value.Order.{alist_cmp-rank}
use lpc.Surgery.{
  Action, skip_both, skip_a, get_a, skip_b, get_b, get_both, get_either, choose, fill_round,
  surgery, oper_xor, oper_and, oper_or, oper_add, oper_sub,
}

pub data Oper : Type 0 where
  xor and or add sub : Oper

abbrev pub code : Oper → ℕ
code xor = oper_xor
code and = oper_and
code or = oper_or
code add = oper_add
code sub = oper_sub

-- How often a key stands in the result, from how often it stands in the operands.
abbrev pub combine : Oper → ℕ → ℕ → ℕ
combine xor m n = (m - n) + (n - m)
combine and m n = min m n
combine or m n = max m n
combine add m n = m + n
combine sub m n = if n == 0 then m else 0

abbrev pub if_less : Oper → Action
if_less and = skip_a
if_less _ = get_a

abbrev pub if_more : Oper → Action
if_more and = skip_b
if_more sub = skip_b
if_more _ = get_b

abbrev pub if_same : Oper → Action
if_same xor = skip_both
if_same add = get_both
if_same sub = skip_a
if_same _ = get_either

module _ {E : Type 0} (key : E → Svalue) where
  abbrev pub place : E → ℕ
  place e = rank (key e)

  abbrev pub mult : ℕ → List E → ℕ
  mult k [] = 0
  mult k (x ∷ l) = (if place x == k then 1 else 0) + mult k l

  abbrev pub AtLeast : ℕ → List E → Type 0
  AtLeast n l = All (λ e. n ≤ place e) l

  abbrev pub IsSorted : List E → Type 0
  IsSorted [] = Unit {0}
  IsSorted (x ∷ l) = AtLeast (place x) l × IsSorted l

  abbrev pub AllValid : List E → Type 0
  AllValid l = All (λ e. IsValid (key e)) l

  pub choose-cases :
      (o : Oper) (x y : E)
      → IsValid (key x)
      → IsValid (key y)
      → choose key (code o) x y ≡ (
          if ltb (place x) (place y)
          then if_less o
          else if ltb (place y) (place x)
          then if_more o
          else if_same o)
  unfolding choose
  choose-cases xor x y vx vy = ground (arith, alist_cmp-rank (key x) (key y) vx vy)
  choose-cases o x y vx vy = ground (arith, alist_cmp-rank (key x) (key y) vx vy)

  pub mult-above : (k : ℕ) (l : List E) → AtLeast (suc k) l → mult k l ≡ 0
  mult-above k [] h = refl
  mult-above k (x ∷ l) h = ground (arith, mult-above k l h.1)

  pub AtLeast-le : (m n : ℕ) (l : List E) → m ≤ n → AtLeast n l → AtLeast m l
  AtLeast-le m n [] le h = tt
  AtLeast-le m n (x ∷ l) le h = (omega arith, AtLeast-le m n l le h.1)

  -- The result is made, is in order, has no key under those of the operands, and has each key as
  -- often as the operator says.
  pub record Combines (o : Oper) (a b r : List E) : Type 0 where
    pub made : surgery key (code o) a b ≡ some r
    pub sorted : IsSorted r
    pub bounded : (n : ℕ) → AtLeast n a → AtLeast n b → AtLeast n r
    pub counts : (k : ℕ) → mult k r ≡ combine o (mult k a) (mult k b)

  -- One round: what it does to the order and the bounds, the counts given.
  module _ (o : Oper) (x y : E) (a b : List E) (sa : IsSorted (x ∷ a)) (sb : IsSorted (y ∷ b)) where
    abbrev pub Counts : List E → Type 0
    Counts r = (k : ℕ) → mult k r ≡ combine o (mult k (x ∷ a)) (mult k (y ∷ b))

    pub mult_rest_b : (k : ℕ) → k < place y → mult k (y ∷ b) ≡ 0
    mult_rest_b k lt = mult-above k (y ∷ b) (lt, AtLeast-le (suc k) (place y) b lt sb.0)

    pub mult_rest_a : (k : ℕ) → k < place x → mult k (x ∷ a) ≡ 0
    mult_rest_a k lt = mult-above k (x ∷ a) (lt, AtLeast-le (suc k) (place x) a lt sa.0)

    pub take_a :
        (r : List E)
        → place x ≤ place y
        → choose key (code o) x y ≡ get_a
        → Counts (x ∷ r)
        → Combines o a (y ∷ b) r
        → Combines o (x ∷ a) (y ∷ b) (x ∷ r)
    unfolding surgery fill_round
    take_a r le act counts c = record {
      made = rw (act, surgery, c.made);
      sorted = (c.bounded (place x) sa.0 (le, AtLeast-le (place x) (place y) b le sb.0), c.sorted);
      bounded = λ n ha hb. (ha.0, c.bounded n ha.1 hb);
      counts = counts;
    }

    pub leave_a :
        (r : List E)
        → choose key (code o) x y ≡ skip_a
        → Counts r
        → Combines o a (y ∷ b) r
        → Combines o (x ∷ a) (y ∷ b) r
    unfolding surgery fill_round
    leave_a r act counts c = record {
      made = rw (act, surgery, c.made);
      sorted = c.sorted;
      bounded = λ n ha hb. c.bounded n ha.1 hb;
      counts = counts;
    }

    pub take_b :
        (r : List E)
        → place y ≤ place x
        → choose key (code o) x y ≡ get_b
        → Counts (y ∷ r)
        → Combines o (x ∷ a) b r
        → Combines o (x ∷ a) (y ∷ b) (y ∷ r)
    unfolding surgery fill_round
    take_b r le act counts c = record {
      made = rw (act, surgery, c.made);
      sorted = (c.bounded (place y) (le, AtLeast-le (place y) (place x) a le sa.0) sb.0, c.sorted);
      bounded = λ n ha hb. (hb.0, c.bounded n ha hb.1);
      counts = counts;
    }

    pub leave_b :
        (r : List E)
        → choose key (code o) x y ≡ skip_b
        → Counts r
        → Combines o (x ∷ a) b r
        → Combines o (x ∷ a) (y ∷ b) r
    unfolding surgery fill_round
    leave_b r act counts c = record {
      made = rw (act, surgery, c.made);
      sorted = c.sorted;
      bounded = λ n ha hb. c.bounded n ha hb.1;
      counts = counts;
    }

    pub leave_both :
        (r : List E)
        → choose key (code o) x y ≡ skip_both
        → Counts r
        → Combines o a b r
        → Combines o (x ∷ a) (y ∷ b) r
    unfolding surgery fill_round
    leave_both r act counts c = record {
      made = rw (act, surgery, c.made);
      sorted = c.sorted;
      bounded = λ n ha hb. c.bounded n ha.1 hb.1;
      counts = counts;
    }

    module _ (r : List E) (same : place x ≡ place y) (c : Combines o a b r) where
      tail_bounded : AtLeast (place y) r
      tail_bounded = c.bounded (place y) (AtLeast-le (place y) (place x) a (omega arith) sa.0) sb.0

      pub take_either :
          choose key (code o) x y ≡ get_either → Counts (y ∷ r) → Combines o (x ∷ a) (y ∷ b) (y ∷ r)
      unfolding surgery fill_round
      take_either act counts = record {
        made = rw (act, surgery, c.made);
        sorted = (tail_bounded, c.sorted);
        bounded = λ n ha hb. (hb.0, c.bounded n ha.1 hb.1);
        counts = counts;
      }

      pub take_both :
          choose key (code o) x y ≡ get_both
          → Counts (x ∷ y ∷ r)
          → Combines o (x ∷ a) (y ∷ b) (x ∷ y ∷ r)
      unfolding surgery fill_round
      take_both act counts = record {
        made = rw (act, surgery, c.made);
        sorted = (
          (omega arith, AtLeast-le (place x) (place y) r (omega arith) tail_bounded),
          (tail_bounded, c.sorted),
        );
        bounded = λ n ha hb. (ha.0, (hb.0, c.bounded n ha.1 hb.1));
        counts = counts;
      }
