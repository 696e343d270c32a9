-- ===== src/Surgery.antt =====
-- `do_array_surgery` of src/list.c: the two passes over two sorted operands, for arrays, lists and
-- mappings, and the allocation between them. An entry of an operand is a key, or a key with its
-- value.
pub mod Counts
pub mod Multisets
pub mod Operators
use lpc.Base.{
  true, false, ℕ, ◌+◌, ◌*◌, ◌/◌, ◌%◌, Bool, List, [], ◌∷◌, Option, none, some, ◌==◌, if◌then◌else◌,
  length, negative, positive, suc,
}
use mathlib.Core.Option
use lpc.Value.{Svalue, alist_cmp, nonzero}
use lpc.Growth.{array_fits}

-- what the loops do at a pair of entries; `endless` moves neither index
pub data Action : Type 0 where
  skip_both skip_a get_a skip_b get_b get_both get_either endless : Action

abbrev pub action : ℕ → Action
action n =
    if n == 0
    then skip_both
    else if n == 1
    then skip_a
    else if n == 2
    then get_a
    else if n == 3
    then skip_b
    else if n == 4
    then get_b
    else if n == 5
    then get_both
    else if n == 6
    then get_either
    else endless

-- `NONE`, `NOTA`, `GETA`, `NOTB`, `GETB`, `BOTH`, `EITHER`, packed as `OPER_EQ | OPER_A | OPER_B`
abbrev pub oper : ℕ → ℕ → ℕ → ℕ
oper eq a b = eq + 16 * a + 256 * b

abbrev pub oper_xor : ℕ
oper_xor = oper 0 2 4

abbrev pub oper_and : ℕ
oper_and = oper 6 1 3

abbrev pub oper_or : ℕ
oper_or = oper 6 2 4

abbrev pub oper_add : ℕ
oper_add = oper 5 2 4

abbrev pub oper_sub : ℕ
oper_sub = oper 1 2 3

-- `OPER_A_TAKE==(op & 0x0f0)` and `OPER_B_TAKE==(op & 0xf00)`
abbrev pub takes_a : ℕ → Bool
takes_a op = op / 16 % 16 == 2

abbrev pub takes_b : ℕ → Bool
takes_b op = op / 256 % 16 == 4

-- The rounds of the first pass, which counts, and of the second, which fills the result in order.
-- What is left is the pass over a shorter first operand, second operand, or both; `none` stands
-- for a loop that does not end.
unfoldable pub count_round : Action → Option ℕ → Option ℕ → Option ℕ → Option ℕ
count_round skip_both ra rb rab = rab
count_round skip_a ra rb rab = ra
count_round get_a ra rb rab = Option.map (λ n. n + 1) ra
count_round skip_b ra rb rab = rb
count_round get_b ra rb rab = Option.map (λ n. n + 1) rb
count_round get_both ra rb rab = Option.map (λ n. n + 2) rab
count_round get_either ra rb rab = Option.map (λ n. n + 1) rab
count_round endless ra rb rab = none

unfoldable pub fill_round {ℓ} :
    {E : Type ℓ}
    → Action
    → E
    → E
    → Option (List E)
    → Option (List E)
    → Option (List E)
    → Option (List E)
fill_round skip_both x y ra rb rab = rab
fill_round skip_a x y ra rb rab = ra
fill_round get_a x y ra rb rab = Option.map (λ r. x ∷ r) ra
fill_round skip_b x y ra rb rab = rb
fill_round get_b x y ra rb rab = Option.map (λ r. y ∷ r) rb
fill_round get_both x y ra rb rab = Option.map (λ r. x ∷ y ∷ r) rab
fill_round get_either x y ra rb rab = Option.map (λ r. y ∷ r) rab
fill_round endless x y ra rb rab = none

module _ {E : Type 0} (key : E → Svalue) where
  unfoldable pub choose : ℕ → E → E → Action
  choose op x y =
      let d = alist_cmp (key x) (key y) in
      action (if nonzero d then (if negative d then op / 16 % 8 else op / 256 % 8) else op % 8)

  -- The first pass.
  unfoldable pub surgery_size : ℕ → List E → List E → Option ℕ
  surgery_size op [] b = some (if takes_b op then length b else 0)
  surgery_size op (x ∷ a) [] = some (if takes_a op then length (x ∷ a) else 0)
  surgery_size op (x ∷ a) (y ∷ b) =
      let ra = surgery_size op a (y ∷ b) in
      let rb = surgery_size op (x ∷ a) b in
      let rab = surgery_size op a b in count_round (choose op x y) ra rb rab

  -- The second pass.
  unfoldable pub surgery : ℕ → List E → List E → Option (List E)
  surgery op [] b = some (if takes_b op then b else [])
  surgery op (x ∷ a) [] = some (if takes_a op then x ∷ a else [])
  surgery op (x ∷ a) (y ∷ b) =
      let ra = surgery op a (y ∷ b) in
      let rb = surgery op (x ∷ a) b in
      let rab = surgery op a b in fill_round (choose op x y) x y ra rb rab

-- How it ends: with the result, in the error about the size of an array, or not at all.
pub data Surgical (E : Type 0) : Type 0 where
  combined : List E → Surgical E
  illegal_size : Surgical E
  never_ends : Surgical E

unfoldable pub do_array_surgery :
    {E : Type 0} → (E → Svalue) → Bool → ℕ → List E → List E → Surgical E
unfolding surgery_size surgery
do_array_surgery key batch_mode op a b = elim (surgery_size key op a b) [
  | none ↦ never_ends
  | some num ↦ elim (array_fits batch_mode num) [
    | false ↦ illegal_size
    | true ↦ elim (surgery key op a b) [ none ↦ never_ends | some r ↦ combined r ]
  ]
]
