-- ===== src/Surgery/Counts.antt =====
-- The sizes that the two passes of `do_array_surgery` of src/list.c compute.
use lpc.Base.{ℕ, ◌≡◌, refl, List, [], ◌∷◌, Option, length, arith}
use mathlib.Core.Option
use lpc.Value.{Svalue}
use lpc.Surgery.{
  Action, skip_both, skip_a, get_a, skip_b, get_b, get_both, get_either, endless, choose,
  count_round, fill_round, surgery_size, surgery,
}

count_round-map :
    {E : Type 0} (d : Action) (x y : E) (ra rb rab : Option (List E))
    → count_round d (Option.map length ra) (Option.map length rb) (Option.map length rab)
      ≡ Option.map length (fill_round d x y ra rb rab)
unfolding count_round fill_round
count_round-map skip_both x y ra rb rab = refl
count_round-map skip_a x y ra rb rab = refl
count_round-map get_a x y ra rb rab = ground arith
count_round-map skip_b x y ra rb rab = refl
count_round-map get_b x y ra rb rab = ground arith
count_round-map get_both x y ra rb rab = ground arith
count_round-map get_either x y ra rb rab = ground arith
count_round-map endless x y ra rb rab = refl

module _ {E : Type 0} (key : E → Svalue) where
  -- The vectors that are allocated from the count of the first pass have room for exactly what the
  -- second pass writes, for every operator and all operands; the passes end for the same operands.
  pub surgery_size-length :
      (op : ℕ) (a b : List E) → surgery_size key op a b ≡ Option.map length (surgery key op a b)
  unfolding surgery_size surgery
  surgery_size-length op [] b = ground arith
  surgery_size-length op (x ∷ a) [] = ground arith
  surgery_size-length op (x ∷ a) (y ∷ b) =
      rw
        (
          surgery_size-length op a (y ∷ b),
          surgery_size-length op (x ∷ a) b,
          surgery_size-length op a b,
        )
        (count_round-map (choose key op x y) x y _ _ _)
