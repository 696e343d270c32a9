-- ===== src/Surgery/Operators.antt =====
-- The result of `do_array_surgery` of src/list.c for the five operators.
use lpc.Base.{
  Bool, some, ◌∙◌, length, if◌then◌else◌, ◌<◌, ◌≡◌, refl, List, [], ◌∷◌, arith, ltb, inl, inr,
  Bool-cases,
}
use lpc.Value.{Svalue}
use lpc.Growth.{array_fits}
use lpc.Surgery.{choose, surgery, surgery_size, do_array_surgery, combined, illegal_size}
use lpc.Surgery.Counts.{surgery_size-length}
use lpc.Surgery.Multisets.{
  Oper, xor, and, add, sub, code, if_less, if_more, if_same, place, IsSorted, AllValid,
  choose-cases, Combines, mult_rest_a, mult_rest_b, take_a, leave_a, take_b, leave_b, leave_both,
  take_either, take_both,
}

module _ {E : Type 0} (key : E → Svalue) where
  abbrev Result : Oper → List E → List E → Type 0
  Result o a b = (r : List E) × Combines key o a b r

  module _ (x y : E) (a b : List E) (sa : IsSorted key (x ∷ a)) (sb : IsSorted key (y ∷ b)) where
    less :
        (o : Oper)
        → place key x < place key y
        → choose key (code o) x y ≡ if_less o
        → Result o a (y ∷ b)
        → Result o (x ∷ a) (y ∷ b)
    less and lt act (r, c) = (
      r,
      leave_a key and x y a b sa sb r act
          (λ k. ground (arith, c.counts k, mult_rest_b key and x y a b sa sb k)) c,
    )
    less o lt act (r, c) = (
      x ∷ r,
      take_a key o x y a b sa sb r (omega arith) act
          (λ k. ground (arith, c.counts k, mult_rest_b key o x y a b sa sb k)) c,
    )

    more :
        (o : Oper)
        → place key y < place key x
        → choose key (code o) x y ≡ if_more o
        → Result o (x ∷ a) b
        → Result o (x ∷ a) (y ∷ b)
    more and lt act (r, c) = (
      r,
      leave_b key and x y a b sa sb r act
          (λ k. ground (arith, c.counts k, mult_rest_a key and x y a b sa sb k)) c,
    )
    more sub lt act (r, c) = (
      r,
      leave_b key sub x y a b sa sb r act
          (λ k. ground (arith, c.counts k, mult_rest_a key sub x y a b sa sb k)) c,
    )
    more o lt act (r, c) = (
      y ∷ r,
      take_b key o x y a b sa sb r (omega arith) act
          (λ k. ground (arith, c.counts k, mult_rest_a key o x y a b sa sb k)) c,
    )

    same :
        (o : Oper)
        → place key x ≡ place key y
        → choose key (code o) x y ≡ if_same o
        → Result o a (y ∷ b)
        → Result o a b
        → Result o (x ∷ a) (y ∷ b)
    same xor e act (r', c') (r, c) =
        (r, leave_both key xor x y a b sa sb r act (λ k. ground (arith, c.counts k)) c)
    same add e act (r', c') (r, c) =
        (x ∷ y ∷ r, take_both key add x y a b sa sb r e c act (λ k. ground (arith, c.counts k)))
    same sub e act (r', c') (r, c) =
        (r', leave_a key sub x y a b sa sb r' act (λ k. ground (arith, c'.counts k)) c')
    same o e act (r', c') (r, c) =
        (y ∷ r, take_either key o x y a b sa sb r e c act (λ k. ground (arith, c.counts k)))

  rest_b : (o : Oper) (b : List E) → IsSorted key b → Result o [] b
  unfolding surgery
  rest_b and b s =
      ([], record { made = refl; sorted = tt; bounded = λ n ha hb. tt; counts = λ k. ground arith })
  rest_b sub b s =
      ([], record { made = refl; sorted = tt; bounded = λ n ha hb. tt; counts = λ k. ground arith })
  rest_b o b s =
      (b, record { made = refl; sorted = s; bounded = λ n ha hb. hb; counts = λ k. ground arith })

  rest_a : (o : Oper) (x : E) (a : List E) → IsSorted key (x ∷ a) → Result o (x ∷ a) []
  unfolding surgery
  rest_a and x a s =
      ([], record { made = refl; sorted = tt; bounded = λ n ha hb. tt; counts = λ k. ground arith })
  rest_a o x a s = (
    x ∷ a,
    record { made = refl; sorted = s; bounded = λ n ha hb. ha; counts = λ k. ground arith },
  )

  passes_combine :
      (o : Oper) (a b : List E)
      → AllValid key a
      → AllValid key b
      → IsSorted key a
      → IsSorted key b
      → Result o a b
  passes_combine o [] b va vb sa sb = rest_b o b sb
  passes_combine o (x ∷ a) [] va vb sa sb = rest_a o x a sa
  passes_combine o (x ∷ a) (y ∷ b) va vb sa sb =
      let e = choose-cases key o x y va.0 vb.0 in
      elim (Bool-cases (ltb (place key x) (place key y))) [
        | inl lt ↦
            less x y a b sa sb o (ground arith) (rw lt at e)
              (passes_combine o a (y ∷ b) va.1 vb sa.1 sb)
        | inr ge ↦ elim (Bool-cases (ltb (place key y) (place key x))) [
          | inl gt ↦
              more x y a b sa sb o (ground arith) (rw (ge, gt) at e)
                (passes_combine o (x ∷ a) b va vb.1 sa sb.1)
          | inr le ↦
              same x y a b sa sb o (ground arith) (rw (ge, le) at e)
                (passes_combine o a (y ∷ b) va.1 vb sa.1 sb)
                (passes_combine o a b va.1 vb.1 sa.1 sb.1)
        ]
      ]

  -- The result, and how `do_array_surgery` ends for it.
  pub record Performed (batch_mode : Bool) (o : Oper) (a b : List E) : Type 0 where
    pub result : List E
    pub combines : Combines key o a b result
    pub ends :
        do_array_surgery key batch_mode (code o) a b
        ≡ (if array_fits batch_mode (length result) then combined result else illegal_size)

  -- On sorted operands of valid keys `do_array_surgery` ends for each of the five operators. It makes
  -- a result that is sorted and has each key as often as the operator on multisets says: the maximum
  -- for OR, the sum for ADD, the minimum for AND, the distance for XOR, and for SUB the first
  -- operand's keys that the second does not have at all. But if this result has more than 5000
  -- entries outside batch mode, it is the error about the size of an array.
  pub surgery-Combines :
      (batch_mode : Bool) (o : Oper) (a b : List E)
      → AllValid key a
      → AllValid key b
      → IsSorted key a
      → IsSorted key b
      → Performed batch_mode o a b
  unfolding do_array_surgery
  surgery-Combines batch_mode o a b va vb sa sb =
      let (r, c) = passes_combine o a b va vb sa sb in
      let n : surgery_size key (code o) a b ≡ some (length r) =
        surgery_size-length key (code o) a b ∙ rw c.made refl in
      record {
        result = r;
        combines = c;
        ends = elim (Bool-cases (array_fits batch_mode (length r))) [
          | inl fits ↦ rw (n, fits, do_array_surgery, c.made) refl
          | inr large ↦ rw (n, large, do_array_surgery) refl
        ];
      }
