-- ===== src/Tests/Sorting.antt =====
-- `msort` on numbers.
use lpc.Base.{ℕ, ◌≡◌, refl, List, [], ◌∷◌, sub_ℕ, arith}
use mathlib.Core.List.{Perm}
use lpc.Sort.{merge, pass, passes, msort}
use lpc.Sort.Merge.{IsOrder, IsSorted}
use lpc.Sort.Runs.{msort-IsSorted, msort-perm}

abbrev numbers : List ℕ
numbers = 5 ∷ 2 ∷ 9 ∷ 2 ∷ 0 ∷ 7 ∷ 1 ∷ []

sorts : msort sub_ℕ numbers ≡ 0 ∷ 1 ∷ 2 ∷ 2 ∷ 5 ∷ 7 ∷ 9 ∷ []
unfolding msort passes pass merge
sorts = refl

difference : IsOrder sub_ℕ
difference = record { total = λ x y h. ground arith; trans = λ x y z h k. ground arith }

msort-IsSorted_example : IsSorted sub_ℕ (msort sub_ℕ numbers)
msort-IsSorted_example = msort-IsSorted sub_ℕ difference numbers

msort-perm_example : Perm (msort sub_ℕ numbers) numbers
msort-perm_example = msort-perm sub_ℕ numbers
