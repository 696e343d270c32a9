-- ===== src/Calls.antt =====
-- The efuns of src/array.c that call a function for each item of an array. A call runs code of the
-- game: it takes the state of the game to another one and answers a value or nothing, or it raises
-- an error, `none`. The limit on the cost of an evaluation is such an error too, and left out.
pub mod Pure
use lpc.Base.{
  ℕ, zero, suc, ◌+◌, Bool, true, false, not, ◌&&◌, ◌||◌, Option, none, some, List, [], ◌∷◌, map, ℤ,
  pos, negsuc, pos_part, negative, ◌==◌, if◌then◌else◌, length, get_or,
}
use mathlib.Core.Option
use lpc.Value.{Svalue, zero_svalue, is_zero, t_number, t_object, t_function, t_string}
use lpc.Arrays.{copied}

-- `IS_ZERO`, also of a null pointer
abbrev pub is_zero? : Option Svalue → Bool
is_zero? none = true
is_zero? (some v) = is_zero v

-- a function or a name, how it is called
pub data Callee : Type 0 where
  lambda : Svalue → Callee
  shared : Svalue → Svalue → Callee
  lfun : ℕ → Svalue → Callee

-- What the loops do at an item: pass it over, raise an error, or call something.
pub data Round : Type 0 where
  pass_over fail : Round
  call : Callee → List Svalue → Round

-- The two passes of `filter` over the answers; an item that was destructed by then is copied as a zero.
unfoldable pub filter_count : List Svalue → ℕ
filter_count [] = 0
filter_count (v ∷ vs) = let n = filter_count vs in if is_zero v then n else suc n

unfoldable pub filter_fill : (ℤ → Bool) → List Svalue → List Svalue → List Svalue
unfolding copied
filter_fill gone (v ∷ vs) (x ∷ p) =
    let r = filter_fill gone vs p in if is_zero v then r else copied gone x ∷ r
filter_fill gone _ _ = []

-- The arguments of a call of `sum_arrays`: an item of each array, or 0.
unfoldable pub column : List (List Svalue) → ℕ → List Svalue
column [] e = []
column (p ∷ ps) e = get_or p e zero_svalue ∷ column ps e

module _ (W : Type 0) (destructed : W → ℤ → Bool)
    (apply : Callee → List Svalue → W → Option (Option Svalue × W)) where
  -- the function of an item, or an item that is an object
  abbrev pub lives : ℕ → Svalue → W → Bool
  lives type x w = x.type == type && not (destructed w x.u)

  -- `push_svalue` of arguments: a destructed object is pushed as a zero.
  unfoldable pub pushed : W → List Svalue → List Svalue
  unfolding copied
  pushed w l = map (copied (destructed w)) l

  unfoldable pub call_function : Svalue → Svalue → List Svalue → W → Round
  unfolding pushed
  call_function f x extra w =
      if destructed w f.u then fail else call (lambda f) (pushed w (x ∷ extra))

  unfoldable pub map_round : Svalue → List Svalue → Svalue → W → Round
  unfolding call_function pushed
  map_round f extra x w =
      if f.type == t_number
      then (if not (f.subtype == 0)
          then pass_over
          else if negative f.u
          then (if lives t_function x w then call (lambda x) (pushed w extra) else pass_over)
          else if lives t_object x w
          then call (lfun (pos_part f.u) x) (pushed w extra)
          else pass_over)
      else if f.type == t_string
      then (if lives t_object x w then call (shared f x) (pushed w extra) else pass_over)
      else if f.type == t_function
      then call_function f x extra w
      else fail

  unfoldable pub search_round : Svalue → List Svalue → Svalue → W → Round
  unfolding call_function pushed
  search_round f extra x w =
      if f.type == t_number
      then (if lives t_function x w then call (lambda x) (pushed w extra) else pass_over)
      else if f.type == t_string
      then (if lives t_object x w then call (shared f x) (pushed w extra) else pass_over)
      else if f.type == t_function
      then call_function f x extra w
      else fail

  unfoldable pub run : Round → W → Option (Option Svalue × W)
  run pass_over w = some (none, w)
  run fail w = none
  run (call c args) w = apply c args w

  -- The test of the function before the loop.
  unfoldable pub callable : Svalue → W → Bool
  callable f w =
      (f.type == t_number || f.type == t_string) || (f.type == t_function && not (destructed w f.u))

  unfoldable pub map_loop : Svalue → List Svalue → List Svalue → W → Option (List Svalue × W)
  unfolding map_round run copied
  map_loop f extra [] w = some ([], w)
  map_loop f extra (x ∷ p) w = elim (run (map_round f extra x w) w) [
    | none ↦ none
    | some r ↦ elim (map_loop f extra p r.1) [
      | none ↦ none
      | some q ↦ some (copied (destructed r.1) (Option.get_or r.0 zero_svalue) ∷ q.0, q.1)
    ]
  ]

  unfoldable pub map_array : List Svalue → Svalue → List Svalue → W → Option (List Svalue × W)
  unfolding map_loop callable
  map_array p f extra w = if callable f w then map_loop f extra p w else none

  -- the index of the first item whose call answers something but 0, or -1
  unfoldable pub search_loop : Svalue → List Svalue → List Svalue → ℕ → W → Option (ℤ × W)
  unfolding search_round run
  search_loop f extra [] cnt w = some (negsuc 0, w)
  search_loop f extra (x ∷ p) cnt w = elim (run (search_round f extra x w) w) [
    | none ↦ none
    | some r ↦ elim (is_zero? r.0) [
      | true ↦ search_loop f extra p (cnt + 1) r.1
      | false ↦ some (pos cnt, r.1)
    ]
  ]

  unfoldable pub search_array : List Svalue → Svalue → List Svalue → W → Option (ℤ × W)
  unfolding search_loop callable
  search_array p f extra w = if callable f w then search_loop f extra p 0 w else none

  unfoldable pub filter : List Svalue → Svalue → List Svalue → W → Option (List Svalue × W)
  unfolding map_array filter_fill
  filter [] f extra w = some ([], w)
  filter (x ∷ p) f extra w = elim (map_array (x ∷ p) f extra w) [
    | none ↦ none
    | some r ↦ some (filter_fill (destructed r.1) r.0 (x ∷ p), r.1)
  ]

  unfoldable pub sum_loop : Svalue → List (List Svalue) → ℕ → ℕ → W → Option (List Svalue × W)
  unfolding column pushed copied
  sum_loop fun arrays zero e w = some ([], w)
  sum_loop fun arrays (suc size) e w = elim (destructed w fun.u) [
    | true ↦ none
    | false ↦ elim (apply (lambda fun) (pushed w (column arrays e)) w) [
      | none ↦ none
      | some r ↦ elim r.0 [
        | none ↦ none
        | some v ↦ elim (sum_loop fun arrays size (e + 1) r.1) [
          | none ↦ none
          | some q ↦ some (copied (destructed r.1) v ∷ q.0, q.1)
        ]
      ]
    ]
  ]

  unfoldable pub sum_arrays : List (List Svalue) → Svalue → W → Option (List Svalue × W)
  unfolding sum_loop
  sum_arrays arrays fun w = sum_loop fun arrays (length (get_or arrays 0 [])) 0 w
