-- ===== src/Restoring/Cases.antt =====
-- The cases of a value in `low_restore_svalue` of src/save_objectII.c.
use lpc.Base.{
  ℕ, zero, suc, ◌+◌, ◌==◌, Bool, true, false, ◌&&◌, ◌||◌, none, some, ℤ, pos, negative, ltb,
  pos_part, if◌then◌else◌, length, take, drop,
}
use lpc.Text.{Bytes}
use lpc.Value.{Svalue}
use lpc.Saving.{Value, number, string, vector, list, mapping}
use lpc.Restoring.{
  Restored, done, failed, overrun, endless, other, ◌>>=◌, peek, is_digit, read_digits, strtol,
  restore_string,
}
use lpc.Restoring.Loops.{
  zero_value, to_list, keys_of, order_values, order_entries, allocate_array, aggregate_fits,
  restore_items, restore_entries, while_items, while_entries,
}

-- `if(t[0]!=closing || t[1]!=')') my_error(...); t+=2;`
abbrev pub closed : ℕ → Value → Bytes → Restored Value
closed closing v t =
    if peek t == closing && peek (drop 1 t) == 41 then done v (drop 2 t) else failed

-- `if(!*t) my_error(...); if(*++t==')') t++;`, and `f_aggregate` or its like
abbrev pub aggregated : Bool → Value → Bytes → Restored Value
aggregated fits v t =
    if peek t == 0
    then failed
    else if fits
    then done v (if peek (drop 1 t) == 41 then drop 2 t else drop 1 t)
    else failed

-- a number, or a string after its length
unfoldable pub restore_number : Bytes → Restored Value
unfolding strtol
restore_number t =
    let r = strtol t in
    let s = drop 1 r.1 in
    let n = pos_part r.0 in
    if peek r.1 == 72
    then (if negative r.0 || ltb (length s) n then overrun else done (string (take n s)) (drop n s))
    else done (number 0 r.0) r.1

-- An object without a name is read as a zero.
unfoldable pub restore_clone : Bytes → Restored Value
unfolding read_digits
restore_clone t =
    let r = (read_digits (drop 2 t) 0).1 in
    if peek (drop 1 t) == 40 && peek r == 41 then done (number 2 (pos 0)) (drop 1 r) else failed

module _ (as_svalue : Value → Svalue) (batch_mode : Bool) where
  module _ (f : Bytes → Restored Value) where
    -- from behind `(n{`, `(n<` and `(n[`
    unfoldable pub sized_vector : ℤ → Bytes → Restored Value
    unfolding allocate_array restore_items
    sized_vector n t = do
      (m, none_read) ← allocate_array batch_mode n
      (vs, t') ← restore_items f m t
      closed 125 (vector vs) t'

    unfoldable pub sized_list : ℤ → Bytes → Restored Value
    unfolding allocate_array restore_items order_values
    sized_list n t = do
      (m, none_read) ← allocate_array batch_mode n
      (vs, t') ← restore_items f m t
      closed 62 (list (order_values as_svalue vs)) t'

    unfoldable pub sized_mapping : ℤ → Bytes → Restored Value
    unfolding allocate_array restore_entries order_entries
    sized_mapping n t = do
      (m, none_read) ← allocate_array batch_mode n
      (es, t') ← restore_entries f m t
      closed 93 (mapping (order_entries as_svalue es) zero_value) t'

    -- from behind `({`, `(<` and `([`
    unfoldable pub open_vector : Bytes → Restored Value
    unfolding while_items
    open_vector t = do
      (vs, t') ← while_items f 125 (length t + 1) t
      aggregated (aggregate_fits batch_mode (length (to_list vs))) (vector vs) t'

    unfoldable pub open_list : Bytes → Restored Value
    unfolding while_items order_values
    open_list t = do
      (vs, t') ← while_items f 62 (length t + 1) t
      aggregated (aggregate_fits batch_mode (length (to_list vs)))
          (list (order_values as_svalue vs)) t'

    unfoldable pub open_mapping : Bytes → Restored Value
    unfolding while_entries order_entries
    open_mapping t = do
      (es, t') ← while_entries f (length t + 1) t
      aggregated (aggregate_fits batch_mode (length (keys_of es)))
          (mapping (order_entries as_svalue es) (number 1 (pos 0))) t'

    -- After `(n` and another byte the `switch` falls through to `case '{'`, which skips one more.
    unfoldable pub sized : Bytes → Restored Value
    unfolding strtol sized_vector sized_list sized_mapping open_vector
    sized t =
        let r = strtol t in
        let k = peek r.1 in
        let t' = drop 1 r.1 in
        if k == 123
        then sized_vector r.0 t'
        else if k == 60
        then sized_list r.0 t'
        else if k == 91
        then sized_mapping r.0 t'
        else if k == 0 || peek t' == 0
        then overrun
        else open_vector (drop 1 t')

    -- `case '('`, from behind it
    unfoldable pub restore_bracket : Bytes → Restored Value
    unfolding sized open_vector open_list open_mapping
    restore_bracket t =
        let c = peek t in
        if is_digit c
        then sized t
        else if c == 123
        then open_vector (drop 1 t)
        else if c == 60
        then open_list (drop 1 t)
        else if c == 91
        then open_mapping (drop 1 t)
        else done zero_value t

  -- `inside` says whether there is an enclosing vector. A vector takes a byte at least.
  unfoldable pub low_restore_svalue : ℕ → Bool → Bytes → Restored Value
  unfolding restore_number restore_clone restore_string restore_bracket
  low_restore_svalue zero inside t = endless
  low_restore_svalue (suc fuel) inside t =
      let c = peek t in
      let bracket = restore_bracket (low_restore_svalue fuel true) (drop 1 t) in
      if c == 35
      then (if inside then other else failed)
      else if c == 45 || is_digit c
      then restore_number t
      else if c == 82 || c == 72
      then (if peek (drop 1 t) == 40 then other else failed)
      else if c == 79
      then restore_clone t
      else if c == 70
      then other
      else if c == 34
      then elim (restore_string t) [ none ↦ failed | some r ↦ done (string r.0) r.1 ]
      else if c == 40
      then bracket
      else done zero_value t

  unfoldable pub restore_svalue : Bytes → Restored Value
  unfolding low_restore_svalue
  restore_svalue t = low_restore_svalue (length t + 1) false t
