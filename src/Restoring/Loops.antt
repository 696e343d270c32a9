-- ===== src/Restoring/Loops.antt =====
-- The order of restored lists and mappings, and the loops over the items of a vector, of
-- src/save_objectII.c.
use lpc.Base.{
  ℕ, zero, suc, ◌==◌, Bool, true, false, not, ◌&&◌, ◌||◌, List, [], ◌∷◌, map, ℤ, pos, negative, leb,
  ltb_ℤ, pos_part, if◌then◌else◌, length, drop, get_or,
}
use lpc.Text.{Bytes}
use lpc.Value.{Svalue, alist_cmp}
use lpc.Growth.{max_array_size}
use lpc.Fsort.{fsort}
use lpc.Making.{indices}
use lpc.Saving.{Value, number, Values, none_left, also, Entries, no_entry, entry}
use lpc.Restoring.{Restored, done, failed, overrun, endless, ◌>>=◌, peek}

-- `if(*t==',') t++;`
abbrev pub skip_comma : Bytes → Bytes
skip_comma t = if peek t == 44 then drop 1 t else t

-- The value of an `svalue` that was set to zero.
abbrev pub zero_value : Value
zero_value = number 0 (pos 0)

abbrev pub to_list : Values → List Value
to_list none_left = []
to_list (also v vs) = v ∷ to_list vs

abbrev pub of_list : List Value → Values
of_list [] = none_left
of_list (v ∷ vs) = also v (of_list vs)

abbrev pub keys_of : Entries → List Value
keys_of no_entry = []
keys_of (entry k v es) = k ∷ keys_of es

abbrev pub values_of : Entries → List Value
values_of no_entry = []
values_of (entry k v es) = v ∷ values_of es

abbrev pub of_lists : List Value → List Value → Entries
of_lists (k ∷ ks) (v ∷ vs) = entry k v (of_lists ks vs)
of_lists _ _ = no_entry

-- `as_svalue` gives the `struct svalue` of a restored value: a string or a vector is its address,
-- which the order depends on.
module _ (as_svalue : Value → Svalue) where
  abbrev pub order_of : List Value → List ℕ
  order_of ks =
      fsort 0
        (λ a b. alist_cmp (as_svalue (get_or ks a zero_value)) (as_svalue (get_or ks b zero_value)))
        (indices (length ks) 0)

  -- `order_alist` on a list, and on a mapping
  unfoldable pub order_values : Values → Values
  order_values vs = let l = to_list vs in of_list (map (λ i. get_or l i zero_value) (order_of l))

  unfoldable pub order_entries : Entries → Entries
  order_entries es =
      let ks = keys_of es in
      let vs = values_of es in
      let tmp = order_of ks in
      of_lists (map (λ i. get_or ks i zero_value) tmp) (map (λ i. get_or vs i zero_value) tmp)

module _ (batch_mode : Bool) where
  -- `allocate_array`, for a size that the text may have wrapped to a negative one
  unfoldable pub allocate_array : ℤ → Restored ℕ
  allocate_array n =
      if not batch_mode && (negative n || ltb_ℤ (pos max_array_size) n)
      then failed
      else if negative n
      then overrun
      else done (pos_part n) []

  -- `f_aggregate` and its like, for a number of items that were read
  abbrev pub aggregate_fits : ℕ → Bool
  aggregate_fits n = batch_mode || leb n max_array_size

-- The loops over the items of a vector, by the reader `f` of one value.
module _ (f : Bytes → Restored Value) where
  unfoldable pub restore_items : ℕ → Bytes → Restored Values
  restore_items zero t = done none_left t
  restore_items (suc e) t = do
    (v, t') ← f t
    (vs, t'') ← restore_items e (skip_comma t')
    done (also v vs) t''

  unfoldable pub restore_entries : ℕ → Bytes → Restored Entries
  restore_entries zero t = done no_entry t
  restore_entries (suc e) t = do
    (k, t') ← f t
    (v, t'') ← if peek t' == 58 then f (drop 1 t') else failed
    (es, t3) ← restore_entries e (skip_comma t'')
    done (entry k v es) t3

  -- `while(*t!=closing && *t)`: a round that reads nothing is repeated for ever.
  unfoldable pub while_items : ℕ → ℕ → Bytes → Restored Values
  while_items closing zero t = endless
  while_items closing (suc fuel) t = elim (peek t == closing || peek t == 0) [
    | true ↦ done none_left t
    | false ↦
        f t >>= (λ r. while_items closing fuel (skip_comma r.1) >>= (λ q. done (also r.0 q.0) q.1))
  ]

  unfoldable pub while_entries : ℕ → Bytes → Restored Entries
  while_entries zero t = endless
  while_entries (suc fuel) t = elim (peek t == 93 || peek t == 0) [
    | true ↦ done no_entry t
    | false ↦ f t >>= (λ k.
        (if peek k.1 == 58 then f (drop 1 k.1) else failed)
        >>= (λ v. while_entries fuel (skip_comma v.1) >>= (λ q. done (entry k.0 v.0 q.0) q.1)))
  ]
