-- ===== src/Objects.antt =====
-- `save_object` and `restore_object` of src/save_objectII.c, and `find_status` of src/simulate.c. The
-- object is not destructed. A variable that is a null pointer is a number zero here.
pub mod Lines
pub mod RoundTrip
use lpc.Base.{
  ℕ, zero, suc, ◌+◌, ◌-◌, ◌==◌, Bool, true, false, not, ◌&&◌, ◌||◌, Option, none, some, List, [],
  ◌∷◌, ◌++◌, leb, ltb, if◌then◌else◌, length, drop, get_or, set, pos,
}
use lpc.Text.{Bytes}
use lpc.Strings.{same_bytes}
use lpc.Value.{Svalue, t_number, t_string, t_pointer, t_list, t_mapping}
use lpc.Saving.{Value, number, string, vector, list, mapping, Style, low_save_svalue}
use lpc.Restoring.{Restored, done, failed, overrun, endless, other, peek}
use lpc.Restoring.Cases.{restore_svalue}

-- `struct variable`: whether it is static, and its run-time type
pub record Variable : Type 0 where
  pub name : Bytes
  pub static : Bool
  pub rttype : ℕ

abbrev pub t_nothing : ℕ
t_nothing = 254

abbrev pub t_any : ℕ
t_any = 255

-- `tmp.type`
unfoldable pub type_of : Value → ℕ
type_of (number k n) = t_number
type_of (string s) = t_string
type_of (vector vs) = t_pointer
type_of (list vs) = t_list
type_of (mapping es d) = t_mapping

unfoldable pub is_saved : Variable → Bool
is_saved p = not (p.rttype == t_nothing) && not p.static

-- The loop of `save_object`, over the variables and their values.
unfoldable pub save_object : Style → List Variable → List Value → Bytes
unfolding low_save_svalue is_saved
save_object style [] values = []
save_object style (p ∷ ps) [] = []
save_object style (p ∷ ps) (v ∷ vs) =
    let rest = save_object style ps vs in
    if is_saved p then p.name ++ (32 ∷ (low_save_svalue style v ++ (10 ∷ rest))) else rest

-- Equal names have one address as shared strings.
unfoldable pub find_status : Bytes → List Variable → ℕ → Option ℕ
unfolding same_bytes
find_status str [] i = none
find_status str (p ∷ ps) i =
    let rest = find_status str ps (i + 1) in if same_bytes p.name str then some i else rest

-- `STRCHR(t,' ')`: what is before the space and what is behind it
unfoldable pub split_name : Bytes → Option (Bytes × Bytes)
split_name [] = none
split_name (c ∷ t) =
    let rest : Option (Bytes × Bytes) = elim (split_name t) [
      | none ↦ none
      | some r ↦ some (c ∷ r.0, r.1)
    ] in
    if c == 32 then some ([], t) else if c == 0 then none else rest

-- What is done with a restored value: a variable that is not found, is static or has another type
-- stays as it is.
unfoldable pub assign : List Variable → Option ℕ → Value → List Value → List Value
unfolding type_of
assign ps none tmp values = values
assign ps (some i) tmp values =
    let p = get_or ps i (record { name = []; static = true; rttype = t_nothing }) in
    if p.static
    then values
    else if p.rttype == t_any || p.rttype == type_of tmp
    then set values i tmp
    else values

-- `if(*t=='\n') t++;`
abbrev pub skip_newline : Bytes → Bytes
skip_newline t = if peek t == 10 then drop 1 t else t

module _ (as_svalue : Value → Svalue) (batch_mode : Bool) where
  -- The loop of `restore_object`: a round takes a byte at least. A name is a line's text up to the
  -- space, and `q` has room for 149 bytes of it.
  unfoldable pub restore_loop : ℕ → List Variable → List Value → Bytes → Restored (List Value)
  unfolding split_name find_status restore_svalue assign
  restore_loop zero ps values t = endless
  restore_loop (suc fuel) ps values t = elim (peek t == 0) [
    | true ↦ done values t
    | false ↦ elim (peek t == 10) [
      | true ↦ restore_loop fuel ps values (drop 1 t)
      | false ↦ elim (split_name t) [
        | none ↦ failed
        | some r ↦ elim (leb 149 (length r.0)) [
          | true ↦ failed
          | false ↦ elim (restore_svalue as_svalue batch_mode r.1) [
            | done tmp t' ↦
                restore_loop fuel ps (assign ps (find_status r.0 ps 0) tmp values) (skip_newline t')
            | failed ↦ failed
            | overrun ↦ overrun
            | endless ↦ endless
            | other ↦ other
          ]
        ]
      ]
    ]
  ]

  unfoldable pub restore_object : List Variable → List Value → Bytes → Restored (List Value)
  unfolding restore_loop
  restore_object ps values t = restore_loop (length t + 1) ps values t
