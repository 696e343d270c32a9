-- ===== src/Objects/Lines.antt =====
-- One line of a saved object of src/save_objectII.c, and the variable that it is for.
use lpc.Base.{
  ℕ, suc, ◌+◌, ◌<◌, ◌≡◌, ◌≢◌, refl, sym, ap, ◌∙◌, ◌==◌, Bool, true, false, ◌||◌, some, List, [],
  ◌∷◌, ◌++◌, leb, if◌then◌else◌, length, get_or, set, All, arith, Bool-cases, inl, inr,
}
use lpc.Text.{Bytes}
use lpc.Strings.{same_bytes}
use lpc.Strings.Chains.{same_bytes_refl}
use lpc.Value.{Svalue}
use lpc.Saving.{Value, Style, low_save_svalue}
use lpc.Restoring.{peek}
use lpc.Restoring.Shapes.{Fits, arranged}
use lpc.Restoring.RoundTrip.{restore_svalue-low_save_svalue}
use lpc.Objects.{
  Variable, t_nothing, find_status, split_name, assign, restore_loop, is_saved, t_any, type_of,
}

-- A name of a variable: no space, no zero byte, no line break in front, and less than 149 bytes.
pub record IsName (name : Bytes) : Type 0 where
  pub no_space : All (λ c. (c ≢ 32) × (c ≢ 0)) name
  pub no_break : (peek name == 10) ≡ false
  pub short : length name < 149

split_name-append :
    (s u : Bytes) → All (λ c. (c ≢ 32) × (c ≢ 0)) s → split_name (s ++ (32 ∷ u)) ≡ some (s, u)
unfolding split_name
split_name-append [] u h = refl
split_name-append (c ∷ s) u h =
    let no_space : (c == 32) ≡ false = ground (arith, h.0.0) in
    let no_zero : (c == 0) ≡ false = ground (arith, h.0.1) in
    rw (no_space, no_zero, split_name-append s u h.1) refl

starts_line :
    (name u : Bytes)
    → IsName name
    → ((peek (name ++ (32 ∷ u)) == 0) ≡ false) × ((peek (name ++ (32 ∷ u)) == 10) ≡ false)
starts_line [] u h = (refl, refl)
starts_line (c ∷ name) u h = (ground (arith, h.no_space.0.1), h.no_break)

pub restore_line :
    (style : Style) (as_svalue : Value → Svalue) (batch_mode : Bool) (fuel : ℕ) (ps : List Variable)
    (values : List Value) (name : Bytes) (v : Value) (rest : Bytes)
    → IsName name
    → Fits style v
    → restore_loop as_svalue batch_mode
        (suc fuel)
        ps
        values
        (name ++ (32 ∷ (low_save_svalue style v ++ (10 ∷ rest))))
      ≡ restore_loop as_svalue batch_mode fuel ps
          (assign ps (find_status name ps 0) (arranged as_svalue v) values)
          rest
unfolding restore_loop
restore_line style as_svalue batch_mode fuel ps values name v rest h f =
    let text = low_save_svalue style v ++ (10 ∷ rest) in
    let first = starts_line name text h in
    let short : leb 149 (length name) ≡ false = ground (arith, h.short) in
    let read =
      restore_svalue-low_save_svalue style as_svalue batch_mode v (10 ∷ rest) f
        (record { no_digit = refl; no_h = refl }) in
    rw (first.0, restore_loop, first.1, split_name-append name text h.no_space, short, read) refl

-- A variable behind others that have other names.
find_status-append :
    (pre post : List Variable) (p : Variable) (i : ℕ)
    → All (λ q. same_bytes q.name p.name ≡ false) pre
    → find_status p.name (pre ++ (p ∷ post)) i ≡ some (i + length pre)
unfolding find_status
find_status-append [] post p i h = rw (same_bytes_refl p.name) (ap some (omega arith))
find_status-append (q ∷ pre) post p i h =
    rw (h.0, find_status-append pre post p (i + 1) h.1) (ap some (omega arith))

get_or-append :
    {A : Type 0} (pre post : List A) (x d : A) → get_or (pre ++ (x ∷ post)) (length pre) d ≡ x
get_or-append [] post x d = refl
get_or-append (y ∷ pre) post x d = get_or-append pre post x d

set-append :
    {A : Type 0} (pre post : List A) (x y : A)
    → set (pre ++ (x ∷ post)) (length pre) y ≡ pre ++ (y ∷ post)
set-append [] post x y = refl
set-append (z ∷ pre) post x y = ap (◌∷◌ z) (set-append pre post x y)

-- What `restore_object` leaves in a variable with the value `w`, for which `v` was saved.
abbrev pub after : (Value → Value) → Variable → Value → Value → Value
after back p v w =
    if is_saved p
    then (if p.rttype == t_any || p.rttype == type_of (back v) then back v else w)
    else w

assign_at :
    (ps : List Variable) (i : ℕ) (p : Variable) (tmp : Value) (values : List Value)
    → get_or ps i (record { name = []; static = true; rttype = t_nothing }) ≡ p
    → p.static ≡ false
    → assign ps (some i) tmp values
      ≡ (if p.rttype == t_any || p.rttype == type_of tmp then set values i tmp else values)
unfolding assign
assign_at ps i p tmp values e d = rw (e, d) refl

found :
    (pre post : List Variable) (p : Variable)
    → All (λ q. same_bytes q.name p.name ≡ false) pre
    → find_status p.name (pre ++ (p ∷ post)) 0 ≡ some (length pre)
found pre post p h = find_status-append pre post p 0 h ∙ ap some (omega arith)

pub assign-found :
    (back : Value → Value) (pre post : List Variable) (p : Variable) (us ws : List Value)
    (v w : Value)
    → All (λ q. same_bytes q.name p.name ≡ false) pre
    → length us ≡ length pre
    → is_saved p ≡ true
    → assign
        (pre ++ (p ∷ post))
        (find_status p.name (pre ++ (p ∷ post)) 0)
        (back v)
        (us ++ (w ∷ ws))
      ≡ us ++ (after back p v w ∷ ws)
unfolding is_saved
assign-found back pre post p us ws v w h e s =
    let dynamic : p.static ≡ false = ground arith in
    let moved : set (us ++ (w ∷ ws)) (length pre) (back v) ≡ us ++ (back v ∷ ws) =
      rw (sym e) (set-append us ws w (back v)) in
    ap (λ i. assign (pre ++ (p ∷ post)) i (back v) (us ++ (w ∷ ws))) (found pre post p h)
    ∙ assign_at (pre ++ (p ∷ post)) (length pre) p (back v) (us ++ (w ∷ ws))
        (get_or-append pre post p _) dynamic
    ∙ elim (Bool-cases (p.rttype == t_any || p.rttype == type_of (back v))) [
      | inl c ↦ rw (c, s) moved
      | inr c ↦ rw (c, s) refl
    ]
