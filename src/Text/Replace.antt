-- ===== src/Text/Replace.antt =====
-- `string_replace` of src/array_efuns.c beside `explode` and `implode` of src/array.c.
use lpc.Base.{
  ℕ, zero, suc, ◌≤◌, ◌≡◌, ◌≢◌, refl, sym, ap, ◌∙◌, [], ◌∷◌, ◌++◌, ◌==◌, length, drop, arith, inl,
  inr, Bool-cases, length-drop, Bool, List, some, some_inj, none_ne_some,
}
use lpc.Growth.{array_fits}
use mathlib.Core.List.{append_assoc}
use lpc.Text.{
  Bytes, matches, cut_loop, pieces, explode_size, explode, implode, replace_count, replace_loop,
  string_replace, skip,
}
use lpc.Text.Split.{items, rest-pieces}

skip-cons : (d : ℕ) (del : Bytes) → skip (d ∷ del) ≡ suc (length del)
skip-cons d del = ground arith

suc_ne : {n : ℕ} → suc n ≡ 0 → ⊥
suc_ne h = omega arith

replace_loop-implode :
    (fuel d : ℕ) (del to piece s : Bytes)
    → length s ≤ fuel
    → implode (items (cut_loop fuel (d ∷ del) piece s)) to
      ≡ piece ++ replace_loop fuel (d ∷ del) to s
unfolding implode cut_loop replace_loop
replace_loop-implode zero d del to piece s h = refl
replace_loop-implode (suc fuel) d del to piece [] h = refl
replace_loop-implode (suc fuel) d del to piece (c ∷ s) h =
    elim (Bool-cases (matches (d ∷ del) (c ∷ s))) [
      | inl hit ↦
          rw (hit, cut_loop, replace_loop)
            (rw
              (
                rest-pieces fuel (d ∷ del) [] (drop (length del) s) to,
                replace_loop-implode fuel d del to [] (drop (length del) s)
                    (omega (arith, length-drop (length del) s)),
              )
              (ap (λ n. piece ++ (to ++ replace_loop fuel (d ∷ del) to (drop n (c ∷ s))))
                (sym (skip-cons d del))))
      | inr miss ↦
          rw (miss, cut_loop, replace_loop)
            (replace_loop-implode fuel d del to (piece ++ c ∷ []) s (omega arith)
              ∙ append_assoc piece (c ∷ []) (replace_loop fuel (d ∷ del) to s))
    ]

unreplaced :
    (fuel : ℕ) (del to s : Bytes)
    → replace_count fuel del s ≡ 0
    → length s ≤ fuel
    → replace_loop fuel del to s ≡ s
unfolding replace_count replace_loop
unreplaced zero del to [] e h = refl
unreplaced zero del to (c ∷ s) e h = absurd (omega arith)
unreplaced (suc fuel) del to [] e h = refl
unreplaced (suc fuel) del to (c ∷ s) e h = elim (Bool-cases (matches del (c ∷ s))) [
  | inl hit ↦ absurd (suc_ne (rw (hit, replace_count) at e))
  | inr miss ↦
      rw (miss, replace_loop)
        (ap (◌∷◌ c) (unreplaced fuel del to s (rw (miss, replace_count) at e) (omega arith)))
]

replaced :
    (str del to : Bytes)
    → del ≢ []
    → string_replace str del to ≡ implode (items (pieces str del)) to
unfolding string_replace pieces
replaced str [] to h = absurd (h refl)
replaced str (d ∷ del) to h =
    let e = replace_loop-implode (length str) d del to [] str (omega arith) in
    elim (Bool-cases (replace_count (length str) (d ∷ del) str == 0)) [
      | inl none_there ↦
          rw (none_there, string_replace)
            (sym (e ∙ unreplaced (length str) (d ∷ del) to str (ground arith) (omega arith)))
      | inr some_there ↦ rw (some_there, string_replace) (sym e)
    ]

-- Where cutting a string at a delimiter that is not empty is no error (about an array of more than
-- 5000 pieces), replacing the delimiter is cutting and joining the pieces with the replacement.
pub string_replace-implode-explode :
    (batch_mode : Bool) (str del to : Bytes) (v : List Bytes)
    → del ≢ []
    → explode batch_mode str del ≡ some v
    → string_replace str del to ≡ implode (items v) to
unfolding explode
string_replace-implode-explode batch_mode str del to v h e =
    elim (Bool-cases (array_fits batch_mode (explode_size str del))) [
      | inl fits ↦ replaced str del to h ∙ ap (λ w. implode (items w) to) (some_inj (rw fits at e))
      | inr large ↦ absurd (none_ne_some (rw large at e))
    ]
