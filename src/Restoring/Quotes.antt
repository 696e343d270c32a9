-- ===== src/Restoring/Quotes.antt =====
-- Strings in the text of src/save_objectII.c: what `save_string` writes, `restore_string` reads.
use lpc.Base.{
  ℕ, zero, suc, ◌≤◌, ◌<◌, ◌≡◌, ◌≢◌, refl, ap, ◌∙◌, some, [], ◌∷◌, ◌++◌, length, length-append, All,
  arith,
}
use mathlib.Core.List.{append_assoc}
use lpc.Text.{Bytes}
use lpc.Saving.{one_line, old_style, each, save_as_one_line, save_old_style, save_string}
use lpc.Restoring.{escape, more, unquote, restore_string}

abbrev pub NoZero : Bytes → Type 0
NoZero s = All (λ c. c ≢ 0) s

-- `f c` is read back as `c`, in one round.
abbrev IsRead : (ℕ → Bytes) → Type 0
IsRead f =
    (c fuel : ℕ) (t : Bytes)
    → c ≢ 0
    → unquote (suc fuel) (f c ++ t) ≡ more (c ∷ []) (unquote fuel t)

one_line-IsRead : IsRead one_line
unfolding one_line unquote escape
one_line-IsRead c fuel t h = ground arith

old_style-IsRead : IsRead old_style
unfolding old_style unquote escape
old_style-IsRead c fuel t h = ground arith

unquote-each :
    (f : ℕ → Bytes) (s t : Bytes) (fuel : ℕ)
    → IsRead f
    → NoZero s
    → length s < fuel
    → unquote fuel (each f s ++ (34 ∷ t)) ≡ some (s, t)
unfolding unquote
unquote-each f [] t zero r h lt = absurd (omega arith)
unquote-each f [] t (suc fuel) r h lt = refl
unquote-each f (c ∷ s) t zero r h lt = absurd (omega arith)
unquote-each f (c ∷ s) t (suc fuel) r h lt = rw (append_assoc (f c) (each f s) (34 ∷ t)) (
    r c fuel (each f s ++ (34 ∷ t)) h.0
    ∙ ap (more (c ∷ [])) (unquote-each f s t fuel r h.1 (omega arith)))

length-each :
    (f : ℕ → Bytes) (s : Bytes) → ((c : ℕ) → 0 < length (f c)) → length s ≤ length (each f s)
length-each f [] h = omega arith
length-each f (c ∷ s) h = omega (arith, length-append (f c) (each f s), h c, length-each f s h)

quoted :
    (f : ℕ → Bytes) (s t : Bytes)
    → IsRead f
    → ((c : ℕ) → 0 < length (f c))
    → NoZero s
    → restore_string ((34 ∷ each f s ++ (34 ∷ [])) ++ t) ≡ some (s, t)
unfolding restore_string
quoted f s t r p h =
    let enough : length s < length ((34 ∷ each f s ++ (34 ∷ [])) ++ t) = omega (
      arith,
      length-each f s p,
      length-append (each f s) (34 ∷ []),
      length-append (each f s ++ (34 ∷ [])) t,
    ) in
    ap (unquote (length ((34 ∷ each f s ++ (34 ∷ [])) ++ t))) (append_assoc (each f s) (34 ∷ []) t)
    ∙ unquote-each f s t (length ((34 ∷ each f s ++ (34 ∷ [])) ++ t)) r h enough

one_line-some : (c : ℕ) → 0 < length (one_line c)
unfolding one_line
one_line-some c = ground arith

old_style-some : (c : ℕ) → 0 < length (old_style c)
unfolding old_style
old_style-some c = ground arith

pub restore_string-one_line :
    (s t : Bytes) → NoZero s → restore_string (save_string save_as_one_line s ++ t) ≡ some (s, t)
unfolding save_string
restore_string-one_line s t h = quoted one_line s t one_line-IsRead one_line-some h

pub restore_string-old_style :
    (s t : Bytes) → NoZero s → restore_string (save_string save_old_style s ++ t) ≡ some (s, t)
unfolding save_string
restore_string-old_style s t h = quoted old_style s t old_style-IsRead old_style-some h
