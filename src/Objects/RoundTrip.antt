-- ===== src/Objects/RoundTrip.antt =====
-- An object that src/save_objectII.c saves and restores.
use lpc.Base.{
  ℕ, zero, suc, ◌+◌, ◌<◌, ◌≡◌, refl, sym, ap, ◌∙◌, Bool, true, false, List, [], ◌∷◌, ◌++◌, length,
  length-append, All, All-append, All-imp, arith, Bool-cases, inl, inr,
}
use mathlib.Core.List.{append_assoc}
use lpc.Text.{Bytes}
use lpc.Value.{Svalue}
use lpc.Strings.{same_bytes}
use lpc.Saving.{Value, Style, low_save_svalue}
use lpc.Restoring.{done}
use lpc.Restoring.Shapes.{Fits, arranged}
use lpc.Objects.{Variable, is_saved, save_object, restore_loop, restore_object}
use lpc.Objects.Lines.{IsName, restore_line, after, assign-found}

-- No two variables have the same name.
abbrev pub NamesDiffer : List Variable → Type 0
NamesDiffer [] = Unit {0}
NamesDiffer (p ∷ ps) = All (λ q. same_bytes p.name q.name ≡ false) ps × NamesDiffer ps

-- The variables that are saved have names and values that can be.
abbrev pub CanSave : Style → List Variable → List Value → Type 0
CanSave style (p ∷ ps) (v ∷ vs) =
    (is_saved p ≡ true → IsName p.name × Fits style v) × CanSave style ps vs
CanSave style _ _ = Unit {0}

-- The values of the variables after `vs` were saved and restored over `ws`.
abbrev pub after_all : (Value → Value) → List Variable → List Value → List Value → List Value
after_all back (p ∷ ps) (v ∷ vs) (w ∷ ws) = after back p v w ∷ after_all back ps vs ws
after_all back _ _ _ = []

module _ (style : Style) (as_svalue : Value → Svalue) (batch_mode : Bool) where
  step_line :
      (pre ps : List Variable) (p : Variable) (us vs ws : List Value) (v w : Value) (fuel : ℕ)
      → All (λ q. same_bytes q.name p.name ≡ false) pre
      → length us ≡ length pre
      → is_saved p ≡ true
      → IsName p.name × Fits style v
      → restore_loop as_svalue batch_mode
          (suc fuel)
          (pre ++ (p ∷ ps))
          (us ++ (w ∷ ws))
          (save_object style (p ∷ ps) (v ∷ vs))
        ≡ restore_loop as_svalue batch_mode fuel
            (pre ++ (p ∷ ps))
            (us ++ (after (arranged as_svalue) p v w ∷ ws))
            (save_object style ps vs)
  unfolding save_object
  step_line pre ps p us vs ws v w fuel h e s c =
      rw s (
        restore_line style as_svalue batch_mode fuel (pre ++ (p ∷ ps)) (us ++ (w ∷ ws)) p.name v
          (save_object style ps vs) c.0 c.1)
      ∙ ap
          (λ values.
            restore_loop as_svalue batch_mode fuel (pre ++ (p ∷ ps)) values
              (save_object style ps vs))
          (assign-found (arranged as_svalue) pre ps p us ws v w h e s)

  loop_end :
      (ps : List Variable) (values : List Value) (fuel : ℕ)
      → restore_loop as_svalue batch_mode (suc fuel) ps values [] ≡ done values []
  unfolding restore_loop
  loop_end ps values fuel = refl

  shift :
      (pre ps : List Variable) (p : Variable) (us ws rest : List Value) (x : Value) (t : Bytes)
      (fuel : ℕ)
      → restore_loop as_svalue batch_mode fuel ((pre ++ (p ∷ [])) ++ ps) ((us ++ (x ∷ [])) ++ ws) t
        ≡ done ((us ++ (x ∷ [])) ++ rest) []
      → restore_loop as_svalue batch_mode fuel (pre ++ (p ∷ ps)) (us ++ (x ∷ ws)) t
        ≡ done (us ++ (x ∷ rest)) []
  shift pre ps p us ws rest x t fuel h =
      rw (append_assoc pre (p ∷ []) ps, append_assoc us (x ∷ []) ws, append_assoc us (x ∷ []) rest)
        at h

  length-line :
      (p : Variable) (ps : List Variable) (v : Value) (vs : List Value)
      → is_saved p ≡ true
      → length (save_object style ps vs) < length (save_object style (p ∷ ps) (v ∷ vs))
  unfolding save_object
  length-line p ps v vs s = rw s (
      omega (
        arith,
        length-append p.name (32 ∷ (low_save_svalue style v ++ (10 ∷ save_object style ps vs))),
        length-append (low_save_svalue style v) (10 ∷ save_object style ps vs),
      ))

  not_saved :
      (p : Variable) (ps : List Variable) (v : Value) (vs : List Value)
      → is_saved p ≡ false
      → save_object style (p ∷ ps) (v ∷ vs) ≡ save_object style ps vs
  unfolding save_object
  not_saved p ps v vs s = rw s refl

  -- The variables of `pre` are done.
  lines :
      (todo pre : List Variable) (us vs ws : List Value) (fuel : ℕ)
      → length us ≡ length pre
      → length vs ≡ length todo
      → length ws ≡ length todo
      → All (λ q. All (λ r. same_bytes q.name r.name ≡ false) todo) pre
      → NamesDiffer todo
      → CanSave style todo vs
      → length (save_object style todo vs) < fuel
      → restore_loop as_svalue batch_mode fuel (pre ++ todo) (us ++ ws) (save_object style todo vs)
        ≡ done (us ++ after_all (arranged as_svalue) todo vs ws) []
  unfolding save_object
  lines todo pre us vs ws zero e e' e'' h d c f = absurd (omega arith)
  lines [] pre us vs (w ∷ ws) (suc fuel) e e' e'' h d c f = absurd (omega arith)
  lines [] pre us vs [] (suc fuel) e e' e'' h d c f = loop_end (pre ++ []) (us ++ []) fuel
  lines (p ∷ ps) pre us [] ws (suc fuel) e e' e'' h d c f = absurd (omega arith)
  lines (p ∷ ps) pre us (v ∷ vs) [] (suc fuel) e e' e'' h d c f = absurd (omega arith)
  lines (p ∷ ps) pre us (v ∷ vs) (w ∷ ws) (suc fuel) e e' e'' h d c f =
      let back = arranged as_svalue in
      let x = after back p v w in
      let others =
        All-append (λ q. All (λ r. same_bytes q.name r.name ≡ false) ps) pre (p ∷ [])
          (All-imp (λ q k. k.1) pre h) (d.0, tt) in
      let lengths : length (us ++ (x ∷ [])) ≡ length (pre ++ (p ∷ [])) =
        omega (arith, length-append us (x ∷ []), length-append pre (p ∷ [])) in
      elim (Bool-cases (is_saved p)) [
        | inl s ↦
            step_line pre ps p us vs ws v w fuel (All-imp (λ q k. k.0) pre h) e s (c.0 s)
            ∙ shift pre ps p us ws (after_all back ps vs ws) x (save_object style ps vs) fuel (
                lines ps (pre ++ (p ∷ [])) (us ++ (x ∷ [])) vs ws fuel lengths (omega arith)
                  (omega arith) others d.1 c.1 (omega (arith, length-line p ps v vs s)))
        | inr s ↦
            let stays : x ≡ w = rw s refl in
            let run = restore_loop as_svalue batch_mode (suc fuel) (pre ++ (p ∷ ps)) in
            let same = not_saved p ps v vs s in
            ap (run (us ++ (w ∷ ws))) same
            ∙ ap (λ y. run (us ++ (y ∷ ws)) (save_object style ps vs)) (sym stays)
            ∙ shift pre ps p us ws (after_all back ps vs ws) x (save_object style ps vs) (suc fuel)
                (lines ps (pre ++ (p ∷ [])) (us ++ (x ∷ [])) vs ws (suc fuel) lengths (omega arith)
                  (omega arith) others d.1 c.1 (omega (arith, f, ap length same)))
      ]

  -- An object of a program whose variables have different names is saved with the values `vs`, and
  -- later, when it has the values `ws`, it is restored. Then each saved variable has its saved value
  -- again, as `restore_svalue` reads it, unless the type of the variable is another; static variables
  -- keep the value of `ws`. The saved names and values are such as can be saved.
  pub restore_object-save_object :
      (ps : List Variable) (vs ws : List Value)
      → length vs ≡ length ps
      → length ws ≡ length ps
      → NamesDiffer ps
      → CanSave style ps vs
      → restore_object as_svalue batch_mode ps ws (save_object style ps vs)
        ≡ done (after_all (arranged as_svalue) ps vs ws) []
  unfolding restore_object
  restore_object-save_object ps vs ws e e' d c =
      lines ps [] [] vs ws (length (save_object style ps vs) + 1) refl e e' tt d c (omega arith)
