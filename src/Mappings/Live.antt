-- ===== src/Mappings/Live.antt =====
-- `check_alist_for_destruct` of src/array.c, and the live entries of a mapping.
use lpc.Base.{
  ℕ, All, zero, suc, ◌+◌, ◌≤◌, ◌≡◌, refl, ap, sym, ◌∙◌, Bool, true, false, List, [], ◌∷◌, ◌++◌, map,
  length, length-append, arith, if◌then◌else◌, Bool-cases, inl, inr, ltb, ℤ,
}
use lpc.Value.{Svalue, t_object, t_function}
use lpc.Arrays.Destructed.{IsTyped, stays, differs, check_vector_for_destruct-Checks}
use lpc.Alist.{item, donk_alist_item, mapping, remove_at}
use lpc.Arrays.{is_destructed, freed}
use lpc.Mappings.{
  AlistTypes, has_objects, donk_loop, check_plain, check_own, check_keys, check_parts, check_rest,
  check_alist_for_destruct,
}

module _ (destructed : ℤ → Bool) where
  -- The keys that are live, and the values in their places.
  unfoldable pub live_keys : List Svalue → List Svalue
  live_keys [] = []
  live_keys (k ∷ ks) = let r = live_keys ks in if is_destructed destructed k then r else k ∷ r

  unfoldable pub live_values : List Svalue → List Svalue → List Svalue
  live_values (k ∷ ks) (v ∷ vs) =
      let r = live_values ks vs in if is_destructed destructed k then r else v ∷ r
  live_values _ _ = []

item-append :
    (p : List Svalue) (k : Svalue) (ks : List Svalue) → item (p ++ (k ∷ ks)) (length p) ≡ k
item-append [] k ks = refl
item-append (x ∷ p) k ks = item-append p k ks

remove_at-append :
    (p : List Svalue) (k : Svalue) (ks : List Svalue)
    → remove_at (length p) (p ++ (k ∷ ks)) ≡ p ++ ks
unfolding remove_at
remove_at-append [] k ks = refl
remove_at-append (x ∷ p) k ks = ap (◌∷◌ x) (remove_at-append p k ks)

snoc-append :
    (p : List Svalue) (k : Svalue) (ks : List Svalue) → (p ++ (k ∷ [])) ++ ks ≡ p ++ (k ∷ ks)
snoc-append [] k ks = refl
snoc-append (x ∷ p) k ks = ap (◌∷◌ x) (snoc-append p k ks)

not_destructed :
    (destructed : ℤ → Bool) (types : ℕ → Bool) (x : Svalue)
    → has_objects types ≡ false
    → types x.type ≡ true
    → is_destructed destructed x ≡ false
not_destructed destructed types x g h =
    rw
      (
        differs destructed types x.type t_object h (ground arith),
        differs destructed types x.type t_function h (ground arith),
      )
      refl

module _ (destructed : ℤ → Bool) (d : Svalue) where
  donk_loop_lem :
      (ks vs p q : List Svalue) (fuel : ℕ)
      → length vs ≡ length ks
      → length q ≡ length p
      → length ks ≤ fuel
      → donk_loop destructed fuel (length p) (mapping (p ++ ks) (q ++ vs) d)
        ≡ mapping (p ++ live_keys destructed ks) (q ++ live_values destructed ks vs) d
  unfolding donk_loop live_keys live_values donk_alist_item
  donk_loop_lem [] [] p q zero h g le = refl
  donk_loop_lem [] [] p q (suc fuel) h g le =
      let e : ltb (length p) (length (p ++ [])) ≡ false = ground (arith, length-append p []) in
      rw (e, donk_loop) refl
  donk_loop_lem [] (v ∷ vs) p q fuel h g le = absurd (omega arith)
  donk_loop_lem (k ∷ ks) [] p q fuel h g le = absurd (omega arith)
  donk_loop_lem (k ∷ ks) (v ∷ vs) p q zero h g le = absurd (omega arith)
  donk_loop_lem (k ∷ ks) (v ∷ vs) p q (suc fuel) h g le =
      let lt : ltb (length p) (length (p ++ (k ∷ ks))) ≡ true =
        ground (arith, length-append p (k ∷ ks)) in
      let here = ap (is_destructed destructed) (item-append p k ks) in
      elim (Bool-cases (is_destructed destructed k)) [
        | inl dead ↦
            let gone : remove_at (length p) (q ++ (v ∷ vs)) ≡ q ++ vs =
              ap (λ n. remove_at n (q ++ (v ∷ vs))) (sym g) ∙ remove_at-append q v vs in
            rw (lt, donk_loop, here ∙ dead, dead, remove_at-append p k ks, gone)
              (donk_loop_lem ks vs p q fuel (omega arith) g (omega arith))
        | inr live ↦
            let ih =
              donk_loop_lem ks vs (p ++ (k ∷ [])) (q ++ (v ∷ [])) fuel (omega arith)
                (omega (arith, g, length-append p (k ∷ []), length-append q (v ∷ [])))
                (omega arith) in
            let len : length (p ++ (k ∷ [])) ≡ length p + 1 =
              omega (arith, length-append p (k ∷ [])) in
            rw (lt, donk_loop, here ∙ live, live)
              (rw
                (
                  len,
                  snoc-append p k ks,
                  snoc-append q v vs,
                  snoc-append p k (live_keys destructed ks),
                  snoc-append q v (live_values destructed ks vs),
                )
                at ih)
      ]

  live_values-All :
      (P : Svalue → Type 0) (ks vs : List Svalue) → All P vs → All P (live_values destructed ks vs)
  unfolding live_values
  live_values-All P [] vs h = tt
  live_values-All P (k ∷ ks) [] h = tt
  live_values-All P (k ∷ ks) (v ∷ vs) h = elim (Bool-cases (is_destructed destructed k)) [
    | inl e ↦ rw e (live_values-All P ks vs h.1)
    | inr e ↦ rw e (h.0, live_values-All P ks vs h.1)
  ]

  -- Without objects and functions among the keys all entries are live.
  all_live :
      (types : ℕ → Bool) (ks vs : List Svalue)
      → has_objects types ≡ false
      → IsTyped (record { item = ks; types = types })
      → length vs ≡ length ks
      → (live_keys destructed ks ≡ ks) × (live_values destructed ks vs ≡ vs)
  unfolding live_keys live_values
  all_live types [] [] g h e = (refl, refl)
  all_live types [] (v ∷ vs) g h e = absurd (omega arith)
  all_live types (k ∷ ks) [] g h e = absurd (omega arith)
  all_live types (k ∷ ks) (v ∷ vs) g h e =
      let rest = all_live types ks vs g h.1 (omega arith) in
      rw (not_destructed destructed types k g h.0) (ap (◌∷◌ k) rest.0, ap (◌∷◌ v) rest.1)

  check_own_lem :
      (types : ℕ → Bool) (ks vs : List Svalue)
      → types d.type ≡ true
      → check_own destructed types (mapping ks vs d) ≡ mapping ks vs (freed destructed d)
  unfolding check_own check_plain
  check_own_lem types ks vs h = elim (Bool-cases (has_objects types)) [
    | inl e ↦ rw e refl
    | inr e ↦ rw (e, stays destructed types d (ground arith) (ground arith) h) refl
  ]

  check_keys_lem :
      (types : ℕ → Bool) (ks vs : List Svalue)
      → IsTyped (record { item = ks; types = types })
      → length vs ≡ length ks
      → check_keys destructed types (mapping ks vs d)
        ≡ mapping (live_keys destructed ks) (live_values destructed ks vs) d
  unfolding check_keys
  check_keys_lem types ks vs h e = elim (Bool-cases (has_objects types)) [
    | inl g ↦ rw g (donk_loop_lem ks vs [] [] (length ks) e refl (omega arith))
    | inr g ↦ let l = all_live types ks vs g h e in rw (g, l.0, l.1) refl
  ]

-- The sets of types cover the items: the default, which stands in the list itself, the keys and the
-- values.
pub record Covers (t : AlistTypes) (ks vs : List Svalue) (d : Svalue) : Type 0 where
  pub default_typed : t.own d.type ≡ true
  pub keys_typed : IsTyped (record { item = ks; types = t.of_part 0 })
  pub values_typed : IsTyped (record { item = vs; types = t.of_part 1 })

-- In a mapping with as many values as keys, where the sets of types cover the items, the entries of
-- destructed keys are gone after the check, the others keep their order, and destructed values and a
-- destructed default are freed.
pub check_alist_for_destruct_lem :
    (destructed : ℤ → Bool) (t : AlistTypes) (d : Svalue) (ks vs : List Svalue)
    → length vs ≡ length ks
    → Covers t ks vs d
    → check_alist_for_destruct destructed t (mapping ks vs d)
      ≡ mapping
          (live_keys destructed ks)
          (map (freed destructed) (live_values destructed ks vs))
          (freed destructed d)
unfolding check_alist_for_destruct check_rest check_parts
check_alist_for_destruct_lem destructed t d ks vs h c =
    let typed =
      live_values-All destructed d (λ x. t.of_part 1 x.type ≡ true) ks vs c.values_typed in
    rw
      (
        check_own_lem destructed d t.own ks vs c.default_typed,
        check_keys_lem destructed (freed destructed d) (t.of_part 0) ks vs c.keys_typed h,
        (check_vector_for_destruct-Checks destructed
            (record { item = live_values destructed ks vs; types = t.of_part 1 }) typed).items,
      )
      refl
