-- ===== src/Names/Tables.antt =====
-- The two tables, of programs (src/otable.c) and of objects (src/more_hashes.c).
use lpc.Base.{
  ◌≡◌, ◌≢◌, refl, sym, ◌∙◌, subst, Option, none, some, List, if◌then◌else◌, inl, inr, Bool-cases,
  Option-cases, none_ne_some, ℕ,
}
use lpc.Strings.{same_bytes}
use lpc.Strings.Chains.{same_bytes_iff, same_bytes-eq}
use lpc.Names.{
  Named, Names, otable_size, ohash_size, enter_program_hash, remove_program_hash, find_obj_n,
  lookup_program_hash, find_hash_n, lookup_my_object_hash, enter_my_object_hash, enter, remove,
}
use lpc.Names.Entries.{
  view, IsValid, Sets, find_n-Finds, Enters, enter-Enters, Removes, remove-Removes,
}

-- Two operations on one name, the second of which restores what was under it.
restored :
    (size : ℕ) (t t' t'' : Names) (b : List ℕ) (now old : Option Named)
    → view size t b ≡ old
    → Sets size t b now t'
    → Sets size t' b old t''
    → (s : List ℕ) → view size t'' s ≡ view size t s
restored size t t' t'' b now old was h k s = elim (Bool-cases (same_bytes s b)) [
  | inl same ↦
      subst (λ c. view size t'' c ≡ view size t c) (sym (same_bytes-eq s b same)) (k.here ∙ sym was)
  | inr other ↦
      let ne : s ≢ b = λ p. absurd (cc ((same_bytes_iff s b).1 p, other)) in
      k.others s ne ∙ h.others s ne
]

-- In a well formed table of programs, a program with a new name is entered, and removing it leaves
-- every name the program that it had.
pub remove_program_hash-enter_program_hash :
    (t : Names) (ob : Named)
    → IsValid otable_size t
    → (lookup_program_hash t ob.name).0 ≡ none
    → (t' : Names) × (t'' : Names) × (enter_program_hash t ob ≡ some t')
      × (remove_program_hash t' ob ≡ some t'')
      × ((s : List ℕ) → (lookup_program_hash t'' s).0 ≡ (lookup_program_hash t s).0)
unfolding enter_program_hash remove_program_hash find_obj_n
remove_program_hash-enter_program_hash t ob v free = elim (Option-cases (enter otable_size t ob)) [
  | inl e ↦
      let h = subst (Enters otable_size t ob) e (enter-Enters otable_size t ob v) in
      absurd (none_ne_some (sym free ∙ ((find_n-Finds otable_size t ob.name v).answer ∙ h.1)))
  | inr (t', e) ↦
      let h = subst (Enters otable_size t ob) e (enter-Enters otable_size t ob v) in
      elim (Option-cases (remove otable_size t' ob)) [
        | inl e' ↦ absurd (
            subst (Removes otable_size t' ob) e' (remove-Removes otable_size t' ob h.1.valid) ob
              h.1.here refl)
        | inr (t'', e') ↦
            let k =
              subst (Removes otable_size t' ob) e' (remove-Removes otable_size t' ob h.1.valid) in
            (
              t',
              t'',
              e,
              e',
              λ s.
                  (find_n-Finds otable_size t'' s k.1.valid).answer
                  ∙ (restored otable_size t t' t'' ob.name (some ob) none h.0 h.1 k.1 s
                      ∙ sym (find_n-Finds otable_size t s v).answer),
            )
      ]
]

-- In a well formed table of objects, looking a name up after an object was entered gives that
-- object under its name, and what was there under the others.
pub lookup_my_object_hash-enter_my_object_hash :
    (t t' : Names) (ob : Named) (s : List ℕ)
    → IsValid ohash_size t
    → enter_my_object_hash t ob ≡ some t'
    → (lookup_my_object_hash t' s).0
      ≡ (if same_bytes s ob.name then some ob else (lookup_my_object_hash t s).0)
unfolding enter_my_object_hash find_hash_n
lookup_my_object_hash-enter_my_object_hash t t' ob s v e =
    let h = subst (Enters ohash_size t ob) e (enter-Enters ohash_size t ob v) in
    (find_n-Finds ohash_size t' s h.1.valid).answer ∙ elim (Bool-cases (same_bytes s ob.name)) [
      | inl same ↦ rw same (
          subst (λ c. view ohash_size t' c ≡ some ob) (sym (same_bytes-eq s ob.name same)) h.1.here)
      | inr other ↦
          let ne : s ≢ ob.name = λ p. absurd (cc ((same_bytes_iff s ob.name).1 p, other)) in
          rw other (h.1.others s ne ∙ sym (find_n-Finds ohash_size t s v).answer)
    ]
