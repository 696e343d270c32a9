-- ===== src/Names/Chains.antt =====
-- One chain of a table of names of src/otable.c: an entry is taken out of it.
use lpc.Base.{
  ℕ, ◌≡◌, ◌≢◌, refl, sym, ◌∙◌, false, Option, none, some, List, [], ◌∷◌, if◌then◌else◌, All, arith,
  inl, inr, Bool-cases, Option-cases, subst, some_inj, none_ne_some, ◌⊎◌,
}
use lpc.Strings.{same_bytes}
use lpc.Strings.Chains.{same_bytes_iff, same_bytes-eq, same_bytes-false}
use lpc.Names.{Named, take_out}

-- The entry of a chain with the given name.
unfoldable pub entry : List ℕ → List Named → Option Named
entry b [] = none
entry b (x ∷ l) = if same_bytes x.name b then some x else entry b l

-- No two entries of a chain have the same name.
abbrev pub Differ : List ℕ → List Named → Type 0
Differ b l = All (λ x. same_bytes x.name b ≡ false) l

abbrev pub IsDistinct : List Named → Type 0
IsDistinct [] = Unit {0}
IsDistinct (x ∷ l) = Differ x.name l × IsDistinct l

-- The chain without the entry `e`, which has the name `b`.
pub record TakesOut (b : List ℕ) (l : List Named) (e : Named) (rest : List Named) : Type 0 where
  pub present : entry b l ≡ some e
  pub bytes : e.name ≡ b
  pub differ : Differ b rest
  pub distinct : IsDistinct rest
  pub others : (c : List ℕ) → c ≢ b → entry c rest ≡ entry c l

pub entry-name : (b : List ℕ) (l : List Named) (e : Named) → entry b l ≡ some e → e.name ≡ b
unfolding entry
entry-name b [] e h = absurd (ground arith)
entry-name b (x ∷ l) e h = ground (arith, entry-name b l e, same_bytes_iff x.name b)

pub entry-Differ : (b : List ℕ) (l : List Named) → Differ b l → entry b l ≡ none
unfolding entry
entry-Differ b [] h = refl
entry-Differ b (x ∷ l) h = ground (arith, entry-Differ b l h.1)

-- What holds of a chain holds of the entry that is taken out and of the rest.
pub take_out-All {κ} :
    (P : Named → Type κ) (s : List ℕ) (l : List Named) (r : Named × List Named)
    → take_out s l ≡ some r
    → All P l
    → P r.0 × All P r.1
unfolding take_out
take_out-All P s [] r h a = cc
take_out-All P s (x ∷ l) r h a = elim (Bool-cases (same_bytes x.name s)) [
  | inl hit ↦
      subst (λ (q : Named × List Named). P q.0 × All P q.1) (some_inj (rw (hit, take_out) at h)) a
  | inr miss ↦ elim (Option-cases (take_out s l)) [
    | inl e ↦ absurd (none_ne_some (rw (miss, take_out, e) at h))
    | inr (q, e) ↦
        let b = take_out-All P s l q e a.1 in
        subst (λ (q' : Named × List Named). P q'.0 × All P q'.1)
          (some_inj (rw (miss, take_out, e) at h)) (b.0, (a.0, b.1))
  ]
]

pub take_out-TakesOut :
    (b : List ℕ) (l : List Named)
    → IsDistinct l
    → ((take_out b l ≡ none) × Differ b l)
      ⊎ ((e : Named) × (rest : List Named) × (take_out b l ≡ some (e, rest)) × TakesOut b l e rest)
unfolding take_out entry
take_out-TakesOut b [] d = inl (refl, tt)
take_out-TakesOut b (x ∷ l) d = elim (Bool-cases (same_bytes x.name b)) [
  | inl hit ↦ inr (
    x,
    l,
    rw (hit, take_out),
    record {
      present = rw (hit, entry);
      bytes = same_bytes-eq x.name b hit;
      differ = subst (λ c. Differ c l) (same_bytes-eq x.name b hit) d.0;
      distinct = d.1;
      others = λ c ne.
          let e : same_bytes x.name c ≡ false =
            same_bytes-false x.name c (λ p. ne (sym p ∙ same_bytes-eq x.name b hit)) in
          rw e;
    },
  )
  | inr miss ↦ elim (take_out-TakesOut b l d.1) [
    | inl (e, differ) ↦ inl (rw (miss, take_out, e), (miss, differ))
    | inr (e, rest, run, u) ↦ inr (
      e,
      x ∷ rest,
      rw (miss, take_out, run),
      record {
        present = rw (miss, entry) u.present;
        bytes = u.bytes;
        differ = (miss, u.differ);
        distinct = (
          (take_out-All (λ y. same_bytes y.name x.name ≡ false) b l (e, rest) run d.0).1,
          u.distinct,
        );
        others = λ c ne. ground (arith, u.others c ne);
      },
    )
  ]
]
