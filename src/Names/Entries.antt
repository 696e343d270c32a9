-- ===== src/Names/Entries.antt =====
-- A table of names of src/otable.c and src/more_hashes.c as a finite map from names to entries.
use lpc.Base.{
  ℕ, ◌≡◌, ◌≢◌, refl, sym, ap, ◌∙◌, subst, true, Option, none, some, List, ◌∷◌, ◌==◌, if◌then◌else◌,
  All, arith, inl, inr, Bool-cases, ==_iff, some_inj, none_ne_some,
}
use mathlib.Core.Path.{fun_ext}
use lpc.Strings.Chains.{same_bytes_iff, same_bytes-false}
use lpc.Names.{Named, Names, take_out, put_chain, name_hash, find_n, enter, behind, remove}
use lpc.Names.Chains.{
  entry, Differ, IsDistinct, TakesOut, take_out-TakesOut, take_out-All, entry-Differ,
}

module _ (size : ℕ) where
  -- The entry with the name `s`, if there is one.
  abbrev pub view : Names → List ℕ → Option Named
  view t s = entry s (t (name_hash size s))

  -- Every entry is in the chain of its hash, and no name stands in a chain twice.
  pub record IsValid (t : Names) : Type 0 where
    pub hashed : (h : ℕ) → All (λ x. name_hash size x.name ≡ h) (t h)
    pub distinct : (h : ℕ) → IsDistinct (t h)

  -- The table after an operation on the name `s`: well formed, with `now` under `s`, and the same
  -- entries under all other names.
  pub record Sets (t : Names) (s : List ℕ) (now : Option Named) (t' : Names) : Type 0 where
    pub valid : IsValid t'
    pub here : view t' s ≡ now
    pub others : (c : List ℕ) → c ≢ s → view t' c ≡ view t c

  -- A chain that replaces the one of `s` and differs from it at `s` alone.
  Sets-put_chain :
      (t : Names) (s : List ℕ) (l : List Named)
      → IsValid t
      → All (λ x. name_hash size x.name ≡ name_hash size s) l
      → IsDistinct l
      → ((c : List ℕ) → c ≢ s → entry c l ≡ entry c (t (name_hash size s)))
      → Sets t s (entry s l) (put_chain t (name_hash size s) l)
  Sets-put_chain t s l v a d e = record {
    valid = record {
      hashed = λ i. elim (Bool-cases (i == name_hash size s)) [
        | inl same ↦
            rw same
              (subst (λ j. All (λ x. name_hash size x.name ≡ j) l) (sym ((==_iff _ _).0 same)) a)
        | inr other ↦ rw other (v.hashed i)
      ];
      distinct = λ i. elim (Bool-cases (i == name_hash size s)) [
        | inl same ↦ rw same d
        | inr other ↦ rw other (v.distinct i)
      ];
    };
    here =
        let same : name_hash size s == name_hash size s ≡ true = (==_iff _ _).1 refl in
        rw same refl;
    others = λ c ne. elim (Bool-cases (name_hash size c == name_hash size s)) [
      | inl same ↦ rw same (e c ne ∙ ap (λ h. entry c (t h)) (sym ((==_iff _ _).0 same)))
      | inr other ↦ rw other
    ];
  }

  -- Looking a name up gives the entry under it and changes no entry of the table.
  pub record Finds (t : Names) (s : List ℕ) (r : Option Named × Names) : Type 0 where
    pub answer : r.0 ≡ view t s
    pub sets : Sets t s (view t s) r.1

  -- An entry that is taken out and put back at the head, or leaves.
  module _ (t : Names) (v : IsValid t) (s : List ℕ) (e : Named) (rest : List Named)
      (run : take_out s (t (name_hash size s)) ≡ some (e, rest))
      (u : TakesOut s (t (name_hash size s)) e rest) where
    kept :
        (name_hash size e.name ≡ name_hash size s)
        × All (λ x. name_hash size x.name ≡ name_hash size s) rest
    kept =
        take_out-All (λ x. name_hash size x.name ≡ name_hash size s) s _ (e, rest) run
          (v.hashed (name_hash size s))

    moved : Sets t s (some e) (put_chain t (name_hash size s) (e ∷ rest))
    unfolding entry
    moved =
        subst (λ n. Sets t s n (put_chain t (name_hash size s) (e ∷ rest)))
          (rw ((same_bytes_iff e.name s).1 u.bytes) refl)
          (Sets-put_chain t s (e ∷ rest) v kept
            (subst (λ c. Differ c rest) (sym u.bytes) u.differ, u.distinct)
            (λ c ne. rw (same_bytes-false e.name c (λ p. ne (sym p ∙ u.bytes))) (u.others c ne)))

    gone : Sets t s none (put_chain t (name_hash size s) rest)
    gone =
        subst (λ n. Sets t s n (put_chain t (name_hash size s) rest)) (entry-Differ s rest u.differ)
          (Sets-put_chain t s rest v kept.1 u.distinct u.others)

  fresh :
      (t : Names) (ob : Named)
      → IsValid t
      → Differ ob.name (t (name_hash size ob.name))
      → Sets t ob.name
          (some ob)
          (put_chain t (name_hash size ob.name) (ob ∷ t (name_hash size ob.name)))
  unfolding entry
  fresh t ob v d =
      let h = name_hash size ob.name in
      subst (λ n. Sets t ob.name n (put_chain t h (ob ∷ t h)))
        (rw ((same_bytes_iff ob.name ob.name).1 refl) refl)
        (Sets-put_chain t ob.name (ob ∷ t h) v (refl, v.hashed h) (d, v.distinct h)
          (λ c ne. rw (same_bytes-false ob.name c (λ p. ne (sym p))) refl))

  find_n-some :
      (t : Names) (s : List ℕ) (e : Named) (rest : List Named)
      → take_out s (t (name_hash size s)) ≡ some (e, rest)
      → find_n size t s ≡ (some e, put_chain t (name_hash size s) (e ∷ rest))
  unfolding find_n
  find_n-some t s e rest run = rw (run, find_n) refl

  find_n-none :
      (t : Names) (s : List ℕ)
      → take_out s (t (name_hash size s)) ≡ none
      → find_n size t s ≡ (none, t)
  unfolding find_n
  find_n-none t s run = rw (run, find_n) refl

  -- The chain that `remove` puts behind the one that it found.
  put_chain-behind :
      (t : Names) (h : ℕ) (e : Named) (rest : List Named)
      → put_chain (put_chain t h (e ∷ rest)) h (behind (put_chain t h (e ∷ rest) h))
        ≡ put_chain t h rest
  unfolding behind
  put_chain-behind t h e rest =
      let same : h == h ≡ true = (==_iff h h).1 refl in rw same (fun_ext (λ j. collapse j))
    where
      collapse :
          (j : ℕ)
          → (if j == h then rest else if j == h then e ∷ rest else t j)
            ≡ (if j == h then rest else t j)
      collapse j = ground arith

  -- `find_n` in a well formed table answers the entry under the name and leaves every name its entry.
  pub find_n-Finds : (t : Names) (s : List ℕ) → IsValid t → Finds t s (find_n size t s)
  unfolding find_n
  find_n-Finds t s v =
      elim (take_out-TakesOut s (t (name_hash size s)) (v.distinct (name_hash size s))) [
        | inl (run, d) ↦
            rw (run, find_n)
              (record {
                answer = sym (entry-Differ s _ d);
                sets = record { valid = v; here = refl; others = λ c ne. refl };
              })
        | inr (e, rest, run, u) ↦
            rw (run, find_n)
              (record { answer = sym u.present; sets = rw u.present (moved t v s e rest run u) })
      ]

  -- What entering an entry does: an error if there is one with its name.
  abbrev pub Enters : Names → Named → Option Names → Type 0
  Enters t ob none = (d : Named) × (view t ob.name ≡ some d)
  Enters t ob (some t') = (view t ob.name ≡ none) × Sets t ob.name (some ob) t'

  -- In a well formed table, entering fails exactly if the name is there already; else the entry is
  -- under its name, the other names have their entries, and the table stays well formed.
  pub enter-Enters : (t : Names) (ob : Named) → IsValid t → Enters t ob (enter size t ob)
  unfolding enter
  enter-Enters t ob v =
      elim (take_out-TakesOut ob.name (t (name_hash size ob.name)) (v.distinct _)) [
        | inl (run, d) ↦
            let f = find_n-none t ob.name run in
            rw (f, enter, f) (entry-Differ ob.name _ d, fresh t ob v d)
        | inr (e, rest, run, u) ↦
            let f = find_n-some t ob.name e rest run in rw (f, enter) (e, u.present)
      ]

  -- What removing an entry does: a fatal error if another entry or none is under its name.
  abbrev pub Removes : Names → Named → Option Names → Type 0
  Removes t ob none = (d : Named) → view t ob.name ≡ some d → d.ob ≢ ob.ob
  Removes t ob (some t') =
      ((d : Named) × (view t ob.name ≡ some d) × (d.ob ≡ ob.ob)) × Sets t ob.name none t'

  -- In a well formed table, removing succeeds exactly if the entry under the name is the given
  -- one; then the name is free, the other names have their entries, and the table stays well
  -- formed.
  pub remove-Removes : (t : Names) (ob : Named) → IsValid t → Removes t ob (remove size t ob)
  unfolding remove
  remove-Removes t ob v =
      elim (take_out-TakesOut ob.name (t (name_hash size ob.name)) (v.distinct _)) [
        | inl (run, d) ↦
            let f = find_n-none t ob.name run in
            rw (f, remove) (λ k p. absurd (none_ne_some (sym (entry-Differ ob.name _ d) ∙ p)))
        | inr (e, rest, run, u) ↦
            let f = find_n-some t ob.name e rest run in
            elim (Bool-cases (e.ob == ob.ob)) [
              | inl same ↦
                  rw (f, remove, same, f, put_chain-behind t (name_hash size ob.name) e rest)
                    ((e, u.present, (==_iff _ _).0 same), gone t v ob.name e rest run u)
              | inr other ↦
                  rw (f, remove, other)
                    (λ k p q.
                      ground (arith, ap (λ (y : Named). y.ob) (some_inj (sym u.present ∙ p))))
            ]
      ]
