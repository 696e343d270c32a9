-- ===== src/Strings/Chains.antt =====
-- One chain of the table of src/stralloc.c: a string is taken out of it.
use lpc.Base.{
  ℕ, ◌<◌, ◌≡◌, ◌≢◌, refl, sym, ap, ◌∙◌, Bool, true, false, Option, none, some, List, [], ◌∷◌, ◌==◌,
  if◌then◌else◌, All, arith, inl, inr, Bool-cases, Option-cases, subst, some_inj, none_ne_some, ◌↔◌,
  ◌⊎◌,
}
use lpc.Strings.{Shared, same_bytes, unlink, by_bytes, by_address, str_hash}

pub same_bytes-eq : (s t : List ℕ) → same_bytes s t ≡ true → s ≡ t
unfolding same_bytes
same_bytes-eq [] [] h = refl
same_bytes-eq [] (d ∷ t) h = absurd (ground arith)
same_bytes-eq (c ∷ s) [] h = absurd (ground arith)
same_bytes-eq (c ∷ s) (d ∷ t) h = ground (arith, same_bytes-eq s t)

pub same_bytes_refl : (s : List ℕ) → same_bytes s s ≡ true
unfolding same_bytes
same_bytes_refl [] = refl
same_bytes_refl (c ∷ s) = ground (arith, same_bytes_refl s)

pub same_bytes_iff : (s t : List ℕ) → (same_bytes s t ≡ true) ↔ (s ≡ t)
same_bytes_iff s t = (same_bytes-eq s t, λ e. rw e (same_bytes_refl t))

-- The string of a chain with the given bytes.
unfoldable pub entry : List ℕ → List Shared → Option Shared
entry b [] = none
entry b (x ∷ l) = if by_bytes b x then some x else entry b l

-- No two strings of a chain have the same bytes.
abbrev pub Differ : List ℕ → List Shared → Type 0
Differ b l = All (λ x. same_bytes x.str b ≡ false) l

abbrev pub IsDistinct : List Shared → Type 0
IsDistinct [] = Unit {0}
IsDistinct (x ∷ l) = Differ x.str l × IsDistinct l

-- What `contents` says of addresses, and the hash of chain `h`, hold of a string in it.
pub record IsShared (contents : ℕ → List ℕ) (next h : ℕ) (x : Shared) : Type 0 where
  pub hashed : str_hash x.str ≡ h
  pub content : contents x.address ≡ x.str
  pub given : x.address < next
  pub used : 0 < x.refs

-- The chain without the string `e`, which has the bytes `b`.
pub record Unlinks (b : List ℕ) (l : List Shared) (e : Shared) (rest : List Shared) : Type 0 where
  pub present : entry b l ≡ some e
  pub bytes : e.str ≡ b
  pub differ : Differ b rest
  pub distinct : IsDistinct rest
  pub others : (c : List ℕ) → c ≢ b → entry c rest ≡ entry c l

pub entry-str : (b : List ℕ) (l : List Shared) (e : Shared) → entry b l ≡ some e → e.str ≡ b
unfolding entry
entry-str b [] e h = absurd (ground arith)
entry-str b (x ∷ l) e h = ground (arith, entry-str b l e, same_bytes_iff x.str b)

pub same_bytes-false : (s t : List ℕ) → s ≢ t → same_bytes s t ≡ false
same_bytes-false s t h = elim (Bool-cases (same_bytes s t)) [
  | inl same ↦ absurd (h (same_bytes-eq s t same))
  | inr other ↦ other
]

pub entry-Differ : (b : List ℕ) (l : List Shared) → Differ b l → entry b l ≡ none
unfolding entry
entry-Differ b [] h = refl
entry-Differ b (x ∷ l) h = ground (arith, entry-Differ b l h.1)

-- What holds of a chain holds of the string that is taken out and of the rest.
pub unlink-All {κ} :
    (P : Shared → Type κ) (test : Shared → Bool) (l : List Shared) (r : Shared × List Shared)
    → unlink test l ≡ some r
    → All P l
    → P r.0 × All P r.1
unfolding unlink
unlink-All P test [] r h a = cc
unlink-All P test (x ∷ l) r h a = elim (Bool-cases (test x)) [
  | inl hit ↦
      subst (λ (q : Shared × List Shared). P q.0 × All P q.1) (some_inj (rw (hit, unlink) at h)) a
  | inr miss ↦ elim (Option-cases (unlink test l)) [
    | inl e ↦ absurd (none_ne_some (rw (miss, unlink, e) at h))
    | inr (q, e) ↦
        let b = unlink-All P test l q e a.1 in
        subst (λ (q' : Shared × List Shared). P q'.0 × All P q'.1)
          (some_inj (rw (miss, unlink, e) at h)) (b.0, (a.0, b.1))
  ]
]

pub unlink-Unlinks :
    (b : List ℕ) (l : List Shared)
    → IsDistinct l
    → ((unlink (by_bytes b) l ≡ none) × Differ b l)
      ⊎ ((e : Shared) × (rest : List Shared) × (unlink (by_bytes b) l ≡ some (e, rest))
          × Unlinks b l e rest)
unfolding unlink entry
unlink-Unlinks b [] d = inl (refl, tt)
unlink-Unlinks b (x ∷ l) d = elim (Bool-cases (by_bytes b x)) [
  | inl hit ↦ inr (
    x,
    l,
    rw (hit, unlink),
    record {
      present = rw (hit, entry);
      bytes = same_bytes-eq x.str b hit;
      differ = subst (λ c. Differ c l) (same_bytes-eq x.str b hit) d.0;
      distinct = d.1;
      others = λ c ne.
          let e : by_bytes c x ≡ false =
            same_bytes-false x.str c (λ p. ne (sym p ∙ same_bytes-eq x.str b hit)) in
          rw e;
    },
  )
  | inr miss ↦ elim (unlink-Unlinks b l d.1) [
    | inl (e, differ) ↦ inl (rw (miss, unlink, e), (miss, differ))
    | inr (e, rest, run, u) ↦ inr (
      e,
      x ∷ rest,
      rw (miss, unlink, run),
      record {
        present = rw (miss, entry) u.present;
        bytes = u.bytes;
        differ = (miss, u.differ);
        distinct = (
          (unlink-All (λ y. same_bytes y.str x.str ≡ false) (by_bytes b) l (e, rest) run d.0).1,
          u.distinct,
        );
        others = λ c ne. ground (arith, u.others c ne);
      },
    )
  ]
]

-- The search by the address of a live string goes the way of the search by its bytes.
pub unlink-by_address :
    (contents : ℕ → List ℕ) (next h : ℕ) (l : List Shared) (e : Shared)
    → All (IsShared contents next h) l
    → contents e.address ≡ e.str
    → entry e.str l ≡ some e
    → unlink (by_address e.address) l ≡ unlink (by_bytes e.str) l
unfolding unlink entry
unlink-by_address contents next h [] e a c present = refl
unlink-by_address contents next h (x ∷ l) e a c present =
    elim (Bool-cases (x.address == e.address)) [
      | inl same ↦
          let s : x.str ≡ e.str = sym a.0.content ∙ (ap contents (ground arith) ∙ c) in
          let t : by_bytes e.str x ≡ true = (same_bytes_iff x.str e.str).1 s in rw (same, t, unlink)
      | inr other ↦ elim (Bool-cases (by_bytes e.str x)) [
        | inl hit ↦ absurd (differs other (some_inj (rw (hit, entry) at present)))
        | inr miss ↦
            rw (other, miss, unlink)
              (ap (λ o. elim o [ none ↦ none | some r ↦ some (r.0, x ∷ r.1) ])
                (unlink-by_address contents next h l e a.1 c (rw (miss, entry) at present)))
      ]
    ]
  where
    differs : x.address == e.address ≡ false → x ≡ e → ⊥
    differs o p = ground (arith, ap (λ (y : Shared). y.address) p)
