-- ===== src/Strings/Sharing.antt =====
-- `make_shared_string` of src/stralloc.c and the finite map of the table.
use lpc.Base.{
  All-imp, ℕ, ◌+◌, ◌<◌, ◌≡◌, ◌≢◌, refl, sym, ap, ◌∙◌, subst, Bool, false, Option, none, some, List,
  ◌∷◌, ◌==◌, if◌then◌else◌, All, arith, inl, inr, some_inj, none_ne_some,
}
use lpc.Strings.{
  Shared, Table, str_hash, unlink, by_bytes, put, find_in, alloc_new_string, make_shared_string,
}
use lpc.Strings.Chains.{
  entry, Differ, IsShared, Unlinks, unlink-Unlinks, unlink-All, same_bytes_iff, entry-Differ,
  same_bytes-false,
}
use lpc.Strings.View.{
  view, IsValid, reference-put, view-put_self, view-put, IsValid-put, same_index,
}

pub find_in-some :
    (test : Shared → Bool) (t : Table) (h : ℕ) (e : Shared) (rest : List Shared)
    → unlink test (t.base_table h) ≡ some (e, rest)
    → find_in test t h ≡ (some e, put t h (e ∷ rest))
unfolding find_in
find_in-some test t h e rest run = rw (run, find_in)

find_in-none :
    (test : Shared → Bool) (t : Table) (h : ℕ)
    → unlink test (t.base_table h) ≡ none
    → find_in test t h ≡ (none, t)
unfolding find_in
find_in-none test t h run = rw (run, find_in)

-- The table after an operation on the bytes `b`: well formed, with `now` under `b`, and the same
-- strings under all other bytes.
pub record Sets (t : Table) (b : List ℕ) (now : Option Shared) (t' : Table) : Type 0 where
  pub valid : IsValid t'
  pub here : view t' b ≡ now
  pub others : (c : List ℕ) → c ≢ b → view t' c ≡ view t c

-- A string that was taken out of its chain is put back at the head, changed or not at all.
module _ (t : Table) (v : IsValid t) (b : List ℕ) (e : Shared) (rest : List Shared)
    (run : unlink (by_bytes b) (t.base_table (str_hash b)) ≡ some (e, rest))
    (u : Unlinks b (t.base_table (str_hash b)) e rest) where
  pub kept :
      IsShared v.contents t.next_address (str_hash b) e
      × All (IsShared v.contents t.next_address (str_hash b)) rest
  kept =
      unlink-All (IsShared v.contents t.next_address (str_hash b)) (by_bytes b) _ (e, rest) run
        (v.shared (str_hash b))

  pub back :
      (refs : ℕ)
      → 0 < refs
      → Sets t b
          (some (record e { refs = refs }))
          (put t (str_hash b) (record e { refs = refs } ∷ rest))
  unfolding entry
  back refs pos = record {
    valid =
        IsValid-put t (str_hash b) (record e { refs = refs } ∷ rest) v
          (
            record {
              hashed = kept.0.hashed;
              content = kept.0.content;
              given = kept.0.given;
              used = pos;
            },
            kept.1,
          )
          (subst (λ c. Differ c rest) (sym u.bytes) u.differ, u.distinct);
    here =
        view-put_self t b (record e { refs = refs } ∷ rest)
        ∙ rw ((same_bytes_iff e.str b).1 u.bytes);
    others = λ c ne.
        view-put t b c (record e { refs = refs } ∷ rest)
          (rw (same_bytes-false e.str c (λ p. ne (sym p ∙ u.bytes))) (u.others c ne));
  }

  pub gone : Sets t b none (put t (str_hash b) rest)
  gone = record {
    valid = IsValid-put t (str_hash b) rest v kept.1 u.distinct;
    here = view-put_self t b rest ∙ entry-Differ b rest u.differ;
    others = λ c ne. view-put t b c rest (u.others c ne);
  }

-- A new string at the address that is given out next.
module _ (t : Table) (v : IsValid t) (b : List ℕ) (d : Differ b (t.base_table (str_hash b))) where
  abbrev wider : Table
  wider = record t { next_address = t.next_address + 1 }

  abbrev contents' : ℕ → List ℕ
  contents' a = if a == t.next_address then b else v.contents a

  wider-IsShared :
      (h : ℕ) (x : Shared)
      → IsShared v.contents t.next_address h x
      → IsShared contents' (t.next_address + 1) h x
  wider-IsShared h x s =
      let given = s.given in
      let old : x.address == t.next_address ≡ false = ground arith in
      record { hashed = s.hashed; content = rw old s.content; given = omega arith; used = s.used }

  wider-IsValid : IsValid wider
  wider-IsValid = record {
    contents = contents';
    shared = λ h. All-imp (wider-IsShared h) (t.base_table h) (v.shared h);
    distinct = v.distinct;
  }

  Differ-back : (l : List Shared) → Differ b l → Differ b l
  Differ-back l h = h

  fresh : Sets t b (some (record { address = t.next_address; str = b; refs = 1 })) (
      put wider
        (str_hash b)
        (record { address = t.next_address; str = b; refs = 1 } ∷ t.base_table (str_hash b)))
  unfolding entry wider-IsValid
  fresh =
      let new : Shared = record { address = t.next_address; str = b; refs = 1 } in
      record {
        valid =
            IsValid-put wider (str_hash b) (new ∷ t.base_table (str_hash b)) wider-IsValid
              (
                record {
                  hashed = refl;
                  content = rw (same_index t.next_address);
                  given = omega arith;
                  used = omega arith;
                },
                wider-IsValid.shared (str_hash b),
              )
              (d, v.distinct (str_hash b));
        here =
            view-put_self wider b (new ∷ t.base_table (str_hash b))
            ∙ rw ((same_bytes_iff b b).1 refl);
        others = λ c ne.
            view-put wider b c (new ∷ t.base_table (str_hash b))
              (rw (same_bytes-false b c (λ p. ne (sym p))));
      }

-- The references of a string, none if it is not in the table.
abbrev pub refs_of : Option Shared → ℕ
refs_of none = 0
refs_of (some e) = e.refs

make_old :
    (t : Table) (b : List ℕ) (e : Shared) (rest : List Shared)
    → unlink (by_bytes b) (t.base_table (str_hash b)) ≡ some (e, rest)
    → make_shared_string t b
      ≡ (put t (str_hash b) (record e { refs = e.refs + 1 } ∷ rest), e.address)
unfolding make_shared_string
make_old t b e rest run =
    let f = find_in-some (by_bytes b) t (str_hash b) e rest run in
    rw (f, make_shared_string, f, reference-put t (str_hash b) e rest)

abbrev new_shared : Table → List ℕ → Shared
new_shared t b = record { address = t.next_address; str = b; refs = 1 }

make_new :
    (t : Table) (b : List ℕ)
    → unlink (by_bytes b) (t.base_table (str_hash b)) ≡ none
    → make_shared_string t b ≡ (
      put
          (record t { next_address = t.next_address + 1 })
          (str_hash b)
          (new_shared t b ∷ t.base_table (str_hash b)),
      t.next_address,
    )
unfolding make_shared_string alloc_new_string
make_new t b run =
    let f = find_in-none (by_bytes b) t (str_hash b) run in
    rw (f, make_shared_string, f)
      (ap (λ x. (x, t.next_address))
          (reference-put (record t { next_address = t.next_address + 1 }) (str_hash b)
            (record { address = t.next_address; str = b; refs = 0 }) (t.base_table (str_hash b)))
        ∙ ap
            (λ n. (
              put (record t { next_address = t.next_address + 1 }) (str_hash b)
                  (record { address = t.next_address; str = b; refs = n }
                    ∷ t.base_table (str_hash b)),
              t.next_address,
            ))
            (omega arith))

-- What sharing the bytes `b` returns: the string under `b`, old or new, with one reference more.
pub record Shares (t : Table) (b : List ℕ) (r : Table × ℕ) : Type 0 where
  pub e : Shared
  pub pointer : r.1 ≡ e.address
  pub counted : e.refs ≡ refs_of (view t b) + 1
  pub same : (old : Shared) → view t b ≡ some old → e.address ≡ old.address
  pub sets : Sets t b (some e) r.0

-- In a well formed table, sharing a string keeps the table well formed and gives the pointer of
-- the string with its bytes, the old one if there is one, with one reference more; the other
-- strings are as they were.
pub make_shared_string-Shares :
    (t : Table) (b : List ℕ) → IsValid t → Shares t b (make_shared_string t b)
make_shared_string-Shares t b v =
    elim (unlink-Unlinks b (t.base_table (str_hash b)) (v.distinct (str_hash b))) [
      | inr (e, rest, run, u) ↦ rw (make_old t b e rest run) (record {
        e = record e { refs = e.refs + 1 };
        pointer = refl;
        counted = rw u.present;
        same = λ old h. ap (λ (x : Shared). x.address) (some_inj (rw u.present at h));
        sets = back t v b e rest run u (e.refs + 1) (omega arith);
      })
      | inl (run, d) ↦
          let nothing : view t b ≡ none = entry-Differ b (t.base_table (str_hash b)) d in
          rw (make_new t b run) (record {
            e = new_shared t b;
            pointer = refl;
            counted = rw nothing (omega arith);
            same = λ old h. absurd (none_ne_some (rw nothing at h));
            sets = fresh t v b d;
          })
    ]
