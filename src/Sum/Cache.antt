-- ===== src/Sum/Cache.antt =====
-- The cache of `f_sum` of src/operators.c.
use lpc.Base.{
  ℕ, ◌+◌, ◌==◌, ◌≡◌, refl, sym, subst, ◌∙◌, true, false, ◌&&◌, ◌||◌, Option, none, some, List, [],
  ◌∷◌, ◌++◌, leb, length, arith, inl, inr, Bool-cases,
}
use mathlib.Core.List.{append-nil}
use lpc.Text.{Bytes}
use lpc.Strings.{same_bytes}
use lpc.Strings.Chains.{same_bytes-eq}
use lpc.Saving.{Value, number, string, vector, list, mapping}
use lpc.Sum.{
  AddCacheEntry, AddCache, add_cache_max_length, cleaned, clean_add_cache, free_add_cache, update,
  Sum, summed, is_string, is_number, is_array, is_list, is_mapping, every, text_of, write_text,
  slot, cached, sum_strings, f_sum,
}

abbrev IsSum : Option AddCacheEntry → Type 0
IsSum none = Unit {0}
IsSum (some h) = h.sum ≡ h.a ++ h.b

-- Each entry of the cache holds the sum of its two strings.
abbrev pub IsSound : AddCache → Type 0
IsSound cache = (e : ℕ) → IsSum (cache e)

cleaned-IsSum : (h : Option AddCacheEntry) → IsSum h → IsSum (cleaned h)
cleaned-IsSum none s = tt
cleaned-IsSum (some h) s = elim (Bool-cases (h.hits == 0)) [ inl e ↦ rw e tt | inr e ↦ rw e s ]

update-IsSound :
    (cache : AddCache) (h : ℕ) (entry : AddCacheEntry)
    → IsSound cache
    → entry.sum ≡ entry.a ++ entry.b
    → IsSound (update cache h entry)
update-IsSound cache h entry s x e = elim (Bool-cases (e == h)) [
  | inl k ↦ rw k x
  | inr k ↦ rw k (s e)
]

-- What a sum of two strings gives, and what it leaves in the cache.
abbrev Adds : Bytes → Bytes → Bytes × AddCache → Type 0
Adds a b r = (r.0 ≡ a ++ b) × IsSound r.1

same-both : (a b c d : Bytes) → same_bytes a c && same_bytes b d ≡ true → (a ≡ c) × (b ≡ d)
same-both a b c d h = elim (Bool-cases (same_bytes a c)) [
  | inl e ↦ (same_bytes-eq a c e, same_bytes-eq b d (rw e at h))
  | inr e ↦ absurd (ground (arith, e, h))
]

module _ (address : Bytes → ℕ) where
  module _ (cache : AddCache) (a b : Bytes) (s : IsSound cache) where
    fresh :
        IsSound (update cache (slot address a b) (record { a = a; b = b; sum = a ++ b; hits = 0 }))
    fresh =
        update-IsSound cache (slot address a b) (record { a = a; b = b; sum = a ++ b; hits = 0 }) s
          refl

    hit :
        (old : AddCacheEntry)
        → (old.a ≡ a) × (old.b ≡ b)
        → old.sum ≡ old.a ++ old.b
        → Adds a b (old.sum, update cache (slot address a b) (record old { hits = old.hits + 1 }))
    hit old e x = (
      x ∙ rw (e.0, e.1) refl,
      update-IsSound cache (slot address a b) (record old { hits = old.hits + 1 }) s x,
    )

    looked_up :
        (old : Option AddCacheEntry)
        → cache (slot address a b) ≡ old
        → Adds a b (cached address cache a b)
    unfolding cached
    looked_up none e = rw (e, cached) (refl, fresh)
    looked_up (some old) e = elim (Bool-cases (same_bytes old.a a && same_bytes old.b b)) [
      | inr k ↦ rw (e, cached, k) (refl, fresh)
      | inl k ↦
          rw (e, cached, k) (hit old (same-both old.a old.b a b k) (rw e at (s (slot address a b))))
    ]

    cached-Adds : Adds a b (cached address cache a b)
    cached-Adds = looked_up (cache (slot address a b)) refl

  -- A sum of text, and what it leaves in the cache.
  abbrev pub Writes : Bytes → Sum → Type 0
  Writes t (summed (string s) cache) = (s ≡ t) × IsSound cache
  Writes t _ = ⊥

  pair-Writes :
      (cache : AddCache) (v w : Value)
      → IsSound cache
      → Writes (write_text (v ∷ (w ∷ []))) (sum_strings address cache (v ∷ (w ∷ [])))
  unfolding sum_strings write_text
  pair-Writes cache v w s =
      elim (Bool-cases (leb (length (text_of v) + length (text_of w)) add_cache_max_length)) [
        | inl e ↦ rw (e, append-nil (text_of w)) (cached-Adds cache (text_of v) (text_of w) s)
        | inr e ↦ rw e (refl, s)
      ]

  sum_strings-Writes :
      (cache : AddCache) (v : Value) (vs : List Value)
      → IsSound cache
      → every is_string (v ∷ vs) ≡ true
      → Writes (write_text (v ∷ vs)) (sum_strings address cache (v ∷ vs))
  unfolding sum_strings write_text
  sum_strings-Writes cache (string a) [] s h = (sym (append-nil a), s)
  sum_strings-Writes cache (number subtype n) [] s h = absurd (ground (arith, h))
  sum_strings-Writes cache (vector vs) [] s h = absurd (ground (arith, h))
  sum_strings-Writes cache (list vs) [] s h = absurd (ground (arith, h))
  sum_strings-Writes cache (mapping es d) [] s h = absurd (ground (arith, h))
  sum_strings-Writes cache v (w ∷ []) s h = pair-Writes cache v w s
  sum_strings-Writes cache v (w ∷ (u ∷ vs)) s h = (refl, s)

  f_sum-Writes :
      (cache : AddCache) (v : Value) (vs : List Value)
      → IsSound cache
      → every (λ w. is_string w || is_number w) (v ∷ vs) ≡ true
      → every is_number (v ∷ vs) ≡ false
      → Writes (write_text (v ∷ vs)) (f_sum address cache (v ∷ vs))
  unfolding f_sum
  f_sum-Writes cache v vs s h k = elim (Bool-cases (every is_string (v ∷ vs))) [
    | inl e ↦ rw (e, f_sum) (sum_strings-Writes cache v vs s e)
    | inr e ↦ rw (f_sum, e, k, h) (refl, s)
  ]

  LeavesSound : Sum → Type 0
  LeavesSound (summed v cache) = IsSound cache
  LeavesSound _ = Unit

  sum_strings-LeavesSound :
      (cache : AddCache) (argp : List Value)
      → IsSound cache
      → LeavesSound (sum_strings address cache argp)
  unfolding sum_strings LeavesSound
  sum_strings-LeavesSound cache [] s = tt
  sum_strings-LeavesSound cache (v ∷ []) s = s
  sum_strings-LeavesSound cache (v ∷ (w ∷ [])) s =
      elim (Bool-cases (leb (length (text_of v) + length (text_of w)) add_cache_max_length)) [
        | inl e ↦ rw e (cached-Adds cache (text_of v) (text_of w) s).1
        | inr e ↦ rw e s
      ]
  sum_strings-LeavesSound cache (v ∷ (w ∷ (u ∷ vs))) s = s

  f_sum-LeavesSound :
      (cache : AddCache) (argp : List Value)
      → IsSound cache
      → LeavesSound (f_sum address cache argp)
  unfolding f_sum LeavesSound
  f_sum-LeavesSound cache [] s = tt
  f_sum-LeavesSound cache (v ∷ vs) s = elim (Bool-cases (every is_string (v ∷ vs))) [
    | inl e ↦ rw (f_sum, e) (sum_strings-LeavesSound cache (v ∷ vs) s)
    | inr e ↦ elim (Bool-cases (every is_number (v ∷ vs))) [
      | inl k ↦ rw (f_sum, e, k) s
      | inr k ↦ elim (Bool-cases (every (λ w. is_string w || is_number w) (v ∷ vs))) [
        | inl h ↦ rw (f_sum, e, k, h) s
        | inr h ↦
            elim (Bool-cases
              (every is_array (v ∷ vs) || (every is_list (v ∷ vs) || every is_mapping (v ∷ vs)))) [
                | inl o ↦ rw (f_sum, e, k, h, o) tt
                | inr o ↦ rw (f_sum, e, k, h, o) tt
              ]
      ]
    ]
  ]

  -- The caches that sums, `clean_add_cache` and `free_add_cache` make of the empty one, in any order.
  pub data IsReached : AddCache → Type 0 where
    started : IsReached (λ e. none)
    added :
        {cache cache' : AddCache}
        → IsReached cache
        → (argp : List Value) (v : Value) → f_sum address cache argp ≡ summed v cache'
        → IsReached cache'
    cleaned_up : {cache : AddCache} → IsReached cache → IsReached (clean_add_cache cache)
    freed : {cache : AddCache} → IsReached cache → IsReached (free_add_cache cache)

  reached-IsSound : {cache : AddCache} → IsReached cache → IsSound cache
  unfolding LeavesSound
  reached-IsSound started = λ e. tt
  reached-IsSound (added {cache} r argp v x) =
      subst LeavesSound x (f_sum-LeavesSound cache argp (reached-IsSound r))
  reached-IsSound (cleaned_up {cache} r) =
      let s : IsSound cache = reached-IsSound r in λ e. cleaned-IsSum (cache e) (s e)
  reached-IsSound (freed r) = λ e. tt

  -- After any sums and any cleaning of the cache, strings and numbers, not numbers alone, become the
  -- text of all of them one after the other, whatever the cache holds by then.
  pub f_sum-IsReached :
      (cache : AddCache) (v : Value) (vs : List Value)
      → IsReached cache
      → every (λ w. is_string w || is_number w) (v ∷ vs) ≡ true
      → every is_number (v ∷ vs) ≡ false
      → Writes (write_text (v ∷ vs)) (f_sum address cache (v ∷ vs))
  f_sum-IsReached cache v vs r h k = f_sum-Writes cache v vs (reached-IsSound r) h k
