-- ===== src/Constants/Pool.antt =====
-- The strings of a program, as src/las.c stores them and src/interpret.c finds them.
use lpc.Base.{
  ℕ, zero, suc, ◌%◌, ◌^◌, ◌<◌, ◌≤◌, ◌≡◌, refl, sym, ap, ◌∙◌, true, false, Option, none, some, List,
  [], ◌∷◌, ◌++◌, ℤ, pos, ltb_ℤ, get_or, get_elem?, length, arith, inl, inr, Bool-cases,
  length-append,
}
use mathlib.Core.Option
use mathlib.Core.List.{append_assoc}
use lpc.Text.{Bytes}
use lpc.Strings.{same_bytes}
use lpc.Strings.Chains.{same_bytes-eq}
use lpc.LineNumbers.{ins_byte, ins_short, word16}
use lpc.LineNumbers.Numbers.{two_bytes}
use lpc.Constants.{Instruction, f_string, f_short_string, prefixed, ins_f_byte}
use lpc.Constants.Codes.{AreCodes, switch-instructions, fetch-short}
use lpc.Constants.Literals.{
  find_string, searched, short_of, store_prog_string, pushed_string, ins_index, ins_strings,
  eval_string, eval_strings,
}

find_string-found :
    (p : List Bytes) (str : Bytes) (n i : ℕ)
    → find_string p str n ≡ some i
    → (i < n) × (get_or p i [] ≡ str)
unfolding find_string
find_string-found p str zero i e = absurd (ground (arith, e))
find_string-found p str (suc n) i e = elim (Bool-cases (same_bytes (get_or p n []) str)) [
  | inl s ↦
      let same : n ≡ i = ground (arith, s, e) in
      (
        omega (arith, same),
        ap (λ z. get_or p z []) (sym same) ∙ same_bytes-eq (get_or p n []) str s,
      )
  | inr s ↦ let r = find_string-found p str n i (ground (arith, s, e)) in (omega (arith, r.0), r.1)
]

get_elem?-inside : (p : List Bytes) (i : ℕ) → i < length p → get_elem? p i ≡ some (get_or p i [])
get_elem?-inside [] i h = absurd (omega arith)
get_elem?-inside (s ∷ p) zero h = refl
get_elem?-inside (s ∷ p) (suc i) h = get_elem?-inside p i (omega arith)

last_elem : (p : List Bytes) (s : Bytes) → get_elem? (p ++ (s ∷ [])) (length p) ≡ some s
last_elem [] s = refl
last_elem (x ∷ p) s = last_elem p s

elem_stays :
    (p q : List Bytes) (i : ℕ) (s : Bytes) → get_elem? p i ≡ some s → get_elem? (p ++ q) i ≡ some s
elem_stays [] q i s e = absurd (ground (arith, e))
elem_stays (x ∷ p) q zero s e = e
elem_stays (x ∷ p) q (suc i) s e = elem_stays p q i s e

-- `q` has the strings of `p` where `p` has them.
record Extends (p q : List Bytes) : Type 0 where
  longer : length p ≤ length q
  stays : (i : ℕ) (s : Bytes) → get_elem? p i ≡ some s → get_elem? q i ≡ some s

-- The string has a place below 2^15 in the strings that are left.
record Stored (p : List Bytes) (str : Bytes) (r : ℤ × List Bytes) : Type 0 where
  place : ℕ
  index : r.0 ≡ pos place
  low : place < 2 ^ 15
  there : get_elem? r.1 place ≡ some str

searched-all : (n : ℕ) → n ≤ 2 ^ 15 → searched n ≡ n
searched-all zero h = refl
searched-all (suc n) h = ground (arith, h)

short_of-pos : (n : ℕ) → n < 2 ^ 15 → short_of n ≡ pos n
short_of-pos n h = ground (arith, h)

module _ (p : List Bytes) (str : Bytes) where
  added :
      (find : Option ℕ)
      → find_string p str (searched (length p)) ≡ find
      → Extends p (store_prog_string p str).1
  unfolding store_prog_string
  added (some i) e = rw (store_prog_string, e) record { longer = omega arith; stays = λ i s h. h }
  added none e =
      rw (store_prog_string, e)
        record {
          longer = omega (arith, length-append p (str ∷ []));
          stays = λ i s h. elem_stays p (str ∷ []) i s h;
        }

  stored :
      (find : Option ℕ)
      → find_string p str (searched (length p)) ≡ find
      → length (store_prog_string p str).1 ≤ 2 ^ 15
      → Stored p str (store_prog_string p str)
  unfolding store_prog_string
  stored (some i) e h =
      let fits : length p ≤ 2 ^ 15 = (rw (store_prog_string, e) at h) in
      let all : searched (length p) ≡ length p = searched-all (length p) fits in
      let f = find_string-found p str (searched (length p)) i e in
      rw (store_prog_string, e)
        record {
          place = i;
          index = refl;
          low = omega (arith, f.0, all, fits);
          there = get_elem?-inside p i (omega (arith, f.0, all)) ∙ ap some f.1;
        }
  stored none e h =
      let fits : length (p ++ (str ∷ [])) ≤ 2 ^ 15 = (rw (store_prog_string, e) at h) in
      let room : length p < 2 ^ 15 = omega (arith, fits, length-append p (str ∷ [])) in
      rw (store_prog_string, e)
        record {
          place = length p;
          index = short_of-pos (length p) room;
          low = room;
          there = last_elem p str;
        }

module _ (code : Instruction → ℕ) (codes : AreCodes code) where
  evaluated :
      (strings : List Bytes) (x : Instruction) (t : Bytes)
      → ((pc : Bytes) → prefixed (some x) pc ≡ none)
      → eval_string code strings (ins_f_byte code (code x) ++ t) ≡ pushed_string strings (some x) t
  unfolding eval_string
  evaluated strings x t p =
      rw
        (fetch-short code codes (code x) t (codes.low x)
          (ap (λ z. prefixed z t) (switch-instructions code codes x) ∙ p t))
        (ap (λ z. pushed_string strings z t) (switch-instructions code codes x))

  concluded :
      (strings : List Bytes) (i : ℕ) (t : Bytes) (x : Instruction) (bytes : Bytes)
      → ((pc : Bytes) → prefixed (some x) pc ≡ none)
      → ins_index code (pos i) ≡ ins_f_byte code (code x) ++ bytes
      → eval_string code strings (ins_index code (pos i) ++ t)
        ≡ pushed_string strings (some x) (bytes ++ t)
  concluded strings i t x bytes p e =
      rw (e, append_assoc (ins_f_byte code (code x)) bytes t) (evaluated strings x (bytes ++ t) p)

  short_index :
      (i : ℕ)
      → ltb_ℤ (pos i) (pos 256) ≡ true
      → ins_index code (pos i) ≡ ins_f_byte code (code f_short_string) ++ ins_byte (pos i)
  unfolding ins_index
  short_index i k = rw k refl

  long_index :
      (i : ℕ)
      → ltb_ℤ (pos i) (pos 256) ≡ false
      → ins_index code (pos i) ≡ ins_f_byte code (code f_string) ++ ins_short (pos i)
  unfolding ins_index
  long_index i k = rw k refl

  index_read :
      (strings : List Bytes) (i : ℕ) (s t : Bytes)
      → i < 2 ^ 15
      → get_elem? strings i ≡ some s
      → eval_string code strings (ins_index code (pos i) ++ t) ≡ some (s, t)
  index_read strings i s t h e = elim (Bool-cases (ltb_ℤ (pos i) (pos 256))) [
    | inl k ↦
        let same : i % 2 ^ 8 ≡ i = ground (arith, k) in
        concluded strings i t f_short_string (ins_byte (pos i)) (λ z. refl) (short_index i k)
        ∙ rw (same, e) refl
    | inr k ↦
        let same : i % 2 ^ 16 ≡ i = omega (arith, h) in
        concluded strings i t f_string (ins_short (pos i)) (λ z. refl) (long_index i k)
        ∙ rw (two_bytes (word16 (pos i)), same, e) refl
  ]

  ins_strings-Extends : (l p : List Bytes) → Extends p (ins_strings code p l).1
  unfolding ins_strings
  ins_strings-Extends [] p = record { longer = omega arith; stays = λ i s h. h }
  ins_strings-Extends (str ∷ l) p =
      let first = added p str (find_string p str (searched (length p))) refl in
      let next = ins_strings-Extends l (store_prog_string p str).1 in
      record {
        longer = omega (arith, first.longer, next.longer);
        stays = λ i s h. next.stays i s (first.stays i s h);
      }

  -- The strings that the compiler puts into a program one after the other are the ones that the
  -- interpreter pushes one after the other, from the strings that the program has in the end, if they
  -- are at most 2^15; the program may have strings already.
  pub eval_strings-ins_strings :
      (p l : List Bytes)
      → length (ins_strings code p l).1 ≤ 2 ^ 15
      → eval_strings code (ins_strings code p l).1 (length l) (ins_strings code p l).0 ≡ some l
  unfolding ins_strings eval_strings
  eval_strings-ins_strings p [] h = refl
  eval_strings-ins_strings p (str ∷ l) h =
      let q = (store_prog_string p str).1 in
      let final = (ins_strings code q l).1 in
      let rest = (ins_strings code q l).0 in
      let x = ins_strings-Extends l q in
      let st =
        stored p str (find_string p str (searched (length p))) refl (omega (arith, h, x.longer)) in
      let step : eval_string code final (ins_index code (store_prog_string p str).0 ++ rest)
          ≡ some (str, rest) =
        rw st.index (index_read final st.place str rest st.low (x.stays st.place str st.there)) in
      rw (eval_strings, step) (ap (Option.map (λ z. str ∷ z)) (eval_strings-ins_strings q l h))
