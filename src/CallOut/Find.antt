-- ===== src/CallOut/Find.antt =====
-- `find_call_out` and `remove_call_out` of src/call_out.c.
use lpc.Base.{
  ℕ, zero, suc, ◌+◌, ◌<◌, ◌≡◌, refl, ap, true, false, Option, none, some, List, [], ◌∷◌, length,
  get_or, arith, ◌⊎◌, inl, inr, Bool-cases, Option-cases,
}
use lpc.Value.{Svalue, undefined_svalue}
use lpc.Alist.{remove_at}
use lpc.CallOut.{
  CallOut, CallOuts, no_call, calls, find_from, find_call_out, f_find_call_out, f_remove_call_out,
  time_left,
}
use lpc.CallOut.Requests.{IsValid, length-remove_at, IsOrdered-remove_at}

-- The first call of `fun`: none of the calls before it is one.
abbrev pub IsFirstCall : Svalue → List CallOut → ℕ → Type 0
IsFirstCall fun l e =
    (e < length l)
    × (calls fun (get_or l e no_call) ≡ true)
    × ((i : ℕ) → i < e → calls fun (get_or l i no_call) ≡ false)

abbrev pub Finds : Svalue → List CallOut → Option ℕ → Type 0
Finds fun l none = (i : ℕ) → i < length l → calls fun (get_or l i no_call) ≡ false
Finds fun l (some e) = IsFirstCall fun l e

find_from-shift :
    (fun : Svalue) (l : List CallOut) (e : ℕ)
    → ((find_from fun l e ≡ none) × Finds fun l none)
      ⊎ ((k : ℕ) × (find_from fun l e ≡ some (e + k)) × IsFirstCall fun l k)
unfolding find_from
find_from-shift fun [] e = inl (refl, λ i lt. absurd (omega arith))
find_from-shift fun (c ∷ l) e = elim (Bool-cases (calls fun c)) [
  | inl hit ↦ inr (
    0,
    rw (hit, find_from) (ap some (omega arith)),
    (omega arith, hit, λ i lt. absurd (omega arith)),
  )
  | inr miss ↦ elim (find_from-shift fun l (e + 1)) [
    | inl (r, none_left) ↦ inl (rw (miss, find_from) r, λ i lt. after_miss i lt miss none_left)
    | inr (k, r, first) ↦ inr (
      suc k,
      rw (miss, find_from) (rw r (ap some (omega arith))),
      (omega (arith, first.0), first.1, λ i lt. before_hit i lt miss first.2),
    )
  ]
]
  where
    after_miss :
        (i : ℕ)
        → i < length (c ∷ l)
        → calls fun c ≡ false
        → Finds fun l none
        → calls fun (get_or (c ∷ l) i no_call) ≡ false
    after_miss zero lt m h = m
    after_miss (suc i) lt m h = h i (omega arith)

    before_hit :
        {k : ℕ} (i : ℕ)
        → i < suc k
        → calls fun c ≡ false
        → ((j : ℕ) → j < k → calls fun (get_or l j no_call) ≡ false)
        → calls fun (get_or (c ∷ l) i no_call) ≡ false
    before_hit zero lt m h = m
    before_hit (suc i) lt m h = h i (omega arith)

pub find_call_out-Finds :
    (fun : Svalue) (s : CallOuts) → Finds fun s.pending_calls (find_call_out fun s)
find_call_out-Finds fun s = elim (find_from-shift fun s.pending_calls 0) [
  | inl (r, h) ↦ rw r h
  | inr (k, r, first) ↦ let e : 0 + k ≡ k = omega arith in rw r (rw e first)
]

-- What `find_call_out` and `remove_call_out` answer: undefined if no pending call is one of `fun`,
-- or the time that is left to the first one, which the removal takes out of the table.
abbrev pub Removes : Svalue → CallOuts → CallOuts → Svalue → Type 0
Removes fun s s' r =
    (Finds fun s.pending_calls none × (s' ≡ s) × (r ≡ undefined_svalue))
    ⊎ ((e : ℕ) × IsFirstCall fun s.pending_calls e
        × (s' ≡ record s { pending_calls = remove_at e s.pending_calls })
        × (r ≡ time_left s e))

-- In a well formed table `remove_call_out` answers what `find_call_out` does, the seconds that are left
-- of the first call of the function or the undefined value, removes that call alone, and keeps the
-- table well formed.
pub f_remove_call_out-Removes :
    (s : CallOuts) (fun : Svalue)
    → IsValid s
    → Removes fun s (f_remove_call_out s fun).0 (f_remove_call_out s fun).1
      × ((f_remove_call_out s fun).1 ≡ f_find_call_out s fun)
      × IsValid (f_remove_call_out s fun).0
unfolding f_remove_call_out f_find_call_out
f_remove_call_out-Removes s fun v =
    let found = find_call_out-Finds fun s in
    elim (Option-cases (find_call_out fun s)) [
      | inl e ↦
          rw (e, f_remove_call_out, f_find_call_out) (inl (rw e at found, refl, refl), refl, v)
      | inr (n, e) ↦
          rw (e, f_remove_call_out, f_find_call_out)
            (
              inr (n, rw e at found, refl, refl),
              refl,
              record {
                ordered = IsOrdered-remove_at n s.pending_calls v.ordered;
                fits = omega (arith, length-remove_at n s.pending_calls, v.fits);
              },
            )
    ]
