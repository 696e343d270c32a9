-- ===== src/CallOut/Made.antt =====
-- The calls that the loop of `do_call_outs` of src/call_out.c makes: the due ones, less those that a
-- function called before them had asked to remove.
use lpc.Base.{
  ℕ, zero, suc, ◌+◌, ◌≤◌, ◌<◌, ◌≡◌, refl, ap, sym, subst, ◌∙◌, false, none, some, List, [], ◌∷◌,
  leb, if◌then◌else◌, All, arith, ◌⊎◌, inl, inr, Bool-cases, Option-cases, some_inj, none_ne_some,
}
use lpc.Value.{Svalue}
use lpc.Alist.{insert_at, remove_at}
use lpc.CallOut.{
  CallOut, CallOuts, call_time, place_of, calls, find_from, new_call_out, f_remove_call_out,
  Request, call_out, remove_call_out, serve, serve_all, do_call_outs,
}
use lpc.CallOut.Place.{IsOrdered, call_time-after}
use lpc.CallOut.Requests.{IsValid, the_call}
use lpc.CallOut.Far.{IsFar, serve-IsValid, serve_all-IsValid, none_due}
use lpc.CallOut.Loop.{serve_time, serve_all_time}

-- The calls that are due, in their order.
unfoldable pub due_calls : ℕ → List CallOut → List CallOut
due_calls now [] = []
due_calls now (c ∷ l) = let r = due_calls now l in if leb c.time now then c ∷ r else r

-- The list less the first call of `fun`.
unfoldable pub remove_first : Svalue → List CallOut → List CallOut
remove_first fun [] = []
remove_first fun (c ∷ l) = let r = remove_first fun l in if calls fun c then l else c ∷ r

-- The due calls after some requests: new calls are not due.
unfoldable pub drop_removed : List Request → List CallOut → List CallOut
unfolding remove_first
drop_removed [] d = d
drop_removed (call_out fun delay extra giver ∷ rs) d = drop_removed rs d
drop_removed (remove_call_out fun ∷ rs) d = drop_removed rs (remove_first fun d)

-- The calls that are made when `d` are due: the first one, and then those of the rest that its function
-- leaves.
unfoldable pub called : (CallOut → List Request) → ℕ → List CallOut → List CallOut
unfolding drop_removed
called script zero d = []
called script (suc fuel) [] = []
called script (suc fuel) (c ∷ d) = c ∷ called script fuel (drop_removed (script c) d)

due_calls-insert_at :
    (now n : ℕ) (c : CallOut) (l : List CallOut)
    → now < c.time
    → due_calls now (insert_at n c l) ≡ due_calls now l
unfolding due_calls insert_at
due_calls-insert_at now zero c l h = let e : leb c.time now ≡ false = ground arith in rw e refl
due_calls-insert_at now (suc n) c [] h = let e : leb c.time now ≡ false = ground arith in rw e refl
due_calls-insert_at now (suc n) c (d ∷ l) h = rw (due_calls-insert_at now n c l h) refl

due_calls-none : (now : ℕ) (l : List CallOut) → All (λ d. now + 1 ≤ d.time) l → due_calls now l ≡ []
unfolding due_calls
due_calls-none now [] h = refl
due_calls-none now (c ∷ l) h =
    let e : leb c.time now ≡ false = ground arith in rw e (due_calls-none now l h.1)

remove_first-All :
    (fun : Svalue) (m : ℕ) (l : List CallOut)
    → All (λ d. m ≤ d.time) l
    → All (λ d. m ≤ d.time) (remove_first fun l)
unfolding remove_first
remove_first-All fun m [] h = tt
remove_first-All fun m (c ∷ l) h = elim (Bool-cases (calls fun c)) [
  | inl e ↦ rw e h.1
  | inr e ↦ rw e (h.0, remove_first-All fun m l h.1)
]

due_calls-remove_first :
    (now : ℕ) (fun : Svalue) (l : List CallOut)
    → IsOrdered l
    → due_calls now (remove_first fun l) ≡ remove_first fun (due_calls now l)
unfolding due_calls remove_first
due_calls-remove_first now fun [] s = refl
due_calls-remove_first now fun (c ∷ l) s = elim (Bool-cases (leb c.time now)) [
  | inl ready ↦ elim (Bool-cases (calls fun c)) [
    | inl e ↦ rw (ready, e) refl
    | inr e ↦ rw (ready, e, ready) (ap (◌∷◌ c) (due_calls-remove_first now fun l s.1))
  ]
  | inr waits ↦
      let all = none_due now (c ∷ l) s waits in
      due_calls-none now (remove_first fun (c ∷ l)) (remove_first-All fun (now + 1) (c ∷ l) all)
      ∙ ap (remove_first fun) (sym (due_calls-none now (c ∷ l) all))
]

find_from-remove_first :
    (fun : Svalue) (l : List CallOut) (e : ℕ)
    → ((find_from fun l e ≡ none) × (remove_first fun l ≡ l))
      ⊎ ((k : ℕ) × (find_from fun l e ≡ some (e + k)) × (remove_at k l ≡ remove_first fun l))
unfolding find_from remove_first remove_at
find_from-remove_first fun [] e = inl (refl, refl)
find_from-remove_first fun (c ∷ l) e = elim (Bool-cases (calls fun c)) [
  | inl hit ↦ inr (0, rw (hit, find_from) (ap some (omega arith)), rw hit refl)
  | inr miss ↦ elim (find_from-remove_first fun l (e + 1)) [
    | inl (r, h) ↦ inl (rw (miss, find_from) r, rw miss (ap (◌∷◌ c) h))
    | inr (k, r, h) ↦
        inr (suc k, rw (miss, find_from) (rw r (ap some (omega arith))), rw miss (ap (◌∷◌ c) h))
  ]
]

f_remove_call_out-remove_first :
    (s : CallOuts) (fun : Svalue)
    → (f_remove_call_out s fun).0.pending_calls ≡ remove_first fun s.pending_calls
unfolding f_remove_call_out
f_remove_call_out-remove_first s fun = elim (find_from-remove_first fun s.pending_calls 0) [
  | inl (r, h) ↦ rw (r, f_remove_call_out) (sym h)
  | inr (k, r, h) ↦ let e : 0 + k ≡ k = omega arith in rw (r, f_remove_call_out) (rw e h)
]

due_calls-serve :
    (r : Request) (s : CallOuts)
    → IsOrdered s.pending_calls
    → due_calls s.current_time (serve r s).pending_calls
      ≡ drop_removed (r ∷ []) (due_calls s.current_time s.pending_calls)
unfolding serve drop_removed new_call_out
due_calls-serve (call_out fun delay extra giver) s o =
    let t = call_time s.current_time delay in
    due_calls-insert_at s.current_time (place_of t s) (the_call s fun delay extra giver)
      s.pending_calls (call_time-after s.current_time delay)
due_calls-serve (remove_call_out fun) s o =
    ap (due_calls s.current_time) (f_remove_call_out-remove_first s fun)
    ∙ due_calls-remove_first s.current_time fun s.pending_calls o

drop_removed-one :
    (r : Request) (rs : List Request) (d : List CallOut)
    → drop_removed (r ∷ rs) d ≡ drop_removed rs (drop_removed (r ∷ []) d)
unfolding drop_removed
drop_removed-one (call_out fun delay extra giver) rs d = refl
drop_removed-one (remove_call_out fun) rs d = refl

due_calls-serve_at :
    (r : Request) (s : CallOuts) (now : ℕ)
    → s.current_time ≡ now
    → IsOrdered s.pending_calls
    → due_calls now (serve r s).pending_calls
      ≡ drop_removed (r ∷ []) (due_calls now s.pending_calls)
due_calls-serve_at r s now e o =
    subst
      (λ t.
        due_calls t (serve r s).pending_calls ≡ drop_removed (r ∷ []) (due_calls t s.pending_calls))
      e (due_calls-serve r s o)

due_calls-serve_all :
    (rs : List Request) (s : CallOuts) (now : ℕ)
    → s.current_time ≡ now
    → All (IsFar now) rs
    → IsValid s
    → due_calls now (serve_all rs s).pending_calls ≡ drop_removed rs (due_calls now s.pending_calls)
unfolding serve_all drop_removed
due_calls-serve_all [] s now e far v = refl
due_calls-serve_all (r ∷ rs) s now e far v =
    due_calls-serve_all rs (serve r s) now (serve_time r s ∙ e) far.1
      (serve-IsValid r s (subst (λ t. IsFar t r) (sym e) far.0) v)
    ∙ ap (drop_removed rs) (due_calls-serve_at r s now e v.ordered)
    ∙ sym (drop_removed-one r rs (due_calls now s.pending_calls))

module _ (script : CallOut → List Request) (now : ℕ)
    (far : (c : CallOut) → All (IsFar now) (script c)) where
  -- The loop, if it ends, has made just the calls that are to be made.
  pub made_lem :
      (fuel size : ℕ) (l : List CallOut) (time : ℕ)
      → time ≡ now
      → IsValid (record { call_buffer_size = size; pending_calls = l; current_time = time })
      → (made : List CallOut) (after : CallOuts)
      → do_call_outs script fuel
          (record { call_buffer_size = size; pending_calls = l; current_time = time })
        ≡ some (made, after)
      → made ≡ called script fuel (due_calls time l)
  unfolding do_call_outs due_calls called
  made_lem zero size l time e v made after run = absurd (none_ne_some run)
  made_lem (suc fuel) size [] time e v made after run = sym (ap (λ r. r.0) (some_inj run))
  made_lem (suc fuel) size (c ∷ l) time e v made after run = elim (Bool-cases (leb c.time time)) [
    | inr waits ↦
        let stop = rw (waits, do_call_outs) at run in
        let none_left = due_calls-none time (c ∷ l) (none_due time (c ∷ l) v.ordered waits) in
        rw none_left (sym (ap (λ r. r.0) (some_inj stop)))
    | inl ready ↦
        let s : CallOuts = record {
          call_buffer_size = size;
          pending_calls = l;
          current_time = time;
        } in
        let v' : IsValid s = record { ordered = v.ordered.1; fits = omega (arith, v.fits) } in
        let s' = serve_all (script c) s in
        let t : s'.current_time ≡ time = serve_all_time (script c) s in
        let next = rw (ready, do_call_outs) at run in
        elim (Option-cases (do_call_outs script fuel s')) [
          | inl stuck ↦ absurd (none_ne_some (rw stuck at next))
          | inr (r, rest) ↦
              let done = rw rest at next in
              let ih =
                made_lem fuel s'.call_buffer_size s'.pending_calls s'.current_time (t ∙ e)
                  (serve_all-IsValid (script c) s now e (far c) v') r.0 r.1 rest in
              let left =
                due_calls-serve_all (script c) s time refl
                  (subst (λ n. All (IsFar n) (script c)) (sym e) (far c)) v' in
              rw ready (
                sym (ap (λ r. r.0) (some_inj done))
                ∙ ap (◌∷◌ c) (
                    ih ∙ ap (called script fuel) (ap (λ n. due_calls n s'.pending_calls) t ∙ left)))
        ]
  ]
