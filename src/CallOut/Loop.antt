-- ===== src/CallOut/Loop.antt =====
-- The loop of `do_call_outs` of src/call_out.c: its end, and the calls that are due.
use lpc.Base.{
  ℕ, zero, suc, ◌+◌, ◌≤◌, ◌<◌, ◌≡◌, refl, sym, subst, ◌∙◌, true, false, some, List, [], ◌∷◌, leb,
  if◌then◌else◌, arith, inl, inr, Bool-cases, Option-cases,
}
use lpc.Alist.{insert_at, remove_at}
use lpc.CallOut.{
  CallOut, CallOuts, call_time, place_of, new_call_out, find_call_out, f_remove_call_out, Request,
  call_out, remove_call_out, serve, serve_all, do_call_outs, is_due,
}
use lpc.CallOut.Place.{call_time-after}
use lpc.CallOut.Requests.{the_call}

-- How many calls are due.
abbrev pub due : ℕ → List CallOut → ℕ
due now [] = 0
due now (c ∷ l) = (if leb c.time now then 1 else 0) + due now l

due-insert_at :
    (now n : ℕ) (c : CallOut) (l : List CallOut)
    → now < c.time
    → due now (insert_at n c l) ≡ due now l
unfolding insert_at
due-insert_at now zero c l h = ground arith
due-insert_at now (suc n) c [] h = ground arith
due-insert_at now (suc n) c (d ∷ l) h = omega (arith, due-insert_at now n c l h)

due-remove_at : (now n : ℕ) (l : List CallOut) → due now (remove_at n l) ≤ due now l
unfolding remove_at
due-remove_at now n [] = omega arith
due-remove_at now zero (d ∷ l) = omega arith
due-remove_at now (suc n) (d ∷ l) = omega (arith, due-remove_at now n l)

pub serve_time : (r : Request) (s : CallOuts) → (serve r s).current_time ≡ s.current_time
unfolding serve new_call_out f_remove_call_out
serve_time (call_out fun delay extra giver) s = refl
serve_time (remove_call_out fun) s = ground arith

due-serve :
    (r : Request) (s : CallOuts)
    → due s.current_time (serve r s).pending_calls ≤ due s.current_time s.pending_calls
unfolding serve new_call_out f_remove_call_out
due-serve (call_out fun delay extra giver) s =
    let t = call_time s.current_time delay in
    omega (
      arith,
      due-insert_at s.current_time (place_of t s) (the_call s fun delay extra giver) s.pending_calls
          (call_time-after s.current_time delay),
    )
due-serve (remove_call_out fun) s = elim (Option-cases (find_call_out fun s)) [
  | inl e ↦ rw (e, serve, f_remove_call_out) (omega arith)
  | inr (n, e) ↦ rw (e, serve, f_remove_call_out) (due-remove_at s.current_time n s.pending_calls)
]

pub serve_all_time :
    (rs : List Request) (s : CallOuts) → (serve_all rs s).current_time ≡ s.current_time
unfolding serve_all
serve_all_time [] s = refl
serve_all_time (r ∷ rs) s = serve_all_time rs (serve r s) ∙ serve_time r s

due-serve_at :
    (r : Request) (s : CallOuts) (now : ℕ)
    → s.current_time ≡ now
    → due now (serve r s).pending_calls ≤ due now s.pending_calls
due-serve_at r s now e =
    subst (λ t. due t (serve r s).pending_calls ≤ due t s.pending_calls) e (due-serve r s)

due-serve_all :
    (rs : List Request) (s : CallOuts) (now : ℕ)
    → s.current_time ≡ now
    → due now (serve_all rs s).pending_calls ≤ due now s.pending_calls
unfolding serve_all
due-serve_all [] s now e = omega arith
due-serve_all (r ∷ rs) s now e =
    omega (arith, due-serve_all rs (serve r s) now (serve_time r s ∙ e), due-serve_at r s now e)

-- The loop ends, and `P` holds of the table then.
pub record Ends (script : CallOut → List Request) (fuel : ℕ) (s : CallOuts) (P : CallOuts → Type 0)
    : Type 0 where
  pub made : List CallOut
  pub after : CallOuts
  pub run : do_call_outs script fuel s ≡ some (made, after)
  pub holds : P after

abbrev pub IsDone : CallOuts → Type 0
IsDone s = is_due s.current_time s.pending_calls ≡ false

pub round_ready :
    (script : CallOut → List Request) (fuel size now : ℕ) (c : CallOut) (l made : List CallOut)
    (after : CallOuts)
    → leb c.time now ≡ true
    → do_call_outs script fuel (
        serve_all
          (script c)
          (record { call_buffer_size = size; pending_calls = l; current_time = now }))
      ≡ some (made, after)
    → do_call_outs script
        (suc fuel)
        (record { call_buffer_size = size; pending_calls = c ∷ l; current_time = now })
      ≡ some (c ∷ made, after)
unfolding do_call_outs
round_ready script fuel size now c l made after ready run = rw (ready, do_call_outs, run)

-- The loop ends, and what its steps keep holds then.
module _ (script : CallOut → List Request) (P : CallOuts → Type 0)
    (step : (c : CallOut) (size now : ℕ) (l : List CallOut)
      → P (record { call_buffer_size = size; pending_calls = c ∷ l; current_time = now })
      → P (
          serve_all
            (script c)
            (record { call_buffer_size = size; pending_calls = l; current_time = now }))) where
  pub loop_ends :
      (fuel size : ℕ) (l : List CallOut) (now : ℕ)
      → due now l < fuel
      → P (record { call_buffer_size = size; pending_calls = l; current_time = now })
      → Ends script fuel
          (record { call_buffer_size = size; pending_calls = l; current_time = now })
          (λ s. P s × IsDone s)
  unfolding do_call_outs
  loop_ends zero size l now h p = absurd (omega arith)
  loop_ends (suc fuel) size [] now h p = record {
    made = [];
    after = record { call_buffer_size = size; pending_calls = []; current_time = now };
    run = refl;
    holds = (p, refl);
  }
  loop_ends (suc fuel) size (c ∷ l) now h p = elim (Bool-cases (leb c.time now)) [
    | inr waits ↦ record {
      made = [];
      after = record { call_buffer_size = size; pending_calls = c ∷ l; current_time = now };
      run = rw (waits, do_call_outs);
      holds = (p, waits);
    }
    | inl ready ↦
        let s' =
          serve_all (script c)
            (record { call_buffer_size = size; pending_calls = l; current_time = now }) in
        let t : s'.current_time ≡ now = serve_all_time (script c) _ in
        let fewer : due now l < fuel = ground arith in
        let left : due now s'.pending_calls < fuel = omega (
          arith,
          due-serve_all (script c)
              (record { call_buffer_size = size; pending_calls = l; current_time = now }) now refl,
        ) in
        let r =
          loop_ends fuel s'.call_buffer_size s'.pending_calls s'.current_time
            (subst (λ u. due u s'.pending_calls < fuel) (sym t) left) (step c size now l p) in
        record {
          made = c ∷ r.made;
          after = r.after;
          run = round_ready script fuel size now c l r.made r.after ready r.run;
          holds = r.holds;
        }
  ]

-- With more fuel than there are due calls the loop of `do_call_outs` ends, whatever the functions
-- that it calls request, and then no call is due at the head of the table.
pub do_call_outs-Ends :
    (script : CallOut → List Request) (fuel : ℕ) (s : CallOuts)
    → due s.current_time s.pending_calls < fuel
    → Ends script fuel s IsDone
do_call_outs-Ends script fuel s h =
    let r =
      loop_ends script (λ s. Unit {0}) (λ c size now l p. tt) fuel s.call_buffer_size
        s.pending_calls s.current_time h tt in
    record { made = r.made; after = r.after; run = r.run; holds = r.holds.1 }
