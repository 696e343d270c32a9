-- ===== src/CallOut/Complete.antt =====
-- `do_call_outs` of src/call_out.c, and what the functions that it calls may request.
use lpc.Base.{
  ℕ, suc, ◌+◌, ◌≤◌, ◌<◌, ◌≡◌, refl, ◌∙◌, false, Option, some, List, [], ◌∷◌, ℤ, pos, ◌≤ℤ◌, ltb, leb,
  All, arith,
}
use lpc.Value.{Svalue}
use lpc.Alist.{insert_at}
use lpc.CallOut.{
  CallOut, CallOuts, call_time, place_of, new_call_out, grown_size, Request, call_out, serve,
  serve_all, do_call_outs,
}
use lpc.CallOut.Place.{NoneDue}
use lpc.CallOut.Far.{IsFar, serve_all-IsValid, none_due}
use lpc.CallOut.Made.{due_calls, called, made_lem}
use lpc.CallOut.Requests.{IsValid}
use lpc.CallOut.Loop.{due, loop_ends, serve_all_time, round_ready}

-- If the table is well formed, no function that is called asks for a call within the next second, and
-- there is more fuel than there are due calls, then the loop ends. It has made the due calls in their
-- order, each but those that a function called before had asked to remove; the table is well formed
-- then, and none of the calls in it is due.
pub do_call_outs-NoneDue :
    (script : CallOut → List Request) (fuel : ℕ) (s : CallOuts)
    → ((c : CallOut) → All (IsFar s.current_time) (script c))
    → IsValid s
    → due s.current_time s.pending_calls < fuel
    → (made : List CallOut) × (after : CallOuts) × (do_call_outs script fuel s ≡ some (made, after))
      × (made ≡ called script fuel (due_calls s.current_time s.pending_calls))
      × IsValid after
      × NoneDue after
do_call_outs-NoneDue script fuel s far v h =
    let P : CallOuts → Type 0 = λ t. IsValid t × (t.current_time ≡ s.current_time) in
    let r =
      loop_ends script P
        (λ c size now l p. (
          serve_all-IsValid (script c) _ s.current_time p.1 (far c)
              (record { ordered = p.0.ordered.1; fits = omega (arith, p.0.fits) }),
          serve_all_time (script c) _ ∙ p.1,
        ))
        fuel s.call_buffer_size s.pending_calls s.current_time h (v, refl) in
    (
      r.made,
      r.after,
      r.run,
      made_lem script s.current_time far fuel s.call_buffer_size s.pending_calls s.current_time refl
          v r.made r.after r.run,
      r.holds.0.0,
      none_due r.after.current_time r.after.pending_calls r.holds.0.0.ordered r.holds.1,
    )

call_time_near : (now : ℕ) (delay : ℤ) → delay ≤ℤ pos 1 → call_time now delay ≡ now + 1
unfolding call_time
call_time_near now delay h = ground arith

put_first :
    (size now : ℕ) (l : List CallOut) (fun : Svalue) (delay : ℤ) (extra : List Svalue)
    (giver : Option ℕ)
    → delay ≤ℤ pos 1
    → let s : CallOuts = record {
      call_buffer_size = size;
      pending_calls = l;
      current_time = now;
    } in
      serve_all (call_out fun delay extra giver ∷ []) s ≡ record {
        call_buffer_size = grown_size s;
        pending_calls = record { time = now + 1; command_giver = giver; args = fun ∷ extra } ∷ l;
        current_time = now;
      }
unfolding serve_all serve new_call_out place_of insert_at
put_first size now l fun delay extra giver near =
    let e : ltb (now + 1) (now + 1) ≡ false = ground arith in
    rw (call_time_near now delay near) (rw (e, place_of, insert_at, new_call_out))

stops :
    (script : CallOut → List Request) (fuel size now : ℕ) (c : CallOut) (l : List CallOut)
    → now < c.time
    → let s : CallOuts = record {
      call_buffer_size = size;
      pending_calls = c ∷ l;
      current_time = now;
    } in
      do_call_outs script (suc fuel) s ≡ some ([], s)
unfolding do_call_outs
stops script fuel size now c l h =
    let e : leb c.time now ≡ false = ground arith in rw (e, do_call_outs)

-- If two calls are due and the function of the first asks for a call within a second (a delay of 1 or
-- less), then the loop stops after the first: the new call stands in front of the second one.
pub do_call_outs-postpones :
    (script : CallOut → List Request) (fuel size now : ℕ) (c d : CallOut) (l : List CallOut)
    (fun : Svalue) (delay : ℤ) (extra : List Svalue) (giver : Option ℕ)
    → c.time ≤ now
    → d.time ≤ now
    → delay ≤ℤ pos 1
    → script c ≡ call_out fun delay extra giver ∷ []
    → (n : ℕ) × (do_call_outs script
          (suc (suc fuel))
          (record { call_buffer_size = size; pending_calls = c ∷ d ∷ l; current_time = now })
        ≡ some (
          c ∷ [],
          record {
            call_buffer_size = n;
            pending_calls =
                record { time = now + 1; command_giver = giver; args = fun ∷ extra } ∷ d ∷ l;
            current_time = now;
          },
        ))
do_call_outs-postpones script fuel size now c d l fun delay extra giver hc hd near e =
    let new : CallOut = record { time = now + 1; command_giver = giver; args = fun ∷ extra } in
    let s : CallOuts = record {
      call_buffer_size = size;
      pending_calls = d ∷ l;
      current_time = now;
    } in
    (
      grown_size s,
      round_ready script (suc fuel) size now c (d ∷ l) [] _ (ground arith) (
          rw (e, put_first size now (d ∷ l) fun delay extra giver near)
            (stops script fuel (grown_size s) now new (d ∷ l) (omega arith))),
    )
