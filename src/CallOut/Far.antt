-- ===== src/CallOut/Far.antt =====
-- Requests of src/call_out.c for calls that are more than a second off, and the invariant of the table.
use lpc.Base.{ℕ, ◌+◌, ◌≤◌, ◌<◌, ◌≡◌, sym, subst, ◌∙◌, false, List, [], ◌∷◌, All, arith, inr}
use lpc.CallOut.{
  CallOut, CallOuts, call_time, Request, call_out, remove_call_out, serve, serve_all, is_due,
}
use lpc.CallOut.Place.{IsOrdered}
use lpc.CallOut.Requests.{IsValid, new_call_out-Queues}
use lpc.CallOut.Find.{f_remove_call_out-Removes}
use lpc.CallOut.Loop.{serve_time}

-- The request asks for nothing within the next second.
abbrev pub IsFar : ℕ → Request → Type 0
IsFar now (call_out fun delay extra giver) = now + 1 < call_time now delay
IsFar now (remove_call_out fun) = Unit {0}

pub serve-IsValid :
    (r : Request) (s : CallOuts) → IsFar s.current_time r → IsValid s → IsValid (serve r s)
unfolding serve
serve-IsValid (call_out fun delay extra giver) s far v =
    (new_call_out-Queues s fun delay extra giver v (inr far)).valid
serve-IsValid (remove_call_out fun) s far v = (f_remove_call_out-Removes s fun v).2

pub serve_all-IsValid :
    (rs : List Request) (s : CallOuts) (now : ℕ)
    → s.current_time ≡ now
    → All (IsFar now) rs
    → IsValid s
    → IsValid (serve_all rs s)
unfolding serve_all
serve_all-IsValid [] s now e far v = v
serve_all-IsValid (r ∷ rs) s now e far v =
    serve_all-IsValid rs (serve r s) now (serve_time r s ∙ e) far.1
      (serve-IsValid r s (subst (λ t. IsFar t r) (sym e) far.0) v)

All-le : (m n : ℕ) (l : List CallOut) → m ≤ n → All (λ d. n ≤ d.time) l → All (λ d. m ≤ d.time) l
All-le m n [] le h = tt
All-le m n (c ∷ l) le h = (omega arith, All-le m n l le h.1)

pub none_due :
    (now : ℕ) (l : List CallOut)
    → IsOrdered l
    → is_due now l ≡ false
    → All (λ d. now + 1 ≤ d.time) l
none_due now [] s h = tt
none_due now (c ∷ l) s h = (ground arith, All-le (now + 1) c.time l (ground arith) s.0)
