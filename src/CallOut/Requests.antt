-- ===== src/CallOut/Requests.antt =====
-- The requests of src/call_out.c, and the invariant of its table.
use lpc.Base.{
  ℕ, zero, suc, ◌+◌, ◌≤◌, ◌<◌, ◌≡◌, refl, ap, Option, List, [], ◌∷◌, ℤ, length, All, arith, ◌⊎◌,
}
use lpc.Value.{Svalue}
use lpc.Alist.{insert_at, remove_at}
use lpc.CallOut.{CallOut, CallOuts, call_time, place_of, new_call_out, grown_size}
use lpc.CallOut.Place.{
  IsOrdered, IsPlace, NoneDue, place_of-IsPlace, IsOrdered-insert_at, call_time-after,
}

-- The pending calls are in the order of their times, and fit into the buffer.
pub record IsValid (s : CallOuts) : Type 0 where
  pub ordered : IsOrdered s.pending_calls
  pub fits : length s.pending_calls ≤ s.call_buffer_size

pub length-insert_at :
    (n : ℕ) (c : CallOut) (l : List CallOut) → length (insert_at n c l) ≡ suc (length l)
unfolding insert_at
length-insert_at zero c l = refl
length-insert_at (suc n) c [] = refl
length-insert_at (suc n) c (d ∷ l) = ap suc (length-insert_at n c l)

pub length-remove_at : (n : ℕ) (l : List CallOut) → length (remove_at n l) ≤ length l
unfolding remove_at
length-remove_at n [] = omega arith
length-remove_at zero (c ∷ l) = omega arith
length-remove_at (suc n) (c ∷ l) = omega (arith, length-remove_at n l)

pub All-remove_at :
    (t : ℕ) (n : ℕ) (l : List CallOut)
    → All (λ d. t ≤ d.time) l
    → All (λ d. t ≤ d.time) (remove_at n l)
unfolding remove_at
All-remove_at t n [] h = tt
All-remove_at t zero (d ∷ l) h = h.1
All-remove_at t (suc n) (d ∷ l) h = (h.0, All-remove_at t n l h.1)

pub IsOrdered-remove_at : (n : ℕ) (l : List CallOut) → IsOrdered l → IsOrdered (remove_at n l)
unfolding remove_at
IsOrdered-remove_at n [] s = tt
IsOrdered-remove_at zero (d ∷ l) s = s.1
IsOrdered-remove_at (suc n) (d ∷ l) s = (All-remove_at d.time n l s.0, IsOrdered-remove_at n l s.1)

grown_size-fits :
    (s : CallOuts)
    → length s.pending_calls ≤ s.call_buffer_size
    → length s.pending_calls < grown_size s
unfolding grown_size
grown_size-fits s h = ground arith

abbrev pub the_call : CallOuts → Svalue → ℤ → List Svalue → Option ℕ → CallOut
the_call s fun delay extra giver = record {
  time = call_time s.current_time delay;
  command_giver = giver;
  args = fun ∷ extra;
}

-- How a new call out enters the table: at a time that is still to come, behind all that is earlier
-- and in front of all that is not, with room in the buffer.
pub record Queues (s : CallOuts) (c : CallOut) (s' : CallOuts) : Type 0 where
  pub n : ℕ
  pub place : IsPlace c.time s.pending_calls n
  pub pending : s'.pending_calls ≡ insert_at n c s.pending_calls
  pub valid : IsValid s'
  pub later : s.current_time < c.time

-- `call_out` puts the new call in its place among the pending ones and keeps the table well formed,
-- if no pending call is due or the new one is more than a second off.
pub new_call_out-Queues :
    (s : CallOuts) (fun : Svalue) (delay : ℤ) (extra : List Svalue) (giver : Option ℕ)
    → IsValid s
    → (NoneDue s) ⊎ (s.current_time + 1 < call_time s.current_time delay)
    → Queues s (the_call s fun delay extra giver) (new_call_out s fun delay extra giver)
unfolding new_call_out
new_call_out-Queues s fun delay extra giver v d =
    let t = call_time s.current_time delay in
    let after = call_time-after s.current_time delay in
    let p = place_of-IsPlace s t v.ordered d after in
    record {
      n = place_of t s;
      place = p;
      pending = refl;
      valid = record {
        ordered = IsOrdered-insert_at _ s.pending_calls (place_of t s) v.ordered p;
        fits = omega (
          arith,
          grown_size-fits s v.fits,
          length-insert_at (place_of t s) (the_call s fun delay extra giver) s.pending_calls,
        );
      };
      later = after;
    }
