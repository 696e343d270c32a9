-- ===== src/Tests/CallOuts.antt =====
-- Call outs at times around the hundredth second.
use lpc.Base.{ℕ, ◌≡◌, refl, List, [], ◌∷◌, none, some, inl, pos, arith}
use lpc.Value.{Svalue, t_function}
use lpc.Alist.{insert_at, remove_at}
use lpc.CallOut.{
  CallOut, CallOuts, call_time, find_place, place_of, grown_size, new_call_out, find_from,
  f_find_call_out, f_remove_call_out, Request, call_out, remove_call_out, serve, serve_all,
  do_call_outs,
}
use lpc.CallOut.Place.{NoneDue}
use lpc.CallOut.Requests.{IsValid, Queues, the_call, new_call_out-Queues}
use lpc.CallOut.Find.{Removes, f_remove_call_out-Removes}
use lpc.CallOut.Made.{called, due_calls, drop_removed, remove_first}
use lpc.CallOut.Complete.{do_call_outs-NoneDue}

abbrev fun : ℕ → Svalue
fun n = record { type = t_function; subtype = 0; u = pos n }

abbrev at : ℕ → ℕ → CallOut
at n f = record { time = n; command_giver = none; args = fun f ∷ [] }

abbrev table : List CallOut → CallOuts
table l = record { call_buffer_size = 20; pending_calls = l; current_time = 100 }

abbrev three : CallOuts
three = table (at 99 1 ∷ at 100 2 ∷ at 105 3 ∷ [])

abbrev later : CallOuts
later = table (at 102 1 ∷ at 105 2 ∷ at 105 3 ∷ [])

abbrev program : Unit {0}
unfolding call_time find_place place_of grown_size new_call_out find_from f_find_call_out
    f_remove_call_out serve serve_all do_call_outs insert_at remove_at
program = tt

-- A call out goes in front of those of its own time.
new-later :
    new_call_out later (fun 9) (pos 5) [] none
    ≡ table (at 102 1 ∷ at 105 9 ∷ at 105 2 ∷ at 105 3 ∷ [])
unfolding program
new-later = refl

removed : (f_remove_call_out later (fun 2)).0 ≡ table (at 102 1 ∷ at 105 3 ∷ [])
unfolding program
removed = refl

abbrev quiet : CallOut → List Request
quiet c = []

abbrev eager : CallOut → List Request
eager c = call_out (fun 7) (pos 1) [] none ∷ []

abbrev patient : CallOut → List Request
patient c = call_out (fun 7) (pos 2) [] none ∷ remove_call_out (fun 3) ∷ []

run-quiet : do_call_outs quiet 3 three ≡ some (at 99 1 ∷ at 100 2 ∷ [], table (at 105 3 ∷ []))
unfolding program
run-quiet = refl

three-IsValid : IsValid three
three-IsValid = record { ordered = omega arith; fits = omega arith }

later-IsValid : IsValid later
later-IsValid = record { ordered = omega arith; fits = omega arith }

later-NoneDue : NoneDue later
later-NoneDue = omega arith

new_call_out-Queues_example :
    Queues later
      (the_call later (fun 9) (pos 5) [] none)
      (new_call_out later (fun 9) (pos 5) [] none)
new_call_out-Queues_example =
    new_call_out-Queues later (fun 9) (pos 5) [] none later-IsValid (inl later-NoneDue)

f_remove_call_out-Removes_example :
    Removes (fun 3) later (f_remove_call_out later (fun 3)).0 (f_remove_call_out later (fun 3)).1
    × ((f_remove_call_out later (fun 3)).1 ≡ f_find_call_out later (fun 3))
    × IsValid (f_remove_call_out later (fun 3)).0
f_remove_call_out-Removes_example = f_remove_call_out-Removes later (fun 3) later-IsValid

-- The function of the first call removes the second.
abbrev jealous : CallOut → List Request
jealous c = remove_call_out (fun 2) ∷ []

run-jealous : do_call_outs jealous 3 three ≡ some (at 99 1 ∷ [], table (at 105 3 ∷ []))
unfolding program
run-jealous = refl

called-jealous : called jealous 3 (at 99 1 ∷ at 100 2 ∷ []) ≡ at 99 1 ∷ []
unfolding called drop_removed remove_first
called-jealous = refl

do_call_outs-NoneDue_example :
    (made : List CallOut) × (after : CallOuts) × (do_call_outs patient 3 three ≡ some (made, after))
    × (made ≡ called patient 3 (due_calls 100 three.pending_calls))
    × IsValid after
    × NoneDue after
do_call_outs-NoneDue_example =
    do_call_outs-NoneDue patient 3 three (λ c. unfold program in omega arith) three-IsValid
      (omega arith)
