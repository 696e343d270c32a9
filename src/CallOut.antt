-- ===== src/CallOut.antt =====
-- The call outs of src/call_out.c: the pointers in use stand at the end of a buffer, in the order of
-- their times. Times do not overflow an `int`, and allocations succeed.
pub mod Place
pub mod Requests
pub mod Find
pub mod Loop
pub mod Far
pub mod Made
pub mod Complete
use lpc.Base.{
  ℕ, zero, suc, ◌+◌, ◌-◌, ◌*◌, ◌/◌, Bool, true, false, ◌&&◌, Option, none, some, List, [], ◌∷◌, ℤ,
  pos, negsuc, pos_part, ◌+ℤ◌, ◌-ℤ◌, ltb_ℤ, eqb_ℤ, leb, ltb, ◌==◌, if◌then◌else◌, length, get_or,
}
use lpc.Value.{Svalue, zero_svalue, undefined_svalue, t_number}
use lpc.Alist.{insert_at, remove_at}

-- `args` begins with the function that is called; `command_giver` is an object, if there is one.
pub record CallOut : Type 0 where
  pub time : ℕ
  pub command_giver : Option ℕ
  pub args : List Svalue

-- `call_buffer_size` is 0 while there is no buffer.
pub record CallOuts : Type 0 where
  pub call_buffer_size : ℕ
  pub pending_calls : List CallOut
  pub current_time : ℕ

abbrev pub no_call : CallOut
no_call = record { time = 0; command_giver = none; args = [] }

-- The room that is made for one more pointer.
unfoldable pub grown_size : CallOuts → ℕ
grown_size s =
    let size = if s.call_buffer_size == 0 then 20 else s.call_buffer_size in
    if length s.pending_calls == size then size * 2 else size

-- The time of a new call out, one second from now at least.
unfoldable pub call_time : ℕ → ℤ → ℕ
call_time now delay =
    let time = pos now +ℤ delay in if ltb_ℤ (pos now) time then pos_part time else now + 1

-- The binary search: `p` is the distance of `pos` from the first pointer, and `e` the number of
-- pointers that are left, which falls in each round.
unfoldable pub find_place : ℕ → ℕ → List CallOut → ℕ → ℕ → ℕ
find_place zero time l p e = p
find_place (suc fuel) time l p e =
    let c = e / 2 in
    elim (ltb 0 e) [
      | false ↦ p
      | true ↦ elim (ltb (get_or l (p + c) no_call).time time) [
        | true ↦ find_place fuel time l (p + c + 1) (e - (c + 1))
        | false ↦ find_place fuel time l p c
      ]
    ]

-- A call out for the next second is put first without a search.
unfoldable pub place_of : ℕ → CallOuts → ℕ
place_of time s =
    if ltb (s.current_time + 1) time
    then find_place (length s.pending_calls) time s.pending_calls 0 (length s.pending_calls)
    else 0

unfoldable pub new_call_out : CallOuts → Svalue → ℤ → List Svalue → Option ℕ → CallOuts
new_call_out s fun delay extra command_giver =
    let time = call_time s.current_time delay in
    record s {
      call_buffer_size = grown_size s;
      pending_calls =
          insert_at (place_of time s)
            (record { time = time; command_giver = command_giver; args = fun ∷ extra })
            s.pending_calls;
    }

-- The parts of `argp[0]` that `find_call_out` compares.
abbrev pub calls : Svalue → CallOut → Bool
calls fun c =
    let f = get_or c.args 0 zero_svalue in
    eqb_ℤ f.u fun.u && (f.type == fun.type && f.subtype == fun.subtype)

unfoldable pub find_from : Svalue → List CallOut → ℕ → Option ℕ
find_from fun [] e = none
find_from fun (c ∷ l) e = let rest = find_from fun l (e + 1) in if calls fun c then some e else rest

-- `none` for -1
abbrev pub find_call_out : Svalue → CallOuts → Option ℕ
find_call_out fun s = find_from fun s.pending_calls 0

-- `push_number(pending_calls[e]->time-current_time)`
abbrev pub time_left : CallOuts → ℕ → Svalue
time_left s e = record {
  type = t_number;
  subtype = 0;
  u = pos (get_or s.pending_calls e no_call).time -ℤ pos s.current_time;
}

unfoldable pub f_find_call_out : CallOuts → Svalue → Svalue
f_find_call_out s fun = elim (find_call_out fun s) [
  | none ↦ undefined_svalue
  | some e ↦ time_left s e
]

unfoldable pub f_remove_call_out : CallOuts → Svalue → CallOuts × Svalue
f_remove_call_out s fun = elim (find_call_out fun s) [
  | none ↦ (s, undefined_svalue)
  | some e ↦ (record s { pending_calls = remove_at e s.pending_calls }, time_left s e)
]

-- What a function that is called may do to the call outs.
pub data Request : Type 0 where
  call_out : Svalue → ℤ → List Svalue → Option ℕ → Request
  remove_call_out : Svalue → Request

unfoldable pub serve : Request → CallOuts → CallOuts
serve (call_out fun delay extra giver) s = new_call_out s fun delay extra giver
serve (remove_call_out fun) s = (f_remove_call_out s fun).0

unfoldable pub serve_all : List Request → CallOuts → CallOuts
serve_all [] s = s
serve_all (r ∷ rs) s = serve_all rs (serve r s)

-- `num_pending_calls && pending_calls[0]->time<=current_time`
abbrev pub is_due : ℕ → List CallOut → Bool
is_due now [] = false
is_due now (c ∷ l) = leb c.time now

-- The loop of `do_call_outs`, with the calls that it made in order. The function of a call out is
-- code of the game: `script` says what it requests.
unfoldable pub do_call_outs :
    (CallOut → List Request) → ℕ → CallOuts → Option (List CallOut × CallOuts)
do_call_outs script zero s = none
do_call_outs script (suc fuel) s = elim s.pending_calls [
  | [] ↦ some ([], s)
  | c ∷ l ↦ elim (leb c.time s.current_time) [
    | false ↦ some ([], s)
    | true ↦
        elim (do_call_outs script fuel (serve_all (script c) (record s { pending_calls = l }))) [
          | none ↦ none
          | some r ↦ some (c ∷ r.0, r.1)
        ]
  ]
]
