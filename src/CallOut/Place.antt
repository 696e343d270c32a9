-- ===== src/CallOut/Place.antt =====
-- The binary search of `new_call_out` of src/call_out.c, and the order of the times.
use lpc.Base.{
  ℕ, zero, suc, ◌+◌, ◌-◌, ◌/◌, ◌≤◌, ◌<◌, ◌≡◌, List, [], ◌∷◌, ℤ, ltb, length, get_or, All, arith,
  ◌⊎◌, inl, inr, Bool-cases,
}
use lpc.Alist.{insert_at}
use lpc.CallOut.{CallOut, CallOuts, no_call, call_time, find_place, place_of}

abbrev pub time_at : List CallOut → ℕ → ℕ
time_at l i = (get_or l i no_call).time

abbrev pub IsOrdered : List CallOut → Type 0
IsOrdered [] = Unit {0}
IsOrdered (c ∷ l) = All (λ d. c.time ≤ d.time) l × IsOrdered l

-- Before the place `n` all is earlier than `t`, and from there on nothing is.
pub record IsPlace (t : ℕ) (l : List CallOut) (n : ℕ) : Type 0 where
  pub within : n ≤ length l
  pub earlier : (i : ℕ) → i < n → time_at l i < t
  pub not_earlier : (i : ℕ) → n ≤ i → i < length l → t ≤ time_at l i

pub All-at :
    (t : ℕ) (l : List CallOut) (i : ℕ) → All (λ d. t ≤ d.time) l → i < length l → t ≤ time_at l i
All-at t [] i h lt = absurd (omega arith)
All-at t (c ∷ l) zero h lt = h.0
All-at t (c ∷ l) (suc i) h lt = All-at t l i h.1 (omega arith)

IsOrdered-at :
    (l : List CallOut) (i j : ℕ) → IsOrdered l → i ≤ j → j < length l → time_at l i ≤ time_at l j
IsOrdered-at [] i j s le lt = absurd (omega arith)
IsOrdered-at (c ∷ l) zero zero s le lt = omega arith
IsOrdered-at (c ∷ l) zero (suc j) s le lt = All-at c.time l j s.0 (omega arith)
IsOrdered-at (c ∷ l) (suc i) zero s le lt = absurd (omega arith)
IsOrdered-at (c ∷ l) (suc i) (suc j) s le lt = IsOrdered-at l i j s.1 (omega arith) (omega arith)

module _ (t : ℕ) (l : List CallOut) (s : IsOrdered l) where
  find_place-IsPlace :
      (fuel p e : ℕ)
      → e ≤ fuel
      → p + e ≤ length l
      → ((i : ℕ) → i < p → time_at l i < t)
      → ((i : ℕ) → p + e ≤ i → i < length l → t ≤ time_at l i)
      → IsPlace t l (find_place fuel t l p e)
  unfolding find_place
  find_place-IsPlace zero p e f w u o = record {
    within = omega arith;
    earlier = u;
    not_earlier = λ i h k. o i (omega arith) k;
  }
  find_place-IsPlace (suc fuel) p e f w u o =
      let c = e / 2 in
      elim (Bool-cases (ltb 0 e)) [
        | inr done ↦
            rw (done, find_place)
              (record {
                within = omega arith;
                earlier = u;
                not_earlier = λ i h k. o i (ground arith) k;
              })
        | inl more ↦
            let lt : p + c < length l = ground arith in
            elim (Bool-cases (ltb (time_at l (p + c)) t)) [
              | inl right ↦
                  rw (more, right, find_place)
                    (find_place-IsPlace fuel (p + c + 1) (e - (c + 1)) (omega arith) (ground arith)
                      (λ i h. ground (arith, IsOrdered-at l i (p + c) s))
                      (λ i h k. o i (ground arith) k))
              | inr left ↦
                  rw (more, left, find_place)
                    (find_place-IsPlace fuel p c (ground arith) (ground arith) u
                      (λ i h k. ground (arith, IsOrdered-at l (p + c) i s)))
            ]
      ]

All-insert_at :
    (t : ℕ) (n : ℕ) (c : CallOut) (l : List CallOut)
    → t ≤ c.time
    → All (λ d. t ≤ d.time) l
    → All (λ d. t ≤ d.time) (insert_at n c l)
unfolding insert_at
All-insert_at t zero c l e h = (e, h)
All-insert_at t (suc n) c [] e h = (e, tt)
All-insert_at t (suc n) c (d ∷ l) e h = (h.0, All-insert_at t n c l e h.1)

All-of_at :
    (t : ℕ) (l : List CallOut)
    → ((i : ℕ) → i < length l → t ≤ time_at l i)
    → All (λ d. t ≤ d.time) l
All-of_at t [] h = tt
All-of_at t (c ∷ l) h = (h 0 (omega arith), All-of_at t l (λ i lt. h (suc i) (omega arith)))

pub IsOrdered-insert_at :
    (c : CallOut) (l : List CallOut) (n : ℕ)
    → IsOrdered l
    → IsPlace c.time l n
    → IsOrdered (insert_at n c l)
unfolding insert_at
IsOrdered-insert_at c l zero s p =
    (All-of_at c.time l (λ i lt. p.not_earlier i (omega arith) lt), s)
IsOrdered-insert_at c [] (suc n) s p = (tt, tt)
IsOrdered-insert_at c (d ∷ l) (suc n) s p =
    let under = p.earlier 0 (omega arith) in
    let within = p.within in
    (
      All-insert_at d.time n c l (omega arith) s.0,
      IsOrdered-insert_at c l n s.1 (record {
        within = omega arith;
        earlier = λ i lt. p.earlier (suc i) (omega arith);
        not_earlier = λ i ge lt. p.not_earlier (suc i) (omega arith) (omega arith);
      }),
    )

-- No pending call out is due.
abbrev pub NoneDue : CallOuts → Type 0
NoneDue s = All (λ d. s.current_time + 1 ≤ d.time) s.pending_calls

pub call_time-after : (now : ℕ) (delay : ℤ) → now < call_time now delay
unfolding call_time
call_time-after now delay = ground arith

call_time_next :
    (now : ℕ) (delay : ℤ) → call_time now delay ≤ now + 1 → call_time now delay ≡ now + 1
unfolding call_time
call_time_next now delay h = omega (arith, call_time-after now delay)

pub place_of-IsPlace :
    (s : CallOuts) (t : ℕ)
    → IsOrdered s.pending_calls
    → (NoneDue s) ⊎ (s.current_time + 1 < t)
    → s.current_time < t
    → IsPlace t s.pending_calls (place_of t s)
unfolding place_of
place_of-IsPlace s t o d after = elim (Bool-cases (ltb (s.current_time + 1) t)) [
  | inl far ↦
      rw (far, place_of)
        (find_place-IsPlace t s.pending_calls o (length s.pending_calls) 0 (length s.pending_calls)
          (omega arith) (omega arith) (λ i h. absurd (omega arith)) (λ i h k. absurd (omega arith)))
  | inr near ↦
      rw (near, place_of)
        (elim d [
          | inr far ↦ absurd (ground arith)
          | inl none_due ↦ record {
            within = omega arith;
            earlier = λ i h. absurd (omega arith);
            not_earlier =
                λ i h k. ground (arith, All-at (s.current_time + 1) s.pending_calls i none_due k);
          }
        ])
]
