-- ===== src/Buffer/Memory.antt =====
-- The memory of a buffer of src/dynamic_buffer.c: stores in range, and growth.
use lpc.Base.{
  ℕ, zero, suc, ◌+◌, ◌*◌, ◌≤◌, ◌<◌, ◌≡◌, refl, ap, sym, ◌∙◌, some, [], ◌∷◌, ◌++◌, leb, length, take,
  arith, Bool-cases, inl, inr,
}
use mathlib.Core.List.{append_assoc, append-nil}
use lpc.Text.{Bytes}
use lpc.Buffer.{store, memcpy, realloc, grow}

-- After a write of `bs` from the place `n` to the place `end`: the memory is as large as before, and
-- begins as it did with `bs` behind that.
pub record Wrote (n end : ℕ) (bs mem mem' : Bytes) : Type 0 where
  pub size : length mem' ≡ length mem
  pub front : take end mem' ≡ take n mem ++ bs

pub store-Wrote :
    (n b : ℕ) (mem : Bytes)
    → n < length mem
    → (mem' : Bytes) × (store n b mem ≡ some mem') × Wrote n (suc n) (b ∷ []) mem mem'
unfolding store
store-Wrote n b [] lt = absurd (omega arith)
store-Wrote zero b (x ∷ mem) lt = (b ∷ mem, refl, record { size = refl; front = refl })
store-Wrote (suc n) b (x ∷ mem) lt =
    let (m, e, w) = store-Wrote n b mem (omega arith) in
    (x ∷ m, rw (e, store) refl, record { size = ap suc w.size; front = ap (◌∷◌ x) w.front })

pub memcpy-Wrote :
    (n : ℕ) (bs mem : Bytes)
    → n + length bs ≤ length mem
    → (mem' : Bytes) × (memcpy n bs mem ≡ some mem') × Wrote n (n + length bs) bs mem mem'
unfolding memcpy
memcpy-Wrote n [] mem le = (
  mem,
  refl,
  record {
    size = refl;
    front =
        ap (λ k. take k mem) (let e : n + length {A = ℕ} [] ≡ n = omega arith in e)
        ∙ sym (append-nil (take n mem));
  },
)
memcpy-Wrote n (b ∷ bs) mem le =
    let (m, e, w) = store-Wrote n b mem (omega arith) in
    let up : n + length (b ∷ bs) ≡ suc n + length bs = omega arith in
    let (m', e', w') = memcpy-Wrote (suc n) bs m (omega (arith, w.size)) in
    (
      m',
      rw (e, memcpy) e',
      record {
        size = w'.size ∙ w.size;
        front =
            ap (λ k. take k m') up
            ∙ w'.front
            ∙ ap (λ l. l ++ bs) w.front
            ∙ append_assoc (take n mem) (b ∷ []) bs;
      },
    )

module _ (junk : ℕ) where
  pub length-realloc : (n : ℕ) (mem : Bytes) → length (realloc junk n mem) ≡ n
  unfolding realloc
  length-realloc zero mem = refl
  length-realloc (suc n) [] = ap suc (length-realloc n [])
  length-realloc (suc n) (x ∷ mem) = ap suc (length-realloc n mem)

  pub take-realloc :
      (k n : ℕ) (mem : Bytes) → k ≤ n → k ≤ length mem → take k (realloc junk n mem) ≡ take k mem
  unfolding realloc
  take-realloc zero n mem le h = refl
  take-realloc (suc k) zero mem le h = absurd (omega arith)
  take-realloc (suc k) (suc n) [] le h = absurd (omega arith)
  take-realloc (suc k) (suc n) (x ∷ mem) le h =
      ap (◌∷◌ x) (take-realloc k n mem (omega arith) (omega arith))

  -- The memory after the loop: there is room for `n` bytes and one more, and the first `k` bytes are
  -- as they were.
  pub record Grown (k n : ℕ) (mem : Bytes) (grown : Bytes × ℕ) : Type 0 where
    pub room : n < grown.1
    pub size : length grown.0 ≡ grown.1
    pub kept : take k grown.0 ≡ take k mem

  pub grow-Grown :
      (fuel k n : ℕ) (mem : Bytes) (size : ℕ)
      → 0 < size
      → n < size + fuel
      → length mem ≡ size
      → k ≤ size
      → Grown k n mem (grow junk fuel n mem size)
  unfolding grow
  grow-Grown zero k n mem size pos h e le = record { room = omega arith; size = e; kept = refl }
  grow-Grown (suc fuel) k n mem size pos h e le = elim (Bool-cases (leb size n)) [
    | inl more ↦
        let g =
          grow-Grown fuel k n (realloc junk (size * 2) mem) (size * 2) (omega arith) (omega arith)
            (length-realloc (size * 2) mem) (omega arith) in
        rw (more, grow)
          (record {
            room = g.room;
            size = g.size;
            kept = g.kept ∙ take-realloc k (size * 2) mem (omega arith) (omega arith);
          })
    | inr done ↦ rw (done, grow) (record { room = ground arith; size = e; kept = refl })
  ]
