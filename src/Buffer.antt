-- ===== src/Buffer.antt =====
-- The growing buffer of src/dynamic_buffer.c, and the memory that `str` points to. `malloc` and
-- `realloc` succeed.
pub mod Memory
pub mod Writes
use lpc.Base.{
  ℕ, zero, suc, ◌+◌, ◌*◌, Bool, true, false, Option, none, some, List, [], ◌∷◌, leb, if◌then◌else◌,
  length, take,
}
use mathlib.Core.Option
use lpc.Text.{Bytes}

-- `str` is all the memory that was allocated, `none` for a null pointer; `len` bytes of it are in use.
pub record Buffer : Type 0 where
  pub str : Option Bytes
  pub len : ℕ
  pub bufsize : ℕ

-- `BUFFER_BEGIN_SIZE`
abbrev pub buffer_begin_size : ℕ
buffer_begin_size = 4080

-- `str[n]=b`, `none` past the end of the memory
unfoldable pub store : ℕ → ℕ → Bytes → Option Bytes
store n b [] = none
store zero b (x ∷ mem) = some (b ∷ mem)
store (suc n) b (x ∷ mem) = Option.map (λ m. x ∷ m) (store n b mem)

-- `MEMCPY(str+n,b,l)`
unfoldable pub memcpy : ℕ → Bytes → Bytes → Option Bytes
unfolding store
memcpy n [] mem = some mem
memcpy n (b ∷ bs) mem = elim (store n b mem) [ none ↦ none | some m ↦ memcpy (suc n) bs m ]

-- `junk` is what stands in memory that nothing was written to.
module _ (junk : ℕ) where
  -- `n` bytes of memory that begin as `mem` does
  unfoldable pub realloc : ℕ → Bytes → Bytes
  realloc zero mem = []
  realloc (suc n) [] = junk ∷ realloc n []
  realloc (suc n) (x ∷ mem) = x ∷ realloc n mem

  -- Writing to a null pointer is a fatal error, `none`, as is writing past the end.
  unfoldable pub low_my_putchar : ℕ → Buffer → Option Buffer
  unfolding realloc store
  low_my_putchar b buf = elim buf.str [
    | none ↦ none
    | some str ↦
        let full = leb buf.bufsize buf.len in
        let size = if full then buf.bufsize * 2 else buf.bufsize in
        Option.map (λ m. record { str = some m; len = suc buf.len; bufsize = size })
          (store buf.len b (if full then realloc size str else str))
  ]

  -- The loop that grows the buffer until there is room for `n` bytes and one more: the memory, and
  -- its size.
  unfoldable pub grow : ℕ → ℕ → Bytes → ℕ → Bytes × ℕ
  unfolding realloc
  grow zero n str size = (str, size)
  grow (suc fuel) n str size = elim (leb size n) [
    | true ↦ grow fuel n (realloc (size * 2) str) (size * 2)
    | false ↦ (str, size)
  ]

  unfoldable pub low_my_binary_strcat : Bytes → Buffer → Option Buffer
  unfolding grow memcpy
  low_my_binary_strcat b buf = elim buf.str [
    | none ↦ none
    | some str ↦
        let n = buf.len + length b in
        let grown = grow n n str buf.bufsize in
        Option.map (λ m. record { str = some m; len = n; bufsize = grown.1 })
          (memcpy buf.len b grown.0)
  ]

  unfoldable pub low_init_buf : Buffer → Option Buffer
  unfolding realloc store
  low_init_buf buf = elim buf.str [
    | none ↦
        Option.map (λ m. record { str = some m; len = 0; bufsize = buffer_begin_size })
          (store 0 0 (realloc buffer_begin_size []))
    | some str ↦ Option.map (λ m. record buf { str = some m; len = 0 }) (store 0 0 str)
  ]

  -- `return_buf`: a zero byte is written and stays.
  unfoldable pub return_buf : Buffer → Option Buffer
  unfolding low_my_putchar
  return_buf buf = low_my_putchar 0 buf

-- The bytes in use as a shared string, or a null pointer.
unfoldable pub low_free_buf : Buffer → Option Bytes × Buffer
low_free_buf buf = elim buf.str [
  | none ↦ (none, buf)
  | some str ↦ (some (take buf.len str), record buf { str = none; len = 0 })
]

-- A use of the buffer: a character or a string is written.
pub data Write : Type 0 where
  my_putchar : ℕ → Write
  my_binary_strcat : Bytes → Write

module _ (junk : ℕ) where
  unfoldable pub write : Write → Buffer → Option Buffer
  unfolding low_my_putchar low_my_binary_strcat
  write (my_putchar b) buf = low_my_putchar junk b buf
  write (my_binary_strcat b) buf = low_my_binary_strcat junk b buf

  unfoldable pub write_all : List Write → Buffer → Option Buffer
  unfolding write
  write_all [] buf = some buf
  write_all (w ∷ ws) buf = elim (write w buf) [ none ↦ none | some buf' ↦ write_all ws buf' ]
