-- ===== src/Buffer/Writes.antt =====
-- Sequences of writes to the buffer of src/dynamic_buffer.c, in the memory that it has.
use lpc.Base.{
  ℕ, suc, ◌+◌, ◌*◌, ◌<◌, ◌≤◌, ◌≡◌, refl, ap, ◌∙◌, none, some, List, [], ◌∷◌, ◌++◌, leb, length,
  take, length-append, arith, Bool-cases, inl, inr,
}
use mathlib.Core.List.{append_assoc, append-nil}
use lpc.Text.{Bytes}
use lpc.Buffer.{
  Buffer, buffer_begin_size, realloc, low_my_putchar, grow, low_my_binary_strcat, low_init_buf,
  low_free_buf, Write, my_putchar, my_binary_strcat, write, write_all,
}
use lpc.Buffer.Memory.{store-Wrote, memcpy-Wrote, length-realloc, take-realloc, grow-Grown}

-- A buffer in use: its memory has `bufsize` bytes, of which the first `len` are `s`.
pub record Holds (s : Bytes) (buf : Buffer) : Type 0 where
  pub mem : Bytes
  pub content : buf.str ≡ some mem
  pub size : length mem ≡ buf.bufsize
  pub used : buf.len ≡ length s
  pub front : take buf.len mem ≡ s
  pub room : buf.len ≤ buf.bufsize
  pub positive : 0 < buf.bufsize

-- the bytes of a write, and of a sequence of them
unfoldable pub bytes : Write → Bytes
bytes (my_putchar b) = b ∷ []
bytes (my_binary_strcat b) = b

unfoldable pub all_bytes : List Write → Bytes
unfolding bytes
all_bytes [] = []
all_bytes (w ∷ ws) = bytes w ++ all_bytes ws

module _ (junk : ℕ) where
  putchar-Holds :
      (b : ℕ) (s : Bytes) (buf : Buffer)
      → Holds s buf
      → (buf' : Buffer) × (low_my_putchar junk b buf ≡ some buf') × Holds (s ++ (b ∷ [])) buf'
  unfolding low_my_putchar
  putchar-Holds b s buf h = elim (Bool-cases (leb buf.bufsize buf.len)) [
    | inl full ↦
        let grown = realloc junk (buf.bufsize * 2) h.mem in
        let size = length-realloc junk (buf.bufsize * 2) h.mem in
        let (m, e, w) = store-Wrote buf.len b grown (omega (arith, size, h.room, h.positive)) in
        (
          record { str = some m; len = suc buf.len; bufsize = buf.bufsize * 2 },
          rw (h.content, low_my_putchar, full, e) refl,
          record {
            mem = m;
            content = refl;
            size = w.size ∙ size;
            used = omega (arith, h.used, length-append s (b ∷ []));
            front =
                w.front
                ∙ ap (λ l. l ++ (b ∷ []))
                    (take-realloc junk buf.len (buf.bufsize * 2) h.mem (omega (arith, h.room))
                        (omega (arith, h.room, h.size))
                      ∙ h.front);
            room = omega (arith, h.room, h.positive);
            positive = omega (arith, h.positive);
          },
        )
    | inr space ↦
        let lt : buf.len < buf.bufsize = ground arith in
        let (m, e, w) = store-Wrote buf.len b h.mem (omega (arith, h.size)) in
        (
          record { str = some m; len = suc buf.len; bufsize = buf.bufsize },
          rw (h.content, low_my_putchar, space, e) refl,
          record {
            mem = m;
            content = refl;
            size = w.size ∙ h.size;
            used = omega (arith, h.used, length-append s (b ∷ []));
            front = w.front ∙ ap (λ l. l ++ (b ∷ [])) h.front;
            room = omega arith;
            positive = h.positive;
          },
        )
  ]

  strcat-Holds :
      (b s : Bytes) (buf : Buffer)
      → Holds s buf
      → (buf' : Buffer) × (low_my_binary_strcat junk b buf ≡ some buf') × Holds (s ++ b) buf'
  unfolding low_my_binary_strcat
  strcat-Holds b s buf h =
      let n = buf.len + length b in
      let grown = grow junk n n h.mem buf.bufsize in
      let g =
        grow-Grown junk n buf.len n h.mem buf.bufsize h.positive (omega (arith, h.positive)) h.size
          h.room in
      let (m, e, w) = memcpy-Wrote buf.len b grown.0 (omega (arith, g.size, g.room)) in
      (
        record { str = some m; len = n; bufsize = grown.1 },
        rw (h.content, low_my_binary_strcat, e) refl,
        record {
          mem = m;
          content = refl;
          size = w.size ∙ g.size;
          used = omega (arith, h.used, length-append s b);
          front = w.front ∙ ap (λ l. l ++ b) (g.kept ∙ h.front);
          room = omega (arith, g.room);
          positive = omega (arith, g.room);
        },
      )

  write-Holds :
      (w : Write) (s : Bytes) (buf : Buffer)
      → Holds s buf
      → (buf' : Buffer) × (write junk w buf ≡ some buf') × Holds (s ++ bytes w) buf'
  unfolding write bytes
  write-Holds (my_putchar b) s buf h = putchar-Holds b s buf h
  write-Holds (my_binary_strcat b) s buf h = strcat-Holds b s buf h

  -- In a buffer that holds some bytes in memory of its size, every sequence of writes succeeds, and
  -- afterwards the buffer holds those bytes and the written ones in order.
  pub write_all-Holds :
      (ws : List Write) (s : Bytes) (buf : Buffer)
      → Holds s buf
      → (buf' : Buffer) × (write_all junk ws buf ≡ some buf') × Holds (s ++ all_bytes ws) buf'
  unfolding write_all all_bytes
  write_all-Holds [] s buf h = (buf, refl, rw (append-nil s) h)
  write_all-Holds (w ∷ ws) s buf h =
      let (b, e, k) = write-Holds w s buf h in
      let (b', e', k') = write_all-Holds ws (s ++ bytes w) b k in
      (b', rw (e, write_all) e', rw (append_assoc s (bytes w) (all_bytes ws)) at k')

  init-Holds :
      (buf : Buffer)
      → buf.str ≡ none
      → (buf' : Buffer) × (low_init_buf junk buf ≡ some buf') × Holds [] buf'
  unfolding low_init_buf
  init-Holds buf e =
      let size = length-realloc junk buffer_begin_size [] in
      let (m, run, w) = store-Wrote 0 0 (realloc junk buffer_begin_size []) (omega (arith, size)) in
      (
        record { str = some m; len = 0; bufsize = buffer_begin_size },
        rw (e, low_init_buf, run) refl,
        record {
          mem = m;
          content = refl;
          size = w.size ∙ size;
          used = refl;
          front = refl;
          room = omega arith;
          positive = omega arith;
        },
      )

  -- Of a buffer without memory, `low_init_buf` and then every sequence of writes succeed, none of
  -- them writing past the end of the memory; `low_free_buf` then answers what was written, in order,
  -- and leaves a buffer without memory.
  pub low_free_buf-write_all :
      (buf : Buffer) (ws : List Write)
      → buf.str ≡ none
      → (start : Buffer) × (buf' : Buffer) × (low_init_buf junk buf ≡ some start)
        × (write_all junk ws start ≡ some buf')
        × ((low_free_buf buf').0 ≡ some (all_bytes ws))
        × ((low_free_buf buf').1.str ≡ none)
  unfolding low_free_buf
  low_free_buf-write_all buf ws e =
      let (start, begun, h) = init-Holds buf e in
      let (b, run, k) = write_all-Holds ws [] start h in
      (
        start,
        b,
        begun,
        run,
        rw (k.content, low_free_buf) (ap some k.front),
        rw (k.content, low_free_buf) refl,
      )
