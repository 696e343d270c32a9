-- ===== src/Tests/Texts.antt =====
-- Strings that are cut, joined and rewritten.
use lpc.Base.{false, List, ◌≡◌, ◌≢◌, refl, [], ◌∷◌, none, some}
use lpc.Buffer.{
  Write, low_my_binary_strcat, grow, memcpy, store, realloc, Buffer, my_putchar, my_binary_strcat,
  write_all, low_init_buf, low_free_buf,
}
use lpc.Buffer.Writes.{all_bytes, low_free_buf-write_all}
use lpc.Text.{
  Bytes, matches, count_loop, pieces, explode_size, explode, implode, implode_size, string_replace,
}
use lpc.Text.Split.{items}
use lpc.Text.Replace.{string_replace-implode-explode}

abbrev path : Bytes
path = b'a' ∷ b'/' ∷ b'/' ∷ b'b' ∷ []

abbrev slash : Bytes
slash = b'/' ∷ []

abbrev program : Unit {0}
unfolding count_loop explode pieces explode_size implode implode_size string_replace matches
program = tt

cut : explode false path slash ≡ some ((b'a' ∷ []) ∷ [] ∷ (b'b' ∷ []) ∷ [])
unfolding program
cut = refl

replaced :
    string_replace path slash (b'.' ∷ b'.' ∷ []) ≡ b'a' ∷ b'.' ∷ b'.' ∷ b'.' ∷ b'.' ∷ b'b' ∷ []
unfolding program
replaced = refl

slash-ne-nil : slash ≢ []
slash-ne-nil e = cc

string_replace-implode-explode_example :
    string_replace path slash [] ≡ implode (items ((b'a' ∷ []) ∷ [] ∷ (b'b' ∷ []) ∷ [])) []
string_replace-implode-explode_example =
    string_replace-implode-explode false path slash [] ((b'a' ∷ []) ∷ [] ∷ (b'b' ∷ []) ∷ [])
      slash-ne-nil cut

abbrev fresh_buffer : Buffer
fresh_buffer = record { str = none; len = 0; bufsize = 0 }

abbrev small_buffer : Buffer
small_buffer = record { str = some (0 ∷ 0 ∷ []); len = 0; bufsize = 2 }

-- The room doubles twice.
grown_buffer :
    low_my_binary_strcat 7 path small_buffer
    ≡ some (record {
      str = some (b'a' ∷ b'/' ∷ b'/' ∷ b'b' ∷ 7 ∷ 7 ∷ 7 ∷ 7 ∷ []);
      len = 4;
      bufsize = 8;
    })
unfolding low_my_binary_strcat grow memcpy store realloc
grown_buffer = refl

abbrev writes : List Write
writes = my_putchar b'a' ∷ my_binary_strcat path ∷ []

low_free_buf-write_all_example :
    (start : Buffer) × (buf' : Buffer) × (low_init_buf 7 fresh_buffer ≡ some start)
    × (write_all 7 writes start ≡ some buf')
    × ((low_free_buf buf').0 ≡ some (all_bytes writes))
    × ((low_free_buf buf').1.str ≡ none)
low_free_buf-write_all_example = low_free_buf-write_all 7 fresh_buffer writes refl
