-- ===== src/Lib.antt =====
-- A verification library for the LPC driver, the C program of src/: the runtime of LPC programs.
--
-- The driver runs the LPC code of a game. Its values are tagged unions (src/interpret.h); strings
-- are shared through one hash table (src/stralloc.c), so that equal strings are equal pointers; the
-- order `alist_cmp` of src/array.c, which compares those pointers, keeps the keys of mappings and
-- lists sorted, so that a lookup is a binary search, and the set operators of the language are
-- merges (src/list.c, src/mapping.c). The backend calls functions at a later time from a table of
-- call outs (src/call_out.c).
--
-- Files, and the code that they model:
--   Base: what the other files share: lists, options, tests, integers over the native numbers.
--   Value: `struct svalue` and `alist_cmp`. Value/Order: the rank of a value.
--   Alist: `search_alist`, `assoc`, `insert_alist`, `donk_alist_item`, the mapping operations of
--     src/mapping.c and the indexing of src/opcodes.c. Alist/Sorted, Search, Places, Lookup and
--     Update: the binary search, and the finite map that a mapping stands for.
--   Arrays: `slice_array`, `array_replace` and `check_vector_for_destruct` of src/array.c, `is_eq` of
--     src/operators.c and the copies of src/interpret.c. Arrays/Slices and Destructed.
--   Growth: `allocate_array_no_init` and `insert_array` of src/array.c, with the slots of a vector in
--     memory. Growth/Inserting.
--   Calls: `map_array`, `search_array`, `filter` and `sum_arrays` of src/array.c. Calls/Pure:
--     functions that change nothing.
--   Mappings: `subtract_mapping` of src/mapping.c, `check_alist_for_destruct` of src/array.c and
--     `cleanup_map` of src/list.c. Mappings/Subtract, Live and Cleanup.
--   Surgery: `do_array_surgery` of src/list.c. Surgery/Counts, Multisets and Operators.
--   Fsort: src/fsort.c. Fsort/Swaps, Scans, Partition, Joins and Sorting.
--   Making: lists and mappings made of arrays: `order_alist` and `subtract_array` of src/array.c, `mklist`
--     of src/list.c, `f_m_aggregate` and `f_mkmapping` of src/mapping_efuns.c. Making/Orders, Distinct,
--     Results and Subtract.
--   Sort: `msort` of src/msort2.c. Sort/Merge, Passes and Runs.
--   CallOut: src/call_out.c. CallOut/Place, Requests, Find, Loop, Far, Made and Complete.
--   Text: `explode` and `implode` of src/array.c and `string_replace` of src/array_efuns.c.
--   Buffer: src/dynamic_buffer.c, without the buffers that begin with a string. Buffer/Memory
--     and Writes.
--   Fields: `fix_field` of src/sprintf.c. Fields/Widths.
--   Hash: `hashmem` and `hashstr` of src/hash.c.
--   Strings: src/stralloc.c. Strings/Chains, View, Sharing and Freeing.
--   Names: src/otable.c and src/more_hashes.c, the tables of programs and objects by name.
--     Names/Chains, Entries and Tables.
--   Operators: the comparisons of src/operators.c and `my_strcmp` of src/stralloc.c.
--     Operators/Strcmp, Compare and Deep.
--   LineNumbers: the table of line numbers, which src/las.c writes and src/interpret.c searches, for a
--     `long` of either size. LineNumbers/Numbers, Table and Lines.
--   Constants: the codes of instructions, the numbers and the strings of a program, which src/las.c
--     writes and `eval_instruction` of src/interpret.c reads. Constants/Codes, Numbers, Literals and
--     Pool.
--   Arithmetic: the operators of src/operators.c on numbers. Arithmetic/Typing and Division.
--   Saving: the text of values in src/save_objectII.c, in its three styles, which quote a string or
--     give its length.
--   Sum: `f_sum` of src/operators.c on strings and numbers, with the cache of the sums of two strings.
--     Sum/Cache and Room.
--   Restoring: the reader of the texts of Saving. Restoring/Loops and Cases: the cases of
--     `low_restore_svalue`; Restoring/Words, Quotes, Shapes, Bracketed, Depth and RoundTrip.
--   Objects: `save_object` and `restore_object` of src/save_objectII.c and `find_status` of
--     src/simulate.c. Objects/Lines and RoundTrip.
--   Tests: concrete runs, and an instance of each theorem that has a hypothesis.
--
-- A loop of the source is a recursion on what it goes through, or on fuel: the distance of the ends
-- in a binary search, the length of the string or list in the scans, merges and passes, and in
-- `do_call_outs`, whose calls may request new calls, a number above the count of the calls that are
-- due; in `low_is_equal` a number above one more than the depth of the vectors, in `grow` the length
-- that is to fit; in `fsort` the length of the area, in the line table and in the reader of saved texts the
-- length of the table or the text, of which each round takes a byte. Where the fuel is a parameter
-- a theorem says how much is enough.
--
-- A saved value is a tree: a vector, list or mapping that contains itself is not in the model, and
-- neither are the texts of floats, regular expressions, objects and functions (the reader gives
-- `other`). How the reader sees a value as an `svalue`, with which it orders keys, is a parameter.
--
-- Not modelled: the compiler but for line numbers and the numbers and strings in a program, and
-- most of the interpreter (src/lex.c, src/las.c, src/language.y, src/interpret.c), the format
-- strings and columns of src/sprintf.c, objects and their loading (src/simulate.c), sockets, files
-- and the other system calls, the allocators, the regular expressions of Henry Spencer
-- (src/regexp.c), and the library of the game. Reference counts are modelled for shared strings
-- alone, elsewhere a value is copied. `malloc` and `realloc` succeed; the error about the size of an
-- array (more than 5000 items outside batch mode) is modelled in `insert_array`, `insert_alist`,
-- `do_array_surgery`, `explode`, `f_m_aggregate` and the reader of saved texts. Which objects are
-- destructed is a parameter, `destructed`: a test on their addresses. Sizes and times stay within a C
-- `int`.
pub mod Base
pub mod Value
pub mod Arrays
pub mod Calls
pub mod Growth
pub mod Alist
pub mod Surgery
pub mod Fsort
pub mod Making
pub mod Mappings
pub mod Sort
pub mod CallOut
pub mod Text
pub mod Buffer
pub mod Fields
pub mod Hash
pub mod Strings
pub mod Names
pub mod Operators
pub mod LineNumbers
pub mod Constants
pub mod Arithmetic
pub mod Saving
pub mod Sum
pub mod Restoring
pub mod Objects
pub mod Tests
