-- ===== src/Tests/Saving.antt =====
-- Values written as text and read back.
use lpc.Base.{◌≡◌, refl, arith, List, [], ◌∷◌, ◌++◌, pos, negsuc, true, false}
use lpc.Value.{Svalue, alist_cmp, same_type_cmp, function_cmp, zero_svalue, t_number, t_string}
use lpc.Fsort.{fsort, fsort2, partition, scan_up, scan_down, swap}
use lpc.Making.{indices}
use lpc.Saving.{
  Value, number, string, vector, mapping, none_left, also, no_entry, entry, save_default,
  save_as_one_line, low_save_svalue, save_string, decimal, decimal_loop, print_int, one_line,
  old_style,
}
use lpc.Restoring.{done, read_digits, strtol, escape, unquote, restore_string}
use lpc.Restoring.Shapes.{Fits, arranged}
use lpc.Restoring.RoundTrip.{restore_svalue-low_save_svalue}
use lpc.Strings.{same_bytes}
use lpc.Objects.{
  Variable, find_status, is_saved, save_object, split_name, assign, restore_loop, restore_object,
  type_of, t_any,
}
use lpc.Objects.Lines.{IsName}
use lpc.Objects.RoundTrip.{NamesDiffer, CanSave, after_all, restore_object-save_object}
use lpc.Restoring.Loops.{
  order_values, order_entries, while_items, while_entries, restore_items, restore_entries,
  allocate_array,
}
use lpc.Restoring.Cases.{
  restore_svalue, low_restore_svalue, restore_number, restore_clone, restore_bracket, sized,
  open_vector, open_list, open_mapping, sized_vector, sized_list, sized_mapping,
}

abbrev as_svalue : Value → Svalue
as_svalue (number k n) = record { type = t_number; subtype = k; u = n }
as_svalue (string s) = record { type = t_string; subtype = 0; u = pos 16 }
as_svalue v = zero_svalue

abbrev program : Unit {0}
unfolding fsort fsort2 partition scan_up scan_down swap indices alist_cmp same_type_cmp function_cmp
    low_save_svalue save_string decimal decimal_loop print_int one_line old_style order_values
    order_entries restore_svalue low_restore_svalue restore_number restore_clone restore_bracket
    sized open_vector open_list open_mapping sized_vector sized_list sized_mapping while_items
    while_entries restore_items restore_entries allocate_array read_digits strtol escape unquote
    restore_string
program = tt

-- ({ 17, "a\n", ([ -5: ({ }) ]) })
abbrev sample : Value
sample = vector (
    also (number 0 (pos 17)) (
      also (string (97 ∷ (10 ∷ []))) (
        also (mapping (entry (number 0 (negsuc 4)) (vector none_left) no_entry) (number 1 (pos 0)))
          none_left)))

saved :
    low_save_svalue save_as_one_line sample
    ≡ 40
      ∷ (51
          ∷ (123
              ∷ (49
                  ∷ (55
                      ∷ (44
                          ∷ (34
                              ∷ (97
                                  ∷ (92
                                      ∷ (110
                                          ∷ (34
                                              ∷ (44
                                                  ∷ (40
                                                      ∷ (49
                                                          ∷ (91
                                                            ∷ (45
                                                            ∷ (53
                                                            ∷ (58
                                                            ∷ (40
                                                            ∷ (48
                                                            ∷ (123
                                                            ∷ (125
                                                            ∷ (41
                                                            ∷ (93
                                                            ∷ (41
                                                            ∷ (125
                                                            ∷ (41 ∷ []))))))))))))))))))))))))))
unfolding program
saved = refl

restored :
    restore_svalue as_svalue false (low_save_svalue save_as_one_line sample ++ (10 ∷ []))
    ≡ done
        (vector (
          also (number 0 (pos 17)) (
            also (string (97 ∷ (10 ∷ []))) (
              also
                (mapping
                  (entry (number 0 (negsuc 4)) (vector none_left) no_entry)
                  (number 0 (pos 0)))
                none_left))))
        (10 ∷ [])
unfolding program
restored = refl

sample-Fits : Fits save_as_one_line sample
sample-Fits = (
  omega arith,
  (
    omega arith,
    (
      (λ e. omega arith, (λ e. omega arith, tt)),
      ((omega arith, (omega arith, (omega arith, tt), tt)), tt),
    ),
  ),
)

restore_svalue-low_save_svalue_example :
    restore_svalue as_svalue false (low_save_svalue save_as_one_line sample ++ (10 ∷ []))
    ≡ done (arranged as_svalue sample) (10 ∷ [])
restore_svalue-low_save_svalue_example =
    restore_svalue-low_save_svalue save_as_one_line as_svalue false sample (10 ∷ []) sample-Fits
      (record { no_digit = refl; no_h = refl })

-- `mixed hp; static mixed tmp; string name;`
abbrev variables : List Variable
variables =
    record { name = 104 ∷ (112 ∷ []); static = false; rttype = t_any }
    ∷ (record { name = 116 ∷ (109 ∷ (112 ∷ [])); static = true; rttype = t_any }
        ∷ (record { name = 110 ∷ []; static = false; rttype = t_string } ∷ []))

abbrev old_values : List Value
old_values = number 0 (pos 42) ∷ (number 0 (pos 7) ∷ (string (98 ∷ []) ∷ []))

abbrev new_values : List Value
new_values = number 0 (pos 0) ∷ (number 0 (pos 1) ∷ (number 0 (pos 0) ∷ []))

after_restore :
    restore_object as_svalue false variables new_values
      (save_object save_default variables old_values)
    ≡ done (number 0 (pos 42) ∷ (number 0 (pos 1) ∷ (string (98 ∷ []) ∷ []))) []
unfolding program same_bytes find_status is_saved save_object split_name assign restore_loop
    restore_object type_of
after_restore = refl

-- A variable of type `string` that was zero when it was saved keeps its string.
zero_is_not_restored :
    restore_object as_svalue false variables old_values
      (save_object save_default variables new_values)
    ≡ done (number 0 (pos 0) ∷ (number 0 (pos 7) ∷ (string (98 ∷ []) ∷ []))) []
unfolding program same_bytes find_status is_saved save_object split_name assign restore_loop
    restore_object type_of
zero_is_not_restored = refl

names-Differ : NamesDiffer variables
unfolding same_bytes
names-Differ = ((refl, (refl, tt)), ((refl, tt), (tt, tt)))

hp-IsName : IsName (104 ∷ (112 ∷ []))
hp-IsName = record {
  no_space = ((λ e. omega arith, λ e. omega arith), ((λ e. omega arith, λ e. omega arith), tt));
  no_break = refl;
  short = omega arith;
}

n-IsName : IsName (110 ∷ [])
n-IsName = record {
  no_space = ((λ e. omega arith, λ e. omega arith), tt);
  no_break = refl;
  short = omega arith;
}

values-CanSave : CanSave save_default variables old_values
unfolding is_saved
values-CanSave = (λ e. (hp-IsName, omega arith), (λ e. cc, (λ e. (n-IsName, omega arith), tt)))

restore_object-save_object_example :
    restore_object as_svalue false variables new_values
      (save_object save_default variables old_values)
    ≡ done (after_all (arranged as_svalue) variables old_values new_values) []
restore_object-save_object_example =
    restore_object-save_object save_default as_svalue false variables old_values new_values refl
      refl names-Differ values-CanSave
