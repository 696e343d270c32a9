-- ===== src/Restoring/Shapes.antt =====
-- Which values src/save_objectII.c can write, and what they are when they come back.
use lpc.Base.{ℕ, suc, ◌^◌, ◌≤◌, ◌<◌, ◌≡◌, ◌==◌, false, IsInt, length, max}
use lpc.Text.{Bytes}
use lpc.Value.{Svalue}
use lpc.Growth.{max_array_size}
use lpc.Saving.{
  Value, number, string, vector, list, mapping, Values, none_left, also, Entries, no_entry, entry,
  size, entries, Style, save_default, save_as_one_line, save_old_style,
}
use lpc.Restoring.{peek}
use lpc.Restoring.Words.{NoDigit}
use lpc.Restoring.Quotes.{NoZero}
use lpc.Restoring.Loops.{zero_value, order_values, order_entries}

-- What follows a value: neither a digit nor an `H`.
pub record IsEnd (t : Bytes) : Type 0 where
  pub no_digit : NoDigit t
  pub no_h : (peek t == 72) ≡ false

-- A string that the style can write: in quotes no zero byte, and a length that is an `int`.
abbrev pub FitsString : Style → Bytes → Type 0
FitsString save_default s = length s < 2 ^ 31
FitsString save_as_one_line s = NoZero s
FitsString save_old_style s = NoZero s

-- Numbers are of 32 bits, and vectors at most as large as an array may be.
module _ (style : Style) where
  abbrev mutual
    pub Fits : Value → Type 0
    Fits (number k n) = IsInt n
    Fits (string s) = FitsString style s
    Fits (vector vs) = (size vs ≤ max_array_size) × FitAll vs
    Fits (list vs) = (size vs ≤ max_array_size) × FitAll vs
    Fits (mapping es d) = (entries es ≤ max_array_size) × FitEntries es

    pub FitAll : Values → Type 0
    FitAll none_left = Unit {0}
    FitAll (also v vs) = Fits v × FitAll vs

    pub FitEntries : Entries → Type 0
    FitEntries no_entry = Unit {0}
    FitEntries (entry k v es) = Fits k × Fits v × FitEntries es

-- A value as it comes back: the subtype of a number and the default of a mapping are zero, and lists
-- and mappings are in the order of `order_alist`.
module _ (as_svalue : Value → Svalue) where
  unfoldable mutual
    pub arranged : Value → Value
    arranged (number k n) = number 0 n
    arranged (string s) = string s
    arranged (vector vs) = vector (arranged_all vs)
    arranged (list vs) = list (order_values as_svalue (arranged_all vs))
    arranged (mapping es d) = mapping (order_entries as_svalue (arranged_entries es)) zero_value

    pub arranged_all : Values → Values
    arranged_all none_left = none_left
    arranged_all (also v vs) = also (arranged v) (arranged_all vs)

    pub arranged_entries : Entries → Entries
    arranged_entries no_entry = no_entry
    arranged_entries (entry k v es) = entry (arranged k) (arranged v) (arranged_entries es)

-- How deep vectors stand in each other.
unfoldable mutual
  pub depth : Value → ℕ
  depth (number k n) = 0
  depth (string s) = 0
  depth (vector vs) = suc (depth_all vs)
  depth (list vs) = suc (depth_all vs)
  depth (mapping es d) = suc (depth_entries es)

  pub depth_all : Values → ℕ
  depth_all none_left = 0
  depth_all (also v vs) = max (depth v) (depth_all vs)

  pub depth_entries : Entries → ℕ
  depth_entries no_entry = 0
  depth_entries (entry k v es) = max (depth k) (max (depth v) (depth_entries es))
