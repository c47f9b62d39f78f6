-- ===== src/Values.antt =====
-- The values of a JSON object as Python holds them, where the source takes `Any`, and the
-- conversions of src/bims_shopify/domain/snapshot.py. A float is an integer number of units of
-- 10⁻⁹, as in `Stock`.
use Prim.Native.Char.{code}
use Prim.Native.String.{String}
use bims_shopify.Base.{
  ℕ, ◌+◌, ◌*◌, ◌/◌, ◌-◌, Bool, true, false, not, ◌&&◌, ◌||◌, none, some, List, leb, ◌==◌,
  if◌then◌else◌, ℤ, pos, negsuc, lookup,
}

pub data Value : Type 0 where
  null : Value
  bool : Bool → Value
  int : ℤ → Value
  float : ℤ → Value
  string : String → Value

-- A dict with text keys.
abbrev pub Object : Type 0
Object = List (String × Value)

-- One whole unit, in units of 10⁻⁹.
abbrev pub unit : ℕ
unit = 1000000000

-- An integer as a float.
unfoldable pub of_int : ℤ → ℤ
of_int (pos n) = pos (n * unit)
of_int (negsuc n) = negsuc (n * unit + 999999999)

-- `int(x)` of a float: towards zero.
unfoldable pub truncate : ℤ → ℤ
truncate (pos n) = pos (n / unit)
truncate (negsuc n) = let m = (n + 1) / unit in if m == 0 then pos 0 else negsuc (m - 1)

-- `value.lower() in (...)`: the words are ASCII, and no other character has their letters for its
-- lower case.
unfoldable pub lower_code : ℕ → ℕ
lower_code c = if leb 65 c && leb c 90 then c + 32 else c

unfoldable pub same_lower : String → String → Bool
unfolding lower_code
same_lower String.[] String.[] = true
same_lower (String.◌∷◌ c s) (String.◌∷◌ d t) = (lower_code (code c) == code d) && same_lower s t
same_lower _ _ = false

abbrev is_zero : ℤ → Bool
is_zero (pos n) = n == 0
is_zero (negsuc n) = false

unfoldable pub is_truthy : Value → Bool
unfolding same_lower
is_truthy null = false
is_truthy (bool b) = b
is_truthy (int n) = not (is_zero n)
is_truthy (float q) = not (is_zero q)
is_truthy (string s) =
    same_lower s "1" || same_lower s "true" || same_lower s "t" || same_lower s "yes"

-- `field_mappings.get(key, default)`
abbrev pub get_or : String → Value → Object → Value
get_or k d m = elim (lookup k m) [ none ↦ d | some v ↦ v ]
