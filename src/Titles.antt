-- ===== src/Titles.antt =====
-- src/bims_shopify/ops/catalog.py: the reading of a product's name. What Python does with texts
-- (`str`, `casefold`, the white space) are the fields of `Texts`.
use Prim.Native.Char.{Char, code}
use Prim.Native.String.{◌++◌ as append_text}
use bims_shopify.Base.{
  ℕ, zero, suc, String, Bool, true, false, ◌&&◌, ◌==◌, Option, none, some, if◌then◌else◌, str_eq, ℤ,
}
use bims_shopify.Values.{Value}

pub record Texts : Type 0 where
  pub is_space : Char → Bool
  pub casefold : String → String
  pub str : Value → String
  pub number : ℕ → String
  pub parse_float : String → Option ℤ

module _ (texts : Texts) where
  -- `_SIZE_SUFFIX_RE` from its `(` on: up to `n` characters other than `)`, then `)` and white space to the end.
  abbrev all_space : String → Bool
  all_space String.[] = true
  all_space (String.◌∷◌ c s) = texts.is_space c && all_space s

  abbrev scan_size : ℕ → String → Option String
  scan_size n String.[] = none
  scan_size zero (String.◌∷◌ c s) = if (code c == 41) && all_space s then some "" else none
  scan_size (suc n) (String.◌∷◌ c s) = elim (code c == 41) [
    | true ↦ if all_space s then some "" else none
    | false ↦ elim (scan_size n s) [ none ↦ none | some g ↦ some (String.◌∷◌ c g) ]
  ]

  -- A match that starts here: its size is one to six characters long.
  abbrev match_suffix : String → Option String
  match_suffix String.[] = none
  match_suffix (String.◌∷◌ c s) = elim (code c == 40) [
    | true ↦ elim (scan_size 6 s) [ none ↦ none | some g ↦ if str_eq g "" then none else some g ]
    | false ↦ elim (texts.is_space c) [ true ↦ match_suffix s | false ↦ none ]
  ]

  -- `search`: what stands before the leftmost match, and the size.
  abbrev search_suffix : String → Option (String × String)
  search_suffix String.[] = none
  search_suffix (String.◌∷◌ c s) = elim (match_suffix (String.◌∷◌ c s)) [
    | some g ↦ some ("", g)
    | none ↦ elim (search_suffix s) [ none ↦ none | some m ↦ some (String.◌∷◌ c m.0, m.1) ]
  ]

  abbrev strip_left : String → String
  strip_left String.[] = ""
  strip_left (String.◌∷◌ c s) = elim (texts.is_space c) [
    | true ↦ strip_left s
    | false ↦ String.◌∷◌ c s
  ]

  abbrev strip_right : String → String
  strip_right String.[] = ""
  strip_right (String.◌∷◌ c s) =
      let rest = strip_right s in
      if texts.is_space c && str_eq rest "" then "" else String.◌∷◌ c rest

  unfoldable pub strip : String → String
  strip s = strip_right (strip_left s)

  unfoldable pub split_size_suffix : String → String × Option String
  unfolding strip
  split_size_suffix name = elim (search_suffix name) [
    | none ↦ (strip name, none)
    | some m ↦ let size = strip m.1 in (strip m.0, if str_eq size "" then none else some size)
  ]

  -- `_WHITESPACE_RE.sub(" ", s)`; `inside` tells that the character before was white space.
  abbrev squeeze : Bool → String → String
  squeeze inside String.[] = ""
  squeeze inside (String.◌∷◌ c s) =
      let rest = squeeze (texts.is_space c) s in
      if texts.is_space c
      then (if inside then rest else append_text " " rest)
      else String.◌∷◌ c rest

  unfoldable pub normalize_base_title : String → String
  unfolding strip
  normalize_base_title base_title = squeeze false (texts.casefold (strip base_title))
