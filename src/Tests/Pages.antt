-- ===== src/Tests/Pages.antt =====
-- The pager at a small catalog.
use bims_shopify.Base.{
  ℕ, zero, suc, ◌≤◌, ◌<◌, String, Bool, true, false, Option, none, some, List, [], ◌∷◌, take, drop,
  Result, ok, err, ◌≡◌, refl, arith, ℤ, pos, map, length,
}
use bims_shopify.Values.{Value, null, int, string}
use bims_shopify.Paging.{Codec, Item, Body, Pull, paginate_products}
use bims_shopify.Paging.Reading.{Distinct}
use bims_shopify.Paging.Catalog.{Serves, Whole, paginate-Whole}
use bims_shopify.Paging.Window.{paginate_windowed}
use bims_shopify.Paging.Ending.{Ended, paginate-Ended}

abbrev text : Value → String
text null = "None"
text (Value.bool b) = "True"
text (int n) = "1"
text (Value.float q) = "1.5"
text (string s) = s

abbrev codec : Codec
codec = record { text = text; dumps = λ o. "{}"; digits = λ s. none }

abbrev item : String → Item
item id = record { product = none; fields = ("id", string id) ∷ [] }

abbrev catalog : List Item
catalog = item "a" ∷ item "b" ∷ item "c" ∷ []

-- Two items a page.
abbrev page : ℕ → Body
page n = record { count = int (pos 3); rows = take 2 (drop n catalog) }

abbrev fetch : ℕ → Result String Body
fetch n = ok (page n)

serves : Serves codec fetch catalog
serves = record {
  page_length = λ n. 2;
  positive = λ n. omega arith;
  answer = page;
  answers = λ n. refl;
  pages = λ n. refl;
}

distinct : Distinct codec catalog
unfolding bims_shopify.Paging.key_of bims_shopify.Base.lookup bims_shopify.Paging.row_of
distinct = ((refl, (refl, tt)), ((refl, tt), (tt, tt)))

paginate-Whole_example : Whole codec catalog (paginate_products codec fetch 9 (some 2) 4)
paginate-Whole_example =
    paginate-Whole codec fetch catalog 9 (some 2) 4 serves distinct (omega arith)

paginate_windowed_example :
    paginate_products codec fetch 9 (some 2) 4 ≡ paginate_products codec fetch 9 none 1
paginate_windowed_example = paginate_windowed codec fetch 9 (some 2) 4

paginate-Ended_example : Ended codec fetch 1 (paginate_products codec fetch 1 (some 2) 4)
paginate-Ended_example = paginate-Ended codec fetch 1 (some 2) 4
