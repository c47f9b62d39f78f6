-- ===== src/Paging.antt =====
-- src/bims_shopify/adapters/bims/paging.py: the pager of product pulls. `fetch` is the answer of the
-- server to an offset, an error included. Python's `str` of a value, `json.dumps` of a row and the
-- reading of a text of digits are the fields of `Codec`. Durations and logging are not modelled.
pub mod Sequential
pub mod Window
pub mod Ending
pub mod Reading
pub mod Catalog
use bims_shopify.Base.{
  ℕ, zero, suc, ◌+◌, ◌-◌, ◌*◌, min, String, Bool, true, false, not, ◌&&◌, ◌||◌, ◌==◌, Option, none,
  some, List, [], ◌∷◌, ◌++◌, length, any, ltb, leb, if◌then◌else◌, str_eq, ℤ, pos, negsuc, lookup,
  Result, ok, err, ◌>>=◌, is_none,
}
use bims_shopify.Values.{Value, null, bool, int, float, string, Object}

pub data StopReason : Type 0 where
  empty_page repeated_page max_pages : StopReason

-- The warnings, each a text in the code.
pub data Warning : Type 0 where
  inconsistent_count : ℕ → ℕ → Warning
  no_new_rows : ℕ → Warning
  page_cap : ℕ → Warning
  truncated : ℕ → ℕ → Warning

-- An element of `data`: its `Product`, if it has one, and its own keys.
pub record Item : Type 0 where
  pub product : Option Object
  pub fields : Object

-- The envelope of a response: `count` is `null` when it is missing, `rows` is `data or []`.
pub record Body : Type 0 where
  pub count : Value
  pub rows : List Item

pub record Codec : Type 0 where
  pub text : Value → String
  pub dumps : Object → String
  pub digits : String → Option ℕ

-- `PagedPull` with the local variables of the loop.
pub record Pull : Type 0 where
  pub rows : List Object
  pub reported_count : Option ℕ
  pub pages : ℕ
  pub stop_reason : StopReason
  pub warnings : List Warning
  pub seen_ids : List String
  pub offset : ℕ
  pub counts_disagree : Bool
  pub done : Bool

abbrev pub start : Pull
start = record {
  rows = [];
  reported_count = none;
  pages = 0;
  stop_reason = empty_page;
  warnings = [];
  seen_ids = [];
  offset = 0;
  counts_disagree = false;
  done = false;
}

-- `item.get("Product") or item`
unfoldable pub row_of : Item → Object
row_of item = elim item.product [
  | none ↦ item.fields
  | some [] ↦ item.fields
  | some (e ∷ es) ↦ e ∷ es
]

module _ (codec : Codec) where
  -- `_parse_count`
  unfoldable pub parse_count : Value → Option ℕ
  parse_count null = none
  parse_count (bool b) = none
  parse_count (int (pos n)) = some n
  parse_count (int (negsuc n)) = none
  parse_count (float q) = none
  parse_count (string s) = codec.digits s

  -- The key of a row whose `id` is this.
  abbrev pub id_key : Object → Option Value → String
  id_key row none = codec.dumps row
  id_key row (some null) = codec.dumps row
  id_key row (some (bool b)) = codec.text (bool b)
  id_key row (some (int n)) = codec.text (int n)
  id_key row (some (float q)) = codec.text (float q)
  id_key row (some (string s)) = codec.text (string s)

  unfoldable pub key_of : Object → String
  key_of row = id_key row (lookup "id" row)

  -- The count of one response.
  unfoldable pub see_count : Option ℕ → Pull → Pull
  see_count none p = p
  see_count (some n) p = elim p.reported_count [
    | none ↦ record p { reported_count = some n }
    | some m ↦
        if not (n == m) && not p.counts_disagree
        then record p {
          counts_disagree = true;
          warnings = p.warnings ++ inconsistent_count m n ∷ [];
        }
        else p
  ]

  -- One item of a page.
  unfoldable pub add_item : Item → Pull → Pull
  unfolding row_of key_of
  add_item item p =
      let row = row_of item in
      let key = key_of row in
      if any (str_eq key) p.seen_ids
      then p
      else record p { seen_ids = key ∷ p.seen_ids; rows = p.rows ++ row ∷ [] }

  -- The loop over the items of a page; the number of new rows is the growth of `rows`.
  unfoldable pub add_items : List Item → Pull → Pull
  unfolding add_item
  add_items [] p = p
  add_items (item ∷ items) p = add_items items (add_item item p)

  -- What follows the loop over the items.
  unfoldable pub close_page : ℕ → ℕ → Pull → Pull
  close_page rows_before page_length p =
      if length p.rows == rows_before
      then record p {
        stop_reason = repeated_page;
        warnings = p.warnings ++ no_new_rows p.offset ∷ [];
        done = true;
      }
      else record p { offset = p.offset + page_length }

  abbrev read_rows : List Item → Pull → Pull
  read_rows [] p = record p { stop_reason = empty_page; done = true }
  read_rows (item ∷ items) p =
      close_page (length p.rows) (length (item ∷ items)) (add_items (item ∷ items) p)

  -- The body of the loop over a window, for a response that is consumed.
  unfoldable pub read_page : Body → Pull → Pull
  unfolding parse_count see_count add_items close_page
  read_page body p =
      read_rows body.rows (see_count (parse_count body.count) (record p { pages = p.pages + 1 }))

  -- A response that is consumed, and the rest of its window.
  abbrev pub go_on : Bool → Pull → (Pull → Result String Pull) → Result String Pull
  go_on true p rest = ok p
  go_on false p rest = rest p

  abbrev pub after_response :
      Result String Body → Pull → (Pull → Result String Pull) → Result String Pull
  after_response (err e) p rest = err e
  after_response (ok body) p rest = let next = read_page body p in go_on next.done next rest

  module _ (fetch : ℕ → Result String Body) where
    -- The loop over a window: `requested` are its offsets, whose responses are all there.
    unfoldable pub consume : List ℕ → Pull → Result String Pull
    unfolding read_page
    consume [] p = ok p
    consume (requested ∷ later) p = elim (requested == p.offset) [
      | false ↦ ok p
      | true ↦ after_response (fetch requested) p (consume later)
    ]

    -- `[offset + k * page_size for k in range(size)]`, from `k` on.
    unfoldable pub window_offsets : ℕ → ℕ → ℕ → ℕ → List ℕ
    window_offsets zero k offset page_size = []
    window_offsets (suc size) k offset page_size =
        (offset + k * page_size) ∷ window_offsets size (suc k) offset page_size

    unfoldable pub offsets : ℕ → ℕ → ℕ → List ℕ
    unfolding window_offsets
    offsets size offset page_size =
        if ltb 1 size then window_offsets size 0 offset page_size else offset ∷ []

    -- The test of the `while`; `limit` is `max_pages`.
    abbrev pub running : ℕ → Pull → Bool
    running limit p = not p.done && ltb p.pages limit

    -- The `while` loop on fuel.
    unfoldable pub pull_loop : ℕ → ℕ → ℕ → ℕ → Pull → Result String Pull
    unfolding consume offsets
    pull_loop zero limit window page_size p = ok p
    pull_loop (suc fuel) limit window page_size p = elim (running limit p) [
      | false ↦ ok p
      | true ↦
          consume (offsets (min window (limit - p.pages)) p.offset page_size) p
          >>= pull_loop fuel limit window page_size
    ]

    -- The `else` of the loop and what follows it.
    abbrev pub cap_pages : ℕ → Pull → Pull
    cap_pages limit p = if p.done then p else record p {
      stop_reason = StopReason.max_pages;
      warnings = p.warnings ++ page_cap limit ∷ [];
    }

    abbrev pub warn_truncated : Option ℕ → Pull → Pull
    warn_truncated none p = p
    warn_truncated (some n) p =
        if ltb (length p.rows) n
        then record p { warnings = p.warnings ++ truncated (length p.rows) n ∷ [] }
        else p

    unfoldable pub finish : ℕ → Pull → Pull
    finish limit p = let capped = cap_pages limit p in warn_truncated capped.reported_count capped

    -- `page_size` truthy and `concurrency > 1`.
    abbrev pub window_of : Option ℕ → ℕ → ℕ
    window_of none concurrency = 1
    window_of (some page_size) concurrency =
        if not (page_size == 0) && ltb 1 concurrency then concurrency else 1

    abbrev size_of : Option ℕ → ℕ
    size_of none = 0
    size_of (some page_size) = page_size

    -- Every round of the loop consumes a page, so the limit on pages is fuel enough.
    unfoldable pub paginate_products : ℕ → Option ℕ → ℕ → Result String Pull
    unfolding pull_loop finish
    paginate_products limit page_size concurrency =
        pull_loop limit limit (window_of page_size concurrency) (size_of page_size) start >>= λ p.
        ok (finish limit p)

-- `PagedPull.complete`
unfoldable pub complete : Pull → Option Bool
complete p = elim p.reported_count [
  | some n ↦ some (leb n (length p.rows))
  | none ↦ elim p.stop_reason [
    | empty_page ↦ none
    | repeated_page ↦ some false
    | max_pages ↦ some false
  ]
]
