-- ===== src/Paging.antt =====
-- Lists read page by page: apps/api/src/lib/cursor.ts, and the query that the list routes make with
-- it (routes/content-feed.routes.ts, the drafts; routes/project.routes.ts). The database keeps a time
-- in microseconds, and a `Date` in milliseconds. JSON, base64url, the text of a date and the order
-- of texts in the database are parameters.
pub mod Order
pub mod Query
pub mod Reading
use snc_platform.Prelude.{
  ℕ, zero, suc, ◌+◌, ◌*◌, ◌/◌, String, Bool, true, false, ◌&&◌, ◌||◌, not, Option, none, some, List,
  [], ◌∷◌, ◌++◌, str_eq, ltb, ◌==◌, if◌then◌else◌, length, take,
}
use snc_platform.Prelude.Table.{select, order_by}
use snc_platform.Prelude.Maps.{lookup}
use snc_platform.Shared.{Result, ok, err, validation_error}

-- A property of a JSON value, as far as `typeof x === "string"` tells.
pub data JsonField : Type 0 where
  text : (s : String) → JsonField
  other_value : JsonField

-- A JSON value with its properties.
pub data Json : Type 0 where
  null : Json
  array object scalar : (fields : List (String × JsonField)) → Json

-- `JSON.stringify` and `JSON.parse`, which may throw, `Buffer` to and from base64url,
-- `date.toISOString()`, and `new Date(text)`, which may be no time.
pub record Codec : Type 0 where
  pub stringify : List (String × String) → String
  pub parse_json : String → Option Json
  pub to_base64 : String → String
  pub from_base64 : String → String
  pub to_iso_string : ℕ → String
  pub parse_date : String → Option ℕ

pub record Cursor : Type 0 where
  pub timestamp : ℕ
  pub id : String

unfoldable pub encode_cursor : Codec → List (String × String) → String
encode_cursor c data_fields = c.to_base64 (c.stringify data_fields)

abbrev pub raw_of : Option Json → Result (List (String × JsonField))
raw_of none = err (validation_error "Invalid cursor")
raw_of (some null) = err (validation_error "Invalid cursor format")
raw_of (some (array fields)) = err (validation_error "Invalid cursor format")
raw_of (some (scalar fields)) = err (validation_error "Invalid cursor format")
raw_of (some (object fields)) = ok fields

unfoldable pub decode_raw_cursor : Codec → String → Result (List (String × JsonField))
decode_raw_cursor c cursor = raw_of (c.parse_json (c.from_base64 cursor))

abbrev pub text_of : Option JsonField → Option String
text_of none = none
text_of (some other_value) = none
text_of (some (text s)) = some s

abbrev pub dated : Option ℕ → String → Result Cursor
dated none i = err (validation_error "Invalid cursor date")
dated (some t) i = ok (record { timestamp = t; id = i })

-- The timestamp and the id, once the value is not `null`.
abbrev pub typed : Codec → Option String → Option String → Result Cursor
typed c none i = err (validation_error "Invalid cursor format")
typed c (some t) none = err (validation_error "Invalid cursor format")
typed c (some t) (some i) = dated (c.parse_date t) i

-- Reading a property of `null` throws, which is caught.
abbrev pub cursor_of : Codec → String → String → Option Json → Result Cursor
cursor_of c tf idf none = err (validation_error "Invalid cursor")
cursor_of c tf idf (some null) = err (validation_error "Invalid cursor")
cursor_of c tf idf (some (array fs)) = typed c (text_of (lookup tf fs)) (text_of (lookup idf fs))
cursor_of c tf idf (some (scalar fs)) = typed c (text_of (lookup tf fs)) (text_of (lookup idf fs))
cursor_of c tf idf (some (object fs)) = typed c (text_of (lookup tf fs)) (text_of (lookup idf fs))

unfoldable pub decode_cursor : Codec → String → String → String → Result Cursor
decode_cursor c cursor tf idf = cursor_of c tf idf (c.parse_json (c.from_base64 cursor))

pub data Direction : Type 0 where
  ascending descending : Direction

-- A row of a list: its time in the database, in microseconds, and its id.
pub record Row : Type 0 where
  pub time : ℕ
  pub id : String

-- `new Date` of a time of the database, and back.
abbrev pub to_date : ℕ → ℕ
to_date t = t / 1000

abbrev pub of_date : ℕ → ℕ
of_date d = d * 1000

-- `or(cmp(time, t), and(eq(time, t), cmp(id, i)))`
abbrev pub beyond : (String → String → Bool) → Direction → ℕ → String → Row → Bool
beyond less ascending t i r = ltb t r.time || (r.time == t && less i r.id)
beyond less descending t i r = ltb r.time t || (r.time == t && less r.id i)

abbrev pub build_cursor_condition : (String → String → Bool) → Cursor → Direction → Row → Bool
build_cursor_condition less decoded d r = beyond less d (of_date decoded.timestamp) decoded.id r

pub record Page : Type 0 where
  pub items : List Row
  pub next_cursor : Option String

abbrev pub last_item : List Row → Option Row
last_item [] = none
last_item (r ∷ []) = some r
last_item (r ∷ q ∷ rs) = last_item (q ∷ rs)

-- `encodeCursor(cursorFields(items[items.length - 1]!))`; no page stands for the exception where
-- there is no last item.
abbrev pub with_next : Codec → (Row → List (String × String)) → List Row → Option Row → Option Page
with_next c cursor_fields items none = none
with_next c cursor_fields items (some l) =
    some (record { items = items; next_cursor = some (encode_cursor c (cursor_fields l)) })

unfoldable pub build_paginated_response :
    Codec → List Row → ℕ → (Row → List (String × String)) → Option Page
build_paginated_response c rows limit cursor_fields =
    if ltb limit (length rows)
    then with_next c cursor_fields (take limit rows) (last_item (take limit rows))
    else some (record { items = rows; next_cursor = none })

-- `(last) => ({ createdAt: last.createdAt.toISOString(), id: last.id })`
abbrev pub cursor_fields : Codec → Row → List (String × String)
cursor_fields c r = ("createdAt", c.to_iso_string (to_date r.time)) ∷ ("id", r.id) ∷ []

-- `orderBy(desc(time), desc(id))`, or its opposite: may the one row stand before the other?
abbrev pub in_order : (String → String → Bool) → Direction → Row → Row → Bool
in_order less ascending x y = ltb x.time y.time || (x.time == y.time && not (less y.id x.id))
in_order less descending x y = ltb y.time x.time || (x.time == y.time && not (less x.id y.id))

-- The query of the list route before its limit, on the rows that its other conditions leave, which
-- the table has in any order.
abbrev pub rows_from :
    (String → String → Bool) → Direction → Codec → Option String → List Row → Result (List Row)
rows_from less d c none table = ok (order_by (in_order less d) table)
rows_from less d c (some cursor) table = elim (decode_cursor c cursor "createdAt" "id") [
  | err e ↦ err e
  | ok decoded ↦
      ok (order_by (in_order less d) (select (build_cursor_condition less decoded d) table))
]

abbrev pub paged : Option Page → Option (Result Page)
paged none = none
paged (some p) = some (ok p)

unfoldable pub list_page :
    (String → String → Bool)
    → Direction
    → Codec
    → ℕ
    → Option String
    → List Row
    → Option (Result Page)
list_page less d c limit cursor table = elim (rows_from less d c cursor table) [
  | err e ↦ some (err e)
  | ok rows ↦ paged (build_paginated_response c (take (suc limit) rows) limit (cursor_fields c))
]
