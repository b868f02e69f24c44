-- ===== src/Tests/Paging.antt =====
-- Lists of three rows, read page by page.
use Prim.Native.String
use snc_platform.Paging.Query.{HasDistinctRows}
use snc_platform.Prelude.{
  ℕ, String, ◌≡◌, refl, false, Option, none, some, List, [], ◌∷◌, str_eq, arith, if◌then◌else◌, All,
  ◌≢◌, str_eq_iff,
}
use snc_platform.Prelude.Table.{select, order_by, insert_by}
use snc_platform.Prelude.Maps.{lookup}
use snc_platform.Shared.{ok}
use snc_platform.Paging.{
  Codec, Json, object, text, Row, encode_cursor, decode_cursor, cursor_fields, descending,
  list_page, build_paginated_response,
}
use snc_platform.Paging.Reading.{
  IsMarked, ReadsAll, read_all, read_all-ReadsAll, decode_cursor-encode_cursor,
}
use snc_platform.Tests.Data.{marks}
use snc_platform.Tests.Texts.{earlier, earlier-IsStrict}

abbrev at : ℕ → String → Row
at t i = record { time = t; id = i }

abbrev mark_json : ℕ → String → Option Json
mark_json t i = some (object (("createdAt", text (marks t)) ∷ ("id", text i) ∷ []))

-- The text of a cursor is the id, and a date that many marks.
abbrev codec : Codec
codec = record {
  stringify = λ fs. elim (lookup "id" fs) [ none ↦ "" | some i ↦ i ];
  parse_json = λ s.
      if str_eq s "a"
      then mark_json 2 "a"
      else if str_eq s "bb"
      then mark_json 2 "bb"
      else if str_eq s "c"
      then mark_json 3 "c"
      else none;
  to_base64 = λ s. s;
  from_base64 = λ s. s;
  to_iso_string = marks;
  parse_date = λ s. some (String.count s);
}

-- Two rows of one time, and the newest row stored between them.
abbrev rows : List Row
rows = at 2000 "a" ∷ at 3000 "c" ∷ at 2000 "bb" ∷ []

differ : (i j : String) → str_eq i j ≡ false → i ≢ j
differ i j e h = cc (e, (str_eq_iff i j).1 h)

rows_distinct : HasDistinctRows rows
rows_distinct =
    ((differ "c" "a" refl, (differ "bb" "a" refl, tt)), ((differ "bb" "c" refl, tt), (tt, tt)))

rows-IsMarked : All (IsMarked codec) rows
unfolding lookup marks
rows-IsMarked =
    ((refl, (refl, refl), refl), ((refl, (refl, refl), refl), ((refl, (refl, refl), refl), tt)))

read_all-ReadsAll_example :
    ReadsAll earlier descending rows (read_all earlier descending codec 2 4 none rows)
read_all-ReadsAll_example =
    read_all-ReadsAll earlier descending codec 2 4 rows earlier-IsStrict (omega arith) rows_distinct
      rows-IsMarked (omega arith)

-- The second page starts behind a row of its own time.
read_newest_first :
    read_all earlier descending codec 2 4 none rows
    ≡ some (ok (at 3000 "c" ∷ at 2000 "bb" ∷ at 2000 "a" ∷ []))
unfolding read_all list_page build_paginated_response encode_cursor decode_cursor lookup marks
    select order_by insert_by earlier
read_newest_first = refl

created_at_there :
    lookup "createdAt" (cursor_fields codec (at 2000 "bb")) ≡ some (codec.to_iso_string 2)
unfolding lookup
created_at_there = refl

id_there : lookup "id" (cursor_fields codec (at 2000 "bb")) ≡ some "bb"
unfolding lookup
id_there = refl

decode_cursor-encode_cursor_example :
    decode_cursor codec (encode_cursor codec (cursor_fields codec (at 2000 "bb"))) "createdAt" "id"
    ≡ ok (record { timestamp = 2; id = "bb" })
decode_cursor-encode_cursor_example =
    decode_cursor-encode_cursor codec (cursor_fields codec (at 2000 "bb")) "createdAt" "id" 2 "bb"
      (rows-IsMarked.1.1.0.1) (rows-IsMarked.1.1.0.2) created_at_there id_there

-- Two rows of one millisecond: the second page does not find the second row.
missed :
    read_all earlier descending codec 1 5 none (at 3400 "c" ∷ at 3200 "bb" ∷ at 2000 "a" ∷ [])
    ≡ some (ok (at 3400 "c" ∷ at 2000 "a" ∷ []))
unfolding read_all list_page build_paginated_response encode_cursor decode_cursor lookup marks
    select order_by insert_by earlier
missed = refl
