-- ===== src/Paging/Reading.antt =====
-- A client that asks for page after page, and what it has read at the end.
use snc_platform.Prelude.{
  ℕ, zero, suc, ◌+◌, ◌≤◌, ◌<◌, String, ◌≡◌, refl, sym, ap, ◌∙◌, subst, inl, inr, Bool, true, false,
  Option, none, some, List, [], ◌∷◌, ◌++◌, append_assoc, str_eq, ltb, length, length-append,
  length-take, take, min, Bool-cases, arith, ltb→lt, All,
}
use snc_platform.Prelude.Table.{select}
use snc_platform.Prelude.Maps.{lookup}
use snc_platform.Shared.{Result, ok, err}
use snc_platform.Paging.{
  Codec, object, JsonField, text, encode_cursor, decode_cursor, cursor_of, text_of, typed, dated,
  Direction, Row, to_date, of_date, beyond, build_cursor_condition, last_item,
  build_paginated_response, cursor_fields, rows_from, list_page,
}
use mathlib.Core.List.{Perm}
use snc_platform.Prelude.Table.{order_by}
use snc_platform.Prelude.Table.Order.{All-order_by, length-order_by}
use snc_platform.Prelude.Table.Stable.{select-order_by}
use snc_platform.Paging.{in_order}
use snc_platform.Paging.Query.{
  HasDistinctRows, IsInOrder, in_order-IsOrder, order_by-IsListed, order_by-perm, listed-IsInOrder,
}
use snc_platform.Paging.Order.{
  IsStrict, follows, IsListed, select-follows, cut, take-take, take-all,
}

abbrev pub json_fields : List (String × String) → List (String × JsonField)
json_fields [] = []
json_fields ((k, v) ∷ fs) = (k, text v) ∷ json_fields fs

-- JSON and base64url give back what they were given: the text of the object, and its bytes.
abbrev pub IsReadBack : Codec → List (String × String) → Type 0
IsReadBack c fs =
    (c.from_base64 (c.to_base64 (c.stringify fs)) ≡ c.stringify fs)
    × (c.parse_json (c.stringify fs) ≡ some (object (json_fields fs)))

abbrev pub IsDateReadBack : Codec → ℕ → Type 0
IsDateReadBack c t = c.parse_date (c.to_iso_string t) ≡ some t

lookup-json_fields :
    (k v : String) (fs : List (String × String))
    → lookup k fs ≡ some v
    → text_of (lookup k (json_fields fs)) ≡ some v
unfolding lookup
lookup-json_fields k v [] e = cc e
lookup-json_fields k v ((x, w) ∷ fs) e = elim (Bool-cases (str_eq x k)) [
  | inl same ↦ rw same (rw same at e)
  | inr other ↦ rw other (lookup-json_fields k v fs (rw other at e))
]

-- A cursor decodes to the timestamp and the id that were encoded in it, under whatever names they
-- were and whatever else it holds, when JSON, base64url and the text of a date give back what they
-- were given.
pub decode_cursor-encode_cursor :
    (c : Codec) (fs : List (String × String)) (tf idf : String) (t : ℕ) (i : String)
    → IsReadBack c fs
    → IsDateReadBack c t
    → lookup tf fs ≡ some (c.to_iso_string t)
    → lookup idf fs ≡ some i
    → decode_cursor c (encode_cursor c fs) tf idf ≡ ok (record { timestamp = t; id = i })
unfolding decode_cursor encode_cursor
decode_cursor-encode_cursor c fs tf idf t i (bytes, json) date e f =
    ap (λ s. cursor_of c tf idf (c.parse_json s)) bytes
    ∙ ap (cursor_of c tf idf) json
    ∙ ap (λ o. typed c o (text_of (lookup idf (json_fields fs))))
        (lookup-json_fields tf (c.to_iso_string t) fs e)
    ∙ ap (typed c (some (c.to_iso_string t))) (lookup-json_fields idf i fs f)
    ∙ ap (λ o. dated o i) date

module _ (c : Codec) (fields : Row → List (String × String)) (limit : ℕ) where
  last_page :
      (ys : List Row)
      → length ys ≤ limit
      → build_paginated_response c (take (suc limit) ys) limit fields
        ≡ some (record { items = ys; next_cursor = none })
  unfolding build_paginated_response
  last_page ys few =
      rw (take-all (suc limit) ys (omega (arith, few)), not_more (length ys) few) refl
    where
      not_more : (n : ℕ) → n ≤ limit → ltb limit n ≡ false
      not_more n h = ground (arith, h)

  more_page :
      (ys : List Row) (zs : List Row) (l : Row)
      → limit < length ys
      → take limit ys ≡ zs ++ l ∷ []
      → last_item (take limit ys) ≡ some l
      → build_paginated_response c (take (suc limit) ys) limit fields
        ≡ some (record { items = zs ++ l ∷ []; next_cursor = some (encode_cursor c (fields l)) })
  unfolding build_paginated_response
  more_page ys zs l many taken last =
      rw
        (
          more (length ys) (length (take (suc limit) ys)) many (length-take (suc limit) ys),
          take-take limit ys,
          last,
          taken,
        )
        refl
    where
      more : (n m : ℕ) → limit < n → m ≡ min (suc limit) n → ltb limit m ≡ true
      more n m h e = ground (arith, h, e)

-- The time is a whole number of milliseconds.
abbrev pub HasWholeDate : Row → Type 0
HasWholeDate r = of_date (to_date r.time) ≡ r.time

-- What a row must satisfy to be found again from its cursor.
abbrev pub IsMarked : Codec → Row → Type 0
IsMarked c r = HasWholeDate r × IsReadBack c (cursor_fields c r) × IsDateReadBack c (to_date r.time)

module _ (less : String → String → Bool) (d : Direction) (c : Codec) (limit : ℕ) where
  abbrev pub after_page : List Row → Option (Result (List Row)) → Option (Result (List Row))
  after_page items none = none
  after_page items (some (err e)) = some (err e)
  after_page items (some (ok rest)) = some (ok (items ++ rest))

  -- Pages until one has no next cursor; the fuel bounds their number.
  unfoldable pub read_all : ℕ → Option String → List Row → Option (Result (List Row))
  read_all zero cursor table = none
  read_all (suc fuel) cursor table = elim (list_page less d c limit cursor table) [
    | none ↦ none
    | some (err e) ↦ some (err e)
    | some (ok p) ↦ elim p.next_cursor [
      | none ↦ some (ok p.items)
      | some k ↦ after_page p.items (read_all fuel (some k) table)
    ]
  ]

  module _ (strict : IsStrict less) (positive : 1 ≤ limit) (table : List Row)
      (distinct : HasDistinctRows table) where
    -- The whole list, in the order of the query.
    abbrev listing : List Row
    listing = order_by (in_order less d) table

    -- The cursor of a row leads to the rows after it.
    rows_from-cursor :
        (xs ys : List Row) (l : Row)
        → IsMarked c l
        → listing ≡ xs ++ l ∷ ys
        → rows_from less d c (some (encode_cursor c (cursor_fields c l))) table ≡ ok ys
    unfolding lookup
    rows_from-cursor xs ys l (whole, back, date) e =
        ap
          (λ o. elim o [
            | err x ↦ err x
            | ok decoded ↦
                ok (
                  order_by (in_order less d) (select (build_cursor_condition less decoded d) table))
          ])
          (decode_cursor-encode_cursor c (cursor_fields c l) "createdAt" "id" (to_date l.time) l.id
            back date refl refl)
        ∙ ap (λ t. ok (order_by (in_order less d) (select (beyond less d t l.id) table))) whole
        ∙ ap ok (
            sym (
              select-order_by (in_order less d) (in_order-IsOrder less strict d) (follows less d l)
                table))
        ∙ ap (λ t. ok (select (follows less d l) t)) e
        ∙ ap ok (
            select-follows less strict d xs ys l
              (subst (IsListed less d) e (order_by-IsListed less strict d table distinct)))

    -- From a cursor that leads to the rows ys, these are read.
    read_from :
        (fuel : ℕ) (cursor : Option String) (xs ys : List Row)
        → rows_from less d c cursor table ≡ ok ys
        → listing ≡ xs ++ ys
        → All (IsMarked c) ys
        → length ys < fuel
        → read_all fuel cursor table ≡ some (ok ys)
    unfolding read_all list_page
    read_from zero cursor xs ys from e marked enough = absurd (omega (arith, enough))
    read_from (suc fuel) cursor xs ys from e marked enough =
        elim (Bool-cases (ltb limit (length ys))) [
          | inr last ↦
              rw
                (
                  read_all,
                  list_page,
                  from,
                  last_page c (cursor_fields c) limit ys (not_more (length ys) last),
                )
                refl
          | inl more ↦
              let (zs, l, rest, split, taken, last) =
                cut limit ys positive (ltb→lt limit (length ys) more) in
              let (marked_l, marked_rest) =
                middle zs l rest (subst (All (IsMarked c)) split marked) in
              let at_l : listing ≡ (xs ++ zs) ++ l ∷ rest =
                e ∙ ap (λ t. xs ++ t) split ∙ sym (append_assoc xs zs (l ∷ rest)) in
              rw
                (
                  read_all,
                  list_page,
                  from,
                  more_page c (cursor_fields c) limit ys zs l (ltb→lt limit (length ys) more) taken
                      last,
                )
                (ap (after_page (zs ++ l ∷ [])) (
                    read_from fuel (some (encode_cursor c (cursor_fields c l)))
                      ((xs ++ zs) ++ l ∷ []) rest (rows_from-cursor (xs ++ zs) rest l marked_l at_l)
                      (at_l ∙ sym (append_assoc (xs ++ zs) (l ∷ []) rest)) marked_rest
                      (shorter (length ys) (length zs) (length rest) enough
                        (ap length split ∙ length-append zs (l ∷ rest))))
                  ∙ ap (λ t. some (ok t)) (append_assoc zs (l ∷ []) rest ∙ sym split))
        ]
      where
        not_more : (n : ℕ) → ltb limit n ≡ false → n ≤ limit
        not_more n h = ground (arith, h)

        shorter : (n a b : ℕ) → n < suc fuel → n ≡ a + suc b → b < fuel
        shorter n a b h k = omega (arith, h, k)

        middle :
            (zs : List Row) (l : Row) (rest : List Row)
            → All (IsMarked c) (zs ++ l ∷ rest)
            → IsMarked c l × All (IsMarked c) rest
        middle [] l rest (h, k) = (h, k)
        middle (z ∷ zs) l rest (h, k) = middle zs l rest k

-- The answer is the rows of the table, each once, in the order of the query.
abbrev pub ReadsAll :
    (String → String → Bool) → Direction → List Row → Option (Result (List Row)) → Type 0
ReadsAll less d table out =
    (rows : List Row) × (out ≡ some (ok rows)) × Perm rows table × IsInOrder less d rows

-- Page after page, a client reads the rows of the table, each as often as the table has it, in the
-- order of their times and then of their ids, up or down, when a page has room for a row and there are
-- fewer rows than pages that it may ask for. No two rows have one id, and ids are strictly and totally
-- ordered; the times are whole milliseconds, as a cursor holds no more; and JSON, base64url and the
-- text of a date give back what they were given for each row.
pub read_all-ReadsAll :
    (less : String → String → Bool) (d : Direction) (c : Codec) (limit fuel : ℕ) (table : List Row)
    → IsStrict less
    → 1 ≤ limit
    → HasDistinctRows table
    → All (IsMarked c) table
    → length table < fuel
    → ReadsAll less d table (read_all less d c limit fuel none table)
read_all-ReadsAll less d c limit fuel table strict positive distinct marked enough = (
  order_by (in_order less d) table,
  read_from less d c limit strict positive table distinct fuel none [] _ refl refl
      (All-order_by _ (in_order less d) table marked)
      (subst (λ n. n < fuel) (sym (length-order_by (in_order less d) table)) enough),
  order_by-perm (in_order less d) table,
  listed-IsInOrder less d _ (order_by-IsListed less strict d table distinct),
)
