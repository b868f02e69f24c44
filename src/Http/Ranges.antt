-- ===== src/Http/Ranges.antt =====
-- apps/api/src/lib/file-utils.ts: which bytes of a stored file a request with a Range header is given.
-- The storage is a parameter, and the header a list of UTF-16 code units. Where a file is
-- empty the code computes -1 for its last byte; a range of it is refused by the second test, so
-- subtraction that stops at 0 makes no difference.
use snc_platform.Prelude.{
  List, [], ◌∷◌, ◌++◌, ◌*◌, ◌==◌, ℕ, ◌+◌, ◌-◌, String, ◌≡◌, Bool, false, ◌&&◌, ◌||◌, Option, none,
  some, true, sym, ◌∙◌, ◌≤◌, ◌<◌, inl, inr, Bool-cases, leb→le, ltb, leb, if◌then◌else◌, min, max,
  arith,
}
use snc_platform.Shared.{Result, ok, err, not_found_error}

pub data ParsedRange : Type 0 where
  bounded : (start end : ℕ) → ParsedRange
  from_byte : (start : ℕ) → ParsedRange
  suffix : (count : ℕ) → ParsedRange

pub record ByteRange : Type 0 where
  pub start : ℕ
  pub end : ℕ

abbrev pub is_digit : ℕ → Bool
is_digit c = leb 48 c && leb c 57

-- `Number` of the digits that were read.
abbrev pub number_from : ℕ → List ℕ → ℕ
number_from n [] = n
number_from n (c ∷ cs) = number_from (n * 10 + (c - 48)) cs

abbrev pub digits_value : List ℕ → Option ℕ
digits_value [] = none
digits_value (c ∷ cs) = some (number_from 0 (c ∷ cs))

abbrev pub parsed_range : Option ℕ → Option ℕ → Option ParsedRange
parsed_range (some a) (some b) = some (bounded a b)
parsed_range (some a) none = some (from_byte a)
parsed_range none (some n) = some (suffix n)
parsed_range none none = none

-- `(\d*)$`, after the digits that stand before the dash
unfoldable pub after_dash : List ℕ → List ℕ → List ℕ → Option ParsedRange
after_dash start end [] = parsed_range (digits_value start) (digits_value end)
after_dash start end (c ∷ cs) =
    let rest = after_dash start (end ++ c ∷ []) cs in if is_digit c then rest else none

-- `(\d*)-`
unfoldable pub after_bytes : List ℕ → List ℕ → Option ParsedRange
after_bytes start [] = none
after_bytes start (c ∷ cs) =
    let rest = after_bytes (start ++ c ∷ []) cs in
    if is_digit c then rest else if c == 45 then after_dash start [] cs else none

-- "bytes=" in code units
abbrev pub bytes_unit : List ℕ
bytes_unit = 98 ∷ 121 ∷ 116 ∷ 101 ∷ 115 ∷ 61 ∷ []

-- What follows the prefix, if the text starts with it.
unfoldable pub after_prefix : List ℕ → List ℕ → Option (List ℕ)
after_prefix [] cs = some cs
after_prefix (p ∷ ps) [] = none
after_prefix (p ∷ ps) (c ∷ cs) = if p == c then after_prefix ps cs else none

-- `/^bytes=(\d*)-(\d*)$/`: the unit, then the two numbers.
unfoldable pub parse_range_header : List ℕ → Option ParsedRange
parse_range_header header = elim (after_prefix bytes_unit header) [
  | none ↦ none
  | some rest ↦ after_bytes [] rest
]

abbrev pub start_of : ParsedRange → ℕ → ℕ
start_of (bounded a b) total = a
start_of (from_byte a) total = a
start_of (suffix n) total = max 0 (total - n)

abbrev pub end_of : ParsedRange → ℕ → ℕ
end_of (bounded a b) total = min b (total - 1)
end_of (from_byte a) total = total - 1
end_of (suffix n) total = total - 1

unfoldable pub resolve_range : ParsedRange → ℕ → Option ByteRange
resolve_range parsed total =
    let start = start_of parsed total in
    let end = end_of parsed total in
    if ltb end start || leb total start then none else some (record { start = start; end = end })

-- The size of a file, the length of a part that was read, and of the whole; none where it fails.
pub record Storage : Type 0 where
  pub head : String → Option ℕ
  pub download_range : String → ℕ → ℕ → Option ℕ
  pub download : String → Option ℕ

pub data Response : Type 0 where
  full : (content_length : ℕ) → Response
  partial : (content_length : ℕ) (range : ByteRange) (total : ℕ) → Response
  range_not_satisfiable : (total : ℕ) → Response

abbrev pub read_part : Storage → String → String → ℕ → ByteRange → Result Response
read_part storage key error_msg total r = elim (storage.download_range key r.start r.end) [
  | none ↦ err (not_found_error error_msg)
  | some n ↦ ok (partial n r total)
]

abbrev pub part_response : Storage → String → String → ℕ → Option ParsedRange → Result Response
part_response storage key error_msg total none = ok (range_not_satisfiable total)
part_response storage key error_msg total (some parsed) = elim (resolve_range parsed total) [
  | none ↦ ok (range_not_satisfiable total)
  | some r ↦ read_part storage key error_msg total r
]

-- `if (rangeHeader)`: an empty header counts as none.
abbrev pub given : Option (List ℕ) → Option (List ℕ)
given none = none
given (some []) = none
given (some (c ∷ cs)) = some (c ∷ cs)

unfoldable pub stream_file : Storage → String → String → Option (List ℕ) → Result Response
stream_file storage key error_msg range_header = elim (given range_header) [
  | none ↦ elim (storage.download key) [
    | none ↦ err (not_found_error error_msg)
    | some n ↦ ok (full n)
  ]
  | some header ↦ elim (storage.head key) [
    | none ↦ err (not_found_error error_msg)
    | some total ↦ part_response storage key error_msg total (parse_range_header header)
  ]
]

-- The request asks for the k-th byte of a file of that size.
abbrev pub asks_for : ParsedRange → ℕ → ℕ → Bool
asks_for (bounded a b) total k = leb a k && leb k b
asks_for (from_byte a) total k = leb a k
asks_for (suffix n) total k = leb total (k + n)

-- The range is within the file and holds just the bytes of it that are asked for; where there is no
-- range, none is asked for.
abbrev pub IsResolved : ParsedRange → ℕ → Option ByteRange → Type 0
IsResolved parsed total none = (k : ℕ) → (ltb k total && asks_for parsed total k) ≡ false
IsResolved parsed total (some r) =
    (r.start ≤ r.end)
    × (r.end < total)
    × ((k : ℕ) → (leb r.start k && leb k r.end) ≡ (ltb k total && asks_for parsed total k))

resolve_range_cases :
    (parsed : ParsedRange) (total start end : ℕ)
    → (start < total
        → (k : ℕ) → (leb start k && leb k end) ≡ (ltb k total && asks_for parsed total k))
    → (total ≤ start → (k : ℕ) → (ltb k total && asks_for parsed total k) ≡ false)
    → (start < total → end < total)
    → IsResolved parsed total (
        if ltb end start || leb total start
        then none
        else some (record { start = start; end = end }))
resolve_range_cases parsed total start end same past within = elim (Bool-cases (leb total start)) [
  | inl past_end ↦ rw past_end (by_test (ltb end start) (past (leb→le total start past_end)))
  | inr inside ↦ elim (Bool-cases (ltb end start)) [
    | inl crossed ↦
        rw crossed (λ k. sym (same (below start total inside) k) ∙ outside start end k crossed)
    | inr ordered ↦
        let low = below start total inside in
        rw (ordered, inside) (in_order start end ordered, within low, same low)
  ]
]
  where
    outside : (a b k : ℕ) → ltb b a ≡ true → (leb a k && leb k b) ≡ false
    outside a b k h = ground (arith, h)

    below : (a n : ℕ) → leb n a ≡ false → a < n
    below a n h = ground (arith, h)

    in_order : (a b : ℕ) → ltb b a ≡ false → a ≤ b
    in_order a b h = ground (arith, h)

    by_test :
        (b : Bool)
        → ((k : ℕ) → (ltb k total && asks_for parsed total k) ≡ false)
        → IsResolved parsed total
            (if b || true then none else some (record { start = start; end = end }))
    by_test true h = h
    by_test false h = h

-- A range that is resolved lies within the file, its end not before its start, and is just the bytes
-- of the file that the request asks for: it holds each of them and no other. A request is refused
-- only when it asks for no byte of the file.
pub resolve_range-IsResolved :
    (parsed : ParsedRange) (total : ℕ) → IsResolved parsed total (resolve_range parsed total)
unfolding resolve_range
resolve_range-IsResolved (bounded a b) total =
    resolve_range_cases (bounded a b) total a (min b (total - 1)) (λ h k. ground arith)
      (λ h k. ground arith) (λ h. omega arith)
resolve_range-IsResolved (from_byte a) total =
    resolve_range_cases (from_byte a) total a (total - 1) (λ h k. ground arith)
      (λ h k. ground arith) (λ h. omega arith)
resolve_range-IsResolved (suffix n) total =
    resolve_range_cases (suffix n) total (max 0 (total - n)) (total - 1) (λ h k. ground arith)
      (λ h k. ground arith) (λ h. omega arith)
