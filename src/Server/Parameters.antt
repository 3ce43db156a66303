-- ===== src/Server/Parameters.antt =====
-- embedded_server/controller/DebugCommandController.h: the pagination of a request, from its query
-- parameters. `QueryParams::get` is a function from names to values.
use squirrel_debug_server.Base.{
  ℕ, ◌≡◌, ◌≤◌, ◌<◌, refl, true, false, Option, none, some, [], ◌∷◌, Text, codes, ◌==◌, leb,
  if◌then◌else◌, arith, Option-cases, inl, inr,
}
use squirrel_debug_server.Data.{PaginationInfo}
use squirrel_debug_server.Numbers.Digits.{
  decimal, is_empty, decimal_not_empty, all_digits, decimal-digits,
}
use squirrel_debug_server.Numbers.Read.{read_uint32, read_uint32-decimal, read_uint32-lt}

abbrev pub QueryParams : Type 0
QueryParams = Text → Option Text

-- What the stream is given: `c_str()` ends at the first zero byte.
unfoldable pub c_str : Text → Text
c_str [] = []
c_str (c ∷ t) = if c == 0 then [] else c ∷ c_str t

-- `none`: the stream fails.
unfoldable pub parse_query_param_with_default : Option Text → ℕ → Option ℕ
unfolding c_str read_uint32
parse_query_param_with_default none default_value = some default_value
parse_query_param_with_default (some []) default_value = some default_value
parse_query_param_with_default (some (c ∷ cs)) default_value = read_uint32 (c_str (c ∷ cs))

abbrev pub checked : ℕ → ℕ → Option PaginationInfo
checked begin count =
    if leb count 1000 then some (record { begin_iterator = begin; count = count }) else none

-- `validParams`, with the pagination if they are valid.
unfoldable pub pagination : QueryParams → Option PaginationInfo
unfolding parse_query_param_with_default
pagination get = elim (parse_query_param_with_default (get (codes "beginIterator")) 0) [
  | none ↦ none
  | some begin ↦ elim (parse_query_param_with_default (get (codes "count")) 100) [
    | none ↦ none
    | some count ↦ checked begin count
  ]
]

c_str-digits : (s : Text) → all_digits s ≡ true → c_str s ≡ s
unfolding c_str
c_str-digits [] h = refl
c_str-digits (c ∷ s) h = ground (arith, c_str-digits s)

parse_digits :
    (s : Text) (n default_value : ℕ)
    → all_digits s ≡ true
    → is_empty s ≡ false
    → read_uint32 s ≡ some n
    → parse_query_param_with_default (some s) default_value ≡ some n
unfolding parse_query_param_with_default
parse_digits [] n default_value digits not_empty read = ground (arith, not_empty)
parse_digits (c ∷ s) n default_value digits not_empty read = rw (c_str-digits (c ∷ s) digits) read

pub parse-decimal :
    (n default_value : ℕ)
    → n < 4294967296
    → parse_query_param_with_default (some (decimal n)) default_value ≡ some n
parse-decimal n default_value h =
    parse_digits (decimal n) n default_value (decimal-digits n) (decimal_not_empty n)
      (read_uint32-decimal n h)

-- A request that gives both parameters in decimal, as 32-bit numbers, is served the page that it asks
-- for, if that has at most 1000 entries, and is refused otherwise.
pub pagination-decimal :
    (get : QueryParams) (begin count : ℕ)
    → get (codes "beginIterator") ≡ some (decimal begin)
    → get (codes "count") ≡ some (decimal count)
    → begin < 4294967296
    → count < 4294967296
    → pagination get
      ≡ (if leb count 1000 then some (record { begin_iterator = begin; count = count }) else none)
unfolding pagination
pagination-decimal get begin count given_begin given_count b c =
    rw (pagination, given_begin, parse-decimal begin 0 b, given_count, parse-decimal count 100 c)
      refl

parse_lt :
    (value : Option Text) (default_value n : ℕ)
    → default_value < 4294967296
    → parse_query_param_with_default value default_value ≡ some n
    → n < 4294967296
unfolding parse_query_param_with_default
parse_lt none default_value n d h = ground (arith, h)
parse_lt (some []) default_value n d h = ground (arith, h)
parse_lt (some (c ∷ cs)) default_value n d h = read_uint32-lt (c_str (c ∷ cs)) n h

-- Whatever the parameters are, a page that is served has at most 1000 entries, and begins at a 32-bit
-- number.
pub pagination-bounds :
    (get : QueryParams) (page : PaginationInfo)
    → pagination get ≡ some page
    → (page.count ≤ 1000) × (page.begin_iterator < 4294967296)
unfolding pagination
pagination-bounds get page h =
    elim (Option-cases (parse_query_param_with_default (get (codes "beginIterator")) 0)) [
      | inl refused ↦ ground (arith, refused, h)
      | inr (begin, b) ↦
          let bounded = parse_lt (get (codes "beginIterator")) 0 begin (omega arith) b in
          elim (Option-cases (parse_query_param_with_default (get (codes "count")) 100)) [
            | inl refused ↦ ground (arith, b, refused, h)
            | inr (count, c) ↦ ground (arith, b, c, h, bounded)
          ]
    ]
