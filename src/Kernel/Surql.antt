-- ===== src/Kernel/Surql.antt =====
-- From the contract's values, paths and filters to the text of a query
-- (frust-kernel/kernel/src/surql.rs). A refusal is told by its kind; how an `f64` is printed is a
-- parameter.
pub mod Lex
pub mod Closed
pub mod Conditions
mod Tests
use frust.Prelude.{
  ℕ, zero, suc, ◌+◌, ◌-◌, ◌*◌, ◌/◌, ◌%◌, ◌^◌, ◌≤◌, ◌<◌, min, max, compare, Ordering, ◌≡◌, refl, sym,
  ap, ◌∙◌, subst, ◌≢◌, ◌↔◌, ◌⊎◌, inl, inr, Bool, true, false, not, ◌&&◌, ◌||◌, Option, none, some,
  List, [], ◌∷◌, ◌++◌, map, append-nil, append_assoc, arith, ltb, leb, ◌==◌, if◌then◌else◌, ==_iff,
  ltb→lt, leb→le, Bool-cases, Option-cases, bool_eq, length, take, drop, get_elem?, any, filter,
  find, is_empty, length-append, All, All-append, All-map, In, In-append_left, In-append_right,
  In-append,
}
use frust.Prelude.Text.{
  Text, codes, text_eq, text_eq_sound, text_eq_refl, text_eq_iff, text_ltb, text_ltb_irrefl,
  text_ltb_trans, text_ltb_total, contains-In, In-contains,
}
use frust.Prelude.Result.{Result, ok, err, ◌>>=◌}
use frust.Prelude.Chars.{
  is_digit, is_alphanumeric, all, strip_prefix, split_once, join, split_on, replace,
}
use frust.Prelude.Digits.{digits}
use frust.Kernel.Contract.{
  Value, null, bool, int, float, decimal, text, datetime, duration, record_id, list, object, Values,
  nil, cons, Entries, end, entry, EdgeDirection, outward, inward, PathSegment, field, link_hop,
  edge, CmpOp, eq, ne, gt, gte, lt, lte, inside, contains, is_range, Filter, all_of, any_of,
  negated, cmp, Filters, done, also,
}

pub data RenderError : Type 0 where
  invalid_value path_too_deep : RenderError

abbrev pub max_path_depth : ℕ
max_path_depth = 3

unfoldable pub escape_str : Text → Text
unfolding replace
escape_str s = replace b'\'' (codes "\\'") (replace b'\\' (codes "\\\\") s)

abbrev pub is_ident_char : ℕ → Bool
is_ident_char c = is_alphanumeric c || c == b'_'

unfoldable pub is_ident : Text → Bool
is_ident s = not (is_empty s) && all is_ident_char s

-- `is_finite`: the eleven bits of the exponent are not all set.
abbrev pub is_finite : ℕ → Bool
is_finite bits = not (bits / 2 ^ 52 % 2 ^ 11 == 2047)

abbrev pub after_minus : Text → Text
after_minus s = elim (strip_prefix (codes "-") s) [ none ↦ s | some t ↦ t ]

unfoldable pub is_plain_decimal : Text → Bool
is_plain_decimal s =
    let parts = split_on b'.' (after_minus s) in
    leb 1 (length parts)
    && (leb (length parts) 2 && all (λ p. not (is_empty p) && all is_digit p) parts)

abbrev is_datetime_char : ℕ → Bool
is_datetime_char c = is_digit c || any (λ d. c == d) (codes "-T:.Z+ ")

-- `s.as_bytes()[i] == c`, behind the test of the length
abbrev byte_is : Text → ℕ → ℕ → Bool
byte_is s i c = elim (get_elem? s i) [ none ↦ false | some d ↦ d == c ]

unfoldable pub is_rfc3339_shape : Text → Bool
is_rfc3339_shape s =
    leb 20 (length s)
    && (byte_is s 4 b'-'
        && (byte_is s 7 b'-'
            && ((byte_is s 10 b'T' || byte_is s 10 b' ') && all is_datetime_char s)))

abbrev pub is_duration_char : ℕ → Bool
is_duration_char c = is_digit c || any (λ d. c == d) (codes "nsumhdwy")

unfoldable pub is_duration_shape : Text → Bool
is_duration_shape s = not (is_empty s) && all is_duration_char s

abbrev pub quote : Text → Text
quote s = b'\'' ∷ escape_str s ++ b'\'' ∷ []

unfoldable pub render_record_id : Text → Result RenderError Text
unfolding split_once is_ident escape_str
render_record_id s = elim (split_once b':' s) [
  | none ↦ err invalid_value
  | some (tb, key) ↦
      if not (is_ident tb) || is_empty key
      then err invalid_value
      else ok (codes "type::record(" ++ (quote s ++ codes ")"))
]

abbrev pub keep_if : Bool → Text → Result RenderError Text
keep_if true t = ok t
keep_if false t = err invalid_value

module _ (show_float : ℕ → Text) where
  unfoldable mutual
    unfolding is_ident is_plain_decimal is_rfc3339_shape is_duration_shape render_record_id

    pub render_value : Value → Result RenderError Text
    render_value null = ok (codes "NONE")
    render_value (bool true) = ok (codes "true")
    render_value (bool false) = ok (codes "false")
    render_value (int true n) = ok (b'-' ∷ digits n)
    render_value (int false n) = ok (digits n)
    render_value (float x) = keep_if (is_finite x) (show_float x ++ codes "f")
    render_value (decimal s) = keep_if (is_plain_decimal s) (s ++ codes "dec")
    render_value (datetime s) = keep_if (is_rfc3339_shape s) (b'd' ∷ quote s)
    render_value (duration s) = keep_if (is_duration_shape s) s
    render_value (record_id s) = render_record_id s
    render_value (text s) = ok (quote s)
    render_value (list vs) =
        render_values vs >>= λ parts. ok (codes "[" ++ (join (codes ", ") parts ++ codes "]"))
    render_value (object es) =
        render_entries es >>= λ parts. ok (codes "{ " ++ (join (codes ", ") parts ++ codes " }"))

    pub render_values : Values → Result RenderError (List Text)
    render_values nil = ok []
    render_values (cons v vs) = render_value v >>= λ t. render_values vs >>= λ ts. ok (t ∷ ts)

    pub render_entries : Entries → Result RenderError (List Text)
    render_entries end = ok []
    render_entries (entry k v es) =
        if not (is_ident k)
        then err invalid_value
        else (render_value v >>= λ t.
            render_entries es >>= λ ts. ok ((k ++ (codes ": " ++ t)) ∷ ts))

-- One step of the loop of `render_path`: what the segment puts behind `out`.
unfoldable pub render_segment : Bool → PathSegment → Result RenderError Text
unfolding is_ident
render_segment first (field name) = keep_if (is_ident name) (if first then name else b'.' ∷ name)
render_segment first (link_hop name) = keep_if (is_ident name) (if first then name else b'.' ∷ name)
render_segment first (edge outward type) =
    keep_if (is_ident type) (codes "->" ++ (type ++ codes "->?"))
render_segment first (edge inward type) =
    keep_if (is_ident type) (codes "<-" ++ (type ++ codes "<-?"))

unfoldable pub render_segments : Bool → List PathSegment → Result RenderError Text
unfolding render_segment
render_segments first [] = ok []
render_segments first (s ∷ ss) =
    render_segment first s >>= λ t. render_segments false ss >>= λ rest. ok (t ++ rest)

unfoldable pub render_path : List PathSegment → Result RenderError Text
unfolding render_segments
render_path path =
    if is_empty path || ltb max_path_depth (length path)
    then err path_too_deep
    else render_segments true path

abbrev pub render_op : CmpOp → Text
render_op eq = codes "="
render_op ne = codes "!="
render_op gt = codes ">"
render_op gte = codes ">="
render_op lt = codes "<"
render_op lte = codes "<="
render_op inside = codes "INSIDE"
render_op contains = codes "CONTAINS"

module _ (show_float : ℕ → Text) where
  unfoldable mutual
    unfolding render_value render_path

    pub render_filter : Filter → Result RenderError Text
    render_filter (all_of fs) =
        render_filters fs >>= λ parts. ok (codes "(" ++ (join (codes " AND ") parts ++ codes ")"))
    render_filter (any_of fs) =
        render_filters fs >>= λ parts. ok (codes "(" ++ (join (codes " OR ") parts ++ codes ")"))
    render_filter (negated f) = render_filter f >>= λ t. ok (codes "(!(" ++ (t ++ codes "))"))
    render_filter (cmp path op v) = render_path path >>= λ p. render_value show_float v >>= λ t.
        ok (p ++ (codes " " ++ (render_op op ++ (codes " " ++ t))))

    pub render_filters : Filters → Result RenderError (List Text)
    render_filters done = ok []
    render_filters (also f fs) = render_filter f >>= λ t. render_filters fs >>= λ ts. ok (t ∷ ts)

unfoldable pub render_live_select : Text → Result RenderError Text
unfolding is_ident
render_live_select table =
    if not (is_ident table)
    then err invalid_value
    else ok (codes "LIVE SELECT * FROM " ++ (table ++ codes ";"))

unfoldable mutual
  pub filter_has_range : Filter → Bool
  filter_has_range (all_of fs) = filters_have_range fs
  filter_has_range (any_of fs) = filters_have_range fs
  filter_has_range (negated f) = filter_has_range f
  filter_has_range (cmp path op v) = is_range op

  pub filters_have_range : Filters → Bool
  filters_have_range done = false
  filters_have_range (also f fs) = filter_has_range f || filters_have_range fs
