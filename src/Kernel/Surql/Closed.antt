-- ===== src/Kernel/Surql/Closed.antt =====
-- The values and paths that a query carries stay what they are (frust-kernel/kernel/src/surql.rs,
-- `render_value` and `render_path`).
use frust.Prelude.{
  ℕ, ◌≡◌, refl, sym, subst, ◌⊎◌, inl, inr, Bool, true, false, not, ◌&&◌, ◌||◌, Option, none, some,
  List, [], ◌∷◌, ◌++◌, arith, ltb, ◌==◌, if◌then◌else◌, Bool-cases, length, is_empty, All,
}
use frust.Prelude.Text.{Text, codes}
use frust.Prelude.Result.{ok, err, ◌>>=◌, bind-ok, ok_injective, guard-ok}
use frust.Prelude.Chars.{is_digit, all, strip_prefix, split_on, split_once, join}
use frust.Prelude.Digits.{digits, digits-all, digits-nonempty}
use frust.Kernel.Contract.{
  Value, null, bool, int, float, decimal, text, datetime, duration, record_id, list, object, Values,
  nil, cons, Entries, end, entry, outward, inward, PathSegment, field, link_hop, edge,
}
use frust.Kernel.Surql.{
  RenderError, keep_if, quote, is_ident, is_ident_char, is_finite, is_plain_decimal, after_minus,
  is_duration_char, is_duration_shape, is_rfc3339_shape, max_path_depth, render_record_id,
  render_value, render_values, render_entries, render_segment, render_segments, render_path,
}
use frust.Kernel.Surql.Lex.{
  IsClosed, lex, is_plain, IsClosed-append, IsClosed-quote, IsClosed-plain, IsClosed-minus,
  IsClosed-join, all-weaken,
}

abbrev pub is_numeral_char : ℕ → Bool
is_numeral_char c = is_digit c || c == b'.'

-- A sign or none, then digits and points, at least one of them: what printing a finite `f64` gives.
unfoldable pub is_numeral : Text → Bool
is_numeral s = not (is_empty (after_minus s)) && all is_numeral_char (after_minus s)

numeral_char-is_plain : (c : ℕ) → is_numeral_char c ≡ true → is_plain c ≡ true
unfolding is_plain
numeral_char-is_plain c h = ground (arith, h)

ident_char-is_plain : (c : ℕ) → is_ident_char c ≡ true → is_plain c ≡ true
unfolding is_plain
ident_char-is_plain c h = ground (arith, h)

after_minus-cases : (s : Text) → (after_minus s ≡ s) ⊎ (s ≡ b'-' ∷ after_minus s)
unfolding strip_prefix
after_minus-cases [] = inl refl
after_minus-cases (c ∷ s) = elim (Bool-cases (c == b'-')) [
  | inl e ↦ inr (ground arith)
  | inr e ↦ inl (ground arith)
]

IsClosed-numeral : (s : Text) → is_numeral s ≡ true → IsClosed s
unfolding is_numeral
IsClosed-numeral s h = elim (after_minus-cases s) [
  | inl e ↦ subst IsClosed e (IsClosed-plain (after_minus s) plain)
  | inr e ↦ subst IsClosed (sym e) (IsClosed-minus (after_minus s) (ground (arith, h)) plain)
]
  where
    plain : all is_plain (after_minus s) ≡ true
    plain =
        all-weaken is_numeral_char is_plain (after_minus s) numeral_char-is_plain
          (ground (arith, h))

-- The first byte goes to the first part, or ends it.
first_byte-numeral :
    (d : ℕ) (s : Text) (rest : List Text)
    → (all (all is_digit) rest ≡ true → all is_numeral_char s ≡ true)
    → all
        (all is_digit)
        (if d == b'.' then [] ∷ rest else elim rest [ [] ↦ (d ∷ []) ∷ [] | p ∷ ps ↦ (d ∷ p) ∷ ps ])
      ≡ true
    → all is_numeral_char (d ∷ s) ≡ true
first_byte-numeral d s [] next h = ground (arith, next, h)
first_byte-numeral d s (p ∷ ps) next h = ground (arith, next, h)

split_on-all :
    (s : Text) → all (all is_digit) (split_on b'.' s) ≡ true → all is_numeral_char s ≡ true
unfolding split_on
split_on-all [] h = refl
split_on-all (d ∷ s) h = first_byte-numeral d s (split_on b'.' s) (split_on-all s) h

-- Parts of digits between points
points-numeral :
    (s : Text)
    → all (λ p. not (is_empty p) && all is_digit p) (split_on b'.' s) ≡ true
    → (not (is_empty s) && all is_numeral_char s) ≡ true
points-numeral [] h = unfold split_on in h
points-numeral (c ∷ s) h = split_on-all (c ∷ s) (
    all-weaken (λ p. not (is_empty p) && all is_digit p) (all is_digit) (split_on b'.' (c ∷ s))
      (λ p k. ground (arith, k)) h)

is_plain_decimal-is_numeral : (s : Text) → is_plain_decimal s ≡ true → is_numeral s ≡ true
unfolding is_plain_decimal is_numeral
is_plain_decimal-is_numeral s h = points-numeral (after_minus s) (ground (arith, h))

IsClosed-keep_if :
    (b : Bool) (s : Text) {t : Text} → (b ≡ true → IsClosed s) → keep_if b s ≡ ok t → IsClosed t
IsClosed-keep_if true s c h = subst IsClosed (ok_injective h) (c refl)
IsClosed-keep_if false s {t} c h = absurd (refused h)
  where
    refused : ¬ (err RenderError.invalid_value ≡ ok t)
    refused k = cc

pub IsClosed-ident : (s : Text) → is_ident s ≡ true → IsClosed s
unfolding is_ident
IsClosed-ident s h =
    IsClosed-plain s (all-weaken is_ident_char is_plain s ident_char-is_plain (ground (arith, h)))

digits-is_plain : (n : ℕ) → all is_plain (digits n) ≡ true
digits-is_plain n =
    all-weaken is_digit is_plain (digits n) (λ c h. unfold is_plain in ground (arith, h))
      (digits-all n)

IsClosed-digits : (n : ℕ) → IsClosed (digits n)
IsClosed-digits n = IsClosed-plain (digits n) (digits-is_plain n)

duration_char-is_plain : (c : ℕ) → is_duration_char c ≡ true → is_plain c ≡ true
unfolding is_plain
duration_char-is_plain c h = ground (arith, h)

-- A prefix and a suffix around a text
pub IsClosed-around :
    (a t b : Text) → IsClosed a → IsClosed t → IsClosed b → IsClosed (a ++ (t ++ b))
IsClosed-around a t b h k l = IsClosed-append a (t ++ b) h (IsClosed-append t b k l)

IsClosed-record_id : (s : Text) {t : Text} → render_record_id s ≡ ok t → IsClosed t
unfolding render_record_id
IsClosed-record_id s {t} h = called (split_once b':' s) h
  where
    refused : ¬ (err RenderError.invalid_value ≡ ok t)
    refused k = cc

    called :
        (o : Option (Text × Text))
        → elim o [
          | none ↦ err RenderError.invalid_value
          | some (tb, key) ↦
              if not (is_ident tb) || is_empty key
              then err RenderError.invalid_value
              else ok (codes "type::record(" ++ (quote s ++ codes ")"))
        ]
          ≡ ok t
        → IsClosed t
    called none k = absurd (refused k)
    called (some (tb, key)) k =
        subst IsClosed
          (ok_injective
            (guard-ok (not (is_ident tb) || is_empty key) _
              (ok (codes "type::record(" ++ (quote s ++ codes ")"))) k).1)
          (IsClosed-around (codes "type::record(") (quote s) (codes ")")
            (unfold lex is_plain in refl) (IsClosed-quote s) (unfold lex is_plain in refl))

-- The parts of a list or an object, joined between its brackets
IsClosed-parts :
    (a b : Text) (parts : List Text)
    → IsClosed a
    → IsClosed b
    → All IsClosed parts
    → IsClosed (a ++ (join (codes ", ") parts ++ b))
IsClosed-parts a b parts h k l =
    IsClosed-around a (join (codes ", ") parts) b h
      (IsClosed-join (codes ", ") parts (unfold lex is_plain in refl) l) k

module _ (show_float : ℕ → Text)
    (shows : (x : ℕ) → is_finite x ≡ true → is_numeral (show_float x) ≡ true) where
  mutual
    unfolding render_value lex is_plain is_duration_shape

    pub render_value-IsClosed :
        (v : Value) {t : Text} → render_value show_float v ≡ ok t → IsClosed t
    render_value-IsClosed null h = subst IsClosed (ok_injective h) refl
    render_value-IsClosed (bool true) h = subst IsClosed (ok_injective h) refl
    render_value-IsClosed (bool false) h = subst IsClosed (ok_injective h) refl
    render_value-IsClosed (int true n) h =
        subst IsClosed (ok_injective h)
          (IsClosed-minus (digits n) (digits-nonempty n) (digits-is_plain n))
    render_value-IsClosed (int false n) h = subst IsClosed (ok_injective h) (IsClosed-digits n)
    render_value-IsClosed (float x) h =
        IsClosed-keep_if (is_finite x) (show_float x ++ codes "f")
          (λ e.
            IsClosed-append (show_float x) (codes "f") (IsClosed-numeral (show_float x) (shows x e))
              refl)
          h
    render_value-IsClosed (decimal s) h =
        IsClosed-keep_if (is_plain_decimal s) (s ++ codes "dec")
          (λ e.
            IsClosed-append s (codes "dec") (IsClosed-numeral s (is_plain_decimal-is_numeral s e))
              refl)
          h
    render_value-IsClosed (datetime s) h =
        IsClosed-keep_if (is_rfc3339_shape s) (b'd' ∷ quote s)
          (λ e. IsClosed-append (codes "d") (quote s) refl (IsClosed-quote s)) h
    render_value-IsClosed (duration s) h =
        IsClosed-keep_if (is_duration_shape s) s
          (λ e.
            IsClosed-plain s
              (all-weaken is_duration_char is_plain s duration_char-is_plain (ground (arith, e))))
          h
    render_value-IsClosed (record_id s) h = IsClosed-record_id s h
    render_value-IsClosed (text s) h = subst IsClosed (ok_injective h) (IsClosed-quote s)
    render_value-IsClosed (list vs) h =
        let (parts, e, k) =
          bind-ok (render_values show_float vs)
            (λ parts. ok (codes "[" ++ (join (codes ", ") parts ++ codes "]"))) h in
        subst IsClosed (ok_injective k)
          (IsClosed-parts (codes "[") (codes "]") parts refl refl (render_values-All vs e))
    render_value-IsClosed (object es) h =
        let (parts, e, k) =
          bind-ok (render_entries show_float es)
            (λ parts. ok (codes "{ " ++ (join (codes ", ") parts ++ codes " }"))) h in
        subst IsClosed (ok_injective k)
          (IsClosed-parts (codes "{ ") (codes " }") parts refl refl (render_entries-All es e))

    render_values-All :
        (vs : Values) {ts : List Text} → render_values show_float vs ≡ ok ts → All IsClosed ts
    render_values-All nil h = subst (All IsClosed) (ok_injective h) tt
    render_values-All (cons v vs) h =
        let (t, e, k) =
          bind-ok (render_value show_float v)
            (λ t. render_values show_float vs >>= λ ts. ok (t ∷ ts)) h in
        let (ts, f, l) = bind-ok (render_values show_float vs) (λ ts. ok (t ∷ ts)) k in
        subst (All IsClosed) (ok_injective l) (render_value-IsClosed v e, render_values-All vs f)

    render_entries-All :
        (es : Entries) {ts : List Text} → render_entries show_float es ≡ ok ts → All IsClosed ts
    render_entries-All end h = subst (All IsClosed) (ok_injective h) tt
    render_entries-All (entry key v es) h =
        let (i, j) =
          guard-ok (not (is_ident key)) _
            (render_value show_float v >>= λ t.
              render_entries show_float es >>= λ ts. ok ((key ++ (codes ": " ++ t)) ∷ ts))
            h in
        let (t, e, k) =
          bind-ok (render_value show_float v)
            (λ t. render_entries show_float es >>= λ ts. ok ((key ++ (codes ": " ++ t)) ∷ ts)) j in
        let (ts, f, l) =
          bind-ok (render_entries show_float es) (λ ts. ok ((key ++ (codes ": " ++ t)) ∷ ts)) k in
        subst (All IsClosed) (ok_injective l) (
          IsClosed-around key (codes ": ") t (IsClosed-ident key (ground (arith, i))) refl
              (render_value-IsClosed v e),
          render_entries-All es f,
        )

IsClosed-dash : (s : Text) → is_ident s ≡ true → IsClosed (b'-' ∷ s)
unfolding is_ident
IsClosed-dash s h =
    IsClosed-minus s (ground (arith, h))
      (all-weaken is_ident_char is_plain s ident_char-is_plain (ground (arith, h)))

IsClosed-segment :
    (first : Bool) (s : PathSegment) {t : Text} → render_segment first s ≡ ok t → IsClosed t
unfolding render_segment lex is_plain
IsClosed-segment true (field name) h = IsClosed-keep_if (is_ident name) name (IsClosed-ident name) h
IsClosed-segment false (field name) h =
    IsClosed-keep_if (is_ident name) (b'.' ∷ name) (IsClosed-ident name) h
IsClosed-segment true (link_hop name) h =
    IsClosed-keep_if (is_ident name) name (IsClosed-ident name) h
IsClosed-segment false (link_hop name) h =
    IsClosed-keep_if (is_ident name) (b'.' ∷ name) (IsClosed-ident name) h
IsClosed-segment first (edge outward type) h =
    IsClosed-keep_if (is_ident type) (codes "->" ++ (type ++ codes "->?"))
      (λ e. IsClosed-around (codes "->") type (codes "->?") refl (IsClosed-ident type e) refl) h
IsClosed-segment first (edge inward type) h =
    IsClosed-keep_if (is_ident type) (codes "<-" ++ (type ++ codes "<-?"))
      (λ e.
        IsClosed-around (codes "<") (b'-' ∷ type) (codes "<-?") refl (IsClosed-dash type e) refl)
      h

IsClosed-segments :
    (first : Bool) (ss : List PathSegment) {t : Text} → render_segments first ss ≡ ok t → IsClosed t
unfolding render_segments lex
IsClosed-segments first [] h = subst IsClosed (ok_injective h) refl
IsClosed-segments first (s ∷ ss) h =
    let (t, e, k) =
      bind-ok (render_segment first s) (λ t. render_segments false ss >>= λ rest. ok (t ++ rest))
        h in
    let (rest, f, l) = bind-ok (render_segments false ss) (λ rest. ok (t ++ rest)) k in
    subst IsClosed (ok_injective l)
      (IsClosed-append t rest (IsClosed-segment first s e) (IsClosed-segments false ss f))

pub render_path-IsClosed :
    (path : List PathSegment) {t : Text} → render_path path ≡ ok t → IsClosed t
unfolding render_path
render_path-IsClosed path h =
    IsClosed-segments true path
      (guard-ok (is_empty path || ltb max_path_depth (length path)) _ (render_segments true path)
        h).1
