-- ===== src/Kernel/Surql/Lex.antt =====
-- The lexer's view of a query text: string literals, and what may stand outside them
-- (frust-kernel/kernel/src/surql.rs, `escape_str`).
use frust.Prelude.{
  ℕ, ◌≡◌, refl, sym, ap, ◌∙◌, inl, inr, Bool, true, false, ◌||◌, Option, none, some, List, [], ◌∷◌,
  ◌++◌, arith, ◌==◌, if◌then◌else◌, ==_iff, Bool-cases, any, is_empty, All,
}
use frust.Prelude.Text.{Text, codes}
use frust.Prelude.Chars.{is_alphanumeric, all, join, replace}
use frust.Kernel.Surql.{escape_str, quote}

-- Outside literals, behind a dash there, in a literal, and behind a backslash in one.
pub data LexState : Type 0 where
  outside dashed quoted escaped : LexState

-- What may stand outside a literal: names, numbers and the operators of paths and conditions. It is no
-- statement's end, no comment, and no other kind of quote.
unfoldable pub is_plain : ℕ → Bool
is_plain c = is_alphanumeric c || any (λ d. c == d) (codes "_.:,+ []{}()<>=!?")

abbrev outside_step : ℕ → Option LexState
outside_step c =
    if c == b'\''
    then some quoted
    else if c == b'-'
    then some dashed
    else if is_plain c
    then some outside
    else none

-- One byte. Two dashes would begin a comment.
unfoldable pub lex_step : LexState → ℕ → Option LexState
lex_step outside c = outside_step c
lex_step dashed c = if c == b'-' then none else outside_step c
lex_step quoted c = some (if c == b'\\' then escaped else if c == b'\'' then outside else quoted)
lex_step escaped c = some quoted

unfoldable pub lex : LexState → Text → Option LexState
unfolding lex_step
lex s [] = some s
lex s (c ∷ cs) = elim (lex_step s c) [ none ↦ none | some s' ↦ lex s' cs ]

-- A text that begins and ends outside literals and holds nothing there that could break out of it.
abbrev pub IsClosed : Text → Type 0
IsClosed t = lex outside t ≡ some outside

-- The content of a literal, up to its closing quote, and the text behind that.
unfoldable pub read_literal : Text → Option (Text × Text)
read_literal [] = none
read_literal (c ∷ []) = if c == b'\'' then some ([], []) else none
read_literal (c ∷ d ∷ cs) =
    let plain = read_literal (d ∷ cs) in
    let special = read_literal cs in
    if c == b'\''
    then some ([], d ∷ cs)
    else if c == b'\\'
    then elim special [ none ↦ none | some (s, rest) ↦ some (d ∷ s, rest) ]
    else elim plain [ none ↦ none | some (s, rest) ↦ some (c ∷ s, rest) ]

-- `escape_str` in one pass.
abbrev escape_byte : ℕ → Text → Text
escape_byte c s = if c == b'\\' || c == b'\'' then b'\\' ∷ c ∷ s else c ∷ s

escape_str-cons : (c : ℕ) (s : Text) → escape_str (c ∷ s) ≡ escape_byte c (escape_str s)
unfolding escape_str replace
escape_str-cons c s = ground arith

escape_byte-append : (c : ℕ) (s t : Text) → escape_byte c s ++ t ≡ escape_byte c (s ++ t)
escape_byte-append c s t = ground arith

-- A string literal is read back as the text that was escaped, and ends where it was closed, whatever
-- follows.
pub read_literal-escape_str :
    (s rest : Text) → read_literal (escape_str s ++ b'\'' ∷ rest) ≡ some (s, rest)
unfolding read_literal
read_literal-escape_str [] rest = unfold escape_str replace in closing rest
  where
    closing : (rest : Text) → read_literal (b'\'' ∷ rest) ≡ some ([], rest)
    closing [] = refl
    closing (d ∷ r) = refl
read_literal-escape_str (c ∷ s) rest =
    rw (escape_str-cons c s, escape_byte-append c (escape_str s) (b'\'' ∷ rest))
      (content c (escape_str s ++ b'\'' ∷ rest) (read_literal-escape_str s rest))
  where
    content :
        (c : ℕ) (tail : Text)
        → read_literal tail ≡ some (s, rest)
        → read_literal (escape_byte c tail) ≡ some (c ∷ s, rest)
    content c [] h = cc
    content c (d ∷ tail) h = ground arith

pub lex-append :
    (s : LexState) {t : LexState} (a b : Text) → lex s a ≡ some t → lex s (a ++ b) ≡ lex t b
unfolding lex
lex-append s [] b h = ground arith
lex-append s {t} (c ∷ a) b h = onward (lex_step s c) (λ s'. lex-append s' a b) h
  where
    no_state : ¬ (none ≡ some t)
    no_state k = cc

    onward :
        (o : Option LexState)
        → ((s' : LexState) → lex s' a ≡ some t → lex s' (a ++ b) ≡ lex t b)
        → elim o [ none ↦ none | some s' ↦ lex s' a ] ≡ some t
        → elim o [ none ↦ none | some s' ↦ lex s' (a ++ b) ] ≡ lex t b
    onward none next k = absurd (no_state k)
    onward (some s') next k = next s' k

pub lex-escape_str : (s rest : Text) → lex quoted (escape_str s ++ rest) ≡ lex quoted rest
unfolding lex
lex-escape_str [] rest = unfold escape_str replace in refl
lex-escape_str (c ∷ s) rest =
    rw (escape_str-cons c s, escape_byte-append c (escape_str s) rest)
      (inside c (escape_str s ++ rest) ∙ lex-escape_str s rest)
  where
    inside : (c : ℕ) (tail : Text) → lex quoted (escape_byte c tail) ≡ lex quoted tail
    inside c tail = ground arith

pub IsClosed-append : (a b : Text) → IsClosed a → IsClosed b → IsClosed (a ++ b)
IsClosed-append a b h k = lex-append outside a b h ∙ k

pub IsClosed-quote : (s : Text) → IsClosed (quote s)
unfolding lex
IsClosed-quote s = lex-escape_str s (b'\'' ∷ [])

-- A plain byte is neither a quote nor a dash.
is_plain-ne : (c d : ℕ) → is_plain c ≡ true → is_plain d ≡ false → (c == d) ≡ false
is_plain-ne c d h k = elim (Bool-cases (c == d)) [
  | inl e ↦ absurd (apart (sym h ∙ ap is_plain ((==_iff c d).0 e) ∙ k))
  | inr e ↦ e
]
  where
    apart : ¬ (true ≡ false)
    apart h = cc

outside_step-plain : (c : ℕ) → is_plain c ≡ true → outside_step c ≡ some outside
outside_step-plain c h =
    rw
      (
        is_plain-ne c b'\'' h (unfold is_plain in refl),
        is_plain-ne c b'-' h (unfold is_plain in refl),
        h,
      )
      refl

dashed_step-plain : (c : ℕ) → is_plain c ≡ true → lex_step dashed c ≡ some outside
unfolding lex_step
dashed_step-plain c h =
    ap (λ b. if b then none else outside_step c) (is_plain-ne c b'-' h (unfold is_plain in refl))
    ∙ outside_step-plain c h

pub IsClosed-plain : (t : Text) → all is_plain t ≡ true → IsClosed t
unfolding lex
IsClosed-plain [] h = refl
IsClosed-plain (c ∷ t) h =
    ap (λ o. elim o [ none ↦ none | some s ↦ lex s t ]) (outside_step-plain c (ground (arith, h)))
    ∙ IsClosed-plain t (ground (arith, h))

-- A dash is closed by what is plain and not empty.
pub IsClosed-minus : (t : Text) → is_empty t ≡ false → all is_plain t ≡ true → IsClosed (b'-' ∷ t)
unfolding lex
IsClosed-minus [] e h = absurd (apart e)
  where
    apart : ¬ (true ≡ false)
    apart k = cc
IsClosed-minus (c ∷ t) e h =
    ap (λ o. elim o [ none ↦ none | some s ↦ lex s t ]) (dashed_step-plain c (ground (arith, h)))
    ∙ IsClosed-plain t (ground (arith, h))

pub IsClosed-join :
    (sep : Text) (ts : List Text) → IsClosed sep → All IsClosed ts → IsClosed (join sep ts)
unfolding join
IsClosed-join sep [] h k = unfold lex in refl
IsClosed-join sep (t ∷ []) h k = k.0
IsClosed-join sep (t ∷ u ∷ ts) h k =
    IsClosed-append t (sep ++ join sep (u ∷ ts)) k.0
      (IsClosed-append sep (join sep (u ∷ ts)) h (IsClosed-join sep (u ∷ ts) h k.1))

pub all-weaken :
    {A : Type 0} (p q : A → Bool) (t : List A)
    → ((c : A) → p c ≡ true → q c ≡ true)
    → all p t ≡ true
    → all q t ≡ true
all-weaken p q [] w h = refl
all-weaken p q (c ∷ t) w h = ground (arith, w c, all-weaken p q t w)
