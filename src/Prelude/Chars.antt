-- ===== src/Prelude/Chars.antt =====
-- The functions of Rust's `str` and `u8` that the program parses with, on the bytes of a text. They
-- are exact on ASCII; Unicode white space and letters count as plain bytes.
use frust.Prelude.{
  ℕ, ◌+◌, ◌-◌, ◌≡◌, refl, sym, ap, ◌∙◌, ◌≢◌, Bool, true, false, not, ◌&&◌, ◌||◌, Option, none, some,
  List, [], ◌∷◌, ◌++◌, map, append-nil, append_assoc, arith, leb, ◌==◌, if◌then◌else◌, is_empty,
  All,
}
use frust.Prelude.Text.{Text, text_eq, text_eq_refl}

-- `is_ascii_whitespace`, and the vertical tab that `char::is_whitespace` adds
unfoldable pub is_space : ℕ → Bool
is_space c = c == 32 || (leb 9 c && leb c 13)

abbrev pub is_digit : ℕ → Bool
is_digit c = leb b'0' c && leb c b'9'

abbrev pub is_lower : ℕ → Bool
is_lower c = leb b'a' c && leb c b'z'

abbrev pub is_upper : ℕ → Bool
is_upper c = leb b'A' c && leb c b'Z'

-- `is_ascii_alphanumeric`
abbrev pub is_alphanumeric : ℕ → Bool
is_alphanumeric c = is_digit c || (is_lower c || is_upper c)

unfoldable pub to_upper : ℕ → ℕ
to_upper c = if is_lower c then c - 32 else c

unfoldable pub to_lower : ℕ → ℕ
to_lower c = if is_upper c then c + 32 else c

abbrev pub all {ℓ} : {A : Type ℓ} → (A → Bool) → List A → Bool
all p [] = true
all p (x ∷ xs) = p x && all p xs

-- `s.eq_ignore_ascii_case(t)`
unfoldable pub eq_ignore_case : Text → Text → Bool
unfolding text_eq to_upper
eq_ignore_case s t = text_eq (map to_upper s) (map to_upper t)

unfoldable pub trim_start : Text → Text
unfolding is_space
trim_start [] = []
trim_start (c ∷ cs) = let rest = trim_start cs in if is_space c then rest else c ∷ cs

unfoldable pub trim_end : Text → Text
unfolding is_space
trim_end [] = []
trim_end (c ∷ cs) = let rest = trim_end cs in if is_empty rest && is_space c then [] else c ∷ rest

-- `s.trim()`
unfoldable pub trim : Text → Text
unfolding trim_start trim_end
trim s = trim_end (trim_start s)

-- `split_whitespace`, with the word that is being read.
unfoldable pub words_from : Text → Text → List Text
unfolding is_space
words_from cur [] = if is_empty cur then [] else cur ∷ []
words_from cur (c ∷ cs) =
    let fresh = words_from [] cs in
    let more = words_from (cur ++ c ∷ []) cs in
    if is_space c then (if is_empty cur then fresh else cur ∷ fresh) else more

unfoldable pub split_whitespace : Text → List Text
unfolding words_from
split_whitespace s = words_from [] s

-- `s.strip_prefix(p)`
unfoldable pub strip_prefix : Text → Text → Option Text
strip_prefix [] s = some s
strip_prefix (c ∷ cs) [] = none
strip_prefix (c ∷ cs) (d ∷ ds) = let rest = strip_prefix cs ds in if c == d then rest else none

-- `s.strip_suffix(c)`, for one byte
unfoldable pub strip_suffix : ℕ → Text → Option Text
strip_suffix c [] = none
strip_suffix c (d ∷ []) = if d == c then some [] else none
strip_suffix c (d ∷ e ∷ s) =
    let rest = strip_suffix c (e ∷ s) in elim rest [ none ↦ none | some t ↦ some (d ∷ t) ]

-- `s.split_once(c)`, for one byte
unfoldable pub split_once : ℕ → Text → Option (Text × Text)
split_once c [] = none
split_once c (d ∷ s) =
    let rest = split_once c s in
    if d == c then some ([], s) else elim rest [ none ↦ none | some (a, b) ↦ some (d ∷ a, b) ]

-- `parts.join(sep)`
unfoldable pub join : Text → List Text → Text
join sep [] = []
join sep (s ∷ []) = s
join sep (s ∷ t ∷ ts) = s ++ (sep ++ join sep (t ∷ ts))

-- No byte of the text is white space.
abbrev pub NoSpace : Text → Type 0
NoSpace s = All (λ c. is_space c ≡ false) s

pub NoSpace-of_all : (s : Text) → all (λ c. not (is_space c)) s ≡ true → NoSpace s
NoSpace-of_all [] h = tt
NoSpace-of_all (c ∷ s) h = (ground arith, NoSpace-of_all s (ground arith))

words_from-append : (cur w s : Text) → NoSpace w → words_from cur (w ++ s) ≡ words_from (cur ++ w) s
unfolding words_from
words_from-append cur [] s h = rw append-nil
words_from-append cur (c ∷ w) s h =
    rw (h.0, words_from-append (cur ++ c ∷ []) w s h.1, append_assoc)

-- A word and a space are split off as they stand.
pub split_whitespace-word :
    (c : ℕ) (w s : Text)
    → NoSpace (c ∷ w)
    → split_whitespace (c ∷ w ++ 32 ∷ s) ≡ (c ∷ w) ∷ split_whitespace s
unfolding words_from split_whitespace
split_whitespace-word c w s h = words_from-append [] (c ∷ w) (32 ∷ s) h

-- A text of one word.
pub split_whitespace-single :
    (c : ℕ) (w : Text) → NoSpace (c ∷ w) → split_whitespace (c ∷ w) ≡ (c ∷ w) ∷ []
unfolding words_from split_whitespace
split_whitespace-single c w h =
    ap (words_from []) (sym (append-nil (c ∷ w))) ∙ words_from-append [] (c ∷ w) [] h

pub eq_ignore_case_refl : (s : Text) → eq_ignore_case s s ≡ true
unfolding eq_ignore_case
eq_ignore_case_refl s = text_eq_refl (map to_upper s)

pub strip_prefix-append : (p s : Text) → strip_prefix p (p ++ s) ≡ some s
unfolding strip_prefix
strip_prefix-append [] s = refl
strip_prefix-append (c ∷ p) s = ground (arith, strip_prefix-append p s)

pub strip_suffix-append : (c : ℕ) (s : Text) → strip_suffix c (s ++ c ∷ []) ≡ some s
unfolding strip_suffix
strip_suffix-append c [] = ground arith
strip_suffix-append c (d ∷ []) = ground arith
strip_suffix-append c (d ∷ e ∷ s) = ground (arith, strip_suffix-append c (e ∷ s))

pub split_once-append :
    (c : ℕ) (a b : Text) → All (λ d. d ≢ c) a → split_once c (a ++ c ∷ b) ≡ some (a, b)
unfolding split_once
split_once-append c [] b h = ground arith
split_once-append c (d ∷ a) b h = ground (arith, split_once-append c a b h.1, h.0)

-- `s.split(c)`, for one byte: one part more than there are such bytes
unfoldable pub split_on : ℕ → Text → List Text
split_on c [] = [] ∷ []
split_on c (d ∷ s) =
    let rest = split_on c s in
    if d == c then [] ∷ rest else elim rest [ [] ↦ (d ∷ []) ∷ [] | p ∷ ps ↦ (d ∷ p) ∷ ps ]

-- `s.replace(c, with)`, for one byte
unfoldable pub replace : ℕ → Text → Text → Text
replace c by [] = []
replace c by (d ∷ s) = let rest = replace c by s in if d == c then by ++ rest else d ∷ rest
