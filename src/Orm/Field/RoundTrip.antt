-- ===== src/Orm/Field/RoundTrip.antt =====
-- The texts of types, printed and parsed (frust-kernel/orm/src/field.rs).
use frust.Prelude.{
  ℕ, zero, suc, ◌≤◌, ◌<◌, ◌≡◌, refl, sym, ap, ◌∙◌, true, false, Option, none, some, [], ◌∷◌, ◌++◌,
  append_assoc, arith, length, length-append,
}
use frust.Prelude.Text.{Text, codes}
use frust.Prelude.Chars.{
  is_space, trim_start, trim_end, trim, strip_suffix, strip_prefix-append, strip_suffix-append,
}
use frust.Orm.Field.{SurrealType, record_of, array, geometry, other, render}
use frust.Orm.Field.Read.{
  bracketed, pick_bracketed, parse_trimmed, parse_inner_fuel, parse_inner, nullable_type,
}

-- The types with a spelling of their own, all the way down.
abbrev pub IsRecognised : SurrealType → Type 0
IsRecognised (array inner) = IsRecognised inner
IsRecognised (other s) = ⊥
IsRecognised _ = Unit {0}

trim_end-last : (s : Text) (d : ℕ) → is_space d ≡ false → trim_end (s ++ d ∷ []) ≡ s ++ d ∷ []
unfolding trim_end
trim_end-last [] d h = ground arith
trim_end-last (c ∷ []) d h = ground arith
trim_end-last (c ∷ b ∷ s) d h = ground (arith, trim_end-last (b ∷ s) d h)

-- A text that begins and ends with no space is left alone.
trim-bare :
    (c : ℕ) (s : Text) (d : ℕ)
    → is_space c ≡ false
    → is_space d ≡ false
    → trim (c ∷ s ++ d ∷ []) ≡ c ∷ s ++ d ∷ []
unfolding trim trim_start
trim-bare c s d h k = rw h (trim_end-last (c ∷ s) d k)

-- The text of a bracketed type.
abbrev pub wrap : Text → Text → Text
wrap head inner = head ++ (inner ++ codes ">")

bracketed-wrap : (head inner : Text) → bracketed head (wrap head inner) ≡ some inner
unfolding bracketed
bracketed-wrap head inner =
    ap (λ (o : Option Text). elim o [ none ↦ none | some x ↦ strip_suffix b'>' x ])
      (strip_prefix-append head (inner ++ codes ">"))
    ∙ strip_suffix-append b'>' inner

module _ (inner_type : Text → SurrealType) (t : Text) where
  pick-record :
      (s : Text) (a g : Option Text) → pick_bracketed inner_type s (some t) a g ≡ record_of t
  unfolding pick_bracketed
  pick-record s a g = refl

  parse_trimmed-array : parse_trimmed inner_type (wrap (codes "array<") t) ≡ array (inner_type t)
  unfolding parse_trimmed
  parse_trimmed-array =
      ap
        (λ o.
          pick_bracketed inner_type (wrap (codes "array<") t) none o
            (bracketed (codes "geometry<") (wrap (codes "array<") t)))
        (bracketed-wrap (codes "array<") t)

  parse_trimmed-geometry : parse_trimmed inner_type (wrap (codes "geometry<") t) ≡ geometry t
  unfolding parse_trimmed
  parse_trimmed-geometry =
      ap (λ o. pick_bracketed inner_type (wrap (codes "geometry<") t) none none o)
        (bracketed-wrap (codes "geometry<") t)

  parse_trimmed-record : parse_trimmed inner_type (wrap (codes "record<") t) ≡ record_of t
  unfolding parse_trimmed
  parse_trimmed-record =
      ap
        (λ o.
          pick_bracketed inner_type (wrap (codes "record<") t) o
            (bracketed (codes "array<") (wrap (codes "record<") t))
            (bracketed (codes "geometry<") (wrap (codes "record<") t)))
        (bracketed-wrap (codes "record<") t)

-- A bracketed text that begins with no space is trimmed to itself.
trim-wrap :
    (c : ℕ) (head inner : Text)
    → is_space c ≡ false
    → trim (wrap (c ∷ head) inner) ≡ wrap (c ∷ head) inner
unfolding is_space
trim-wrap c head inner h =
    ap (λ s. trim (c ∷ s)) (sym (append_assoc head inner (codes ">")))
    ∙ trim-bare c (head ++ inner) b'>' h refl
    ∙ ap (λ s. c ∷ s) (append_assoc head inner (codes ">"))

-- How deep a type nests.
abbrev pub depth : SurrealType → ℕ
depth (array inner) = suc (depth inner)
depth _ = 0

-- With more fuel than the type nests, parsing the text of a type gives it back.
parse_inner_fuel-render :
    (t : SurrealType) (fuel : ℕ)
    → IsRecognised t
    → depth t < fuel
    → parse_inner_fuel fuel (render t) ≡ t
unfolding render parse_inner_fuel
parse_inner_fuel-render t zero r h = absurd (omega arith)
parse_inner_fuel-render (record_of []) (suc fuel) r h = refl
parse_inner_fuel-render (record_of (c ∷ cs)) (suc fuel) r h =
    ap (parse_trimmed (parse_inner_fuel fuel)) (trim-wrap b'r' (codes "ecord<") (c ∷ cs) refl)
    ∙ parse_trimmed-record (parse_inner_fuel fuel) (c ∷ cs)
parse_inner_fuel-render (array inner) (suc fuel) r h =
    ap (parse_trimmed (parse_inner_fuel fuel)) (trim-wrap b'a' (codes "rray<") (render inner) refl)
    ∙ parse_trimmed-array (parse_inner_fuel fuel) (render inner)
    ∙ ap array (parse_inner_fuel-render inner fuel r (omega arith))
parse_inner_fuel-render (geometry g) (suc fuel) r h =
    ap (parse_trimmed (parse_inner_fuel fuel)) (trim-wrap b'g' (codes "eometry<") g refl)
    ∙ parse_trimmed-geometry (parse_inner_fuel fuel) g
parse_inner_fuel-render (other s) (suc fuel) r h = absurd r
parse_inner_fuel-render _ (suc fuel) r h = refl

depth-length : (t : SurrealType) → depth t ≤ length (render t)
unfolding render
depth-length (array inner) =
    omega (arith, depth-length inner, length-append (render inner) (codes ">"))
depth-length _ = omega arith

-- A recognised type is parsed back from its text.
pub parse_inner-render : (t : SurrealType) → IsRecognised t → parse_inner (render t) ≡ t
unfolding parse_inner
parse_inner-render t r =
    parse_inner_fuel-render t (suc (length (render t))) r (omega (arith, depth-length t))

-- … and inside `option<…>`, which says that the field is nullable.
pub nullable_type-option :
    (t : SurrealType)
    → IsRecognised t
    → nullable_type (wrap (codes "option<") (render t)) ≡ (true, t)
unfolding nullable_type
nullable_type-option t r =
    rw (strip_suffix-append b'>' (render t)) (ap (λ u. (true, u)) (parse_inner-render t r))

-- With no `option<…>` it says that the field is required.
pub nullable_type-required :
    (t : SurrealType) → IsRecognised t → nullable_type (render t) ≡ (false, t)
nullable_type-required t r = bare t r ∙ ap (λ u. (false, u)) (parse_inner-render t r)
  where
    bare :
        (t : SurrealType)
        → IsRecognised t
        → nullable_type (render t) ≡ (false, parse_inner (render t))
    bare (record_of []) r = unfold nullable_type render in refl
    bare (record_of (c ∷ cs)) r = unfold nullable_type render in refl
    bare (array inner) r = unfold nullable_type render in refl
    bare (geometry g) r = unfold nullable_type render in refl
    bare (other s) r = absurd r
    bare _ r = unfold nullable_type render in refl
