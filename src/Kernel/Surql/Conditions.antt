-- ===== src/Kernel/Surql/Conditions.antt =====
-- Conditions, whole: what `render_filter` writes (frust-kernel/kernel/src/surql.rs).
use frust.Prelude.{ℕ, ◌≡◌, refl, ap, subst, true, List, ◌∷◌, ◌++◌, append_assoc, All}
use frust.Prelude.Text.{Text, codes}
use frust.Prelude.Result.{ok, ◌>>=◌, bind-ok, ok_injective}
use frust.Prelude.Chars.{join}
use frust.Kernel.Contract.{
  CmpOp, eq, ne, gt, gte, lt, lte, inside, contains, Filter, all_of, any_of, negated, cmp, Filters,
  done, also,
}
use frust.Kernel.Surql.{
  is_finite, render_value, render_path, render_op, render_filter, render_filters,
}
use frust.Kernel.Surql.Lex.{IsClosed, lex, is_plain, IsClosed-append, IsClosed-join}
use frust.Kernel.Surql.Closed.{
  is_numeral, IsClosed-around, render_value-IsClosed, render_path-IsClosed,
}

IsClosed-op : (op : CmpOp) → IsClosed (codes " " ++ (render_op op ++ codes " "))
unfolding lex is_plain
IsClosed-op eq = refl
IsClosed-op ne = refl
IsClosed-op gt = refl
IsClosed-op gte = refl
IsClosed-op lt = refl
IsClosed-op lte = refl
IsClosed-op inside = refl
IsClosed-op contains = refl

IsClosed-cmp :
    (p t : Text) (op : CmpOp)
    → IsClosed p
    → IsClosed t
    → IsClosed (p ++ (codes " " ++ (render_op op ++ (codes " " ++ t))))
IsClosed-cmp p t op h k = IsClosed-append p (codes " " ++ (render_op op ++ (codes " " ++ t))) h (
    subst IsClosed (ap (λ u. codes " " ++ u) (append_assoc (render_op op) (codes " ") t))
      (IsClosed-append (codes " " ++ (render_op op ++ codes " ")) t (IsClosed-op op) k))

-- Parts in parentheses, with an operator between them
IsClosed-operands :
    (sep : Text) (parts : List Text)
    → IsClosed sep
    → All IsClosed parts
    → IsClosed (codes "(" ++ (join sep parts ++ codes ")"))
IsClosed-operands sep parts h k =
    IsClosed-around (codes "(") (join sep parts) (codes ")") (unfold lex is_plain in refl)
      (IsClosed-join sep parts h k) (unfold lex is_plain in refl)

module _ (show_float : ℕ → Text)
    (shows : (x : ℕ) → is_finite x ≡ true → is_numeral (show_float x) ≡ true) where
  mutual
    unfolding render_filter lex is_plain

    IsClosed-filter : (f : Filter) {t : Text} → render_filter show_float f ≡ ok t → IsClosed t
    IsClosed-filter (all_of fs) h =
        let (parts, e, k) =
          bind-ok (render_filters show_float fs)
            (λ parts. ok (codes "(" ++ (join (codes " AND ") parts ++ codes ")"))) h in
        subst IsClosed (ok_injective k)
          (IsClosed-operands (codes " AND ") parts refl (render_filters-All fs e))
    IsClosed-filter (any_of fs) h =
        let (parts, e, k) =
          bind-ok (render_filters show_float fs)
            (λ parts. ok (codes "(" ++ (join (codes " OR ") parts ++ codes ")"))) h in
        subst IsClosed (ok_injective k)
          (IsClosed-operands (codes " OR ") parts refl (render_filters-All fs e))
    IsClosed-filter (negated f) h =
        let (t, e, k) =
          bind-ok (render_filter show_float f) (λ t. ok (codes "(!(" ++ (t ++ codes "))"))) h in
        subst IsClosed (ok_injective k)
          (IsClosed-around (codes "(!(") t (codes "))") refl (IsClosed-filter f e) refl)
    IsClosed-filter (cmp path op v) h =
        let (p, e, k) =
          bind-ok (render_path path)
            (λ p. render_value show_float v >>= λ t.
              ok (p ++ (codes " " ++ (render_op op ++ (codes " " ++ t)))))
            h in
        let (t, f, l) =
          bind-ok (render_value show_float v)
            (λ t. ok (p ++ (codes " " ++ (render_op op ++ (codes " " ++ t))))) k in
        subst IsClosed (ok_injective l) (
          IsClosed-cmp p t op (render_path-IsClosed path e)
            (render_value-IsClosed show_float shows v f))

    render_filters-All :
        (fs : Filters) {ts : List Text} → render_filters show_float fs ≡ ok ts → All IsClosed ts
    render_filters-All done h = subst (All IsClosed) (ok_injective h) tt
    render_filters-All (also f fs) h =
        let (t, e, k) =
          bind-ok (render_filter show_float f)
            (λ t. render_filters show_float fs >>= λ ts. ok (t ∷ ts)) h in
        let (ts, g, l) = bind-ok (render_filters show_float fs) (λ ts. ok (t ∷ ts)) k in
        subst (All IsClosed) (ok_injective l) (IsClosed-filter f e, render_filters-All fs g)

-- However values, identifiers and nesting are chosen, a condition that is rendered opens no literal
-- that it does not close, and has nothing outside its literals that could end the statement, begin a
-- comment or open another kind of quote. It is supposed that a finite `f64` is printed as a sign or
-- none, then digits and points.
pub render_filter-IsClosed :
    (show_float : ℕ → Text)
    → ((x : ℕ) → is_finite x ≡ true → is_numeral (show_float x) ≡ true)
    → (f : Filter) {t : Text} → render_filter show_float f ≡ ok t
    → IsClosed t
render_filter-IsClosed show_float shows f h = IsClosed-filter show_float shows f h
