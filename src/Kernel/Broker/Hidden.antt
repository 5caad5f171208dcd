-- ===== src/Kernel/Broker/Hidden.antt =====
-- Fields that a role may not read (frust-kernel/kernel/src/broker.rs, `db_read_inner`).
use frust.Prelude.{
  ℕ, ◌≡◌, refl, sym, ap, ◌∙◌, subst, inl, inr, Bool, true, false, not, Option, none, some, List, [],
  ◌∷◌, map, arith, Bool-cases, filter, All, In,
}
use frust.Prelude.Text.{Text, text_eq, text_eq_sound}
use frust.Prelude.Result.{Result, ok, ◌>>=◌, bind-ok, ok_injective, guard-ok}
use frust.Kernel.Contract.{PathSegment, field, Filter}
use frust.Kernel.Surql.{render_path}
use frust.Kernel.Broker.{Json, Row, DocTypeMeta, BrokerError, field_not_readable, of_render, lookup}
use frust.Kernel.Broker.Consent.{step-ok}
use frust.Kernel.Broker.Read.{
  ReadOpts, is_readable, check_path, check_paths, read_statement, is_projected, visible_row,
  db_read_inner,
}

-- A field that no test lets through is not found.
lookup-filter :
    (p : Text × Json → Bool) (k : Text) (row : Row)
    → ((v : Json) → p (k, v) ≡ false)
    → lookup k (filter p row) ≡ none
lookup-filter p k [] h = refl
lookup-filter p k ((j, v) ∷ row) h = elim (Bool-cases (p (j, v))) [
  | inl t ↦ rw (t, differs t) (lookup-filter p k row h)
  | inr t ↦ rw t (lookup-filter p k row h)
]
  where
    apart : ¬ (true ≡ false)
    apart c = cc

    differs : p (j, v) ≡ true → text_eq j k ≡ false
    differs t = elim (Bool-cases (text_eq j k)) [
      | inl e ↦ absurd (apart (sym t ∙ (ap (λ i. p (i, v)) (text_eq_sound j k e) ∙ h v)))
      | inr e ↦ e
    ]

lookup-still_none :
    (p : Text × Json → Bool) (k : Text) (row : Row)
    → lookup k row ≡ none
    → lookup k (filter p row) ≡ none
lookup-still_none p k [] h = refl
lookup-still_none p k ((j, v) ∷ row) h = elim (Bool-cases (text_eq j k)) [
  | inl e ↦ absurd (found (sym h ∙ rw e refl))
  | inr e ↦ elim (Bool-cases (p (j, v))) [
    | inl t ↦ rw (t, e) (lookup-still_none p k row (rw e at h))
    | inr t ↦ rw t (lookup-still_none p k row (rw e at h))
  ]
]
  where
    found : ¬ (none ≡ some v)
    found c = cc

hidden_in_row :
    (meta : DocTypeMeta) (role : Text) (fields : List (List PathSegment)) (k : Text) (row : Row)
    → is_readable meta role k ≡ false
    → lookup k (visible_row meta role fields row) ≡ none
unfolding visible_row
hidden_in_row meta role fields k row h =
    lookup-still_none (λ e. is_projected fields e.0) k (filter (λ e. is_readable meta role e.0) row)
      (lookup-filter (λ e. is_readable meta role e.0) k row (λ v. h))

check_paths-readable :
    (meta : DocTypeMeta) (role : Text) (root : Text) (path : List PathSegment)
    (paths : List (List PathSegment)) {ts : List Text}
    → In (field root ∷ path) paths
    → check_paths meta role paths ≡ ok ts
    → is_readable meta role root ≡ true
unfolding check_paths
check_paths-readable meta role root path [] i h = absurd i
check_paths-readable meta role root path (p ∷ ps) i h =
    let (t, e, k) = bind-ok (check_path meta role p) _ h in
    let (ts, f, l) = bind-ok (check_paths meta role ps) _ k in
    elim i [
      | inl same ↦ checked (subst (λ q. check_path meta role q ≡ ok t) (sym same) e)
      | inr j ↦ check_paths-readable meta role root path ps j f
    ]
  where
    checked :
        {t : Text}
        → check_path meta role (field root ∷ path) ≡ ok t
        → is_readable meta role root ≡ true
    checked e =
        unfold check_path in
        ground (
          arith,
          (guard-ok (not (is_readable meta role root)) field_not_readable
              (of_render (render_path (field root ∷ path))) e).0,
        )

-- In a read that succeeds, every requested path that begins with a field of the document, and not with
-- a link, begins with a field that the role may read; and no row of the answer has a field that the
-- role may not read, whatever rows the database answered with.
pub db_read_inner-readable :
    {S : Type 0} (sql_as : Text → S → S × Result BrokerError (List Row)) (show_float : ℕ → Text)
    (timeout : Text) (meta : DocTypeMeta) (role : Text) (cond : Option Filter)
    (fields : List (List PathSegment)) (opts : ReadOpts) (s : S) {s' : S} {rows : List Row}
    → db_read_inner sql_as show_float timeout meta role cond fields opts s ≡ (s', ok rows)
    → ((root : Text) (path : List PathSegment)
        → In (field root ∷ path) fields
        → is_readable meta role root ≡ true)
      × ((k : Text) → is_readable meta role k ≡ false → All (λ row. lookup k row ≡ none) rows)
unfolding db_read_inner
db_read_inner-readable sql_as show_float timeout meta role cond fields opts s {s'} {rows} h =
    let (q, e, k) =
      step-ok
        (check_paths meta role fields >>= λ ps. read_statement show_float timeout meta cond opts) s
        _ h in
    let (ts, f, l) = bind-ok (check_paths meta role fields) _ e in
    let (raw, g, m) = bind-ok (sql_as q s).1 _ (ap (λ x. x.1) k) in
    (
      λ root path i. check_paths-readable meta role root path fields i f,
      λ j hidden.
          subst (All (λ row. lookup j row ≡ none)) (ok_injective m) (all_hidden j hidden raw),
    )
  where
    all_hidden :
        (j : Text)
        → is_readable meta role j ≡ false
        → (raw : List Row)
        → All (λ row. lookup j row ≡ none) (map (visible_row meta role fields) raw)
    all_hidden j hidden [] = tt
    all_hidden j hidden (row ∷ raw) =
        (hidden_in_row meta role fields j row hidden, all_hidden j hidden raw)
