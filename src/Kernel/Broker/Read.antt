-- ===== src/Kernel/Broker/Read.antt =====
-- The read path of the broker: reads, aggregates and deletes under the caller's session
-- (frust-kernel/kernel/src/broker.rs).
use frust.Prelude.{
  ℕ, suc, Bool, true, false, not, ◌&&◌, ◌||◌, Option, none, some, List, [], ◌∷◌, ◌++◌, map,
  if◌then◌else◌, any, filter, is_empty,
}
use frust.Prelude.Text.{Text, codes, text_eq}
use frust.Prelude.Result.{Result, ok, err, ◌>>=◌}
use frust.Prelude.Chars.{join}
use frust.Prelude.Digits.{digits}
use frust.Kernel.Contract.{PathSegment, field, Filter}
use frust.Kernel.Surql.{render_path, render_filter, filter_has_range}
use frust.Kernel.Broker.{
  Row, FieldMeta, DocTypeMeta, BrokerError, field_not_readable, of_render, engine_fields,
}

-- `is_none_or(|r| r == role)`
abbrev may_see : Text → Option Text → Bool
may_see role none = true
may_see role (some r) = text_eq r role

unfoldable pub readable_fields : DocTypeMeta → Text → List Text
readable_fields meta role =
    engine_fields
    ++ map (λ f. FieldMeta.fieldname f)
        (filter (λ f. may_see role (FieldMeta.perm_role f)) meta.fields)

abbrev pub is_readable : DocTypeMeta → Text → Text → Bool
is_readable meta role k = any (λ a. text_eq a k) (readable_fields meta role)

-- Only a path that begins with a field is looked up.
unfoldable pub check_path : DocTypeMeta → Text → List PathSegment → Result BrokerError Text
unfolding readable_fields
check_path meta role (field root ∷ path) =
    if not (is_readable meta role root)
    then err field_not_readable
    else of_render (render_path (field root ∷ path))
check_path meta role path = of_render (render_path path)

unfoldable pub check_paths :
    DocTypeMeta → Text → List (List PathSegment) → Result BrokerError (List Text)
unfolding check_path
check_paths meta role [] = ok []
check_paths meta role (p ∷ ps) =
    check_path meta role p >>= λ t. check_paths meta role ps >>= λ ts. ok (t ∷ ts)

pub data SortDir : Type 0 where
  asc desc : SortDir

pub record ReadOpts : Type 0 where
  pub order_by : Option (List PathSegment × SortDir)
  pub limit : Option ℕ
  pub start : Option ℕ

abbrev pub sort_word : SortDir → Text
sort_word asc = codes " ASC"
sort_word desc = codes " DESC"

abbrev pub number_clause : Text → Option ℕ → Text
number_clause word none = []
number_clause word (some n) = word ++ digits n

abbrev pub order_clause : Option (List PathSegment × SortDir) → Result BrokerError Text
order_clause none = ok []
order_clause (some (path, dir)) =
    of_render (render_path path) >>= λ p. ok (codes " ORDER BY " ++ (p ++ sort_word dir))

abbrev pub has_range : Option Filter → Bool
has_range none = false
has_range (some f) = filter_has_range f

abbrev pub is_some {ℓ} : {A : Type ℓ} → Option A → Bool
is_some none = false
is_some (some a) = true

module _ (show_float : ℕ → Text) where
  abbrev pub where_clause : Option Filter → Result BrokerError Text
  where_clause none = ok []
  where_clause (some f) = of_render (render_filter show_float f) >>= λ t. ok (codes " WHERE " ++ t)

  -- The clause that `replacen` puts behind the table stands there at once.
  unfoldable pub read_statement :
      Text → DocTypeMeta → Option Filter → ReadOpts → Result BrokerError Text
  read_statement timeout meta filter opts = where_clause filter >>= λ cond.
      order_clause opts.order_by >>= λ order.
      let scan : Text =
        (if has_range filter && is_some opts.order_by then codes " WITH NOINDEX" else []) in
      ok (
        codes "SELECT * FROM "
        ++ (meta.name
            ++ (scan
                ++ (cond
                    ++ (order
                        ++ (number_clause (codes " LIMIT ") opts.limit
                            ++ (number_clause (codes " START ") opts.start
                                ++ (codes " TIMEOUT " ++ (timeout ++ codes ";")))))))))

-- The fields of the projection, when one was given
abbrev pub roots_of : List (List PathSegment) → List Text
roots_of [] = []
roots_of ((field f ∷ _) ∷ ps) = f ∷ roots_of ps
roots_of (_ ∷ ps) = roots_of ps

abbrev pub is_projected : List (List PathSegment) → Text → Bool
is_projected fields k =
    is_empty fields || (any (λ f. text_eq f k) (roots_of fields) || text_eq k (codes "id"))

unfoldable pub visible_row : DocTypeMeta → Text → List (List PathSegment) → Row → Row
unfolding readable_fields
visible_row meta role fields row =
    filter (λ e. is_projected fields e.0) (filter (λ e. is_readable meta role e.0) row)

abbrev pub number_from : ℕ → List Text → (ℕ → Text → Text) → List Text
number_from i [] name = []
number_from i (t ∷ ts) name = name i t ∷ number_from (suc i) ts name

abbrev pub group_names : ℕ → List Text → List Text
group_names i [] = []
group_names i (t ∷ ts) = (b'g' ∷ digits i) ∷ group_names (suc i) ts

pub data Metric : Type 0 where
  count sum minimum maximum average : Metric

unfoldable pub metric_text :
    DocTypeMeta → Text → Metric × List PathSegment → Result BrokerError Text
unfolding check_path
metric_text meta role (count, path) = ok (codes "count()")
metric_text meta role (sum, path) =
    check_path meta role path >>= λ p. ok (codes "math::sum(" ++ (p ++ codes ")"))
metric_text meta role (minimum, path) =
    check_path meta role path >>= λ p. ok (codes "math::min(" ++ (p ++ codes ")"))
metric_text meta role (maximum, path) =
    check_path meta role path >>= λ p. ok (codes "math::max(" ++ (p ++ codes ")"))
metric_text meta role (average, path) =
    check_path meta role path >>= λ p. ok (codes "math::mean(" ++ (p ++ codes ")"))

unfoldable pub metric_texts :
    DocTypeMeta → Text → List (Metric × List PathSegment) → Result BrokerError (List Text)
unfolding metric_text
metric_texts meta role [] = ok []
metric_texts meta role (m ∷ ms) =
    metric_text meta role m >>= λ t. metric_texts meta role ms >>= λ ts. ok (t ∷ ts)

unfoldable pub aggregate_statement :
    (ℕ → Text)
    → Text
    → DocTypeMeta
    → Text
    → Option Filter
    → List (List PathSegment)
    → List (Metric × List PathSegment)
    → Result BrokerError Text
unfolding check_paths metric_texts
aggregate_statement show_float timeout meta role filter groups metrics =
    check_paths meta role groups >>= λ gs. metric_texts meta role metrics >>= λ ms.
    where_clause show_float filter >>= λ cond.
    let selected =
      number_from 0 gs (λ i t. t ++ (codes " AS g" ++ digits i))
      ++ number_from 0 ms (λ i t. t ++ (codes " AS m" ++ digits i)) in
    let scan : Text = (if has_range filter then codes " WITH NOINDEX" else []) in
    let group : Text =
      (if is_empty groups
        then codes " GROUP ALL"
        else codes " GROUP BY " ++ join (codes ", ") (group_names 0 gs)) in
    ok (
      codes "SELECT "
      ++ (join (codes ", ") selected
          ++ (codes " FROM "
              ++ (meta.name
                  ++ (scan
                      ++ (cond ++ (group ++ (codes " TIMEOUT " ++ (timeout ++ codes ";")))))))))

-- The database under the caller's session: all rows of the answer.
module _ {S : Type 0} (sql_as : Text → S → S × Result BrokerError (List Row))
    (show_float : ℕ → Text) (timeout : Text) (meta : DocTypeMeta) (role : Text) where
  unfoldable pub db_read_inner :
      Option Filter → List (List PathSegment) → ReadOpts → S → S × Result BrokerError (List Row)
  unfolding check_paths read_statement visible_row
  db_read_inner filter fields opts s =
      elim (check_paths meta role fields >>= λ ps.
      read_statement show_float timeout meta filter opts) [
        | err e ↦ (s, err e)
        | ok q ↦
            let (s', out) = sql_as q s in
            (s', (out >>= λ rows. ok (map (visible_row meta role fields) rows)))
      ]

  unfoldable pub db_aggregate_inner :
      Option Filter
      → List (List PathSegment)
      → List (Metric × List PathSegment)
      → S
      → S × Result BrokerError (List Row)
  unfolding aggregate_statement
  db_aggregate_inner filter groups metrics s =
      elim (aggregate_statement show_float timeout meta role filter groups metrics) [
        | err e ↦ (s, err e)
        | ok q ↦ sql_as q s
      ]
