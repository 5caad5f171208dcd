-- ===== src/Kernel/Surql/Tests.antt =====
-- Query texts of the source's own tests, and a hostile value in a condition.
use frust.Prelude.{
  ℕ, zero, suc, ◌+◌, ◌-◌, ◌*◌, ◌/◌, ◌%◌, ◌^◌, ◌≤◌, ◌<◌, min, max, compare, Ordering, ◌≡◌, refl, sym,
  ap, ◌∙◌, subst, ◌≢◌, ◌↔◌, ◌⊎◌, inl, inr, Bool, true, false, not, ◌&&◌, ◌||◌, Option, none, some,
  List, [], ◌∷◌, ◌++◌, map, append-nil, append_assoc, arith, ltb, leb, ◌==◌, if◌then◌else◌, ==_iff,
  ltb→lt, leb→le, Bool-cases, Option-cases, bool_eq, length, take, drop, get_elem?, any, filter,
  find, is_empty, length-append, All, All-append, All-map, In, In-append_left, In-append_right,
  In-append,
}
use frust.Prelude.Text.{Text, codes}
use frust.Prelude.Result.{ok, err}
use frust.Kernel.Contract.{
  null, int, float, decimal, text, record_id, object, end, entry, outward, field, link_hop, edge,
  eq, gt, Filter, any_of, cmp, done, also,
}
use frust.Kernel.Surql.{
  invalid_value, path_too_deep, escape_str, render_value, render_path, render_filter,
  render_live_select,
}
use frust.Kernel.Surql.Lex.{IsClosed, read_literal, read_literal-escape_str}
use frust.Kernel.Surql.Closed.{is_numeral}
use frust.Kernel.Surql.Conditions.{render_filter-IsClosed}

-- `format!("{x}")`, of zero
abbrev show_zero : ℕ → Text
show_zero x = codes "0"

abbrev hostile : Filter
hostile = any_of (
    also (cmp (field (codes "name") ∷ []) eq (text (codes "x' OR 1=1; -- \\")))
      (also (cmp (link_hop (codes "total") ∷ []) gt (int true 5)) done))

abbrev hostile_text : Text
hostile_text = codes "(name = 'x\\' OR 1=1; -- \\\\' OR total > -5)"

hostile_rendered : render_filter show_zero hostile ≡ ok hostile_text
unfolding render_filter frust.Prelude.Chars.join frust.Prelude.Digits.digits
hostile_rendered = refl

decimals :
    (render_value show_zero (decimal (codes "-1.5")) ≡ ok (codes "-1.5dec"))
    × (render_value show_zero (decimal (codes "1.5; DROP")) ≡ err invalid_value)
unfolding render_value frust.Prelude.Chars.split_on frust.Prelude.Chars.strip_prefix
decimals = (refl, refl)

nan_refused : render_value show_zero (float (2047 * 2 ^ 52)) ≡ err invalid_value
unfolding render_value
nan_refused = refl

record_ids :
    (render_value show_zero (record_id (codes "so:1")) ≡ ok (codes "type::record('so:1')"))
    × (render_value show_zero (record_id (codes "so")) ≡ err invalid_value)
unfolding render_value
record_ids = (refl, refl)

keys_are_identifiers :
    render_value show_zero (object (entry (codes "a b") null end)) ≡ err invalid_value
unfolding render_value
keys_are_identifiers = refl

paths :
    (render_path (edge outward (codes "placed") ∷ field (codes "total") ∷ [])
      ≡ ok (codes "->placed->?.total"))
    × (render_path [] ≡ err path_too_deep)
unfolding render_path
paths = (refl, refl)

live_select : render_live_select (codes "so") ≡ ok (codes "LIVE SELECT * FROM so;")
unfolding render_live_select
live_select = refl

read_literal-escape_str_example :
    read_literal (codes "it\\'s \\\\' AND true") ≡ some (codes "it's \\", codes " AND true")
unfolding escape_str
read_literal-escape_str_example = read_literal-escape_str (codes "it's \\") (codes " AND true")

render_filter-IsClosed_example : IsClosed hostile_text
unfolding frust.Prelude.Chars.strip_prefix
render_filter-IsClosed_example =
    render_filter-IsClosed show_zero (λ x e. unfold is_numeral in refl) hostile hostile_rendered
