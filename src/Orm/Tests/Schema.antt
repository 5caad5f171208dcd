-- ===== src/Orm/Tests/Schema.antt =====
-- Tests of the snapshots and of the reader of DDL (frust-kernel/orm/src/schema.rs).
use frust.Prelude.{ℕ, not, ◌||◌, ◌==◌, arith, ◌≡◌, refl, true, [], ◌∷◌, ◌++◌}
use frust.Prelude.Text.{Text, codes}
use frust.Prelude.Chars.{trim, split_whitespace}
use frust.Orm.Schema.{SchemaSnapshot, SchemaObject, field, event, diff, is_empty_diff, IsWellFormed}
use frust.Orm.Schema.Loss.{diff_self}
use frust.Orm.Ddl.{Scan, outside, split_statements, from_sql}
use frust.Orm.Ddl.Split.{
  Statement, plain, semicolon, opened, closed, ending, joined, split_statements-joined,
}
use frust.Orm.Ddl.Block.{Reads, from_sql-joined}
use frust.Orm.Schema.Apply.{define_all}
use frust.Prelude.Chars.{all, NoSpace-of_all}
use frust.Orm.Ddl.Define.{from_sql-IsWellFormed}
use frust.Orm.Tests.{old_sql, new_sql}

abbrev old : SchemaSnapshot
old = from_sql (codes "doc") old_sql

abbrev new : SchemaSnapshot
new = from_sql (codes "doc") new_sql

abbrev age_object : SchemaObject
age_object = record {
  kind = field;
  name = codes "age";
  define_sql = codes "DEFINE FIELD OVERWRITE age ON TABLE doc TYPE int";
}

old-IsWellFormed : IsWellFormed old
old-IsWellFormed = (from_sql-IsWellFormed (codes "doc") old_sql).0

no-difference : is_empty_diff (diff old old) ≡ true
no-difference = diff_self old old old-IsWellFormed.sorted refl

abbrev event_sql : Text
event_sql = codes "DEFINE EVENT OVERWRITE e ON doc THEN { a; }"

abbrev event_object : SchemaObject
event_object = record { kind = event; name = codes "e"; define_sql = event_sql }

-- A text without quotes, semicolons and braces is a statement from there on.
plain_text :
    (n : ℕ) (s t : Text)
    → all (λ c. not (c == b'\'' || (c == b';' || (c == b'{' || c == b'}')))) s ≡ true
    → Statement n t
    → Statement n (s ++ t)
plain_text n [] t h k = k
plain_text n (c ∷ s) t h k =
    plain c (ground arith) (ground arith) (ground arith) (ground arith)
      (plain_text n s t (ground arith) k)

event-Statement : Statement 0 event_sql
event-Statement =
    plain_text 0 (codes "DEFINE EVENT OVERWRITE e ON doc THEN ") (codes "{ a; }") refl (
      opened (
        plain_text 1 (codes " a") (codes "; }") refl
          (semicolon (plain_text 1 (codes " ") (codes "}") refl (closed ending)))))

event-Reads : Reads (32 ∷ event_sql) event_object
unfolding trim split_whitespace
event-Reads = record {
  first = b'e';
  others = [];
  rest = codes "ON doc THEN { a; }";
  called = refl;
  one_word = NoSpace-of_all (codes "e") refl;
  said = refl;
  trimmed = refl;
  closed = plain_text 0 (codes " ") event_sql refl event-Statement;
}

split_statements-joined_example : split_statements (joined (event_sql ∷ []) []) ≡ event_sql ∷ []
split_statements-joined_example =
    split_statements-joined (event_sql ∷ []) [] (event-Statement, tt) ending

from_sql-joined_example :
    from_sql (codes "doc") (joined [] (32 ∷ event_sql))
    ≡ record { table_name = codes "doc"; objects = define_all (event_object ∷ []) [] }
from_sql-joined_example =
    from_sql-joined (codes "doc") [] (32 ∷ event_sql) event_object tt event-Reads
