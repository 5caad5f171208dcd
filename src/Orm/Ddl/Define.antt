-- ===== src/Orm/Ddl/Define.antt =====
-- Statements and the objects that they define (frust-kernel/orm/src/schema.rs, `parse_define` and
-- `from_sql`).
use frust.Prelude.{
  ℕ, ◌≡◌, refl, sym, ap, ◌∙◌, subst, inl, inr, none, some, List, [], ◌∷◌, ◌++◌, arith,
  if◌then◌else◌, Bool-cases, Option-cases, is_empty,
}
use frust.Prelude.Text.{Text, codes}
use frust.Prelude.Chars.{
  is_space, trim, split_whitespace, NoSpace, NoSpace-of_all, split_whitespace-word,
}
use frust.OrdMap.{IsSorted, insert, insert-IsSorted}
use frust.Orm.Schema.{
  ObjectKind, table, field, index, event, SchemaObject, key, Objects, Keyed, IsWellFormed,
}
use frust.Orm.Ddl.{parse_tokens, parse_define, collect, split_statements, from_sql}

insert-Keyed : (o : SchemaObject) (m : Objects) → Keyed m → Keyed (insert (key o) o m)
unfolding insert
insert-Keyed o [] w = (refl, tt)
insert-Keyed o ((j, p) ∷ m) w = ground (arith, insert-Keyed o m w.1)

-- Every object of the map is what its own definition parses to.
abbrev pub Parsed : Objects → Type 0
Parsed [] = Unit
Parsed ((k, o) ∷ m) = (parse_define o.define_sql ≡ some o) × Parsed m

insert-Parsed :
    (o : SchemaObject) (m : Objects)
    → parse_define o.define_sql ≡ some o
    → Parsed m
    → Parsed (insert (key o) o m)
unfolding insert
insert-Parsed o [] e w = (e, tt)
insert-Parsed o ((j, p) ∷ m) e w = ground (arith, insert-Parsed o m e w.1)

parse_tokens-define_sql :
    (stmt : Text) (toks : List Text) (o : SchemaObject)
    → parse_tokens stmt toks ≡ some o
    → o.define_sql ≡ stmt
unfolding parse_tokens
parse_tokens-define_sql stmt [] o h = cc
parse_tokens-define_sql stmt (d ∷ []) o h = cc
parse_tokens-define_sql stmt (d ∷ k ∷ ts) o h = ground arith

parse_define-define_sql :
    (stmt : Text) (o : SchemaObject)
    → parse_define stmt ≡ some o
    → parse_define o.define_sql ≡ some o
unfolding parse_define
parse_define-define_sql stmt o h =
    subst (λ s. parse_define s ≡ some o)
      (sym (parse_tokens-define_sql stmt (split_whitespace stmt) o h)) h

collect_step :
    (m : Objects) (stmt : Text)
    → IsSorted m × Keyed m × Parsed m
    → let r =
        if is_empty stmt
        then m
        else elim (parse_define stmt) [ none ↦ m | some o ↦ insert (key o) o m ] in
      IsSorted r × Keyed r × Parsed r
collect_step m stmt w = elim (Bool-cases (is_empty stmt)) [
  | inl e ↦ rw e w
  | inr e ↦ elim (Option-cases (parse_define stmt)) [
    | inl p ↦ rw (e, p) w
    | inr (o, p) ↦
        rw (e, p)
          (
            insert-IsSorted (key o) o m w.0,
            insert-Keyed o m w.1,
            insert-Parsed o m (parse_define-define_sql stmt o p) w.2,
          )
  ]
]

collect-inv :
    (stmts : List Text) (m : Objects)
    → IsSorted m × Keyed m × Parsed m
    → let r = collect stmts m in IsSorted r × Keyed r × Parsed r
unfolding collect
collect-inv [] m w = w
collect-inv (raw ∷ rest) m w = collect-inv rest _ (collect_step m (trim raw) w)

-- A snapshot that is read from a DDL block is well-formed, and each of its objects is what its own
-- definition parses to.
pub from_sql-IsWellFormed :
    (name sql : Text) → IsWellFormed (from_sql name sql) × Parsed (from_sql name sql).objects
unfolding from_sql
from_sql-IsWellFormed name sql =
    let r = collect-inv (split_statements sql) [] (tt, tt, tt) in
    (record { sorted = r.0; keyed = r.1 }, r.2)

-- The spellings of the statement's head: a keyword for each kind, and the qualifiers.
abbrev pub kind_word : ObjectKind → Text
kind_word table = codes "TABLE"
kind_word field = codes "FIELD"
kind_word index = codes "INDEX"
kind_word event = codes "EVENT"

head_tokens :
    (k : ℕ) (ks : Text) (c : ℕ) (cs rest : Text)
    → NoSpace (k ∷ ks)
    → NoSpace (c ∷ cs)
    → split_whitespace
        (codes "DEFINE " ++ (k ∷ ks ++ (codes " OVERWRITE " ++ (c ∷ cs ++ 32 ∷ rest))))
      ≡ codes "DEFINE" ∷ (k ∷ ks) ∷ codes "OVERWRITE" ∷ (c ∷ cs) ∷ split_whitespace rest
unfolding is_space
head_tokens k ks c cs rest hk hc =
    split_whitespace-word b'D' (codes "EFINE") _ (NoSpace-of_all (codes "DEFINE") refl)
    ∙ ap (λ t. codes "DEFINE" ∷ t)
        (split_whitespace-word k ks _ hk
          ∙ ap (λ t. (k ∷ ks) ∷ t)
              (split_whitespace-word b'O' (codes "VERWRITE") _
                  (NoSpace-of_all (codes "OVERWRITE") refl)
                ∙ ap (λ t. codes "OVERWRITE" ∷ t) (split_whitespace-word c cs rest hc)))

kind_tokens :
    (kind : ObjectKind) (c : ℕ) (cs rest : Text)
    → NoSpace (c ∷ cs)
    → split_whitespace
        (codes "DEFINE " ++ (kind_word kind ++ (codes " OVERWRITE " ++ (c ∷ cs ++ 32 ∷ rest))))
      ≡ codes "DEFINE" ∷ kind_word kind ∷ codes "OVERWRITE" ∷ (c ∷ cs) ∷ split_whitespace rest
unfolding is_space
kind_tokens table c cs rest h =
    head_tokens b'T' (codes "ABLE") c cs rest (NoSpace-of_all (codes "TABLE") refl) h
kind_tokens field c cs rest h =
    head_tokens b'F' (codes "IELD") c cs rest (NoSpace-of_all (codes "FIELD") refl) h
kind_tokens index c cs rest h =
    head_tokens b'I' (codes "NDEX") c cs rest (NoSpace-of_all (codes "INDEX") refl) h
kind_tokens event c cs rest h =
    head_tokens b'E' (codes "VENT") c cs rest (NoSpace-of_all (codes "EVENT") refl) h

parse_head :
    (stmt : Text) (kind : ObjectKind) (name : Text) (more : List Text)
    → parse_tokens stmt (codes "DEFINE" ∷ kind_word kind ∷ codes "OVERWRITE" ∷ name ∷ more)
      ≡ some (record { kind = kind; name = name; define_sql = stmt })
unfolding parse_tokens
parse_head stmt table name more = refl
parse_head stmt field name more = refl
parse_head stmt index name more = refl
parse_head stmt event name more = refl

-- `DEFINE <KIND> OVERWRITE <name> <rest>` parses to an object of that kind and name, which keeps the
-- statement as it stands.
pub parse_define-overwrite :
    (kind : ObjectKind) (c : ℕ) (cs rest : Text)
    → NoSpace (c ∷ cs)
    → let stmt =
        codes "DEFINE " ++ (kind_word kind ++ (codes " OVERWRITE " ++ (c ∷ cs ++ 32 ∷ rest))) in
      parse_define stmt ≡ some (record { kind = kind; name = c ∷ cs; define_sql = stmt })
unfolding parse_define
parse_define-overwrite kind c cs rest h =
    ap (parse_tokens _) (kind_tokens kind c cs rest h)
    ∙ parse_head _ kind (c ∷ cs) (split_whitespace rest)
