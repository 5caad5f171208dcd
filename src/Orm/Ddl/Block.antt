-- ===== src/Orm/Ddl/Block.antt =====
-- Blocks of statements and the snapshot that is read of them (frust-kernel/orm/src/schema.rs,
-- `from_sql`).
use frust.Prelude.{
  ℕ, ◌≡◌, refl, sym, ap, ◌∙◌, Bool, true, false, none, some, List, [], ◌∷◌, ◌++◌, map,
  if◌then◌else◌, is_empty, All, All-append,
}
use frust.Prelude.Text.{Text, codes}
use frust.Prelude.Chars.{all, trim, NoSpace}
use frust.OrdMap.{insert}
use frust.Orm.Schema.{ObjectKind, SchemaObject, key, Objects}
use frust.Orm.Schema.Apply.{define_all}
use frust.Orm.Ddl.{parse_define, collect, from_sql}
use frust.Orm.Ddl.Split.{Statement, joined, split_statements-joined}
use frust.Orm.Ddl.Define.{kind_word, parse_define-overwrite}

-- A piece of a block, and the object that it declares: white space around one overwriting statement
-- with closed strings and braces.
pub record Reads (raw : Text) (o : SchemaObject) : Type 0 where
  pub first : ℕ
  pub others : Text
  pub rest : Text
  pub called : o.name ≡ first ∷ others
  pub one_word : NoSpace (first ∷ others)
  pub said :
      o.define_sql
      ≡ codes "DEFINE "
        ++ (kind_word o.kind ++ (codes " OVERWRITE " ++ (first ∷ others ++ 32 ∷ rest)))
  pub trimmed : trim raw ≡ o.define_sql
  pub closed : Statement 0 raw

Reads-parse : (raw : Text) (o : SchemaObject) → Reads raw o → parse_define o.define_sql ≡ some o
Reads-parse raw o r =
    ap parse_define r.said
    ∙ (parse_define-overwrite o.kind r.first r.others r.rest r.one_word
        ∙ ap some (rebuilt o.kind (sym r.called) (sym r.said)))
  where
    rebuilt :
        (kind : ObjectKind) {n m s t : Text}
        → n ≡ m
        → s ≡ t
        → ◌≡◌ {A = SchemaObject}
            (record { kind = kind; name = n; define_sql = s })
            (record { kind = kind; name = m; define_sql = t })
    rebuilt kind p q = cc

collected : Objects → Text → Objects
collected m stmt =
    if is_empty stmt then m else elim (parse_define stmt) [ none ↦ m | some o ↦ insert (key o) o m ]

collected-Reads :
    (raw : Text) (o : SchemaObject) (m : Objects)
    → Reads raw o
    → collected m (trim raw) ≡ insert (key o) o m
unfolding collected
collected-Reads raw o m r =
    ap (collected m) r.trimmed ∙ rw (ap is_empty r.said, Reads-parse raw o r) refl

abbrev pub AllRead : List (Text × SchemaObject) → Type 0
AllRead ps = All (λ (p : Text × SchemaObject). Reads p.0 p.1) ps

abbrev pub texts : List (Text × SchemaObject) → List Text
texts ps = map (λ (p : Text × SchemaObject). p.0) ps

abbrev pub declared : List (Text × SchemaObject) → List SchemaObject
declared ps = map (λ (p : Text × SchemaObject). p.1) ps

collect-Reads :
    (ps : List (Text × SchemaObject)) (m : Objects)
    → AllRead ps
    → collect (texts ps) m ≡ define_all (declared ps) m
unfolding collect define_all trim collected
collect-Reads [] m all = refl
collect-Reads ((raw, o) ∷ ps) m all =
    ap (collect (texts ps)) (collected-Reads raw o m all.0)
    ∙ collect-Reads ps (insert (key o) o m) all.1

texts-Statement : (ps : List (Text × SchemaObject)) → AllRead ps → All (Statement 0) (texts ps)
texts-Statement [] a = tt
texts-Statement (p ∷ ps) a = (a.0.closed, texts-Statement ps a.1)

texts-append :
    (ps : List (Text × SchemaObject)) (raw : Text) (o : SchemaObject)
    → texts (ps ++ (raw, o) ∷ []) ≡ texts ps ++ raw ∷ []
texts-append [] raw o = refl
texts-append (p ∷ ps) raw o = ap (λ t. p.0 ∷ t) (texts-append ps raw o)

is_empty-Reads : (raw : Text) (o : SchemaObject) → Reads raw o → is_empty raw ≡ false
unfolding trim
is_empty-Reads [] o r = absurd (clash (sym (ap is_empty r.said) ∙ ap is_empty (sym r.trimmed)))
  where
    clash : ¬ (false ≡ true)
    clash h = cc
is_empty-Reads (c ∷ t) o r = refl

-- A block of overwriting statements, each with white space around it and a semicolon behind it but
-- the last, whose strings and braces are closed and whose names are words, is read into the map that
-- has each declared object under its key, with its kind, name and text; of two objects with one key
-- it has the later.
pub from_sql-joined :
    (name : Text) (ps : List (Text × SchemaObject)) (raw : Text) (o : SchemaObject)
    → AllRead ps
    → Reads raw o
    → from_sql name (joined (texts ps) raw)
      ≡ record { table_name = name; objects = define_all (declared (ps ++ (raw, o) ∷ [])) [] }
unfolding from_sql
from_sql-joined name ps raw o all r =
    let pieces =
      split_statements-joined (texts ps) raw (texts-Statement ps all) r.closed
      ∙ (ap (λ (b : Bool). texts ps ++ (if b then [] else raw ∷ [])) (is_empty-Reads raw o r)
          ∙ sym (texts-append ps raw o)) in
    ap (λ m. record { table_name = name; objects = m })
      (ap (λ l. collect l []) pieces
        ∙ collect-Reads (ps ++ (raw, o) ∷ []) [] (
            All-append (λ (p : Text × SchemaObject). Reads p.0 p.1) ps ((raw, o) ∷ []) all (r, tt)))
