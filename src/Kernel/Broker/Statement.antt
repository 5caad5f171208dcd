-- ===== src/Kernel/Broker/Statement.antt =====
-- The statement of a write (frust-kernel/kernel/src/broker.rs, `db_write_inner`), to the lexer.
use frust.Prelude.{ℕ, ◌≡◌, refl, sym, ap, ◌∙◌, subst, true, Option, none, some, ◌++◌, append_assoc}
use frust.Prelude.Text.{Text, codes}
use frust.Prelude.Result.{Result, ok, err, bind-ok, ok_injective}
use frust.Kernel.Contract.{object, record_id}
use frust.Kernel.Surql.{RenderError, is_ident, is_finite, render_value}
use frust.Kernel.Surql.Lex.{IsClosed, lex, is_plain, IsClosed-append}
use frust.Kernel.Surql.Closed.{is_numeral, IsClosed-ident, render_value-IsClosed}
use frust.Kernel.Broker.{
  Doc, DocTypeMeta, WriteOp, create, update, BrokerError, invalid_value, of_render, to_entries,
}
use frust.Kernel.Broker.Write.{record_name, statement}

of_render-ok : {A : Type 0} (r : Result RenderError A) {a : A} → of_render r ≡ ok a → r ≡ ok a
of_render-ok (ok x) h = ap ok (ok_injective h)
of_render-ok {A} (err e) {a} h = absurd (refused _ h)
  where
    refused : (b : BrokerError) → ¬ (◌≡◌ {A = Result BrokerError A} (err b) (ok a))
    refused b k = cc

-- One statement: a closed text and the semicolon that ends it
abbrev pub IsStatement : Text → Type 0
IsStatement q = (body : Text) × (q ≡ body ++ codes ";") × IsClosed body

-- Two key words, each with what follows it
IsStatement-parts :
    (a x b y : Text)
    → IsClosed a
    → IsClosed x
    → IsClosed b
    → IsClosed y
    → IsStatement (a ++ (x ++ (b ++ (y ++ codes ";"))))
IsStatement-parts a x b y h k l m = (
  a ++ (x ++ (b ++ y)),
  sym (regroup (codes ";")),
  IsClosed-append a (x ++ (b ++ y)) h (IsClosed-append x (b ++ y) k (IsClosed-append b y l m)),
)
  where
    regroup : (e : Text) → (a ++ (x ++ (b ++ y))) ++ e ≡ a ++ (x ++ (b ++ (y ++ e)))
    regroup e =
        append_assoc a (x ++ (b ++ y)) e
        ∙ ap (λ t. a ++ t) (append_assoc x (b ++ y) e ∙ ap (λ t. x ++ t) (append_assoc b y e))

-- A write, however the payload, the record key and the hooks' answers are chosen, is exactly one
-- statement: nothing in it breaks out of a literal, and only its end is a semicolon outside one. It is
-- supposed that the doctype's name is an identifier and that a finite `f64` is printed as a numeral.
pub statement-IsStatement :
    (show_float : ℕ → Text)
    → ((x : ℕ) → is_finite x ≡ true → is_numeral (show_float x) ≡ true)
    → (meta : DocTypeMeta) (op : WriteOp) (key : Option Text) (entries : Doc) {q : Text}
    → is_ident meta.name ≡ true
    → statement show_float meta op key entries ≡ ok q
    → IsStatement q
unfolding statement lex is_plain
statement-IsStatement show_float shows meta create key entries i h =
    let (content, r, k) =
      bind-ok (of_render (render_value show_float (object (to_entries entries)))) _ h in
    let closed =
      render_value-IsClosed show_float shows (object (to_entries entries)) (of_render-ok _ r) in
    subst IsStatement (ok_injective k) (
      IsStatement-parts (codes "CREATE ") meta.name (codes " CONTENT ") content refl
        (IsClosed-ident meta.name i) refl closed)
statement-IsStatement show_float shows meta update none entries i h =
    let (content, r, k) =
      bind-ok (of_render (render_value show_float (object (to_entries entries)))) _ h in
    absurd (refused k)
  where
    refused : {q : Text} → ¬ (◌≡◌ {A = Result BrokerError Text} (err invalid_value) (ok q))
    refused k = cc
statement-IsStatement show_float shows meta update (some key) entries i h =
    let (content, r, k) =
      bind-ok (of_render (render_value show_float (object (to_entries entries)))) _ h in
    let (rid, e, l) =
      bind-ok (of_render (render_value show_float (record_id (record_name meta key)))) _ k in
    let closed =
      render_value-IsClosed show_float shows (object (to_entries entries)) (of_render-ok _ r) in
    let named =
      render_value-IsClosed show_float shows (record_id (record_name meta key))
        (of_render-ok _ e) in
    subst IsStatement (ok_injective l)
      (IsStatement-parts (codes "UPDATE ") rid (codes " MERGE ") content refl named refl closed)
