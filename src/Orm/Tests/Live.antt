-- ===== src/Orm/Tests/Live.antt =====
-- A database that keeps what is documented of `DEFINE … OVERWRITE` and `REMOVE … IF EXISTS`, on the
-- objects of one table.
use frust.Prelude.{
  ℕ, zero, suc, ◌+◌, ◌-◌, ◌*◌, ◌/◌, ◌%◌, ◌^◌, ◌≤◌, ◌<◌, min, max, compare, Ordering, ◌≡◌, refl, sym,
  ap, ◌∙◌, subst, ◌≢◌, ◌↔◌, ◌⊎◌, inl, inr, Bool, true, false, not, ◌&&◌, ◌||◌, Option, none, some,
  List, [], ◌∷◌, ◌++◌, map, append-nil, append_assoc, arith, ltb, leb, ◌==◌, if◌then◌else◌, ==_iff,
  ltb→lt, leb→le, Bool-cases, Option-cases, bool_eq, length, take, drop, get_elem?, any, filter,
  find, is_empty, length-append, All, All-append, All-map, In, In-append_left, In-append_right,
  In-append,
}
use frust.Prelude.Text.{
  Text, codes, text_eq, text_eq_sound, text_eq_refl, text_eq_iff, text_ltb, text_ltb_irrefl,
  text_ltb_trans, text_ltb_total, contains, contains-In, In-contains,
}
use frust.Prelude.Chars.{
  is_space, to_upper, eq_ignore_case, split_whitespace, strip_prefix, NoSpace-of_all,
  split_whitespace-word,
}
use frust.OrdMap.{get, insert, remove, get-insert, get-remove}
use frust.Orm.Schema.{
  ObjectKind, table, field, index, event, SchemaObject, key, Objects, DroppedObject,
}
use frust.Orm.Schema.Apply.{dropped_key}
use frust.Orm.Ddl.{parse_tokens, parse_define}
use frust.Orm.Ddl.Run.{RunsDdl, remove_text}

-- The name in front of ` ON TABLE <table>`
abbrev named_in : Text → Text → Text
named_in on rest = take (length rest - length (codes " ON TABLE " ++ on)) rest

abbrev taken : ObjectKind → Text → Objects → Objects
taken kind name m = remove (dropped_key (record { kind = kind; name = name })) m

unfoldable pub removed : Text → Text → Objects → Objects
unfolding strip_prefix
removed on stmt m = elim (strip_prefix (codes "REMOVE FIELD IF EXISTS ") stmt) [
  | some rest ↦ taken field (named_in on rest) m
  | none ↦ elim (strip_prefix (codes "REMOVE INDEX IF EXISTS ") stmt) [
    | some rest ↦ taken index (named_in on rest) m
    | none ↦ elim (strip_prefix (codes "REMOVE EVENT IF EXISTS ") stmt) [
      | some rest ↦ taken event (named_in on rest) m
      | none ↦ m
    ]
  ]
]

abbrev pub ran : Option SchemaObject → Text → Text → Objects → Objects
ran (some o) on stmt m = insert (key o) o m
ran none on stmt m = removed on stmt m

unfoldable pub ddl : Text → Text → Objects → Objects
ddl on stmt m = ran (parse_define stmt) on stmt m

no_define : (stmt : Text) (ts : List Text) → parse_tokens stmt (codes "REMOVE" ∷ ts) ≡ none
unfolding parse_tokens eq_ignore_case to_upper frust.Prelude.Text.text_eq
no_define stmt [] = refl
no_define stmt (t ∷ ts) = refl

no_define_of : (rest : Text) → parse_define (codes "REMOVE " ++ rest) ≡ none
unfolding parse_define is_space
no_define_of rest =
    ap (parse_tokens (codes "REMOVE " ++ rest))
      (split_whitespace-word b'R' (codes "EMOVE") rest (NoSpace-of_all (codes "REMOVE") refl))
    ∙ no_define (codes "REMOVE " ++ rest) (split_whitespace rest)

take-front : (xs ys : Text) → take (length xs) (xs ++ ys) ≡ xs
take-front [] ys = refl
take-front (x ∷ xs) ys = ap (λ l. x ∷ l) (take-front xs ys)

named_in-append : (on name : Text) → named_in on (name ++ (codes " ON TABLE " ++ on)) ≡ name
named_in-append on name =
    ap (λ n. take n (name ++ (codes " ON TABLE " ++ on)))
      (omega (arith, length-append name (codes " ON TABLE " ++ on)))
    ∙ take-front name (codes " ON TABLE " ++ on)

removed-text :
    (on : Text) (kind : ObjectKind) (name : Text) (m : Objects)
    → kind ≢ table
    → let d : DroppedObject = record { kind = kind; name = name } in
      (parse_define (remove_text on d) ≡ none)
      × (removed on (remove_text on d) m ≡ remove (dropped_key d) m)
unfolding removed strip_prefix
removed-text on table name m n = absurd (n refl)
removed-text on field name m n =
    (no_define_of _, ap (λ t. taken field t m) (named_in-append on name))
removed-text on index name m n =
    (no_define_of _, ap (λ t. taken index t m) (named_in-append on name))
removed-text on event name m n =
    (no_define_of _, ap (λ t. taken event t m) (named_in-append on name))

pub ddl-RunsDdl : RunsDdl ddl
unfolding ddl
ddl-RunsDdl = record {
  defines = λ on k o m h. ap (λ p. get k (ran p on o.define_sql m)) h.0 ∙ get-insert (key o) k o m;
  removes = λ on k d m other.
      let (none_defined, gone) = removed-text on d.kind d.name m other in
      ap (λ p. get k (ran p on (remove_text on d) m)) none_defined
      ∙ (ap (get k) gone ∙ get-remove (dropped_key d) k m);
}
