-- ===== src/Orm/Drift/Tests.antt =====
-- A field that was dropped by hand.
use frust.Prelude.{ℕ, ◌≡◌, refl, ◌↔◌, true, List, [], ◌∷◌, is_empty}
use frust.Prelude.Text.{Text, codes, text_eq, contains}
use frust.Orm.Schema.{SchemaSnapshot, SchemaObject, field}
use frust.Orm.Drift.{ResourceDrift, detect_scope_drift, difference}
use frust.Orm.Drift.Report.{IsAsRecorded, detect_scope_drift-clean_iff}

abbrev a_field : Text → SchemaObject
a_field n = record { kind = field; name = n; define_sql = codes "DEFINE FIELD" }

abbrev noted : SchemaSnapshot
noted = record {
  table_name = codes "inv";
  objects = (codes "field:a", a_field (codes "a")) ∷ (codes "field:b", a_field (codes "b")) ∷ [];
}

abbrev dropped : SchemaSnapshot
dropped = record { table_name = codes "inv"; objects = (codes "field:a", a_field (codes "a")) ∷ [] }

abbrev history : List (Text × (ℕ × SchemaSnapshot))
history = (codes "Invoice", (3, noted)) ∷ []

field_missing :
    detect_scope_drift (λ t. dropped) history
    ≡ record {
      name = codes "Invoice";
      table = codes "inv";
      unexpected = [];
      missing = codes "field:b" ∷ [];
    }
      ∷ []
unfolding detect_scope_drift frust.Orm.Drift.resource_drift difference contains text_eq
field_missing = refl

detect_scope_drift-clean_iff_example :
    (is_empty (detect_scope_drift (λ t. dropped) history) ≡ true)
    ↔ IsAsRecorded (λ t. dropped) history
detect_scope_drift-clean_iff_example = detect_scope_drift-clean_iff (λ t. dropped) history
