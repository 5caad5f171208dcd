-- ===== src/Orm/Tests.antt =====
-- Tests of the migration engine (frust-kernel/orm/src), on a table that gains a field and whose
-- other field is widened.
mod Schema
mod Change
mod Live
mod Run
mod Fleet
use frust.Prelude.Text.{Text, codes}

-- The DDL that was applied, and the one that is declared now.
abbrev pub old_sql : Text
old_sql = codes "DEFINE TABLE OVERWRITE doc;DEFINE FIELD OVERWRITE age ON TABLE doc TYPE int;"

abbrev pub new_sql : Text
new_sql =
    codes
      "DEFINE TABLE OVERWRITE doc;DEFINE FIELD OVERWRITE age ON TABLE doc TYPE float;DEFINE FIELD OVERWRITE tag ON TABLE doc TYPE option<string>;"

abbrev pub age : Text
age = codes "field:age"
