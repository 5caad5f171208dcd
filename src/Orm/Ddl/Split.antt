-- ===== src/Orm/Ddl/Split.antt =====
-- Statements of a block, and the block (frust-kernel/orm/src/schema.rs, `split_statements`).
use frust.Prelude.{
  suc, ◌≢◌, false, is_empty, All, ℕ, ◌≡◌, refl, sym, ap, ◌∙◌, inl, inr, true, Option, none, some,
  List, [], ◌∷◌, ◌++◌, append-nil, append_assoc, arith, if◌then◌else◌, Bool-cases,
}
use frust.Prelude.Text.{Text}
use frust.Orm.Ddl.{Scan, outside, step, ends, split_from, split_statements}

-- The scan over a text that holds no end of a statement; `none` where it holds one.
unfoldable pub scan : Scan → Text → Option Scan
scan s [] = some s
scan s (c ∷ rest) = let more = scan (step s c) rest in if ends s c then none else more

split_from-append :
    (s : Scan) {t : Scan} (cur stmt rest : Text)
    → scan s stmt ≡ some t
    → split_from s cur (stmt ++ rest) ≡ split_from t (cur ++ stmt) rest
unfolding scan split_from
split_from-append s {t} cur [] rest h = rw append-nil (ground arith)
split_from-append s {t} cur (c ∷ stmt) rest h = elim (Bool-cases (ends s c)) [
  | inl e ↦ absurd (ground arith)
  | inr e ↦ rw e (
      split_from-append (step s c) (cur ++ c ∷ []) stmt rest (ground arith)
      ∙ ap (λ u. split_from t u rest) (append_assoc cur (c ∷ []) stmt))
]

-- A statement in which every semicolon stands in braces or in a string, and all of these are closed,
-- is split off whole at the semicolon behind it.
pub split_statements-closed :
    (stmt rest : Text)
    → scan outside stmt ≡ some outside
    → split_statements (stmt ++ b';' ∷ rest) ≡ stmt ∷ split_statements rest
unfolding split_statements
split_statements-closed stmt rest h = split_from-append outside [] stmt (b';' ∷ rest) h ∙ refl

-- What stands between the quotes of a string: no quote and no backslash but behind a backslash.
pub data Quoted : Text → Type 0 where
  ending : Quoted []
  plain : {s : Text} (c : ℕ) → (c ≢ b'\'') → (c ≢ b'\\') → Quoted s → Quoted (c ∷ s)
  escaped : {s : Text} (c : ℕ) → Quoted s → Quoted (b'\\' ∷ c ∷ s)

-- The rest of a statement behind `n` open braces: strings and braces are closed, and a semicolon
-- stands in a string or in braces.
pub data Statement : ℕ → Text → Type 0 where
  ending : Statement 0 []
  plain :
      {n : ℕ} {s : Text} (c : ℕ)
      → (c ≢ b'\'')
      → (c ≢ b';')
      → (c ≢ b'{')
      → (c ≢ b'}')
      → Statement n s
      → Statement n (c ∷ s)
  semicolon : {n : ℕ} {s : Text} → Statement (suc n) s → Statement (suc n) (b';' ∷ s)
  opened : {n : ℕ} {s : Text} → Statement (suc n) s → Statement n (b'{' ∷ s)
  closed : {n : ℕ} {s : Text} → Statement n s → Statement (suc n) (b'}' ∷ s)
  quoted : {n : ℕ} {q s : Text} → Quoted q → Statement n s → Statement n (b'\'' ∷ (q ++ b'\'' ∷ s))

abbrev at_depth : ℕ → Scan
at_depth n = record { depth = n; in_str = false; skip = false }

abbrev in_string : ℕ → Scan
in_string n = record { depth = n; in_str = true; skip = false }

scan-Quoted :
    (n : ℕ) (q s : Text) → Quoted q → scan (in_string n) (q ++ b'\'' ∷ s) ≡ scan (at_depth n) s
unfolding scan step ends
scan-Quoted n q s ending = refl
scan-Quoted n q s (plain {s = r} c no_quote no_escape k) = ground (arith, scan-Quoted n r s k)
scan-Quoted n q s (escaped {s = r} c k) = ground (arith, scan-Quoted n r s k)

scan-Statement : (n : ℕ) (s : Text) → Statement n s → scan (at_depth n) s ≡ some outside
unfolding scan step ends
scan-Statement n s ending = refl
scan-Statement n s (plain {s = r} c a b d e k) = ground (arith, scan-Statement n r k)
scan-Statement n s (semicolon {n = m} {s = r} k) = ground (arith, scan-Statement (suc m) r k)
scan-Statement n s (opened {s = r} k) = ground (arith, scan-Statement (suc n) r k)
scan-Statement n s (closed {n = m} {s = r} k) = ground (arith, scan-Statement m r k)
scan-Statement n s (quoted {q = q} {s = r} k l) =
    ground (arith, scan-Quoted n q r k, scan-Statement n r l)

-- The statements, each with a semicolon behind it but the last
unfoldable pub joined : List Text → Text → Text
joined [] last = last
joined (p ∷ ps) last = p ++ b';' ∷ joined ps last

-- A block of statements, in which every semicolon stands in braces or in a string and all of these are
-- closed, is split into these statements, whether a semicolon stands behind the last of them or
-- nothing does.
pub split_statements-joined :
    (ps : List Text) (last : Text)
    → All (Statement 0) ps
    → Statement 0 last
    → split_statements (joined ps last) ≡ ps ++ (if is_empty last then [] else last ∷ [])
unfolding joined
split_statements-joined [] last all k = last_of last k
  where
    last_of : (s : Text) → Statement 0 s → split_statements s ≡ (if is_empty s then [] else s ∷ [])
    last_of s k =
        unfold split_statements in
        ap (split_from outside []) (sym (append-nil s))
        ∙ (split_from-append outside [] s [] (scan-Statement 0 s k) ∙ unfold split_from in refl)
split_statements-joined (p ∷ ps) last all k =
    split_statements-closed p (joined ps last) (scan-Statement 0 p all.0)
    ∙ ap (λ l. p ∷ l) (split_statements-joined ps last all.1 k)
