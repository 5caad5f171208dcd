-- ===== src/Kernel/Contract.antt =====
-- The contract types: structured values, paths and filters (frust-kernel/kernel/src/contract.rs). An
-- `i64` is its sign and magnitude; an `f64` is its bits, and its text a parameter of what prints it.
use frust.Prelude.{ℕ, Bool, true, false, List}
use frust.Prelude.Text.{Text}

mutual
  pub data Value : Type 0 where
    null : Value
    bool : Bool → Value
    int : Bool → ℕ → Value
    float : ℕ → Value
    decimal text datetime duration record_id : Text → Value
    list : Values → Value
    object : Entries → Value

  pub data Values : Type 0 where
    nil : Values
    cons : Value → Values → Values

  pub data Entries : Type 0 where
    end : Entries
    entry : Text → Value → Entries → Entries

pub data EdgeDirection : Type 0 where
  outward inward : EdgeDirection

pub data PathSegment : Type 0 where
  field link_hop : Text → PathSegment
  edge : EdgeDirection → Text → PathSegment

pub data CmpOp : Type 0 where
  eq ne gt gte lt lte inside contains : CmpOp

-- `CmpOp::is_range`
abbrev pub is_range : CmpOp → Bool
is_range gt = true
is_range gte = true
is_range lt = true
is_range lte = true
is_range _ = false

mutual
  pub data Filter : Type 0 where
    all_of any_of : Filters → Filter
    negated : Filter → Filter
    cmp : List PathSegment → CmpOp → Value → Filter

  pub data Filters : Type 0 where
    done : Filters
    also : Filter → Filters → Filters
