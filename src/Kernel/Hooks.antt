-- ===== src/Kernel/Hooks.antt =====
-- The classes of hooks and the chain that every write from inside a hook carries
-- (frust-kernel/kernel/src/contract.rs and broker.rs). A refusal is told by its kind.
mod Tests
use frust.Prelude.{
  ℕ, zero, suc, ◌+◌, ◌-◌, ◌*◌, ◌/◌, ◌%◌, ◌^◌, ◌≤◌, ◌<◌, min, max, compare, Ordering, ◌≡◌, refl, sym,
  ap, ◌∙◌, subst, ◌≢◌, ◌↔◌, ◌⊎◌, inl, inr, Bool, true, false, not, ◌&&◌, ◌||◌, Option, none, some,
  List, [], ◌∷◌, ◌++◌, map, append-nil, append_assoc, arith, ltb, leb, ◌==◌, if◌then◌else◌, ==_iff,
  ltb→lt, leb→le, Bool-cases, Option-cases, bool_eq, length, take, drop, get_elem?, any, filter,
  find, is_empty, length-append, All, All-append, All-map, In, In-append_left, In-append_right,
  In-append,
}
use frust.Prelude.Text.{
  Text, codes, text_eq, text_eq_sound, text_eq_refl, text_eq_iff, text_ltb, text_ltb_irrefl,
  text_ltb_trans, text_ltb_total, contains, contains-In, In-contains,
}
use frust.Prelude.Result.{Result, ok, err}

pub data HookClass : Type 0 where
  before_insert validate on_submit on_cancel on_write scheduled : HookClass

-- `HookClass::wire`
unfoldable pub wire : HookClass → Text
wire before_insert = codes "before_insert"
wire validate = codes "validate"
wire on_submit = codes "on_submit"
wire on_cancel = codes "on_cancel"
wire on_write = codes "on_write"
wire scheduled = codes "scheduled"

-- `*c == class`
abbrev pub class_eq : HookClass → HookClass → Bool
class_eq before_insert before_insert = true
class_eq validate validate = true
class_eq on_submit on_submit = true
class_eq on_cancel on_cancel = true
class_eq on_write on_write = true
class_eq scheduled scheduled = true
class_eq _ _ = false

abbrev pub subscribable : List HookClass
subscribable = before_insert ∷ validate ∷ on_submit ∷ on_cancel ∷ []

-- `HookClass::from_wire`
unfoldable pub from_wire : Text → Option HookClass
unfolding wire text_eq
from_wire s = find (λ c. text_eq (wire c) s) subscribable

-- `HookClass::may_mutate`
unfoldable pub may_mutate : HookClass → Bool
may_mutate before_insert = true
may_mutate validate = true
may_mutate _ = false

abbrev pub HookChain : Type 0
HookChain = List (Text × HookClass)

abbrev pub max_hook_depth : ℕ
max_hook_depth = 8

pub data HookRefusal : Type 0 where
  hook_cycle hook_depth_exceeded : HookRefusal

-- The test of the cycle trap.
unfoldable pub has_entry : Text → HookClass → HookChain → Bool
has_entry record_id class chain =
    any (λ (e : Text × HookClass). text_eq e.0 record_id && class_eq e.1 class) chain

-- `HookChain::push`
unfoldable pub push_hook : Text → HookClass → HookChain → Result HookRefusal HookChain
unfolding has_entry
push_hook record_id class chain =
    if has_entry record_id class chain
    then err hook_cycle
    else if leb max_hook_depth (length chain)
    then err hook_depth_exceeded
    else ok (chain ++ (record_id, class) ∷ [])

-- The chains that nested hooks carry: the empty one, and what `push` makes of one.
pub data Carried : HookChain → Type 0 where
  root : Carried []
  nested :
      {chain chain' : HookChain} (record_id : Text) (class : HookClass)
      → Carried chain
      → push_hook record_id class chain ≡ ok chain'
      → Carried chain'

-- No entry of the chain stands before an equal one.
abbrev pub NoRepeat : HookChain → Type 0
NoRepeat [] = Unit
NoRepeat (e ∷ chain) = All (λ d. d ≢ e) chain × NoRepeat chain

class_eq_refl : (c : HookClass) → class_eq c c ≡ true
class_eq_refl c = ground arith

has_entry-differs :
    (r : Text) (c : HookClass) (chain : HookChain)
    → has_entry r c chain ≡ false
    → All (λ d. (r, c) ≢ d) chain
unfolding has_entry
has_entry-differs r c [] h = tt
has_entry-differs r c (e ∷ chain) h = (differs, has_entry-differs r c chain (ground arith))
  where
    clash : ¬ (true ≡ false)
    clash k = cc

    differs : (r, c) ≢ e
    differs same = clash (
        sym (
          subst (λ (d : Text × HookClass). text_eq d.0 r && class_eq d.1 c ≡ true) same
            (rw (text_eq_refl r) (class_eq_refl c)))
        ∙ ground arith)

NoRepeat-append :
    (e : Text × HookClass) (chain : HookChain)
    → NoRepeat chain
    → All (λ d. e ≢ d) chain
    → NoRepeat (chain ++ e ∷ [])
NoRepeat-append e [] n h = (tt, tt)
NoRepeat-append e (d ∷ chain) n h =
    (All-append (λ c. c ≢ d) chain (e ∷ []) n.0 (h.0, tt), NoRepeat-append e chain n.1 h.1)

push_hook-ok :
    (r : Text) (c : HookClass) (chain chain' : HookChain)
    → push_hook r c chain ≡ ok chain'
    → (has_entry r c chain ≡ false)
      × (length chain < max_hook_depth)
      × (chain' ≡ chain ++ (r, c) ∷ [])
unfolding push_hook
push_hook-ok r c chain chain' h = ground arith

-- A chain that nested hooks carry is at most eight deep, and it names no record and class twice.
pub Carried-NoRepeat :
    (chain : HookChain) → Carried chain → (length chain ≤ max_hook_depth) × NoRepeat chain
Carried-NoRepeat chain root = (omega arith, tt)
Carried-NoRepeat chain (nested {chain = old} r c k h) =
    let p = push_hook-ok r c old chain h in
    let q = Carried-NoRepeat old k in
    (
      rw (p.2, length-append old ((r, c) ∷ [])) (omega (arith, p.1)),
      subst NoRepeat (sym p.2) (NoRepeat-append (r, c) old q.1 (has_entry-differs r c old p.0)),
    )

-- A class is read back from its wire name exactly if it may be subscribed to.
pub from_wire-wire :
    (c : HookClass)
    → from_wire (wire c) ≡ (if any (λ d. class_eq d c) subscribable then some c else none)
unfolding from_wire
from_wire-wire before_insert = refl
from_wire-wire validate = refl
from_wire-wire on_submit = refl
from_wire-wire on_cancel = refl
from_wire-wire on_write = refl
from_wire-wire scheduled = refl
