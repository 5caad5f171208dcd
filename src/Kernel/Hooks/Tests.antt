-- ===== src/Kernel/Hooks/Tests.antt =====
-- Tests of the hook chain (frust-kernel/kernel/src/broker.rs): a hook on an invoice that writes a
-- customer.
use frust.Prelude.{◌≤◌, ◌≡◌, refl, [], ◌∷◌, length}
use frust.Prelude.Text.{codes, text_eq}
use frust.Prelude.Result.{ok, err}
use frust.Kernel.Hooks.{
  validate, on_submit, HookChain, hook_cycle, max_hook_depth, push_hook, Carried, root, nested,
  NoRepeat, Carried-NoRepeat,
}

abbrev one : HookChain
one = (codes "invoice:1", on_submit) ∷ []

abbrev two : HookChain
two = (codes "invoice:1", on_submit) ∷ (codes "customer:7", validate) ∷ []

first-pushed : push_hook (codes "invoice:1") on_submit [] ≡ ok one
unfolding push_hook
first-pushed = refl

second-pushed : push_hook (codes "customer:7") validate one ≡ ok two
unfolding push_hook text_eq
second-pushed = refl

-- The way back to the invoice is a cycle.
third-refused : push_hook (codes "invoice:1") on_submit two ≡ err hook_cycle
unfolding push_hook text_eq
third-refused = refl

two-Carried : Carried two
two-Carried =
    nested (codes "customer:7") validate (nested (codes "invoice:1") on_submit root first-pushed)
      second-pushed

Carried-NoRepeat_example : (length two ≤ max_hook_depth) × NoRepeat two
Carried-NoRepeat_example = Carried-NoRepeat two two-Carried
