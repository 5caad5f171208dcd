-- ===== src/Kernel/Broker/Consent.antt =====
-- What a write that went through has behind it (frust-kernel/kernel/src/broker.rs, `db_write_inner`).
use frust.Prelude.{ℕ, ◌≡◌, refl, sym, ap, true}
use frust.Prelude.Text.{Text}
use frust.Prelude.Result.{Result, ok, err, bind-ok, ok_injective}
use frust.Kernel.Hooks.{HookClass, on_submit, on_cancel, HookChain}
use frust.Kernel.Broker.{Doc, DocTypeMeta, WriteOp, BrokerError, persisted}
use frust.Kernel.Broker.Write.{
  Dispatch, push_class, crosses, fire_edge, shown_doc, hooked, status_before, status_after,
}

module _ (show_float : ℕ → Text) (hooks : Dispatch) (meta : DocTypeMeta) (chain : HookChain) where
  -- The dispatcher let an edge of the docstatus pass.
  abbrev pub Consents : Text → HookClass → ℕ → (baseline shown : Doc) → Type 0
  Consents key class n baseline shown =
      crosses n (status_before baseline) (status_after baseline shown) ≡ true
      → (c : HookChain) × (d : Doc) × (push_class meta key class chain ≡ ok c)
        × (Dispatch.fire_for hooks class shown ≡ ok d)

  fire_edge-Consents :
      (key : Text) (class : HookClass) (n : ℕ) (baseline shown : Doc) {u : Unit}
      → fire_edge show_float hooks meta chain key class n baseline shown ≡ ok u
      → Consents key class n baseline shown
  fire_edge-Consents key class n baseline shown {u} h e =
      let fired = rw e at h in
      let (c, p, k) = bind-ok (push_class meta key class chain) _ fired in
      let (d, f, l) = bind-ok (Dispatch.fire_for hooks class shown) _ k in (c, d, p, f)

  -- The document that the hooks were shown, their consent, their answer and what is stored of it
  abbrev pub HasConsent : WriteOp → Text → (doc baseline entries : Doc) → Type 0
  HasConsent op key doc baseline entries =
      (shown : Doc) × (answer : Doc) × (shown_doc show_float hooks meta chain op key doc baseline
        ≡ ok shown)
      × Consents key on_submit 1 baseline shown
      × Consents key on_cancel 2 baseline shown
      × (Dispatch.validate_for hooks shown ≡ ok answer)
      × (entries ≡ persisted show_float meta op doc shown answer)

  pub hooked-HasConsent :
      (op : WriteOp) (key : Text) (doc baseline : Doc) {entries : Doc}
      → hooked show_float hooks meta chain op key doc baseline ≡ ok entries
      → HasConsent op key doc baseline entries
  unfolding hooked
  hooked-HasConsent op key doc baseline h =
      let (shown, a, h1) =
        bind-ok (shown_doc show_float hooks meta chain op key doc baseline) _ h in
      let (u, b, h2) =
        bind-ok (fire_edge show_float hooks meta chain key on_submit 1 baseline shown) _ h1 in
      let (v, c, h3) =
        bind-ok (fire_edge show_float hooks meta chain key on_cancel 2 baseline shown) _ h2 in
      let (answer, d, h4) = bind-ok (Dispatch.validate_for hooks shown) _ h3 in
      (
        shown,
        answer,
        a,
        fire_edge-Consents key on_submit 1 baseline shown b,
        fire_edge-Consents key on_cancel 2 baseline shown c,
        d,
        sym (ok_injective h4),
      )

-- A step that may end the write early did not.
pub step-ok :
    {S A B : Type 0} (r : Result BrokerError A) (s : S) (next : A → S × Result BrokerError B)
    {s' : S} {b : B}
    → ◌≡◌ {A = S × Result BrokerError B} (elim r [ err e ↦ (s, err e) | ok a ↦ next a ]) (s', ok b)
    → (a : A) × (r ≡ ok a) × (next a ≡ (s', ok b))
step-ok (ok a) s next h = (a, refl, h)
step-ok {B = B} (err e) s next {s' = s'} {b = b} h = absurd (ended (ap (λ x. x.1) h))
  where
    ended : ¬ (◌≡◌ {A = Result BrokerError B} (err e) (ok b))
    ended k = cc
