-- ===== src/Kernel/Broker/Echo.antt =====
-- What an update stores of a document that the hooks hand back (frust-kernel/kernel/src/broker.rs,
-- `db_write_inner`).
use frust.Prelude.Search.{In-filter}
use frust.Prelude.{
  ℕ, ◌≡◌, refl, sym, ap, ◌∙◌, subst, inl, inr, Bool, true, false, ◌&&◌, ◌||◌, List, [], ◌∷◌, any,
  filter, All, In,
}
use frust.Prelude.Text.{Text, text_eq, text_eq_refl}
use frust.Prelude.Result.{ok, ok_injective}
use frust.Kernel.Contract.{Value}
use frust.Kernel.Hooks.{HookChain}
use frust.Kernel.Broker.{
  Doc, DocTypeMeta, update, merged, with_id, has_key, is_declared, is_changed, persisted,
  same_value,
}
use frust.Kernel.Broker.Write.{Dispatch, record_name, shown_doc, hooked}
use frust.Kernel.Broker.Consent.{hooked-HasConsent}
use frust.Kernel.Broker.Same.{no_nan, same_value_refl}

any-In : {A : Type 0} (p : A → Bool) (a : A) (xs : List A) → In a xs → p a ≡ true → any p xs ≡ true
any-In p a [] i h = absurd i
any-In p a (x ∷ xs) (inl e) h = rw (sym (ap p e) ∙ h) refl
any-In p a (x ∷ xs) (inr i) h = or_true (p x) (any-In p a xs i h)
  where
    or_true : (b : Bool) {c : Bool} → c ≡ true → (b || c) ≡ true
    or_true true h = refl
    or_true false h = h

In-All : {A : Type 0} (P : A → Type 0) (a : A) (xs : List A) → All P xs → In a xs → P a
In-All P a [] h i = absurd i
In-All P a (x ∷ xs) h (inl e) = subst P (sym e) h.0
In-All P a (x ∷ xs) h (inr i) = In-All P a xs h.1 i

-- An entry of the document itself is not changed against it.
In-unchanged :
    (show_float : ℕ → Text) (e : Text × Value) (shown : Doc)
    → In e shown
    → no_nan e.1 ≡ true
    → any (λ b. text_eq b.0 e.0 && same_value show_float b.1 e.1) shown ≡ true
In-unchanged show_float e shown i h =
    any-In (λ b. text_eq b.0 e.0 && same_value show_float b.1 e.1) e shown i
      (rw (text_eq_refl e.0) (same_value_refl show_float e.1 h))

echo-changed :
    (show_float : ℕ → Text) (doc shown : Doc) (e : Text × Value)
    → In e shown
    → no_nan e.1 ≡ true
    → is_changed show_float doc shown e ≡ has_key e.0 doc
unfolding is_changed
echo-changed show_float doc shown e i h =
    rw (In-unchanged show_float e shown i h) (or_false (has_key e.0 doc))
  where
    or_false : (b : Bool) → (b || false) ≡ b
    or_false true = refl
    or_false false = refl

-- A list on whose elements two tests agree is filtered the same.
filter_cong :
    (p q : Text × Value → Bool) (xs : Doc)
    → ((e : Text × Value) → In e xs → p e ≡ q e)
    → filter p xs ≡ filter q xs
filter_cong p q [] h = refl
filter_cong p q (x ∷ xs) h = rw (h x (inl refl), filter_cong p q xs (λ e i. h e (inr i))) refl

persisted-echo :
    (show_float : ℕ → Text) (meta : DocTypeMeta) (doc shown : Doc)
    → All (λ e. no_nan e.1 ≡ true) shown
    → persisted show_float meta update doc shown shown
      ≡ filter (λ e. has_key e.0 doc) (filter (λ e. is_declared meta e.0) shown)
unfolding persisted
persisted-echo show_float meta doc shown h =
    filter_cong (is_changed show_float doc shown) (λ e. has_key e.0 doc)
      (filter (λ e. is_declared meta e.0) shown)
      (λ e i.
        let kept = (In-filter (λ e. is_declared meta e.0) e shown i).0 in
        echo-changed show_float doc shown e kept (In-All (λ e. no_nan e.1 ≡ true) e shown h kept))

-- When the hooks hand every document back as it was shown to them, an update stores, of the payload
-- laid over the record, exactly the declared fields that the caller named: no other field is written
-- back. It is supposed that no value in the document is not-a-number.
pub hooked-echo :
    (show_float : ℕ → Text) (hooks : Dispatch) (meta : DocTypeMeta) (chain : HookChain) (key : Text)
    (doc baseline : Doc) {entries : Doc}
    → ((d : Doc) → Dispatch.validate_for hooks d ≡ ok d)
    → All (λ e. no_nan e.1 ≡ true) (with_id (record_name meta key) (merged baseline doc))
    → hooked show_float hooks meta chain update key doc baseline ≡ ok entries
    → entries
      ≡ filter
          (λ e. has_key e.0 doc)
          (filter
            (λ e. is_declared meta e.0)
            (with_id (record_name meta key) (merged baseline doc)))
unfolding shown_doc
hooked-echo show_float hooks meta chain key doc baseline {entries} echo h k =
    let shown = with_id (record_name meta key) (merged baseline doc) in
    let (seen, answer, a, p, q, d, e) =
      hooked-HasConsent show_float hooks meta chain update key doc baseline k in
    let same : answer ≡ shown = ok_injective (sym d ∙ (echo seen ∙ sym a)) in
    let was : seen ≡ shown = sym (ok_injective a) in
    e
    ∙ (ap (λ x. persisted show_float meta update doc x answer) was
        ∙ (ap (λ x. persisted show_float meta update doc shown x) same
            ∙ persisted-echo show_float meta doc shown h))
