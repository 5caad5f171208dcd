-- ===== src/Kernel/Router/Tokens.antt =====
-- What a routed token is (frust-kernel/kernel/src/router.rs, `route_token`).
use frust.Prelude.{
  ℕ, ◌≡◌, refl, sym, ap, ◌∙◌, subst, ◌≢◌, ◌↔◌, inl, inr, true, false, not, ◌||◌, Option, none, some,
  List, [], ◌∷◌, ◌++◌, arith, ◌==◌, if◌then◌else◌, ==_iff, Bool-cases, Option-cases, is_empty, All,
}
use frust.Prelude.Text.{Text}
use frust.Prelude.Chars.{is_alphanumeric, all, split_once, split_once-append}
use frust.OrdMap.{get}
use frust.Prelude.Result.{Result, ok}
use frust.Kernel.Router.{
  TenantContext, RouterError, Contexts, build, mint_token, is_secret, found, routed, route_token,
  IsFiled, build-IsFiled,
}

abbrev pub HasNoDot : Text → Type 0
HasNoDot s = All (λ d. d ≢ b'.') s

split_once_sound :
    (c : ℕ) (s a b : Text) → split_once c s ≡ some (a, b) → (s ≡ a ++ c ∷ b) × All (λ d. d ≢ c) a
unfolding split_once
split_once_sound c [] a b h = absurd (empty h)
  where
    empty : ¬ (◌≡◌ {A = Option (Text × Text)} none (some (a, b)))
    empty k = cc
split_once_sound c (d ∷ s) a b h = elim (Bool-cases (d == c)) [
  | inl e ↦ here e (rw e at h)
  | inr e ↦ elim (Option-cases (split_once c s)) [
    | inl n ↦ absurd (empty (rw (e, n) at h))
    | inr (p, q) ↦ later e p (split_once_sound c s p.0 p.1 q) (rw (e, q) at h)
  ]
]
  where
    empty : ¬ (◌≡◌ {A = Option (Text × Text)} none (some (a, b)))
    empty k = cc

    first : {x y : Text × Text} → some x ≡ some y → x ≡ y
    first k = cc

    here :
        d == c ≡ true
        → ◌≡◌ {A = Option (Text × Text)} (some ([], s)) (some (a, b))
        → (d ∷ s ≡ a ++ c ∷ b) × All (λ d. d ≢ c) a
    here e k =
        let x : [] ≡ a = ap (λ (v : Text × Text). v.0) (first k) in
        let y : s ≡ b = ap (λ (v : Text × Text). v.1) (first k) in
        (
          subst (λ u. d ∷ s ≡ u ++ c ∷ b) x
              (ap (λ t. d ∷ t) y ∙ ap (λ t. t ∷ b) ((==_iff d c).0 e)),
          subst (λ u. All (λ d. d ≢ c) u) x tt,
        )

    later :
        d == c ≡ false
        → (p : Text × Text) → (s ≡ p.0 ++ c ∷ p.1) × All (λ d. d ≢ c) p.0
        → ◌≡◌ {A = Option (Text × Text)} (some (d ∷ p.0, p.1)) (some (a, b))
        → (d ∷ s ≡ a ++ c ∷ b) × All (λ d. d ≢ c) a
    later e p (same, clear) k =
        let x : d ∷ p.0 ≡ a = ap (λ (v : Text × Text). v.0) (first k) in
        let y : p.1 ≡ b = ap (λ (v : Text × Text). v.1) (first k) in
        (
          ap (λ t. d ∷ t) same ∙ (ap (λ u. u ++ c ∷ p.1) x ∙ ap (λ t. a ++ c ∷ t) y),
          subst (λ u. All (λ d. d ≢ c) u) x (ground arith, clear),
        )

-- What a token leads to, in the contexts that it is routed by.
abbrev pub LeadsTo : Contexts → Text → TenantContext → Text → Type 0
LeadsTo contexts token ctx secret =
    (token ≡ mint_token ctx.tenant_id secret)
    × ((is_secret secret ≡ true)
        × (HasNoDot ctx.tenant_id × (get ctx.tenant_id contexts ≡ some ctx)))

module _ (contexts : Contexts) (ctx : TenantContext) (secret : Text) where
  found-some :
      (s : Text) (o : Option TenantContext)
      → found s o ≡ some (ctx, secret)
      → (o ≡ some ctx) × (s ≡ secret)
  found-some s none h = cc
  found-some s (some c) h = (
    ap some (ap (λ (v : TenantContext × Text). v.0) (pair h)),
    ap (λ (v : TenantContext × Text). v.1) (pair h),
  )
    where
      pair : {x y : TenantContext × Text} → some x ≡ some y → x ≡ y
      pair k = cc

  guarded :
      (s : Text) (o : Option TenantContext)
      → (if is_empty s || not (all is_alphanumeric s) then none else found s o) ≡ some (ctx, secret)
      → (is_secret s ≡ true) × (found s o ≡ some (ctx, secret))
  guarded s o h = elim (Bool-cases (is_empty s)) [
    | inl e ↦ absurd (refused (rw e at h))
    | inr e ↦ elim (Bool-cases (all is_alphanumeric s)) [
      | inl a ↦ (rw (e, a) refl, rw (e, a) at h)
      | inr a ↦ absurd (refused (rw (e, a) at h))
    ]
  ]
    where
      refused : ¬ (◌≡◌ {A = Option (TenantContext × Text)} none (some (ctx, secret)))
      refused k = cc

  routed-LeadsTo :
      (token : Text) (parts : Option (Text × Text))
      → IsFiled contexts
      → split_once b'.' token ≡ parts
      → routed contexts parts ≡ some (ctx, secret)
      → LeadsTo contexts token ctx secret
  routed-LeadsTo token none filed e h = cc
  routed-LeadsTo token (some p) filed e h =
      let (valid, f) = guarded p.1 (get p.0 contexts) h in
      let (g, same) = found-some p.1 (get p.0 contexts) f in
      let (whole, clear) = split_once_sound b'.' token p.0 p.1 e in
      let own = filed p.0 ctx g in
      (
        whole ∙ (ap (λ t. t ++ b'.' ∷ p.1) (sym own) ∙ ap (mint_token ctx.tenant_id) same),
        (
          subst (λ s. is_secret s ≡ true) same valid,
          (subst HasNoDot (sym own) clear, subst (λ k. get k contexts ≡ some ctx) (sym own) g),
        ),
      )

  route_token-LeadsTo :
      (token : Text)
      → IsFiled contexts
      → route_token contexts token ≡ some (ctx, secret)
      → LeadsTo contexts token ctx secret
  unfolding route_token
  route_token-LeadsTo token filed h = routed-LeadsTo token (split_once b'.' token) filed refl h

  valid-found :
      (o : Option TenantContext)
      → is_secret secret ≡ true
      → o ≡ some ctx
      → (if is_empty secret || not (all is_alphanumeric secret) then none else found secret o)
        ≡ some (ctx, secret)
  valid-found o v e = elim (Bool-cases (is_empty secret)) [
    | inl q ↦ absurd (clash (rw q at v))
    | inr q ↦ elim (Bool-cases (all is_alphanumeric secret)) [
      | inl r ↦ rw (q, r, e) refl
      | inr r ↦ absurd (clash (rw (q, r) at v))
    ]
  ]
    where
      clash : ¬ (false ≡ true)
      clash k = cc

  LeadsTo-route_token :
      (token : Text)
      → LeadsTo contexts token ctx secret
      → route_token contexts token ≡ some (ctx, secret)
  unfolding route_token
  LeadsTo-route_token token (same, (valid, (clear, g))) =
      ap (λ t. routed contexts (split_once b'.' t)) same
      ∙ (ap (routed contexts) (split_once-append b'.' ctx.tenant_id secret clear)
          ∙ valid-found (get ctx.tenant_id contexts) valid g)

-- A router that `build` made leads a token to a context with a secret exactly when the token is the
-- one that `mint_token` makes of the tenant of that context and of the secret, the secret is a text
-- of letters and digits that is not empty, the tenant's name has no dot, and the router has that
-- context under the tenant's name. The targets, and what `make` gives for each, are arbitrary.
pub build-route_token_iff :
    {Target : Type 0} (id_of : Target → Text) (make : Target → Result RouterError TenantContext)
    (resolved : Result RouterError (List Target)) (built : Contexts) (token : Text)
    (ctx : TenantContext) (secret : Text)
    → build id_of resolved make ≡ ok built
    → (route_token built token ≡ some (ctx, secret)) ↔ LeadsTo built token ctx secret
build-route_token_iff id_of make resolved built token ctx secret e = (
  route_token-LeadsTo built ctx secret token (build-IsFiled id_of make resolved built e),
  LeadsTo-route_token built ctx secret token,
)
