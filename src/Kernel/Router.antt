-- ===== src/Kernel/Router.antt =====
-- The tenant router and the tokens that it routes (frust-kernel/kernel/src/router.rs). Its broker and
-- its metadata service are parameters, of which the router reads the tenant alone. The targets are
-- what the tenancy resolved.
pub mod Tokens
mod Tests
use frust.Prelude.{
  ℕ, zero, suc, ◌+◌, ◌-◌, ◌*◌, ◌/◌, ◌%◌, ◌^◌, ◌≤◌, ◌<◌, min, max, compare, Ordering, ◌≡◌, refl, sym,
  ap, ◌∙◌, subst, ◌≢◌, ◌↔◌, ◌⊎◌, inl, inr, Bool, true, false, not, ◌&&◌, ◌||◌, Option, none, some,
  List, [], ◌∷◌, ◌++◌, map, append-nil, append_assoc, arith, ltb, leb, ◌==◌, if◌then◌else◌, ==_iff,
  ltb→lt, leb→le, Bool-cases, Option-cases, bool_eq, length, take, drop, get_elem?, any, filter,
  find, is_empty, length-append, All, All-append, All-map, In, In-append_left, In-append_right,
  In-append,
}
use frust.Prelude.Text.{
  Text, codes, text_eq, text_eq_sound, text_eq_refl, text_eq_iff, text_ltb, text_ltb_irrefl,
  text_ltb_trans, text_ltb_total, contains, contains-In, In-contains,
}
use frust.Prelude.Chars.{
  is_space, is_digit, is_lower, is_upper, is_alphanumeric, to_upper, to_lower, all, eq_ignore_case,
  trim_start, trim_end, trim, words_from, split_whitespace, strip_prefix, strip_suffix, split_once,
  join, NoSpace, NoSpace-of_all, split_whitespace-word, split_whitespace-single,
  eq_ignore_case_refl, strip_prefix-append, strip_suffix-append, split_once-append,
}
use frust.Prelude.Result.{Result, ok, err, ◌>>=◌, bind-ok, ok_injective, guard-ok, test-ok}
use frust.Prelude.Chars.{split_on}
use frust.OrdMap.{OrdMap, get, insert, get-insert}

-- A context, with the tenant of its broker.
pub record TenantContext : Type 0 where
  pub tenant_id : Text
  pub has_sync : Bool

-- An error of the tenancy or of the caller's `make`, or a context of another tenant.
pub data RouterError : Type 0 where
  failed : Text → RouterError
  scoped_to : Text → Text → RouterError

-- `self.contexts`
abbrev pub Contexts : Type 0
Contexts = OrdMap TenantContext

module _ {Target : Type 0} (id_of : Target → Text) where
  abbrev pub filed :
      Text
      → TenantContext
      → Contexts
      → (Contexts → Result RouterError Contexts)
      → Result RouterError Contexts
  filed id ctx contexts next =
      if text_eq ctx.tenant_id id
      then next (insert id ctx contexts)
      else err (scoped_to id ctx.tenant_id)

  unfoldable pub build_from :
      (Target → Result RouterError TenantContext)
      → List Target
      → Contexts
      → Result RouterError Contexts
  build_from make [] contexts = ok contexts
  build_from make (target ∷ targets) contexts =
      make target >>= λ ctx. filed (id_of target) ctx contexts (build_from make targets)

  -- `TenantRouter::build`
  unfoldable pub build :
      Result RouterError (List Target)
      → (Target → Result RouterError TenantContext)
      → Result RouterError Contexts
  unfolding build_from
  build resolved make = resolved >>= λ targets. build_from make targets []

-- `TenantRouter::single`
unfoldable pub single : TenantContext → Contexts
single ctx = insert ctx.tenant_id ctx []

-- `TenantRouter::sole`
unfoldable pub sole : Contexts → Option TenantContext
sole [] = none
sole ((k, ctx) ∷ []) = some ctx
sole (a ∷ b ∷ rest) = none

-- `TenantRouter::mint_token`
abbrev pub mint_token : Text → Text → Text
mint_token tenant secret = tenant ++ b'.' ∷ secret

-- The secret of a token may be routed.
abbrev pub is_secret : Text → Bool
is_secret secret = not (is_empty secret) && all is_alphanumeric secret

abbrev pub found : Text → Option TenantContext → Option (TenantContext × Text)
found secret none = none
found secret (some ctx) = some (ctx, secret)

abbrev pub routed : Contexts → Option (Text × Text) → Option (TenantContext × Text)
routed contexts none = none
routed contexts (some (before, secret)) =
    if is_empty secret || not (all is_alphanumeric secret)
    then none
    else found secret (get before contexts)

-- `TenantRouter::route_token`
unfoldable pub route_token : Contexts → Text → Option (TenantContext × Text)
route_token contexts token = routed contexts (split_once b'.' token)

abbrev pub first_label : List Text → Option Text
first_label [] = none
first_label (a ∷ []) = none
first_label (a ∷ b ∷ []) = none
first_label (a ∷ b ∷ c ∷ rest) = if is_empty a then none else some a

abbrev pub host_part : List Text → Text
host_part [] = []
host_part (a ∷ rest) = trim a

-- `subdomain_of`, with the standard library's test of an address
unfoldable pub subdomain_of : (Text → Bool) → Text → Option Text
unfolding split_on trim
subdomain_of is_ip host =
    let name = host_part (split_on b':' host) in
    if is_empty name || is_ip name then none else first_label (split_on b'.' name)

-- Each context serves the tenant that it is filed under.
abbrev pub IsFiled : Contexts → Type 0
IsFiled contexts = (k : Text) (ctx : TenantContext) → get k contexts ≡ some ctx → ctx.tenant_id ≡ k

some_eq : {a b : TenantContext} → some a ≡ some b → a ≡ b
some_eq h = cc

insert-IsFiled :
    (id : Text) (ctx : TenantContext) (contexts : Contexts)
    → ctx.tenant_id ≡ id
    → IsFiled contexts
    → IsFiled (insert id ctx contexts)
insert-IsFiled id ctx contexts e h k c g = elim (Bool-cases (text_eq id k)) [
  | inl p ↦ ap (λ (v : TenantContext). v.tenant_id) (sym (same p)) ∙ (e ∙ text_eq_sound id k p)
  | inr p ↦ h k c (sym (rest p) ∙ (sym (get-insert id k ctx contexts) ∙ g))
]
  where
    same : text_eq id k ≡ true → ctx ≡ c
    same p = some_eq (rw p at (sym (get-insert id k ctx contexts) ∙ g))

    rest :
        text_eq id k ≡ false → (if text_eq id k then some ctx else get k contexts) ≡ get k contexts
    rest p = rw p refl

module _ {Target : Type 0} (id_of : Target → Text)
    (make : Target → Result RouterError TenantContext) where
  build_from-IsFiled :
      (targets : List Target) (contexts built : Contexts)
      → IsFiled contexts
      → build_from id_of make targets contexts ≡ ok built
      → IsFiled built
  unfolding build_from
  build_from-IsFiled [] contexts built h e = subst IsFiled (ok_injective e) h
  build_from-IsFiled (target ∷ targets) contexts built h e =
      let (ctx, m, n) =
        bind-ok (make target)
          (λ ctx. filed id_of (id_of target) ctx contexts (build_from id_of make targets)) e in
      let (same, r) =
        test-ok (text_eq ctx.tenant_id (id_of target)) (scoped_to (id_of target) ctx.tenant_id)
          (build_from id_of make targets (insert (id_of target) ctx contexts)) n in
      build_from-IsFiled targets (insert (id_of target) ctx contexts) built
        (insert-IsFiled (id_of target) ctx contexts
          (text_eq_sound ctx.tenant_id (id_of target) same) h)
        r

  pub build-IsFiled :
      (resolved : Result RouterError (List Target)) (built : Contexts)
      → build id_of resolved make ≡ ok built
      → IsFiled built
  unfolding build get
  build-IsFiled resolved built e =
      let (targets, m, n) = bind-ok resolved (λ targets. build_from id_of make targets []) e in
      build_from-IsFiled targets [] built (λ k c g. absurd (nothing k c g)) n
    where
      nothing : (k : Text) (c : TenantContext) → ¬ (get k [] ≡ some c)
      nothing k c g = cc
