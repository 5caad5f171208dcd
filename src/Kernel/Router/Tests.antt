-- ===== src/Kernel/Router/Tests.antt =====
-- Two tenants, the tokens of one of them, and hosts.
use frust.Prelude.{◌≡◌, refl, ◌↔◌, false, none, some, [], ◌∷◌}
use frust.Prelude.Text.{Text, codes, text_eq, text_ltb}
use frust.Prelude.Chars.{is_space, trim_start, trim_end, trim, split_once}
use frust.Prelude.Chars.{split_on}
use frust.OrdMap.{get, insert}
use frust.Prelude.Result.{Result, ok}
use frust.Kernel.Router.{
  TenantContext, RouterError, Contexts, build, build_from, route_token, subdomain_of,
}
use frust.Kernel.Router.Tokens.{LeadsTo, build-route_token_iff}

abbrev make : Text → Result RouterError TenantContext
make t = ok (record { tenant_id = t; has_sync = false })

abbrev acme : TenantContext
acme = record { tenant_id = codes "acme"; has_sync = false }

abbrev two : Contexts
two =
    (codes "acme", acme)
    ∷ (codes "beta", record { tenant_id = codes "beta"; has_sync = false })
    ∷ []

two_built : build (λ t. t) (ok (codes "beta" ∷ codes "acme" ∷ [])) make ≡ ok two
unfolding build build_from insert text_eq text_ltb
two_built = refl

routed_acme : route_token two (codes "acme.s3cret") ≡ some (acme, codes "s3cret")
unfolding route_token split_once get text_eq
routed_acme = refl

dashed : route_token two (codes "acme.has-a-dash") ≡ none
unfolding route_token split_once get text_eq
dashed = refl

with_port : subdomain_of (λ s. false) (codes "acme.frust.app:8790") ≡ some (codes "acme")
unfolding subdomain_of split_on trim trim_start trim_end is_space
with_port = refl

no_label : subdomain_of (λ s. false) (codes "localhost:3000") ≡ none
unfolding subdomain_of split_on trim trim_start trim_end is_space
no_label = refl

build-route_token_iff_example :
    (route_token two (codes "acme.s3cret") ≡ some (acme, codes "s3cret"))
    ↔ LeadsTo two (codes "acme.s3cret") acme (codes "s3cret")
build-route_token_iff_example =
    build-route_token_iff (λ t. t) make (ok (codes "beta" ∷ codes "acme" ∷ [])) two
      (codes "acme.s3cret") acme (codes "s3cret") two_built
