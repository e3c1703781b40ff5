-- ===== src/Client/Headers.antt =====
-- The tenant that the middleware puts into the scope.
use nlsqlc.Base.{
  String, true, false, ◌≡◌, ◌≢◌, refl, sym, ◌∙◌, Option, none, some, List, [], ◌∷◌, ◌++◌,
  if◌then◌else◌, ◌==◌, eq_iff, Bool-cases, inl, inr, All,
}
use nlsqlc.Base.Dict
use nlsqlc.Base.Dict.Laws.{lookup-insert}
use nlsqlc.Client.{Scope, is_header, first_header, tenant_or_default, with_tenant, state_or_new}

tenant_or_default_lem : (o : Option String) → tenant_or_default o ≢ ""
unfolding tenant_or_default
tenant_or_default_lem none = λ e. cc
tenant_or_default_lem (some t) = elim (Bool-cases (t == "")) [
  | inl e ↦ rw e (λ e. cc)
  | inr e ↦ rw e (λ h. let bad : true ≡ false = sym ((eq_iff t "").1 h) ∙ e in cc)
]

-- The headers before the first one of this name do not matter, and neither do those behind it.
first_header-append :
    (name key val : String) (before after : List (String × String))
    → All (λ (h : String × String). is_header name h.0 ≡ false) before
    → is_header name key ≡ true
    → first_header name (before ++ (key, val) ∷ after) ≡ some val
unfolding first_header
first_header-append name key val [] after h e = rw e refl
first_header-append name key val ((k, v) ∷ before) after h e =
    rw (h.0) (first_header-append name key val before after h.1 e)

-- Behind the middleware an HTTP scope has a tenant that is not empty, and it is that of the first
-- header of the name asked for, whatever headers follow; if that header's value is empty, it is
-- `default-tenant`. The scope's headers stay as they are.
pub with_tenant-first :
    (name key val : String) (before after : List (String × String)) (s : Scope)
    → s.type ≡ "http"
    → s.headers ≡ before ++ (key, val) ∷ after
    → All (λ (h : String × String). is_header name h.0 ≡ false) before
    → is_header name key ≡ true
    → (Dict.lookup (◌==◌) "tenant_id" (state_or_new (with_tenant name s).state)
        ≡ some (if val == "" then "default-tenant" else val))
      × ((with_tenant name s).headers ≡ s.headers)
unfolding with_tenant tenant_or_default
with_tenant-first name key val before after s h e k x = (
  rw
      (
        h,
        lookup-insert "tenant_id" "tenant_id" (tenant_or_default (first_header name s.headers))
            (state_or_new s.state),
      )
      (rw (e, first_header-append name key val before after k x) refl),
  rw h refl,
)

-- Behind the middleware every HTTP scope has a tenant, and it is not empty.
pub with_tenant-tenant :
    (name : String) (s : Scope)
    → s.type ≡ "http"
    → (t : String) × (Dict.lookup (◌==◌) "tenant_id" (state_or_new (with_tenant name s).state)
        ≡ some t)
      × (t ≢ "")
unfolding with_tenant
with_tenant-tenant name s h = (
  tenant_or_default (first_header name s.headers),
  rw
      (
        h,
        lookup-insert "tenant_id" "tenant_id" (tenant_or_default (first_header name s.headers))
            (state_or_new s.state),
      )
      refl,
  tenant_or_default_lem (first_header name s.headers),
)
