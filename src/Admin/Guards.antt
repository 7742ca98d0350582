-- ===== src/Admin/Guards.antt =====
-- core/auth/auth.guard.ts, scope.guard.ts and app.routes.ts: which page a navigation ends on.
pub mod Laws
use did_wallet_thesis.Common.{
  ℕ, zero, suc, String, Bool, true, false, Option, none, some, List, [], ◌∷◌, ◌==◌, if◌then◌else◌,
  includes, not,
}
use did_wallet_thesis.Admin.Auth.Model.{Client}
use did_wallet_thesis.Admin.Auth.{is_authenticated, scope, get_home_route}

-- `true`, or the URL that the guard redirects to.
pub data GuardResult : Type 0 where
  allow : GuardResult
  redirect : String → GuardResult

-- A route of `routes`: its path and its `allowedScopes`.
pub record Route : Type 0 where
  pub path : String
  pub allowed_scopes : Option (List String)

abbrev pub member_states_route : Route
member_states_route = record { path = "/member-states"; allowed_scopes = some ("EURoot" ∷ []) }

abbrev pub government_route : Route
government_route = record { path = "/government"; allowed_scopes = some ("MemberState" ∷ []) }

abbrev pub universities_route : Route
universities_route = record {
  path = "/universities";
  allowed_scopes = some ("Ministry" ∷ "Institution" ∷ []);
}

abbrev pub enterprises_route : Route
enterprises_route = record {
  path = "/enterprises";
  allowed_scopes = some ("MemberState" ∷ "BusinessRegistry" ∷ "EURoot" ∷ []);
}

-- The route with a scope guard that a URL names.
unfoldable pub route_of : String → Option Route
route_of url =
    if url == "/member-states"
    then some member_states_route
    else if url == "/government"
    then some government_route
    else if url == "/universities"
    then some universities_route
    else if url == "/enterprises"
    then some enterprises_route
    else none

-- A guard of a parent route before those of the child.
abbrev pub before : GuardResult → GuardResult → GuardResult
before (redirect url) inner = redirect url
before allow inner = inner

-- `!allowedScopes || (currentScope !== null && allowedScopes.includes(currentScope))`.
abbrev pub is_allowed : Option (List String) → Option String → Bool
is_allowed none current = true
is_allowed (some scopes) none = false
is_allowed (some scopes) (some current) = includes scopes current

module _ {S Json : Type 0} where
  unfoldable pub auth_guard : ℕ → Client S Json → GuardResult
  auth_guard now st = if is_authenticated now st then allow else redirect "/login"

  unfoldable pub scope_guard : Route → ℕ → Client S Json → GuardResult
  scope_guard route now st =
      if not (is_authenticated now st)
      then redirect "/login"
      else if is_allowed route.allowed_scopes (scope st)
      then allow
      else redirect (get_home_route st)

  unfoldable pub home_redirect_guard : ℕ → Client S Json → GuardResult
  home_redirect_guard now st =
      if not (is_authenticated now st) then redirect "/login" else redirect (get_home_route st)

  -- The pages behind the shell; every other path is redirected.
  unfoldable pub child_guard : Option Route → ℕ → Client S Json → GuardResult
  unfolding auth_guard scope_guard
  child_guard none now st = redirect "/login"
  child_guard (some route) now st = before (auth_guard now st) (scope_guard route now st)

  -- What `routes` makes of a URL.
  unfoldable pub activate : String → ℕ → Client S Json → GuardResult
  unfolding route_of child_guard auth_guard home_redirect_guard
  activate url now st =
      if url == "/login"
      then allow
      else if url == "/"
      then before (auth_guard now st) (home_redirect_guard now st)
      else child_guard (route_of url) now st

  -- The page behind fewer than `fuel` redirects.
  unfoldable pub navigate : ℕ → String → ℕ → Client S Json → Option String
  unfolding activate
  navigate zero url now st = none
  navigate (suc fuel) url now st = elim (activate url now st) [
    | allow ↦ some url
    | redirect u ↦ navigate fuel u now st
  ]
