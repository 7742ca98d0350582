-- ===== src/Admin/Guards/Laws.antt =====
-- core/auth/scope.guard.ts and app.routes.ts: who sees a page, and that redirects settle.
use did_wallet_thesis.Common.{
  ℕ, ◌≡◌, refl, String, true, false, none, some, List, arith, ◌==◌, includes, Bool-cases, inl, inr,
  Option-cases, eq_iff, ◌⊎◌, ap, ◌∙◌,
}
use did_wallet_thesis.Admin.Auth.Model.{AuthSession, Client}
use did_wallet_thesis.Admin.Auth.{is_authenticated, scope, get_home_route, home_of}
use did_wallet_thesis.Admin.Guards.{
  allow, redirect, Route, route_of, auth_guard, is_allowed, member_states_route, government_route,
  universities_route, enterprises_route, scope_guard, home_redirect_guard, child_guard, activate,
  navigate,
}

route_of-unlisted :
    (url other : String) (route : Route)
    → route_of other ≡ none
    → route_of url ≡ some route
    → (url == other) ≡ false
route_of-unlisted url other route missing h = elim (Bool-cases (url == other)) [
  | inr differs ↦ differs
  | inl same ↦ absurd (ground (arith, ap route_of ((eq_iff url other).0 same)))
]

-- The home page of a scope is the login page, or lists the scope.
home_of-cases :
    (name : String)
    → (home_of (some name) ≡ "/login")
      ⊎ ((route : Route) × (route_of (home_of (some name)) ≡ some route)
          × (is_allowed route.allowed_scopes (some name) ≡ true))
unfolding home_of route_of
home_of-cases name = elim (Bool-cases (name == "EURoot")) [
  | inl a ↦ rw a (inr (member_states_route, refl, ground arith))
  | inr a ↦ elim (Bool-cases (name == "MemberState")) [
    | inl b ↦ rw (a, b) (inr (government_route, refl, ground arith))
    | inr b ↦ elim (Bool-cases (name == "Ministry")) [
      | inl c ↦ rw (a, b, c) (inr (universities_route, refl, ground arith))
      | inr c ↦ elim (Bool-cases (name == "Institution")) [
        | inl d ↦ rw (a, b, c, d) (inr (universities_route, refl, ground arith))
        | inr d ↦ elim (Bool-cases (name == "BusinessRegistry")) [
          | inl e ↦ rw (a, b, c, d, e) (inr (enterprises_route, refl, ground arith))
          | inr e ↦ rw (a, b, c, d, e) (inl refl)
        ]
      ]
    ]
  ]
]

module _ {S Json : Type 0} where
  activate-known :
      (url : String) (route : Route) (now : ℕ) (st : Client S Json)
      → route_of url ≡ some route
      → activate url now st ≡ child_guard (some route) now st
  unfolding activate
  activate-known url route now st h =
      let off_login = route_of-unlisted url "/login" route (unfold route_of in refl) h in
      let off_root = route_of-unlisted url "/" route (unfold route_of in refl) h in
      rw (activate, off_login, off_root, h) refl

  -- A page behind a scope guard is shown only to a session that has not expired, with one of the
  -- scopes that the route lists.
  pub activate_sound :
      (url : String) (route : Route) (scopes : List String) (now : ℕ) (st : Client S Json)
      → route_of url ≡ some route
      → route.allowed_scopes ≡ some scopes
      → activate url now st ≡ allow
      → (is_authenticated now st ≡ true)
        × ((name : String) × (scope st ≡ some name) × (includes scopes name ≡ true))
  unfolding child_guard auth_guard scope_guard
  activate_sound url route scopes now st known listed shown =
      let reached = activate-known url route now st known in
      elim (Option-cases st.session) [
        | inl nobody ↦ absurd (ground arith)
        | inr (s, e) ↦ (ground arith, (s.scope, ground arith, ground arith))
      ]

  -- The home page of a session that has not expired is one that it may see.
  home_allowed :
      (now : ℕ) (st : Client S Json)
      → is_authenticated now st ≡ true
      → activate (get_home_route st) now st ≡ allow
  unfolding get_home_route child_guard auth_guard scope_guard is_authenticated
  home_allowed now st h = elim (Option-cases st.session) [
    | inl nobody ↦ absurd (ground arith)
    | inr (s, e) ↦ elim (home_of-cases s.scope) [
      | inl login_page ↦ rw (e, login_page) (unfold activate in refl)
      | inr (route, known, listed) ↦
          let reached = activate-known (home_of (some s.scope)) route now st known in
          ap (λ (url : String). activate url now st) (homeward s e)
          ∙ reached
          ∙ ground (arith, listed)
    ]
  ]
    where
      homeward :
          (s : AuthSession) → st.session ≡ some s → home_of (scope st) ≡ home_of (some s.scope)
      homeward s e = rw e refl

  login_shown : (now : ℕ) (st : Client S Json) → activate "/login" now st ≡ allow
  unfolding activate
  login_shown now st = refl

  activate_lem :
      (url : String) (now : ℕ) (st : Client S Json)
      → (activate url now st ≡ allow)
        ⊎ (activate url now st ≡ redirect "/login")
        ⊎ ((is_authenticated now st ≡ true) × (activate url now st ≡ redirect (get_home_route st)))
  unfolding activate child_guard auth_guard scope_guard home_redirect_guard
  activate_lem url now st = elim (Bool-cases (is_authenticated now st)) [
    | inr over ↦ ground arith
    | inl valid ↦ elim (Option-cases (route_of url)) [
      | inl other ↦ ground arith
      | inr (route, known) ↦ ground arith
    ]
  ]

  -- From every URL, a navigation ends after at most one redirect, on a page that is shown.
  pub navigate_settles :
      (url : String) (now : ℕ) (st : Client S Json)
      → (page : String) × (navigate 2 url now st ≡ some page) × (activate page now st ≡ allow)
  unfolding navigate
  navigate_settles url now st = elim (activate_lem url now st) [
    | inl shown ↦ (url, ground arith, shown)
    | inr (inl refused) ↦ let shown = login_shown now st in ("/login", ground arith, shown)
    | inr (inr (valid, sent_home)) ↦
        let shown = home_allowed now st valid in (get_home_route st, ground arith, shown)
  ]
