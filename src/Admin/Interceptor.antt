-- ===== src/Admin/Interceptor.antt =====
-- core/auth/auth.interceptor.ts: what is added to a request, and what a refused one does. `next`, the
-- rest of the HTTP client, is a parameter.
use did_wallet_thesis.Common.{
  ℕ, ◌≡◌, String, Bool, false, Option, some, Result, ok, throw, if◌then◌else◌, truthy, get_or, eqb,
  not, ◌&&◌, arith, refl, none, true, ◌⊎◌, inl, inr, Bool-cases, Result-cases,
}
use Prim.Native.String
use did_wallet_thesis.Common.Text.{starts_with, includes_text}
use did_wallet_thesis.Admin.Auth.Model.{SessionJson, Client}
use did_wallet_thesis.Admin.Signer.{InjectedWallet}
use did_wallet_thesis.Admin.Auth.{get_token, logout, clear_session, reload, is_authenticated}
use did_wallet_thesis.Admin.Auth.Login.{is_authenticated-logout}

pub record HttpRequest : Type 0 where
  pub url : String
  pub authorization : Option String

-- `err.status`, and what else the error holds.
pub record HttpError (E : Type 0) : Type 0 where
  pub status : ℕ
  pub detail : E

unfoldable pub add_token : Option String → HttpRequest → HttpRequest
add_token token req =
    if truthy token && starts_with "/api" req.url
    then record req { authorization = some (String.◌++◌ "Bearer " (get_or token "")) }
    else req

unfoldable pub auth_interceptor :
    {S E A : Type 0} (json : SessionJson)
    → Bool
    → (HttpRequest → Result (HttpError E) A)
    → HttpRequest
    → Client S json.Json
    → Result (HttpError E) A × Client S json.Json
unfolding add_token logout
auth_interceptor json is_browser next req st =
    let req1 = add_token (get_token st) req in
    elim (next req1) [
      | ok answer ↦ (ok answer, st)
      | throw err ↦ (
        throw err,
        if eqb err.status 401 && not (includes_text "/api/auth/" req1.url)
            then logout json is_browser st
            else st,
      )
    ]

-- The status 401 of a request that is not about logging in.
abbrev pub is_refusal : {E A : Type 0} → HttpRequest → Result (HttpError E) A → Bool
is_refusal req (ok answer) = false
is_refusal req (throw err) = eqb err.status 401 && not (includes_text "/api/auth/" req.url)

add_token-url : (token : Option String) (req : HttpRequest) → (add_token token req).url ≡ req.url
unfolding add_token
add_token-url token req = elim (Bool-cases (truthy token && starts_with "/api" req.url)) [
  | inl held ↦ rw (add_token, held) refl
  | inr without ↦ rw (add_token, without) refl
]

module _ {S E A : Type 0} (json : SessionJson) (next : HttpRequest → Result (HttpError E) A) where
  -- A request outside `/api` is passed on as it is, without the token, and the interceptor changes
  -- neither the answer nor the error of the request.
  pub auth_interceptor_transparent :
      (is_browser : Bool) (req : HttpRequest) (st : Client S json.Json)
      → starts_with "/api" req.url ≡ false
      → (auth_interceptor json is_browser next req st).0 ≡ next req
  unfolding auth_interceptor add_token
  auth_interceptor_transparent is_browser req st outside = ground arith

  -- The interceptor passes the answer or the error of the request back as it is. Unless that is the
  -- status 401 of a request that is not about logging in, it leaves the client as it was; if it is, the
  -- client is logged out, and in the browser loading the page anew does not bring the session back.
  pub auth_interceptor_lem :
      (wallet : Option (InjectedWallet S)) (now later : ℕ) (req : HttpRequest)
      (st : Client S json.Json)
      → let (answer, st') = auth_interceptor json true next req st in
        (answer ≡ next (add_token (get_token st) req))
        × (((is_refusal req answer ≡ false) × (st' ≡ st))
            ⊎ ((is_refusal req answer ≡ true)
                × (st'.session ≡ none)
                × (is_authenticated later (reload json true wallet now st') ≡ false)))
  unfolding auth_interceptor
  auth_interceptor_lem wallet now later req st =
      let req1 = add_token (get_token st) req in
      let same = add_token-url (get_token st) req in
      elim (Result-cases (next req1)) [
        | inl (answer, e) ↦ rw (auth_interceptor, e) (refl, inl (refl, refl))
        | inr (err, e) ↦
            elim (Bool-cases (eqb err.status 401 && not (includes_text "/api/auth/" req.url))) [
              | inr kept ↦ rw (auth_interceptor, e, same, kept) (refl, inl (refl, refl))
              | inl ended ↦
                  rw (auth_interceptor, e, same, ended)
                    (
                      refl,
                      inr (
                        refl,
                        unfold logout clear_session in refl,
                        is_authenticated-logout json wallet now later st,
                      ),
                    )
            ]
      ]
