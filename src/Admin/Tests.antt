-- ===== src/Admin/Tests.antt =====
-- core/auth: runs of the guards and of the interceptor.
use did_wallet_thesis.Common.{
  ℕ, ◌≡◌, refl, String, true, false, ◌⊎◌, none, some, [], ◌∷◌, Result, throw, includes,
}
use did_wallet_thesis.Common.Text.{starts_with, includes_text}
use did_wallet_thesis.Admin.Auth.Model.{AuthSession, authenticated, SessionJson, Client}
use did_wallet_thesis.Admin.Auth.{
  is_authenticated, reload, scope, logout, get_token, get_home_route, home_of,
}
use did_wallet_thesis.Admin.Guards.{
  allow, route_of, universities_route, activate, navigate, auth_guard, scope_guard, child_guard,
}
use did_wallet_thesis.Admin.Guards.Laws.{activate_sound, navigate_settles}
use did_wallet_thesis.Admin.Interceptor.{
  HttpRequest, HttpError, add_token, is_refusal, auth_interceptor, auth_interceptor_lem,
}

write_dated : (s : AuthSession) (t : ℕ) → s.expires_at ≡ some t → some s ≡ some s
write_dated s t h = refl

-- Sessions stand for their own text.
abbrev json : SessionJson
json = record {
  Json = AuthSession;
  write = λ s. some s;
  read = λ s. some s;
  read-write = λ s item h. same_item s item h;
  write_valid = λ s t h. (s, write_dated s t h);
}
  where
    same_item : (s item : AuthSession) → some s ≡ some item → some item ≡ some s
    same_item s item h = cc

abbrev session : AuthSession
session = record {
  token = "t";
  did = "did:ethr:sepolia:0xab";
  eth_address = "0xAB";
  scope = "Ministry";
  accreditation_id = none;
  expires_at = some 100;
}

abbrev client : Client String AuthSession
client = record {
  session = some session;
  state = authenticated;
  error = none;
  signer = record { signer = none; has_signer = false; address = none; wallet_available = true };
  navigation = record { member_state = none; ministry = none };
  session_item = some session;
  legacy_item = none;
  signer_item = none;
  route = "/";
}

ministry_home : navigate 2 "/government" 5 client ≡ some "/universities"
unfolding navigate activate route_of child_guard auth_guard scope_guard is_authenticated
    get_home_route home_of
ministry_home = refl

activate_sound_example :
    (is_authenticated 5 client ≡ true)
    × ((name : String) × (scope client ≡ some name)
        × (includes ("Ministry" ∷ "Institution" ∷ []) name ≡ true))
activate_sound_example =
    activate_sound "/universities" universities_route ("Ministry" ∷ "Institution" ∷ []) 5 client
      (unfold route_of in refl) refl
      (unfold activate route_of child_guard auth_guard scope_guard is_authenticated in refl)

navigate_settles_example :
    (page : String) × (navigate 2 "/elsewhere" 5 client ≡ some page)
    × (activate page 5 client ≡ allow)
navigate_settles_example = navigate_settles "/elsewhere" 5 client

abbrev server : HttpRequest → Result (HttpError String) String
server req = throw (record { status = 401; detail = req.url })

abbrev dids : HttpRequest
dids = record { url = "/api/dids"; authorization = none }

auth_interceptor_lem_example :
    let (answer, client') = auth_interceptor json true server dids client in
    (answer ≡ server (add_token (get_token client) dids))
    × (((is_refusal dids answer ≡ false) × (client' ≡ client))
        ⊎ ((is_refusal dids answer ≡ true)
            × (client'.session ≡ none)
            × (is_authenticated 6 (reload json true none 5 client') ≡ false)))
auth_interceptor_lem_example = auth_interceptor_lem json server none 5 6 dids client

-- A request that is refused with 401 ends the session.
refused_ends_session : (auth_interceptor json true server dids client).1 ≡ logout json true client
unfolding auth_interceptor add_token get_token starts_with includes_text
refused_ends_session = refl
