-- ===== src/Admin/Auth.antt =====
-- core/auth/auth.service.ts and auth.models.ts: the session of the admin client, kept in memory and
-- in the browser's session storage. The wallet, the server and the JSON text of a session are
-- parameters; a date is its milliseconds, `none` for an invalid date.
pub mod Model
mod Session
pub mod Login
mod Tests
use did_wallet_thesis.Common.{
  ℕ, String, Bool, true, false, Option, none, some, List, [], ◌∷◌, Result, ok, throw, ◌==◌, not,
  if◌then◌else◌, truthy, get_or, first, leb, ltb, ◌||◌, is_some,
}
use Prim.Native.String
use did_wallet_thesis.Common.Text.{to_lower}
use did_wallet_thesis.Admin.ApiError.{ApiError, error_of, extract_api_error}
use did_wallet_thesis.Admin.Signer.{
  InjectedWallet, SignerState, WalletProviderEvent, accounts_changed, chain_changed, disconnect,
  clear, connect, restore, sign_message, on_provider_event,
}
use did_wallet_thesis.Admin.Navigation.{Navigation, reset_to_root}
use Model.{
  AuthSession, AuthState, idle, connecting, challenging, signing, verifying, authenticated, error,
  VerifyResponse, AuthServer, SessionJson, Client, scope_hierarchy,
}

abbrev pub did_of : String → String
did_of address = String.◌++◌ "did:ethr:sepolia:" (to_lower address)

abbrev pub session_of : String → VerifyResponse → AuthSession
session_of address result = record {
  token = result.token;
  did = did_of address;
  eth_address = address;
  scope = result.scope;
  accreditation_id = result.accreditation_id;
  expires_at = result.expires_at;
}

-- `expiresAt <= new Date()`, false for an invalid date.
abbrev pub is_over : Option ℕ → ℕ → Bool
is_over none now = false
is_over (some until) now = leb until now

-- `new Date() < s.expiresAt`.
abbrev pub is_before : ℕ → Option ℕ → Bool
is_before now none = false
is_before now (some until) = ltb now until

unfoldable pub home_of : Option String → String
home_of none = "/login"
home_of (some name) =
    if name == "EURoot"
    then "/member-states"
    else if name == "MemberState"
    then "/government"
    else if name == "Ministry" || name == "Institution"
    then "/universities"
    else if name == "BusinessRegistry"
    then "/enterprises"
    else "/login"

module _ {S : Type 0} (json : SessionJson) (is_browser : Bool) where
  open json use {Json, write, read}

  unfoldable pub clear_session : Client S Json → Client S Json
  clear_session st =
      if is_browser
      then record st { session_item = none; legacy_item = none; signer_item = none }
      else st

  -- `toISOString` throws on an invalid date, before anything is stored.
  unfoldable pub save_session : AuthSession → Client S Json → Result ApiError (Client S Json)
  save_session s st =
      if is_browser
      then elim (write s) [
        | none ↦ throw (error_of "Invalid time value")
        | some item ↦ ok (record st { session_item = some item })
      ]
      else ok st

  unfoldable pub logout : Client S Json → Client S Json
  unfolding clear_session
  logout st =
      let cleared = record st {
        session = none;
        state = idle;
        error = none;
        signer = clear st.signer;
        navigation = reset_to_root st.navigation;
      } in
      record (clear_session cleared) { route = "/login" }

  -- The listener of the constructor, behind the signer service's own.
  unfoldable pub on_event :
      Option (InjectedWallet S) → WalletProviderEvent → Client S Json → Client S Json
  unfolding logout
  on_event wallet event st = elim st.session [
    | none ↦ st
    | some session ↦ elim event [
      | disconnect ↦ logout st
      | chain_changed ↦ st
      | accounts_changed accounts ↦
          let active_account = first accounts in
          if not (truthy active_account)
            || not (to_lower (get_or active_account "") == to_lower session.eth_address)
          then logout st
          else record st { signer = (restore wallet session.eth_address st.signer).1 }
    ]
  ]

  unfoldable pub provider_event :
      Option (InjectedWallet S) → WalletProviderEvent → Client S Json → Client S Json
  unfolding on_event on_provider_event
  provider_event wallet event st =
      let (signer, passed_on) = on_provider_event event st.signer in
      on_event wallet passed_on (record st { signer = signer })

  -- The `catch` of `login`.
  unfoldable pub fail_login : ApiError → Client S Json → Result ApiError (Unit {0}) × Client S Json
  fail_login err st = (
    throw err,
    record st {
      state = error;
      signer = clear st.signer;
      error = some (extract_api_error err "Authentication failed");
    },
  )

  unfoldable pub open_session :
      AuthSession → Client S Json → Result ApiError (Unit {0}) × Client S Json
  unfolding save_session fail_login
  open_session s st =
      let st1 = record st { navigation = reset_to_root st.navigation; session = some s } in
      elim (save_session s st1) [
        | throw e ↦ fail_login e st1
        | ok st2 ↦ (ok tt, record st2 { state = authenticated })
      ]

  -- The part of `login` behind `signer.connect()`, for the address that it returned.
  unfoldable pub prove_address :
      Option (InjectedWallet S)
      → AuthServer
      → String
      → Client S Json
      → Result ApiError (Unit {0}) × Client S Json
  unfolding open_session fail_login
  prove_address wallet server address st = elim (server.challenge (did_of address)) [
    | throw e ↦ fail_login e (record st { state = challenging })
    | ok nonce ↦ elim (sign_message wallet nonce st.signer) [
      | throw e ↦ fail_login e (record st { state = signing })
      | ok signature ↦ elim (server.verify (did_of address) nonce signature) [
        | throw e ↦ fail_login e (record st { state = verifying })
        | ok result ↦ open_session (session_of address result) (record st { state = verifying })
      ]
    ]
  ]

  unfoldable pub login :
      Option (InjectedWallet S)
      → AuthServer
      → Client S Json
      → Result ApiError (Unit {0}) × Client S Json
  unfolding prove_address fail_login
  login wallet server st =
      let (connected, signer) = connect wallet true none st.signer in
      let st1 = record st { error = none; state = connecting; signer = signer } in
      elim connected [
        | throw e ↦ fail_login e st1
        | ok address ↦ prove_address wallet server address st1
      ]

  unfoldable pub connect_signer :
      Option (InjectedWallet S) → Client S Json → Result ApiError String × Client S Json
  connect_signer wallet st = elim st.session [
    | none ↦ (throw (error_of "No authenticated session"), st)
    | some session ↦
        let (result, signer) = connect wallet true (some session.eth_address) st.signer in
        (result, record st { signer = signer })
  ]

  unfoldable pub restore_session : Option (InjectedWallet S) → ℕ → Client S Json → Client S Json
  unfolding clear_session
  restore_session wallet now st = if not is_browser then st else elim st.session_item [
    | none ↦ st
    | some raw ↦ elim (read raw) [
      | none ↦ clear_session st
      | some parsed ↦ if is_over parsed.expires_at now then clear_session st else record st {
        session = some parsed;
        state = authenticated;
        signer = (restore wallet parsed.eth_address st.signer).1;
      }
    ]
  ]

  -- A page that is loaded anew: the constructor, over what the browser stores.
  unfoldable pub reload : Option (InjectedWallet S) → ℕ → Client S Json → Client S Json
  unfolding restore_session
  reload wallet now st = restore_session wallet now (record st {
    session = none;
    state = idle;
    error = none;
    signer = record {
      signer = none;
      has_signer = false;
      address = none;
      wallet_available = is_some wallet;
    };
    navigation = record { member_state = none; ministry = none };
  })

module _ {S Json : Type 0} where
  unfoldable pub get_token : Client S Json → Option String
  get_token st = elim st.session [ none ↦ none | some s ↦ some s.token ]

  unfoldable pub is_authenticated : ℕ → Client S Json → Bool
  is_authenticated now st = elim st.session [ none ↦ false | some s ↦ is_before now s.expires_at ]

  -- `session()?.scope ?? null`.
  abbrev pub scope : Client S Json → Option String
  scope st = elim st.session [ none ↦ none | some s ↦ some s.scope ]

  unfoldable pub has_scope : String → Client S Json → Bool
  has_scope required st =
      if not (truthy (scope st))
      then false
      else leb (get_or (scope_hierarchy required) 0)
          (get_or (scope_hierarchy (get_or (scope st) "")) 0)

  unfoldable pub get_home_route : Client S Json → String
  unfolding home_of
  get_home_route st = home_of (scope st)
