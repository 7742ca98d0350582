-- ===== src/Admin/Auth/Session.antt =====
-- core/auth/auth.service.ts: the session in memory and the one in the browser's storage, over the
-- operations that the pages and the wallet call.
use did_wallet_thesis.Common.{
  ℕ, String, ◌≡◌, true, Option, none, some, arith, ok, is_some, Option-cases, Result-cases, inl,
  inr,
}
use did_wallet_thesis.Admin.ApiError.{ApiError}
use did_wallet_thesis.Admin.Signer.{InjectedWallet, WalletProviderEvent, connect, sign_message}
use did_wallet_thesis.Admin.Auth.Model.{
  AuthSession, connecting, challenging, signing, verifying, authenticated, AuthServer,
  VerifyResponse, SessionJson, Client,
}
use did_wallet_thesis.Admin.Auth.{
  clear_session, save_session, logout, on_event, provider_event, fail_login, open_session,
  prove_address, login, connect_signer, restore_session, reload, session_of, did_of,
}

-- The dates that the server answers can be read.
abbrev pub DatesValid : AuthServer → Type 0
DatesValid server =
    (did nonce signature : String) (r : VerifyResponse)
    → server.verify did nonce signature ≡ ok r
    → is_some r.expires_at ≡ true

abbrev pub stored : {Json : Type 0} → (Json → Option AuthSession) → Option Json → Option AuthSession
stored read none = none
stored read (some raw) = read raw

-- What the browser stores is the session in memory, and `authenticated` comes with a session.
pub record IsConsistent {S : Type 0} (json : SessionJson) (st : Client S json.Json) : Type 0 where
  pub mirrored : stored json.read st.session_item ≡ st.session
  pub same_presence : is_some st.session_item ≡ is_some st.session
  pub has_session : st.state ≡ authenticated → is_some st.session ≡ true

module _ {S : Type 0} (json : SessionJson) where
  open json use {Json, write, read, read-write, write_valid}

  logout-IsConsistent : (st : Client S Json) → IsConsistent json (logout json true st)
  unfolding logout clear_session
  logout-IsConsistent st = ground arith

  fail_login-IsConsistent :
      (e : ApiError) (st : Client S Json)
      → stored read st.session_item ≡ st.session
      → is_some st.session_item ≡ is_some st.session
      → IsConsistent json (fail_login json true e st).1
  unfolding fail_login
  fail_login-IsConsistent e st m p = ground arith

  open_session-IsConsistent :
      (s : AuthSession) (st : Client S Json)
      → is_some s.expires_at ≡ true
      → IsConsistent json (open_session json true s st).1
  unfolding open_session save_session
  open_session-IsConsistent s st valid = elim (Option-cases s.expires_at) [
    | inl invalid ↦ absurd (ground arith)
    | inr (t, e) ↦
        let (item, written) = write_valid s t e in
        ground (arith, written, read-write s item written)
  ]

  -- Whatever the browser stored before, a page that is loaded starts consistent.
  reload-IsConsistent :
      (wallet : Option (InjectedWallet S)) (now : ℕ) (st : Client S Json)
      → IsConsistent json (reload json true wallet now st)
  unfolding reload restore_session clear_session
  reload-IsConsistent wallet now st = ground arith

  prove_address-IsConsistent :
      (wallet : Option (InjectedWallet S)) (server : AuthServer) (address : String)
      (st : Client S Json)
      → DatesValid server
      → stored read st.session_item ≡ st.session
      → is_some st.session_item ≡ is_some st.session
      → IsConsistent json (prove_address json true wallet server address st).1
  unfolding prove_address
  prove_address-IsConsistent wallet server address st valid m p =
      elim (Result-cases (server.challenge (did_of address))) [
        | inr (e, f) ↦
            rw (prove_address, f)
              (fail_login-IsConsistent e (record st { state = challenging }) m p)
        | inl (nonce, f) ↦ elim (Result-cases (sign_message wallet nonce st.signer)) [
          | inr (e, g) ↦
              rw (prove_address, f, g)
                (fail_login-IsConsistent e (record st { state = signing }) m p)
          | inl (signature, g) ↦
              elim (Result-cases (server.verify (did_of address) nonce signature)) [
                | inr (e, k) ↦
                    rw (prove_address, f, g, k)
                      (fail_login-IsConsistent e (record st { state = verifying }) m p)
                | inl (result, k) ↦
                    rw (prove_address, f, g, k)
                      (open_session-IsConsistent (session_of address result)
                        (record st { state = verifying })
                        (valid (did_of address) nonce signature result k))
              ]
        ]
      ]

  abbrev start : Option (InjectedWallet S) → Client S Json → Client S Json
  start wallet st = record st {
    error = none;
    state = connecting;
    signer = (connect wallet true none st.signer).1;
  }

  login-IsConsistent :
      (wallet : Option (InjectedWallet S)) (server : AuthServer) (st : Client S Json)
      → DatesValid server
      → IsConsistent json st
      → IsConsistent json (login json true wallet server st).1
  unfolding login
  login-IsConsistent wallet server st valid c =
      elim (Result-cases (connect wallet true none st.signer).0) [
        | inr (e, f) ↦
            rw (login, f) (fail_login-IsConsistent e (start wallet st) c.mirrored c.same_presence)
        | inl (address, f) ↦
            rw (login, f)
              (prove_address-IsConsistent wallet server address (start wallet st) valid c.mirrored
                c.same_presence)
      ]

  provider_event-IsConsistent :
      (wallet : Option (InjectedWallet S)) (event : WalletProviderEvent) (st : Client S Json)
      → IsConsistent json st
      → IsConsistent json (provider_event json true wallet event st)
  unfolding provider_event on_event logout clear_session
  provider_event-IsConsistent wallet event st c =
      ground (arith, c.mirrored, c.same_presence, c.has_session)

  connect_signer-IsConsistent :
      (wallet : Option (InjectedWallet S)) (st : Client S Json)
      → IsConsistent json st
      → IsConsistent json (connect_signer json true wallet st).1
  unfolding connect_signer
  connect_signer-IsConsistent wallet st c =
      ground (arith, c.mirrored, c.same_presence, c.has_session)

-- What happens to the client, one thing after another: a page is loaded, or one of the operations
-- on the session runs to its end.
pub data Step {S : Type 0} (json : SessionJson)
    : Client S json.Json → Client S json.Json → Type 0 where
  reloaded :
      (wallet : Option (InjectedWallet S)) (now : ℕ) (st : Client S json.Json)
      → Step json st (reload json true wallet now st)
  logged_in :
      (wallet : Option (InjectedWallet S)) (server : AuthServer) (st : Client S json.Json)
      → DatesValid server
      → Step json st (login json true wallet server st).1
  logged_out : (st : Client S json.Json) → Step json st (logout json true st)
  provided :
      (wallet : Option (InjectedWallet S)) (event : WalletProviderEvent) (st : Client S json.Json)
      → Step json st (provider_event json true wallet event st)
  signer_connected :
      (wallet : Option (InjectedWallet S)) (st : Client S json.Json)
      → Step json st (connect_signer json true wallet st).1

-- The states after a first page load.
pub data Reached {S : Type 0} (json : SessionJson) : Client S json.Json → Type 0 where
  loaded :
      (wallet : Option (InjectedWallet S)) (now : ℕ) (st : Client S json.Json)
      → Reached json (reload json true wallet now st)
  later : (st st' : Client S json.Json) → Reached json st → Step json st st' → Reached json st'

module _ {S : Type 0} (json : SessionJson) where
  Step-IsConsistent :
      (st st' : Client S json.Json)
      → IsConsistent json st
      → Step json st st'
      → IsConsistent json st'
  Step-IsConsistent st _ c (reloaded wallet now _) = reload-IsConsistent json wallet now st
  Step-IsConsistent st _ c (logged_in wallet server _ valid) =
      login-IsConsistent json wallet server st valid c
  Step-IsConsistent st _ c (logged_out _) = logout-IsConsistent json st
  Step-IsConsistent st _ c (provided wallet event _) =
      provider_event-IsConsistent json wallet event st c
  Step-IsConsistent st _ c (signer_connected wallet _) =
      connect_signer-IsConsistent json wallet st c

  -- After any sequence of page loads, logins, failed or not, logouts, events of the wallet and
  -- signer connections, in any order, what the browser stores is exactly the session in memory, and
  -- the state is `authenticated` only with a session; if the dates of the server can be read.
  pub Reached-IsConsistent : (st : Client S json.Json) → Reached json st → IsConsistent json st
  Reached-IsConsistent _ (loaded wallet now st) = reload-IsConsistent json wallet now st
  Reached-IsConsistent _ (later st st' before step) =
      Step-IsConsistent st st' (Reached-IsConsistent st before) step
