-- ===== src/Admin/Auth/Login.antt =====
-- core/auth/auth.service.ts: what a login leaves behind, and how a session ends or outlives a reload.
use did_wallet_thesis.Common.{
  ℕ, String, ◌≡◌, refl, true, false, Option, none, some, List, [], ◌∷◌, arith, ok, throw, is_some,
  Option-cases, Result-cases, inl, inr, ◌==◌, ◌⊎◌, if◌then◌else◌,
}
use did_wallet_thesis.Common.Text.{to_lower}
use did_wallet_thesis.Admin.ApiError.{ApiError, extract_api_error}
use did_wallet_thesis.Admin.Signer.{
  InjectedWallet, connect, sign_message, clear, accounts_changed, chain_changed, disconnect,
  on_provider_event,
}
use did_wallet_thesis.Admin.Auth.Model.{
  AuthSession, error, connecting, verifying, authenticated, AuthServer, VerifyResponse, SessionJson,
  Client,
}
use did_wallet_thesis.Admin.Auth.{
  clear_session, save_session, logout, on_event, provider_event, fail_login, open_session,
  prove_address, login, restore_session, reload, session_of, did_of, is_authenticated,
}
use did_wallet_thesis.Admin.Auth.Session.{DatesValid, IsConsistent}

module _ {S : Type 0} (json : SessionJson) where
  open json use {Json, write, read, write_valid}

  -- A login that threw `e` leaves the session, in memory and stored, as it was; the error is shown and
  -- no signer is left.
  abbrev pub Failed : ApiError → Client S Json → Client S Json → Type 0
  Failed e st st' =
      (st'.session ≡ st.session)
      × (st'.session_item ≡ st.session_item)
      × (st'.state ≡ error)
      × (st'.error ≡ some (extract_api_error e "Authentication failed"))
      × (st'.signer.signer ≡ none)
      × (st'.signer.has_signer ≡ false)

  fail_login-Failed :
      (e : ApiError) (st : Client S Json) → Failed e st (fail_login json true e st).1
  unfolding fail_login clear
  fail_login-Failed e st = (refl, refl, refl, refl, refl, refl)

  open_session_ok :
      (s : AuthSession) (st : Client S Json)
      → is_some s.expires_at ≡ true
      → let (result, st') = open_session json true s st in
        (result ≡ ok tt)
        × (st'.session ≡ some s)
        × (st'.session_item ≡ write s)
        × (st'.state ≡ authenticated)
  unfolding open_session save_session
  open_session_ok s st valid = elim (Option-cases s.expires_at) [
    | inl invalid ↦ absurd (ground arith)
    | inr (t, e) ↦ let (item, written) = write_valid s t e in ground (arith, written)
  ]

  -- A login that returned: the wallet gave an address and signed the server's challenge for its DID,
  -- the server verified the signature, and the session that it answered is the one of the client.
  abbrev pub Opened :
      Option (InjectedWallet S) → AuthServer → Client S Json → Client S Json → Type 0
  Opened wallet server st st' =
      (address : String) × (nonce : String) × (signature : String) × (result : VerifyResponse)
      × ((connect wallet true none st.signer).0 ≡ ok address)
      × (server.challenge (did_of address) ≡ ok nonce)
      × (sign_message wallet nonce (connect wallet true none st.signer).1 ≡ ok signature)
      × (server.verify (did_of address) nonce signature ≡ ok result)
      × (st'.session ≡ some (session_of address result))
      × (st'.session_item ≡ write (session_of address result))
      × (st'.state ≡ authenticated)

  prove_address_lem :
      (wallet : Option (InjectedWallet S)) (server : AuthServer) (address : String)
      (before st : Client S Json)
      → DatesValid server
      → st.session ≡ before.session
      → st.session_item ≡ before.session_item
      → st.signer ≡ (connect wallet true none before.signer).1
      → (connect wallet true none before.signer).0 ≡ ok address
      → let (result, st') = prove_address json true wallet server address st in
        ((result ≡ ok tt) × Opened wallet server before st')
        ⊎ ((e : ApiError) × (result ≡ throw e) × Failed e before st')
  unfolding prove_address fail_login clear
  prove_address_lem wallet server address before st valid same stored signer connected =
      elim (Result-cases (server.challenge (did_of address))) [
        | inr (e, f) ↦ inr (e, ground arith, ground arith)
        | inl (nonce, f) ↦ elim (Result-cases (sign_message wallet nonce st.signer)) [
          | inr (e, g) ↦ inr (e, ground arith, ground arith)
          | inl (signature, g) ↦
              elim (Result-cases (server.verify (did_of address) nonce signature)) [
                | inr (e, k) ↦ inr (e, ground arith, ground arith)
                | inl (result, k) ↦
                    let opened =
                      open_session_ok (session_of address result) (record st { state = verifying })
                        (valid (did_of address) nonce signature result k) in
                    inl (
                      ground (arith, opened),
                      (
                        address,
                        nonce,
                        signature,
                        result,
                        connected,
                        f,
                        ground arith,
                        k,
                        ground (arith, opened),
                        ground (arith, opened),
                        ground (arith, opened),
                      ),
                    )
              ]
        ]
      ]

  abbrev start : Option (InjectedWallet S) → Client S Json → Client S Json
  start wallet st = record st {
    error = none;
    state = connecting;
    signer = (connect wallet true none st.signer).1;
  }

  login_refused :
      (wallet : Option (InjectedWallet S)) (server : AuthServer) (e : ApiError) (st : Client S Json)
      → (connect wallet true none st.signer).0 ≡ throw e
      → login json true wallet server st ≡ fail_login json true e (start wallet st)
  unfolding login
  login_refused wallet server e st f = rw (login, f) refl

  login_connected :
      (wallet : Option (InjectedWallet S)) (server : AuthServer) (address : String)
      (st : Client S Json)
      → (connect wallet true none st.signer).0 ≡ ok address
      → login json true wallet server st
        ≡ prove_address json true wallet server address (start wallet st)
  unfolding login
  login_connected wallet server address st f = rw (login, f) refl

  -- A login in the browser, with a server whose dates can be read, either returns, and then the wallet
  -- gave an address and signed the server's challenge, the server verified the signature, and the
  -- session for that address is in memory, stored and `authenticated`; or it throws an error, and then
  -- the session, in memory and stored, is unchanged, the message of the error is shown and no signer
  -- is left.
  pub login_lem :
      (wallet : Option (InjectedWallet S)) (server : AuthServer) (st : Client S Json)
      → DatesValid server
      → let (result, st') = login json true wallet server st in
        ((result ≡ ok tt) × Opened wallet server st st')
        ⊎ ((e : ApiError) × (result ≡ throw e) × Failed e st st')
  login_lem wallet server st valid = elim (Result-cases (connect wallet true none st.signer).0) [
    | inr (e, f) ↦ inr (
      e,
      rw (login_refused wallet server e st f) (unfold fail_login in refl),
      rw (login_refused wallet server e st f) (fail_login-Failed e (start wallet st)),
    )
    | inl (address, f) ↦
        rw (login_connected wallet server address st f)
          (prove_address_lem wallet server address st (start wallet st) valid refl refl refl f)
  ]

  -- In the browser, with a session at hand, a change of the chain keeps the session, the session ends
  -- when the wallet disconnects or reports no account, and when it reports accounts, the first of
  -- them not empty, the session stays exactly if the first is its own, up to case.
  pub provider_event_lem :
      (wallet : Option (InjectedWallet S)) (s : AuthSession) (account : String) (rest : List String)
      (st : Client S Json)
      → st.session ≡ some s
      → (account == "") ≡ false
      → ((provider_event json true wallet chain_changed st).session ≡ some s)
        × ((provider_event json true wallet disconnect st).session ≡ none)
        × ((provider_event json true wallet (accounts_changed []) st).session ≡ none)
        × ((provider_event json true wallet (accounts_changed (account ∷ rest)) st).session
            ≡ (if to_lower account == to_lower s.eth_address then some s else none))
  unfolding provider_event on_event on_provider_event logout clear_session
  provider_event_lem wallet s account rest st h ne = ground arith

  -- Loading the page anew in the browser neither logs in nor logs out: the client is authenticated
  -- afterwards exactly if it was before, at the same time; if what is stored is the session.
  pub is_authenticated-reload :
      (wallet : Option (InjectedWallet S)) (now : ℕ) (st : Client S Json)
      → IsConsistent json st
      → is_authenticated now (reload json true wallet now st) ≡ is_authenticated now st
  unfolding is_authenticated reload restore_session clear_session
  is_authenticated-reload wallet now st c = ground (arith, c.mirrored, c.same_presence)

  -- After a logout in the browser, a page load does not bring the session back.
  pub is_authenticated-logout :
      (wallet : Option (InjectedWallet S)) (now later : ℕ) (st : Client S Json)
      → is_authenticated later (reload json true wallet now (logout json true st)) ≡ false
  unfolding is_authenticated reload restore_session logout clear_session
  is_authenticated-logout wallet now later st = ground arith
