-- ===== src/Admin/Auth/Model.antt =====
-- core/auth/auth.models.ts, the state of auth.service.ts, and what the service takes from outside.
use did_wallet_thesis.Common.{ℕ, ◌≡◌, String, Option, none, some, Result, ◌==◌, if◌then◌else◌}
use did_wallet_thesis.Admin.ApiError.{ApiError}
use did_wallet_thesis.Admin.Signer.{SignerState}
use did_wallet_thesis.Admin.Navigation.{Navigation}

pub record AuthSession : Type 0 where
  pub token : String
  pub did : String
  pub eth_address : String
  pub scope : String
  pub accreditation_id : Option String
  pub expires_at : Option ℕ

pub data AuthState : Type 0 where
  idle connecting challenging signing verifying authenticated error : AuthState

-- `SCOPE_HIERARCHY[scope]`.
unfoldable pub scope_hierarchy : String → Option ℕ
scope_hierarchy name =
    if name == "EURoot"
    then some 4
    else if name == "MemberState"
    then some 3
    else if name == "Ministry"
    then some 2
    else if name == "Institution"
    then some 1
    else if name == "BusinessRegistry"
    then some 1
    else none

-- What `/api/auth/verify` answers, its date read.
pub record VerifyResponse : Type 0 where
  pub token : String
  pub scope : String
  pub accreditation_id : Option String
  pub expires_at : Option ℕ

pub record AuthServer : Type 0 where
  pub challenge : String → Result ApiError String
  pub verify : String → String → String → Result ApiError VerifyResponse

-- `JSON.stringify` of a session with its date as ISO text, which fails for an invalid date only, and
-- `JSON.parse` with the date read back, which fails on other text.
pub record SessionJson : Type 1 where
  pub Json : Type 0
  pub write : AuthSession → Option Json
  pub read : Json → Option AuthSession
  pub read-write : (s : AuthSession) (item : Json) → write s ≡ some item → read item ≡ some s
  pub write_valid :
      (s : AuthSession) (t : ℕ) → s.expires_at ≡ some t → (item : Json) × (write s ≡ some item)

-- The service's signals, those of the signer and navigation services, the items that it keeps in
-- the browser's storage (`auth_session` twice, `auth_signer`), and the route last navigated to.
pub record Client (S Json : Type 0) : Type 0 where
  pub session : Option AuthSession
  pub state : AuthState
  pub error : Option String
  pub signer : SignerState S
  pub navigation : Navigation
  pub session_item : Option Json
  pub legacy_item : Option Json
  pub signer_item : Option String
  pub route : String
