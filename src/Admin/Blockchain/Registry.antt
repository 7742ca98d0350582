-- ===== src/Admin/Blockchain/Registry.antt =====
-- core/services/accreditation.service.ts, credential.service.ts and enterprise-registration.service.ts:
-- the calls of the backend, and the ones that follow a transaction of the browser's wallet.
use did_wallet_thesis.Common.{
  String, Option, List, [], ◌∷◌, ◌++◌, Result, ok, throw, if◌then◌else◌, truthy, get_or,
}
use Prim.Native.String
use did_wallet_thesis.Common.Text.{to_lower}
use did_wallet_thesis.Admin.ApiError.{ApiError}
use did_wallet_thesis.Admin.Signer.{SignerState}
use did_wallet_thesis.Admin.Blockchain.{
  Config, Ethers, issue_accreditation, revoke_accreditation, record_credential, revoke_credential,
}

-- `RecordAccreditationRequest` and the other bodies that the services build.
pub data Body : Type 0 where
  record_accreditation_request :
      String → String → String → String → Option String → Option String → Body
  record_revoke_request : String → String → Body
  record_credential_request :
      String → String → String → String → String → Option String → Option String → Body
  record_credential_revoke_request : String → String → String → Body
  approve_request : String → Body
  reject_request : String → Body
  revoked_by_request : String → Body

pub record Param : Type 0 where
  pub name : String
  pub value : String

pub data Call : Type 0 where
  get_call : String → List Param → Call
  post_call : String → Body → Call
  delete_call : String → Body → Call

-- The backend, over the state `W` of the world, which answers a call or refuses it.
abbrev pub Backend : Type 0 → Type 0 → Type 0
Backend A W = Call → W → Result ApiError A × W

unfoldable pub url : String → String → String → String
url base id action = String.◌++◌ base (String.◌++◌ "/" (String.◌++◌ id action))

-- `if (value) params = params.set(name, value)`.
abbrev pub param : String → Option String → List Param
param key value = if truthy value then record { name = key; value = get_or value "" } ∷ [] else []

abbrev pub did_of_address : String → String
did_of_address address = String.◌++◌ "did:ethr:sepolia:" (to_lower address)

module _ {A W : Type 0} (backend : Backend A W) where
  -- `switchMap`: the request is made with the hash of the transaction, and not at all without one.
  abbrev pub switch_map : Result ApiError String × W → (String → Call) → Result ApiError A × W
  switch_map (throw e, w) call = (throw e, w)
  switch_map (ok tx_hash, w) call = backend (call tx_hash) w

  unfoldable pub list_accreditations :
      Option String → Option String → Option String → W → Result ApiError A × W
  list_accreditations issuer_did subject_did scope w =
      backend
        (get_call "/api/accreditations"
          (param "issuerDid" issuer_did ++ (param "subjectDid" subject_did ++ param "scope" scope)))
        w

  unfoldable pub verify_accreditation : String → W → Result ApiError A × W
  unfolding url
  verify_accreditation id w = backend (get_call (url "/api/accreditations" id "/verify") []) w

  unfoldable pub revoke_by_backend : String → String → W → Result ApiError A × W
  unfolding url
  revoke_by_backend id revoked_by_did w =
      backend (delete_call (url "/api/accreditations" id "") (revoked_by_request revoked_by_did)) w

  unfoldable pub list_registrations : Option String → Option String → W → Result ApiError A × W
  list_registrations country_code status w =
      backend
        (get_call "/api/enterprise-registrations"
          (param "countryCode" country_code ++ param "status" status))
        w

  unfoldable pub approve : String → String → W → Result ApiError A × W
  unfolding url
  approve request_id accreditation_id w =
      backend
        (post_call (url "/api/enterprise-registrations" request_id "/approve")
          (approve_request accreditation_id))
        w

  unfoldable pub reject : String → String → W → Result ApiError A × W
  unfolding url
  reject request_id reason w =
      backend
        (post_call (url "/api/enterprise-registrations" request_id "/reject")
          (reject_request reason))
        w

module _ {S A W : Type 0} (chain : Ethers S W) (config : Config) (st : SignerState S)
    (backend : Backend A W) where
  unfoldable pub issue_via_client_wallet :
      String → String → String → Option String → Option String → W → Result ApiError A × W
  issue_via_client_wallet issuer_did subject_address scope name parent_accreditation_id w =
      switch_map backend
        (issue_accreditation chain config st subject_address scope parent_accreditation_id w)
        (λ tx_hash. post_call "/api/accreditations/record" (
          record_accreditation_request tx_hash issuer_did (did_of_address subject_address) scope
            name parent_accreditation_id))

  unfoldable pub revoke_via_client_wallet : String → String → W → Result ApiError A × W
  unfolding url
  revoke_via_client_wallet accreditation_id revoked_by_did w =
      switch_map backend (revoke_accreditation chain config st accreditation_id w) (λ tx_hash.
        post_call (url "/api/accreditations" accreditation_id "/record-revoke")
          (record_revoke_request tx_hash revoked_by_did))

  unfoldable pub issue_credential_via_client_wallet :
      String → String → String → String → Option String → Option String → W → Result ApiError A × W
  issue_credential_via_client_wallet issuer_did holder_address kind hash accreditation_id
        issuer_name w =
      switch_map backend
        (record_credential chain config st holder_address hash kind accreditation_id 0 w)
        (λ tx_hash. post_call "/api/credentials/record" (
          record_credential_request tx_hash issuer_did (did_of_address holder_address) kind hash
            accreditation_id issuer_name))

  unfoldable pub revoke_credential_via_client_wallet :
      String → String → String → W → Result ApiError A × W
  unfolding url
  revoke_credential_via_client_wallet credential_id revoked_by_did reason w =
      switch_map backend (revoke_credential chain config st credential_id reason w) (λ tx_hash.
        post_call (url "/api/credentials" credential_id "/record-revoke")
          (record_credential_revoke_request tx_hash revoked_by_did reason))
