-- ===== src/Wallet/Consent/Approve.antt =====
-- screens/PresentationConsentScreen.tsx: `handleApprove`.
use did_wallet_thesis.Common.{
  ℕ, String, Bool, false, Option, none, some, List, [], ◌∷◌, Result, ok, throw, ◌>>=◌, truthy,
  get_or, if◌then◌else◌,
}
use did_wallet_thesis.Wallet.Presentation.{
  Requirement, credential_ref_requirement, full_disclosure_requirement, ZkpProof, CredentialRef,
  FullDisclosure, ResponsePayload, PresentationRequest, PresentationResponse,
}
use did_wallet_thesis.Wallet.Zkp.{MerklePath, ZkpBridge}
use did_wallet_thesis.Wallet.History.{HistoryJson, StoredPresentation, save}
use did_wallet_thesis.Wallet.Consent.{
  Profile, StoredCredential, build_zkp_proof, build_credential_ref, build_full_disclosure,
}

-- The three lists that the loop fills.
pub record Collected (P V : Type 0) : Type 0 where
  pub proofs : List (ZkpProof P)
  pub credential_refs : List CredentialRef
  pub full_disclosures : List (FullDisclosure V)

-- What the screen takes from its surroundings: the profile, the wallet's credentials, the year and
-- the time, `keccak256` of the payload's text, the key of the identity, `keyManagerSign`, and `fetch`
-- over the state `W` of the verifier.
pub record Surroundings (P V W : Type 0) : Type 0 where
  pub profile : Option Profile
  pub credentials : Result String (List (StoredCredential V))
  pub year : ℕ
  pub time : String
  pub payload_hash : ResponsePayload P V → String
  pub identity_key : Result String (Option String)
  pub key_manager_sign : String → String → Result String String
  pub post : String → PresentationResponse P V → W → Result String (Unit {0}) × W

-- The verifier, the stored history, `loading`, and the title and text of the last alert.
pub record Screen (Json W : Type 0) : Type 0 where
  pub verifier : W
  pub store : Option Json
  pub loading : Bool
  pub alert : Option (String × String)

abbrev pub add_proof : {P V : Type 0} → Option (ZkpProof P) → Collected P V → Collected P V
add_proof none c = c
add_proof (some p) c = record c { proofs = p ∷ c.proofs }

abbrev pub disclosures : {V : Type 0} → List (FullDisclosure V) → Option (List (FullDisclosure V))
disclosures [] = none
disclosures (d ∷ ds) = some (d ∷ ds)

abbrev pub holder_of : Option Profile → String
holder_of none = "did:unknown"
holder_of (some p) = p.did

module _ {P V W : Type 0} (json : HistoryJson P V) (bridge : ZkpBridge P)
    (paths : String → Option MerklePath) (env : Surroundings P V W) where
  -- The loop over the requirements.
  unfoldable pub build_all : List Requirement → Result String (Collected P V)
  unfolding build_zkp_proof build_credential_ref build_full_disclosure
  build_all [] = ok (record { proofs = []; credential_refs = []; full_disclosures = [] })
  build_all (credential_ref_requirement kind eu ∷ rest) =
      build_credential_ref env.credentials kind >>= λ ref.
      build_all rest >>= λ c. ok (record c { credential_refs = ref ∷ c.credential_refs })
  build_all (full_disclosure_requirement kind ∷ rest) = build_all rest >>= λ c. ok (record c {
    full_disclosures = build_full_disclosure env.credentials kind ∷ c.full_disclosures;
  })
  build_all (requirement ∷ rest) =
      build_zkp_proof bridge paths env.year env.profile requirement >>= λ p.
      build_all rest >>= λ c. ok (add_proof p c)

  abbrev pub payload_of : PresentationRequest → Collected P V → ResponsePayload P V
  payload_of request c = record {
    request_id = request.id;
    holder_did = holder_of env.profile;
    proofs = c.proofs;
    credential_refs = c.credential_refs;
    full_disclosures = disclosures c.full_disclosures;
    submitted_at = env.time;
  }

  -- The signature, or the hash alone without a key or when signing throws.
  unfoldable pub sign_payload : String → Option String → String
  sign_payload hash kid =
      if truthy kid
      then (elim (env.key_manager_sign (get_or kid "") hash) [
        | ok signature ↦ signature
        | throw e ↦ hash
      ])
      else hash

  unfoldable pub build_response : PresentationRequest → Result String (PresentationResponse P V)
  unfolding build_all sign_payload
  build_response request = build_all request.requirements >>= λ c. env.identity_key >>= λ kid.
      ok (record {
        payload = payload_of request c;
        signature = sign_payload (env.payload_hash (payload_of request c)) kid;
      })

  abbrev pub entry_of : PresentationRequest → PresentationResponse P V → StoredPresentation P V
  entry_of request response = record {
    id = request.id;
    purpose = request.purpose;
    verifier_did = request.verifier_did;
    response = response;
    submitted_at = response.payload.submitted_at;
  }

  -- `if (request.callbackUrl) await fetch(...)`.
  unfoldable pub submit :
      Option String → PresentationResponse P V → W → Result String (Unit {0}) × W
  submit callback_url response w =
      if truthy callback_url then env.post (get_or callback_url "") response w else (ok tt, w)

  abbrev submitted : String × String
  submitted = (
    "Presentation Submitted",
    "Your verifiable presentation has been successfully built and submitted.",
  )

  -- `handleApprove` with a decoded request.
  unfoldable pub handle_approve : PresentationRequest → Screen json.Json W → Screen json.Json W
  unfolding build_response submit save
  handle_approve request st = elim (build_response request) [
    | throw e ↦ record st { loading = false; alert = some ("Error", e) }
    | ok response ↦
        let (sent, w) = submit request.callback_url response st.verifier in
        elim sent [
          | throw e ↦ record st { verifier = w; loading = false; alert = some ("Error", e) }
          | ok _ ↦ record {
            verifier = w;
            store = save json (entry_of request response) st.store;
            loading = false;
            alert = some submitted;
          }
        ]
  ]
