-- ===== src/Wallet/Consent/Tests.antt =====
-- screens/PresentationConsentScreen.tsx and services/presentationService.ts: runs on a small wallet.
use did_wallet_thesis.Common.{
  ℕ, ◌+◌, ◌≡◌, refl, String, true, Option, none, some, List, [], ◌∷◌, ok, throw, ◌⊎◌,
}
use did_wallet_thesis.Common.Text.{take_chars}
use did_wallet_thesis.Common.Decimal.{print, parse_int}
use did_wallet_thesis.Wallet.Presentation.{
  PresentationRequest, PresentationResponse, Requirement, age_requirement,
  credential_ref_requirement, age_verification,
}
use did_wallet_thesis.Wallet.Zkp.{MerklePath, ZkpBridge, verify}
use did_wallet_thesis.Wallet.History.{HistoryJson, StoredPresentation, list}
use did_wallet_thesis.Wallet.Consent.{
  StoredCredential, birth_year_of, prove_age, prove_and_verify, build_zkp_proof, find_type,
  build_credential_ref,
}
use did_wallet_thesis.Wallet.Consent.Approve.{
  Collected, Surroundings, Screen, build_all, build_response, payload_of, entry_of, submit,
  handle_approve,
}
use did_wallet_thesis.Wallet.Consent.Laws.{Answers, build_all-Answers, handle_approve_lem}

-- A history stands for its own text.
abbrev json : HistoryJson String String
json = record {
  Json = List (StoredPresentation String String);
  write = λ entries. entries;
  read = λ entries. some entries;
  read-write = λ entries. refl;
}

abbrev bridge : ZkpBridge String
bridge = record {
  prove = λ circuit input. ok ("proof", "1" ∷ []);
  verify = λ circuit proof signals. ok true;
}

abbrev paths : String → Option MerklePath
paths country = none

abbrev credential : StoredCredential String
credential = record {
  hash = "h1";
  types = "VerifiableCredential" ∷ "Diploma" ∷ [];
  issuer_accreditation_id = none;
  verifiable_credential = "vc";
}

-- The verifier counts the responses that it gets.
abbrev env : Surroundings String String ℕ
env = record {
  profile = some (record {
    did = "did:ethr:sepolia:0xab";
    birth_date = some "2000-05-17";
    graduation_year = none;
    country = none;
  });
  credentials = ok (credential ∷ []);
  year = 2026;
  time = "2026-01-01T00:00:00.000Z";
  payload_hash = λ payload. "0xhash";
  identity_key = ok none;
  key_manager_sign = λ kid hash. throw "no key";
  post = λ url response w. (ok tt, w + 1);
}

abbrev request : ℕ → PresentationRequest
request threshold = record {
  id = "r1";
  verifier_did = "did:v";
  purpose = "job-application";
  challenge = "c";
  expires_at = "2025-01-01T00:00:00.000Z";
  requirements = age_requirement threshold ∷ credential_ref_requirement "Diploma" true ∷ [];
  callback_url = some "https://verifier";
}

abbrev screen : Screen json.Json ℕ
screen = record { verifier = 0; store = none; loading = true; alert = none }

too_young :
    (handle_approve json bridge paths env (request 30) screen).alert
    ≡ some (
      "Error",
      "Age requirement not met: this request requires you to be at least 30 years old (you are 26).",
    )
unfolding handle_approve build_response build_all build_zkp_proof birth_year_of take_chars parse_int
    prove_age print
too_young = refl

abbrev diploma_only : List Requirement
diploma_only = credential_ref_requirement "Diploma" true ∷ []

diploma_collected :
    build_all json bridge paths env diploma_only
    ≡ ok (record {
      proofs = [];
      credential_refs =
          record {
            credential_type = "Diploma";
            credential_hash = "h1";
            issuer_accreditation_id =
                "0x0000000000000000000000000000000000000000000000000000000000000000";
          }
          ∷ [];
      full_disclosures = [];
    })
unfolding build_all build_credential_ref find_type
diploma_collected = refl

abbrev adult : Collected String String
adult = record {
  proofs = record { circuit = age_verification; proof = "proof"; public_signals = "1" ∷ [] } ∷ [];
  credential_refs =
      record {
        credential_type = "Diploma";
        credential_hash = "h1";
        issuer_accreditation_id =
            "0x0000000000000000000000000000000000000000000000000000000000000000";
      }
      ∷ [];
  full_disclosures = [];
}

build_all-Answers_example : Answers json bridge paths env (request 18).requirements adult
build_all-Answers_example =
    build_all-Answers json bridge paths env (request 18).requirements adult (
      unfold build_all build_zkp_proof birth_year_of take_chars parse_int prove_age prove_and_verify
        verify build_credential_ref find_type in
      refl)

handle_approve_lem_example :
    let st' = handle_approve json bridge paths env (request 18) screen in
    ((st'.store ≡ none)
      × ((e : String) × (st'.alert ≡ some ("Error", e)))
      × ((st'.verifier ≡ 0)
          ⊎ ((response : PresentationResponse String String) × (build_response json bridge paths env
                  (request 18)
                ≡ ok response))))
    ⊎ ((response : PresentationResponse String String) × (c : Collected String String) × (build_all
            json bridge paths env
            (request 18).requirements
          ≡ ok c)
        × (response.payload ≡ payload_of json bridge paths env (request 18) c)
        × (submit json bridge paths env (some "https://verifier") response 0
            ≡ (ok tt, st'.verifier))
        × (list json st'.store
            ≡ entry_of json bridge paths env (request 18) response ∷ list json none))
handle_approve_lem_example = handle_approve_lem json bridge paths env (request 18) screen

abbrev entry : StoredPresentation String String
entry = record {
  id = "r1";
  purpose = "job-application";
  verifier_did = "did:v";
  response = record {
    payload = record {
      request_id = "r1";
      holder_did = "did:unknown";
      proofs = [];
      credential_refs = [];
      full_disclosures = none;
      submitted_at = "2026-01-01T00:00:00.000Z";
    };
    signature = "0x";
  };
  submitted_at = "2026-01-01T00:00:00.000Z";
}
