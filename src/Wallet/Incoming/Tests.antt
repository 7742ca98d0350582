-- ===== src/Wallet/Incoming/Tests.antt =====
-- screens/IncomingPresentationScreen.tsx: runs on a small response.
use did_wallet_thesis.Common.{
  ℕ, ◌<◌, length, arith, ◌≡◌, refl, String, true, false, none, some, truthy, is_some, sym, ap,
  Result, List, [], ◌∷◌, ok, throw,
}
use mathlib.Core.Bool.{true≢false}
use did_wallet_thesis.Wallet.Presentation.{
  ZkpProof, CredentialRef, PresentationResponse, age_verification,
}
use did_wallet_thesis.Wallet.Zkp.{ZkpBridge, verify}
use did_wallet_thesis.Wallet.Incoming.{
  TrustChain, verify_credential_ref, mount, compute_overall, CheckEvent, zkp_checked, ref_checked,
  check_ended, check_all, verdict,
}
use did_wallet_thesis.Wallet.Registration.Finish.{WalletProfile, university_profile}
use did_wallet_thesis.Wallet.Incoming.{Checks, vc_type_for_purpose}
use did_wallet_thesis.Wallet.Incoming.Issue.{
  CredentialOrder, Issuing, issue, handle_issue, press_issue, IssuedFor, press_issue_lem,
}
use did_wallet_thesis.Wallet.Incoming.Laws.{expected, overall_valid-expected}
use did_wallet_thesis.Wallet.Incoming.Shown.{all_done_lem}

-- The proofs are texts, and each one verifies.
abbrev bridge : ZkpBridge String
bridge = record {
  prove = λ circuit input. throw "no prover";
  verify = λ circuit proof signals. ok true;
}

abbrev chain : TrustChain
chain id = ok true

abbrev response : List (ZkpProof String) → List CredentialRef → PresentationResponse String String
response proofs refs = record {
  payload = record {
    request_id = "r1";
    holder_did = "did:ethr:sepolia:0xab";
    proofs = proofs;
    credential_refs = refs;
    full_disclosures = none;
    submitted_at = "2026-01-01T00:00:00.000Z";
  };
  signature = "0x00";
}

-- A proof whose circuit says that its input does not satisfy the requirement.
abbrev proof : ZkpProof String
proof = record { circuit = age_verification; proof = "p"; public_signals = "0" ∷ [] }

abbrev ref : CredentialRef
ref = record { credential_type = "Diploma"; credential_hash = "h"; issuer_accreditation_id = "0x1" }

abbrev one_each : PresentationResponse String String
one_each = response (proof ∷ []) (ref ∷ [])

rejected :
    let st = check_all bridge chain (ref_checked 0 ∷ zkp_checked 0 ∷ []) (mount one_each) in
    (st.all_done ≡ true) × (st.overall_valid ≡ false)
unfolding check_all check_ended mount compute_overall verdict verify verify_credential_ref
rejected = (refl, refl)

overall_valid-expected_example :
    (check_all bridge chain (ref_checked 0 ∷ zkp_checked 0 ∷ []) (mount one_each)).overall_valid
    ≡ expected bridge chain one_each
overall_valid-expected_example =
    overall_valid-expected bridge chain one_each (ref_checked 0 ∷ zkp_checked 0 ∷ [])
      (unfold check_all check_ended mount compute_overall in refl)

abbrev both_ended : List CheckEvent
both_ended = ref_checked 0 ∷ zkp_checked 0 ∷ []

only_zero : {A : Type 0} (i : ℕ) (x : A) → i < length (x ∷ []) → i ≡ 0
only_zero i x lt = omega arith

all_done_lem_example : (check_all bridge chain both_ended (mount one_each)).all_done ≡ true
all_done_lem_example =
    all_done_lem bridge chain one_each both_ended (λ i lt. rw (only_zero i proof lt) refl)
      (λ i lt. rw (only_zero i ref lt) refl)

disclosures_only : (check_all bridge chain both_ended (mount (response [] []))).all_done ≡ false
unfolding check_all check_ended mount compute_overall
disclosures_only = refl

-- A proof that its circuit accepts.
abbrev good_proof : ZkpProof String
good_proof = record { circuit = age_verification; proof = "p"; public_signals = "1" ∷ [] }

abbrev valid_one : PresentationResponse String String
valid_one = response (good_proof ∷ []) (ref ∷ [])

abbrev create : CredentialOrder → Result String CredentialOrder
create order = ok order

abbrev hash_json : CredentialOrder → String
hash_json order = order.holder_did

abbrev issuer : WalletProfile
issuer =
    university_profile
      (record {
        did = "did:ethr:sepolia:0xcd";
        wallet_address = "0xCD";
        country = "Romania";
        county = "Iasi";
        city = "Iasi";
        address = "";
        email = "a@b.ro";
      })
      "TUIASI" "0x01"

abbrev idle : Issuing
idle = record { issuing = false; issued_hash = none; alert = none }

abbrev checked : Checks String
checked = check_all bridge chain (ref_checked 0 ∷ zkp_checked 0 ∷ []) (mount valid_one)

press_issue_lem_example :
    (expected bridge chain valid_one ≡ true)
    × (truthy idle.issued_hash ≡ false)
    × (idle.issuing ≡ false)
    × IssuedFor create hash_json
        (some issuer)
        "did:ethr:sepolia:0xab"
        "r1"
        "job-application"
        "2030-01-01"
        "did:ethr:sepolia:0xab"
press_issue_lem_example =
    press_issue_lem create hash_json bridge chain valid_one (ref_checked 0 ∷ zkp_checked 0 ∷ [])
      (some issuer) "did:ethr:sepolia:0xab" "r1" "job-application" "2030-01-01"
      "did:ethr:sepolia:0xab" idle (λ h. absurd (true≢false (sym (ap is_some h))))
      (unfold press_issue handle_issue issue vc_type_for_purpose check_all check_ended mount
          compute_overall verdict verify verify_credential_ref in
        refl)
