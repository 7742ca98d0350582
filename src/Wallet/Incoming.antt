-- ===== src/Wallet/Incoming.antt =====
-- screens/IncomingPresentationScreen.tsx and services/chainVerifier.ts: how a response is checked. The
-- checks run at the same time and end in any order: each end is an event, followed by the effect that
-- computes the outcome.
pub mod Laws
pub mod Issue
pub mod Shown
mod Tests
use did_wallet_thesis.Common.{
  ℕ, zero, suc, String, Bool, true, false, Option, none, some, List, [], ◌∷◌, map, Result, ok,
  throw, catch_with, if◌then◌else◌, all, not, ◌&&◌, ◌||◌, get_or, ◌==◌,
}
use did_wallet_thesis.Wallet.Presentation.{ZkpProof, CredentialRef, PresentationResponse}
use did_wallet_thesis.Wallet.Zkp.{ZkpBridge, verify}

pub record VerificationResult : Type 0 where
  pub credential_type : String
  pub credential_hash : String
  pub issuer_accreditation_id : String
  pub trust_chain_valid : Bool
  pub error : Option String

abbrev result_of : CredentialRef → Bool → Option String → VerificationResult
result_of ref valid error = record {
  credential_type = ref.credential_type;
  credential_hash = ref.credential_hash;
  issuer_accreditation_id = ref.issuer_accreditation_id;
  trust_chain_valid = valid;
  error = error;
}

-- `validateTrustChain` of the registry's contract.
abbrev pub TrustChain : Type 0
TrustChain = String → Result String Bool

unfoldable pub verify_credential_ref : TrustChain → CredentialRef → VerificationResult
verify_credential_ref chain ref = elim (chain ref.issuer_accreditation_id) [
  | ok is_valid ↦ result_of ref is_valid none
  | throw message ↦ result_of ref false (some message)
]

unfoldable pub verify_all : TrustChain → List CredentialRef → List VerificationResult
unfolding verify_credential_ref
verify_all chain refs = map (verify_credential_ref chain) refs

pub record ZkpStatus (P : Type 0) : Type 0 where
  pub proof : ZkpProof P
  pub valid : Option Bool
  pub checking : Bool

pub record RefStatus : Type 0 where
  pub ref : CredentialRef
  pub result : Option VerificationResult
  pub checking : Bool

pub record Checks (P : Type 0) : Type 0 where
  pub zkp_statuses : List (ZkpStatus P)
  pub ref_statuses : List RefStatus
  pub all_done : Bool
  pub overall_valid : Bool

abbrev pub update_at {ℓ} : {A : Type ℓ} → ℕ → (A → A) → List A → List A
update_at i f [] = []
update_at zero f (x ∷ xs) = f x ∷ xs
update_at (suc i) f (x ∷ xs) = x ∷ update_at i f xs

abbrev pub is_empty {ℓ} : {A : Type ℓ} → List A → Bool
is_empty [] = true
is_empty (x ∷ xs) = false

abbrev pub is_true : Option Bool → Bool
is_true none = false
is_true (some b) = b

abbrev pub trusted : Option VerificationResult → Bool
trusted none = false
trusted (some r) = r.trust_chain_valid

abbrev pub ref_done : RefStatus → Bool
ref_done s = not s.checking

abbrev pub ref_valid : RefStatus → Bool
ref_valid s = trusted s.result

abbrev pub fresh_ref : CredentialRef → RefStatus
fresh_ref r = record { ref = r; result = none; checking = true }

module _ {P : Type 0} where
  abbrev pub zkp_done : ZkpStatus P → Bool
  zkp_done s = not s.checking

  abbrev pub zkp_valid : ZkpStatus P → Bool
  zkp_valid s = is_true s.valid

  abbrev pub fresh_zkp : ZkpProof P → ZkpStatus P
  fresh_zkp p = record { proof = p; valid = none; checking = true }

  -- The second effect.
  unfoldable pub compute_overall : Checks P → Checks P
  compute_overall st =
      if all zkp_done st.zkp_statuses
        && (all ref_done st.ref_statuses
            && (not (is_empty st.zkp_statuses) || not (is_empty st.ref_statuses)))
      then record st {
        overall_valid = all zkp_valid st.zkp_statuses && all ref_valid st.ref_statuses;
        all_done = true;
      }
      else st

  -- The first effect, for a response that is there.
  unfoldable pub mount : {V : Type 0} → PresentationResponse P V → Checks P
  unfolding compute_overall
  mount response = compute_overall (record {
    zkp_statuses = map fresh_zkp response.payload.proofs;
    ref_statuses = map fresh_ref response.payload.credential_refs;
    all_done = false;
    overall_valid = false;
  })

-- The check of the proof or of the reference at an index has ended.
pub data CheckEvent : Type 0 where
  zkp_checked ref_checked : ℕ → CheckEvent

module _ {P : Type 0} (bridge : ZkpBridge P) (chain : TrustChain) where
  -- A check that throws counts as failed.
  unfoldable pub verdict : ZkpProof P → Bool
  unfolding verify
  verdict p = catch_with false (verify bridge p.circuit p.proof p.public_signals)

  abbrev pub settle_zkp : ZkpStatus P → ZkpStatus P
  settle_zkp s = record s { valid = some (verdict s.proof); checking = false }

  abbrev pub settle_ref : RefStatus → RefStatus
  settle_ref s = record s { result = some (verify_credential_ref chain s.ref); checking = false }

  unfoldable pub check_ended : CheckEvent → Checks P → Checks P
  unfolding compute_overall verdict verify_credential_ref
  check_ended (zkp_checked i) st =
      compute_overall (record st { zkp_statuses = update_at i settle_zkp st.zkp_statuses })
  check_ended (ref_checked i) st =
      compute_overall (record st { ref_statuses = update_at i settle_ref st.ref_statuses })

  unfoldable pub check_all : List CheckEvent → Checks P → Checks P
  unfolding check_ended
  check_all [] st = st
  check_all (event ∷ events) st = check_all events (check_ended event st)

-- `vcTypeForPurpose`.
unfoldable pub vc_type_for_purpose : String → Option String
vc_type_for_purpose purpose =
    if purpose == "master-application"
    then some "MasterStudentCard"
    else if purpose == "job-application"
    then some "EmploymentProof"
    else none
