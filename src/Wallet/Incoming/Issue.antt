-- ===== src/Wallet/Incoming/Issue.antt =====
-- screens/IncomingPresentationScreen.tsx, handleIssue and its button, and services/credentialIssuer.ts.
-- The credential that the agent signs, its JSON text and keccak256 are parameters.
use did_wallet_thesis.Common.{
  String, Bool, true, false, not, ◌&&◌, Option, none, some, List, [], ◌∷◌, Result, ok, throw,
  if◌then◌else◌, truthy, is_some, ◌≡◌, refl, sym, ap, ◌∙◌, Bool-cases, inl, inr, arith,
  Option-cases, Result-cases, get_or,
}
use did_wallet_thesis.Wallet.Presentation.{PresentationResponse}
use did_wallet_thesis.Wallet.Zkp.{ZkpBridge}
use did_wallet_thesis.Wallet.Registration.Finish.{
  WalletProfileBase, WalletProfile, personal_profile, university_profile, enterprise_profile,
}
use did_wallet_thesis.Wallet.Incoming.{
  TrustChain, Checks, mount, check_all, CheckEvent, vc_type_for_purpose,
}
use did_wallet_thesis.Wallet.Incoming.Laws.{expected, overall_valid-expected}

-- `CredentialData` with the DIDs of its issuer and its holder.
pub record CredentialOrder : Type 0 where
  pub issuer_did : String
  pub holder_did : String
  pub types : List String
  pub granted_via : String
  pub issuer_accreditation_id : String
  pub expiration_date : String

abbrev pub base_of_profile : WalletProfile → WalletProfileBase
base_of_profile (personal_profile base f l b) = base
base_of_profile (university_profile base l a) = base
base_of_profile (enterprise_profile base l f a) = base

-- `profile.accreditationId ?? '0x00…'`.
abbrev pub accreditation_of : WalletProfile → String
accreditation_of (personal_profile base f l b) =
    "0x0000000000000000000000000000000000000000000000000000000000000000"
accreditation_of (university_profile base l a) = a
accreditation_of (enterprise_profile base l f a) = a

pub record Issuing : Type 0 where
  pub issuing : Bool
  pub issued_hash : Option String
  pub alert : Option (String × String)

module _ {V : Type 0} (create : CredentialOrder → Result String V) (hash_json : V → String) where
  -- credentialIssuer.issue
  unfoldable pub issue : CredentialOrder → Result String String
  issue order = elim (create order) [ throw e ↦ throw e | ok vc ↦ ok (hash_json vc) ]

  abbrev pub issued_with : Result String String → Issuing → Issuing
  issued_with (throw e) st = record st { alert = some ("Issuance Failed", e); issuing = false }
  issued_with (ok hash) st = record st { issued_hash = some hash; issuing = false }

  abbrev pub order_for : WalletProfile → String → String → String → String → CredentialOrder
  order_for profile holder_did request_id kind expiration = record {
    issuer_did = (base_of_profile profile).did;
    holder_did = holder_did;
    types = "VerifiableCredential" ∷ kind ∷ [];
    granted_via = request_id;
    issuer_accreditation_id = accreditation_of profile;
    expiration_date = expiration;
  }

  abbrev pub issue_for :
      Option WalletProfile → String → String → String → String → Result String String
  issue_for none holder_did request_id kind expiration = throw "No issuer profile found"
  issue_for (some profile) holder_did request_id kind expiration =
      issue (order_for profile holder_did request_id kind expiration)

  unfoldable pub handle_issue :
      Option WalletProfile → String → String → String → String → Issuing → Issuing
  unfolding vc_type_for_purpose issue
  handle_issue profile holder_did request_id purpose expiration st =
      elim (vc_type_for_purpose purpose) [
        | none ↦ record st {
          alert = some ("Nothing to issue", "No credential type configured for this purpose.");
        }
        | some kind ↦
            issued_with (issue_for profile holder_did request_id kind expiration)
              (record st { issuing = true })
      ]

  -- The button, which is shown only behind an outcome that approves.
  unfoldable pub press_issue :
      {P : Type 0}
      → Checks P
      → Option WalletProfile
      → String
      → String
      → String
      → String
      → Issuing
      → Issuing
  unfolding vc_type_for_purpose handle_issue
  press_issue checks profile holder_did request_id purpose expiration st =
      if checks.all_done
        && (checks.overall_valid
            && (is_some (vc_type_for_purpose purpose)
                && (not (truthy st.issued_hash) && not st.issuing)))
      then handle_issue profile holder_did request_id purpose expiration st
      else st

  abbrev pub is_offered : {P : Type 0} → Checks P → String → Issuing → Bool
  is_offered checks purpose st =
      checks.all_done
      && (checks.overall_valid
          && (is_some (vc_type_for_purpose purpose)
              && (not (truthy st.issued_hash) && not st.issuing)))

  press_issue-kept :
      {P : Type 0} (checks : Checks P) (profile : Option WalletProfile)
      (holder_did request_id purpose expiration : String) (st : Issuing)
      → is_offered checks purpose st ≡ false
      → (press_issue checks profile holder_did request_id purpose expiration st).issued_hash
        ≡ st.issued_hash
  unfolding press_issue
  press_issue-kept checks profile holder_did request_id purpose expiration st h =
      rw (press_issue, h) refl

  -- That a credential was signed for the profile, with the hash.
  abbrev pub IssuedFor : Option WalletProfile → String → String → String → String → String → Type 0
  IssuedFor profile holder_did request_id purpose expiration hash =
      (issuer : WalletProfile) × (kind : String) × (vc : V) × (profile ≡ some issuer)
      × (vc_type_for_purpose purpose ≡ some kind)
      × (create (order_for issuer holder_did request_id kind expiration) ≡ ok vc)
      × (hash_json vc ≡ hash)

  handle_issue-IssuedFor :
      (profile : Option WalletProfile) (holder_did request_id purpose expiration hash : String)
      (st : Issuing)
      → ¬ st.issued_hash ≡ some hash
      → (handle_issue profile holder_did request_id purpose expiration st).issued_hash ≡ some hash
      → IssuedFor profile holder_did request_id purpose expiration hash
  unfolding handle_issue issue
  handle_issue-IssuedFor none holder_did request_id purpose expiration hash st new issued = absurd (
      new (elim (Option-cases (vc_type_for_purpose purpose)) [
        | inl no_kind ↦ sym (rw (handle_issue, no_kind) refl) ∙ issued
        | inr (kind, known) ↦ sym (rw (handle_issue, known) refl) ∙ issued
      ]))
  handle_issue-IssuedFor (some issuer) holder_did request_id purpose expiration hash st new issued =
      elim (Option-cases (vc_type_for_purpose purpose)) [
        | inl no_kind ↦ absurd (new (sym (rw (handle_issue, no_kind) refl) ∙ issued))
        | inr (kind, known) ↦
            elim (Result-cases (create (order_for issuer holder_did request_id kind expiration))) [
              | inr (e, refused) ↦
                  absurd (new (sym (rw (handle_issue, known, issue, refused) refl) ∙ issued))
              | inl (vc, created) ↦
                  let held : (handle_issue (some issuer) holder_did request_id purpose expiration
                        st).issued_hash
                      ≡ some (hash_json vc) =
                    rw (handle_issue, known, issue, created) refl in
                  (
                    issuer,
                    kind,
                    vc,
                    refl,
                    known,
                    created,
                    ap (λ (o : Option String). get_or o "") (sym held ∙ issued),
                  )
            ]
      ]

  -- When the button changes the hash of the issued credential, every proof of the response is verified
  -- and every reference has a valid trust chain, in whatever order the checks ended; the screen had
  -- issued no credential before and was not issuing one; and the hash is that of the credential that was
  -- signed with the profile of the issuer, for the holder of the response and the type of the purpose.
  pub press_issue_lem :
      {P F : Type 0} (bridge : ZkpBridge P) (chain : TrustChain)
      (response : PresentationResponse P F) (events : List CheckEvent)
      (profile : Option WalletProfile) (holder_did request_id purpose expiration hash : String)
      (st : Issuing)
      → ¬ st.issued_hash ≡ some hash
      → (press_issue
          (check_all bridge chain events (mount response))
          profile
          holder_did
          request_id
          purpose
          expiration
          st).issued_hash
        ≡ some hash
      → (expected bridge chain response ≡ true)
        × (truthy st.issued_hash ≡ false)
        × (st.issuing ≡ false)
        × IssuedFor profile holder_did request_id purpose expiration hash
  unfolding press_issue
  press_issue_lem bridge chain response events profile holder_did request_id purpose expiration hash
        st new issued =
      let checks = check_all bridge chain events (mount response) in
      elim (Bool-cases (is_offered checks purpose st)) [
        | inr hidden ↦ absurd (
            new (
              sym
                (press_issue-kept checks profile holder_did request_id purpose expiration st hidden)
              ∙ issued))
        | inl offered ↦
            let done : checks.all_done ≡ true = ground arith in
            let approved : checks.overall_valid ≡ true = ground arith in
            (
              sym (overall_valid-expected bridge chain response events done) ∙ approved,
              ground arith,
              ground arith,
              handle_issue-IssuedFor profile holder_did request_id purpose expiration hash st new
                  (sym (rw (press_issue, offered) refl) ∙ issued),
            )
      ]
