-- ===== src/Admin/Blockchain/Laws.antt =====
-- core/services: when a transaction is sent, with which arguments, and what is recorded of it.
use did_wallet_thesis.Common.{
  ℕ, ◌≤◌, ◌≡◌, refl, String, Bool, true, false, Option, none, some, Result, ok, throw, ◌==◌, arith,
  ◌⊎◌, inl, inr, Result-cases, Option-cases, Bool-cases, get_or, is_thrown, not, ◌&&◌, ◌<◌, leb, ap,
  ◌∙◌, sym,
}
use mathlib.Core.Bool.{true≢false}
use Prim.Native.String.{count}
use did_wallet_thesis.Common.Text.{to_lower, count-pad_end, pad_end_long, nth}
use did_wallet_thesis.Admin.ApiError.{ApiError}
use did_wallet_thesis.Admin.Signer.{SignerState, get_transaction_signer}
use did_wallet_thesis.Admin.Blockchain.{
  Config, Ethers, scope_map, to_bytes32, with_prefix, zero_hash, issue_accreditation, submit_issue,
  issue_accreditation_call,
}
use did_wallet_thesis.Admin.Blockchain.Registry.{
  Backend, issue_via_client_wallet, record_accreditation_request, post_call, did_of_address,
}

count-zero_hash : count zero_hash ≡ 66
unfolding zero_hash
count-zero_hash = refl

-- An identifier that is at most 32 bytes long, its prefix `0x` counted, is passed as exactly 32 bytes:
-- 66 characters; and so is a missing one.
pub count-to_bytes32 :
    (id : Option String) → count (with_prefix (get_or id "")) ≤ 66 → count (to_bytes32 id) ≡ 66
unfolding to_bytes32
count-to_bytes32 none h = count-zero_hash
count-to_bytes32 (some id) h = elim (Bool-cases (id == "")) [
  | inl empty ↦ rw (to_bytes32, empty) count-zero_hash
  | inr full ↦ rw (to_bytes32, full) (count-pad_end (with_prefix id) 66 (nth "0" 0) h)
]

-- What is passed for an optional identifier: 66 characters, the prefix `0x` and 32 bytes, unless the
-- identifier is longer than that; then it is passed as it is.
abbrev pub IsPassedFor : Option String → String → Type 0
IsPassedFor id passed =
    (passed ≡ to_bytes32 id)
    × ((count passed ≡ 66)
        ⊎ ((given : String) × (id ≡ some given)
            × (66 < count (with_prefix given))
            × (passed ≡ with_prefix given)))

to_bytes32-IsPassedFor : (id : Option String) → IsPassedFor id (to_bytes32 id)
unfolding to_bytes32
to_bytes32-IsPassedFor none = (refl, inl count-zero_hash)
to_bytes32-IsPassedFor (some id) = elim (Bool-cases (leb (count (with_prefix id)) 66)) [
  | inl short ↦ (refl, inl (count-to_bytes32 (some id) (ground arith)))
  | inr long ↦ elim (Bool-cases (id == "")) [
    | inl empty ↦ (refl, inl (rw (to_bytes32, empty) count-zero_hash))
    | inr full ↦ (
      refl,
      inr (
        id,
        refl,
        ground arith,
        rw (to_bytes32, full) (pad_end_long (with_prefix id) 66 (nth "0" 0) (ground arith)),
      ),
    )
  ]
]

abbrev is_ready : {S : Type 0} → Config → SignerState S → Bool
is_ready config st =
    not (config.rpc_url == "")
    && (not (config.accreditation_registry_address == "") && st.has_signer)

module _ {S W : Type 0} (chain : Ethers S W) (config : Config) (st : SignerState S) where
  abbrev pub IssueSent : String → String → Option String → W → Result ApiError String × W → Type 0
  IssueSent subject scope parent w outcome =
      (wallet : S) × (address : String) × (value : ℕ) × (passed : String)
      × ((config.accreditation_registry_address == "") ≡ false)
      × (st.signer ≡ some wallet)
      × (chain.get_address (to_lower subject) ≡ ok address)
      × (scope_map scope ≡ some value)
      × IsPassedFor parent passed
      × (outcome
          ≡ chain.send config.accreditation_registry_address wallet
              (issue_accreditation_call address value passed zero_hash 0) w)

  -- `issueAccreditation` either throws and has sent nothing, or it made one call: to the configured
  -- registry, with the signer at hand, for the checked address of the subject, the number of a known
  -- scope, without permissions and expiry; the parent's identifier is passed as a text of 66 characters,
  -- the prefix and 32 bytes, or, when it is longer than that, as it is.
  pub issue_accreditation_lem :
      (subject scope : String) (parent : Option String) (w : W)
      → let outcome = issue_accreditation chain config st subject scope parent w in
        ((is_thrown outcome.0 ≡ true) × (outcome.1 ≡ w)) ⊎ IssueSent subject scope parent w outcome
  unfolding issue_accreditation submit_issue get_transaction_signer
  issue_accreditation_lem subject scope parent w = elim (Bool-cases (is_ready config st)) [
    | inr unready ↦ inl (ground arith, ground arith)
    | inl ready ↦ elim (Option-cases (scope_map scope)) [
      | inl unknown ↦ inl (ground arith, ground arith)
      | inr (value, known) ↦ elim (Option-cases st.signer) [
        | inl lost ↦ inl (ground arith, ground arith)
        | inr (wallet, held) ↦ elim (Result-cases (chain.get_address (to_lower subject))) [
          | inr (e, refused) ↦ inl (ground arith, ground arith)
          | inl (address, checked) ↦ inr (
            wallet,
            address,
            value,
            to_bytes32 parent,
            ground arith,
            held,
            checked,
            known,
            to_bytes32-IsPassedFor parent,
            ground arith,
          )
        ]
      ]
    ]
  ]

  -- What `issueViaClientWallet` does once the transaction was sent: it throws what sending threw, or
  -- calls the backend with the hash of the transaction.
  abbrev pub RecordedAfter :
      {A : Type 0}
      → Backend A W
      → String
      → String
      → String
      → Option String
      → Option String
      → Result ApiError String × W
      → Result ApiError A × W
      → Type 0
  RecordedAfter backend issuer_did subject scope name parent sent outcome =
      ((e : ApiError) × (sent.0 ≡ throw e) × (outcome ≡ (throw e, sent.1)))
      ⊎ ((tx_hash : String) × (sent.0 ≡ ok tx_hash)
          × (outcome
              ≡ backend
                  (post_call "/api/accreditations/record" (
                    record_accreditation_request tx_hash issuer_did (did_of_address subject) scope
                      name parent))
                  sent.1))

  RecordedAfter-issue_via_client_wallet :
      {A : Type 0} (backend : Backend A W) (issuer_did subject scope : String)
      (name parent : Option String) (w : W)
      → RecordedAfter backend issuer_did subject scope name parent
          (issue_accreditation chain config st subject scope parent w)
          (issue_via_client_wallet chain config st backend issuer_did subject scope name parent w)
  unfolding issue_via_client_wallet
  RecordedAfter-issue_via_client_wallet backend issuer_did subject scope name parent w =
      elim (Result-cases (issue_accreditation chain config st subject scope parent w).0) [
        | inr (e, f) ↦ inl (e, f, ground arith)
        | inl (tx_hash, f) ↦ inr (tx_hash, f, ground arith)
      ]

  -- `issueViaClientWallet` either throws and nothing has happened, neither on the chain nor at the
  -- backend; or the one transaction of the accreditation was sent to the configured registry by the
  -- signer at hand: then it throws what sending threw, without a call of the backend, or it calls the
  -- backend once, with the hash of that transaction and the DID of its subject.
  pub issue_via_client_wallet_lem :
      {A : Type 0} (backend : Backend A W) (issuer_did subject scope : String)
      (name parent : Option String) (w : W)
      → let outcome =
          issue_via_client_wallet chain config st backend issuer_did subject scope name parent w in
        ((is_thrown outcome.0 ≡ true) × (outcome.1 ≡ w))
        ⊎ ((sent : Result ApiError String × W) × IssueSent subject scope parent w sent
            × RecordedAfter backend issuer_did subject scope name parent sent outcome)
  issue_via_client_wallet_lem backend issuer_did subject scope name parent w =
      let sent = issue_accreditation chain config st subject scope parent w in
      let recorded =
        RecordedAfter-issue_via_client_wallet backend issuer_did subject scope name parent w in
      elim (issue_accreditation_lem subject scope parent w) [
        | inr made ↦ inr (sent, made, recorded)
        | inl (thrown, same) ↦ elim recorded [
          | inl (e, f, outcome) ↦
              inl (ap (λ x. is_thrown x.0) outcome, ap (λ x. x.1) outcome ∙ same)
          | inr (tx_hash, f, outcome) ↦ absurd (true≢false (sym thrown ∙ ap is_thrown f))
        ]
      ]
