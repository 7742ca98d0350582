-- ===== src/Admin/Blockchain/Tests.antt =====
-- core/services: runs of the services on a world that counts what was sent and posted.
use did_wallet_thesis.Common.{
  ℕ, ◌+◌, ◌≡◌, refl, String, true, none, some, Result, ok, ◌⊎◌, is_thrown,
}
use did_wallet_thesis.Admin.ApiError.{ApiError}
use did_wallet_thesis.Admin.Signer.{SignerState, get_transaction_signer}
use did_wallet_thesis.Admin.Blockchain.{
  Config, Ethers, scope_map, issue_accreditation, submit_issue,
}
use did_wallet_thesis.Admin.Blockchain.Registry.{Backend, issue_via_client_wallet}
use did_wallet_thesis.Admin.Blockchain.Laws.{
  IssueSent, RecordedAfter, issue_accreditation_lem, issue_via_client_wallet_lem,
}

-- Each call of a contract or of the backend is counted.
abbrev chain : Ethers String ℕ
chain = record {
  send = λ contract wallet call w. (ok "0xhash", w + 1);
  get_address = λ address. ok address;
}

abbrev backend : Backend String ℕ
backend call w = (ok "stored", w + 10)

abbrev config : Config
config = record {
  eu_root_did = "did:ethr:sepolia:0x1";
  rpc_url = "http://localhost:8545";
  accreditation_registry_address = "0xreg";
  credential_registry_address = "0xcred";
}

abbrev signer : SignerState String
signer = record {
  signer = some "key";
  has_signer = true;
  address = some "0xab";
  wallet_available = true;
}

issued_and_recorded :
    issue_via_client_wallet chain config signer backend "did:i" "0xAB" "Ministry" none (some "01") 0
    ≡ (ok "stored", 11)
unfolding issue_via_client_wallet issue_accreditation submit_issue scope_map get_transaction_signer
issued_and_recorded = refl

issue_accreditation_lem_example :
    let outcome = issue_accreditation chain config signer "0xAB" "Ministry" (some "01") 0 in
    ((is_thrown outcome.0 ≡ true) × (outcome.1 ≡ 0))
    ⊎ IssueSent chain config signer "0xAB" "Ministry" (some "01") 0 outcome
issue_accreditation_lem_example =
    issue_accreditation_lem chain config signer "0xAB" "Ministry" (some "01") 0

issue_via_client_wallet_lem_example :
    let outcome =
      issue_via_client_wallet chain config signer backend "did:i" "0xAB" "Ministry" none none 0 in
    ((is_thrown outcome.0 ≡ true) × (outcome.1 ≡ 0))
    ⊎ ((sent : Result ApiError String × ℕ) × IssueSent chain config signer "0xAB" "Ministry" none 0
          sent
        × RecordedAfter chain config signer backend "did:i" "0xAB" "Ministry" none none sent
            outcome)
issue_via_client_wallet_lem_example =
    issue_via_client_wallet_lem chain config signer backend "did:i" "0xAB" "Ministry" none none 0
