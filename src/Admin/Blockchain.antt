-- ===== src/Admin/Blockchain.antt =====
-- core/services/blockchain-client.service.ts: the transactions that the browser's wallet signs. The
-- contracts and ethers are third-party code: `send` submits a call and returns its hash.
mod Laws
mod Tests
pub mod Registry
use did_wallet_thesis.Common.{
  ℕ, String, Bool, true, false, Option, none, some, Result, ok, throw, ◌==◌, if◌then◌else◌, truthy,
  get_or, not, ◌||◌,
}
use Prim.Native.String
use did_wallet_thesis.Common.Text.{starts_with, to_lower, pad_end, nth}
use did_wallet_thesis.Admin.ApiError.{ApiError, error_of}
use did_wallet_thesis.Admin.Signer.{SignerState, get_transaction_signer}

-- The signals of `ConfigService`, the empty text before they are loaded.
pub record Config : Type 0 where
  pub eu_root_did : String
  pub rpc_url : String
  pub accreditation_registry_address : String
  pub credential_registry_address : String

-- `SCOPE_MAP[scope]`.
unfoldable pub scope_map : String → Option ℕ
scope_map name =
    if name == "MemberState"
    then some 1
    else if name == "Ministry"
    then some 2
    else if name == "Institution"
    then some 3
    else if name == "Department"
    then some 4
    else if name == "BusinessRegistry"
    then some 5
    else if name == "Enterprise"
    then some 6
    else none

-- A call of a contract, with the arguments that the client passes.
pub data ContractCall : Type 0 where
  issue_accreditation_call : String → ℕ → String → String → ℕ → ContractCall
  revoke_accreditation_call : String → ContractCall
  record_credential_call : String → String → String → String → ℕ → ContractCall
  revoke_credential_call : String → String → ContractCall

-- ethers, over the state `W` of the world: submitting a call to the contract at an address, and the
-- checksummed form of an address, which fails for a text that is none.
pub record Ethers (S W : Type 0) : Type 0 where
  pub send : String → S → ContractCall → W → Result ApiError String × W
  pub get_address : String → Result ApiError String

unfoldable pub zero_hash : String
zero_hash = "0x0000000000000000000000000000000000000000000000000000000000000000"

-- `id.startsWith('0x') ? id : '0x' + id`.
unfoldable pub with_prefix : String → String
with_prefix id = if starts_with "0x" id then id else String.◌++◌ "0x" id

-- An optional identifier padded to 32 bytes; a longer one is not cut.
unfoldable pub to_bytes32 : Option String → String
unfolding with_prefix zero_hash
to_bytes32 id = if truthy id then pad_end (with_prefix (get_or id "")) 66 (nth "0" 0) else zero_hash

abbrev pub not_loaded : String
not_loaded = "Blockchain configuration not loaded yet"

module _ {S W : Type 0} (chain : Ethers S W) where
  -- `hasSigner()`, `getTransactionSigner()`, and the call.
  unfoldable pub submit : String → ContractCall → SignerState S → W → Result ApiError String × W
  submit contract call st w =
      if not st.has_signer
      then (throw (error_of "SIGNER_LOST"), w)
      else elim (get_transaction_signer st) [
        | throw e ↦ (throw e, w)
        | ok wallet ↦ chain.send contract wallet call w
      ]

  -- Behind the signer, the address is checked before the call is made.
  unfoldable pub submit_issue :
      String → String → ℕ → String → SignerState S → W → Result ApiError String × W
  submit_issue contract subject scope parent st w =
      if not st.has_signer
      then (throw (error_of "SIGNER_LOST"), w)
      else elim (get_transaction_signer st) [
        | throw e ↦ (throw e, w)
        | ok wallet ↦ elim (chain.get_address (to_lower subject)) [
          | throw e ↦ (throw e, w)
          | ok address ↦
              chain.send contract wallet (issue_accreditation_call address scope parent zero_hash 0)
                w
        ]
      ]

  unfoldable pub issue_accreditation :
      Config → SignerState S → String → String → Option String → W → Result ApiError String × W
  unfolding submit_issue to_bytes32 scope_map
  issue_accreditation config st subject_address scope parent_accreditation_id w =
      if config.rpc_url == "" || config.accreditation_registry_address == ""
      then (throw (error_of not_loaded), w)
      else elim (scope_map scope) [
        | none ↦ (throw (error_of (String.◌++◌ "Unknown accreditation scope: " scope)), w)
        | some value ↦
            submit_issue config.accreditation_registry_address subject_address value
              (to_bytes32 parent_accreditation_id) st w
      ]

  unfoldable pub revoke_accreditation :
      Config → SignerState S → String → W → Result ApiError String × W
  unfolding submit with_prefix
  revoke_accreditation config st id w =
      if config.rpc_url == "" || config.accreditation_registry_address == ""
      then (throw (error_of not_loaded), w)
      else submit config.accreditation_registry_address (revoke_accreditation_call (with_prefix id))
          st w

  unfoldable pub revoke_credential :
      Config → SignerState S → String → String → W → Result ApiError String × W
  unfolding submit with_prefix
  revoke_credential config st id reason w =
      if config.credential_registry_address == ""
      then (throw (error_of not_loaded), w)
      else submit config.credential_registry_address
          (revoke_credential_call (with_prefix id) reason) st w

  -- `recordCredential`, its last argument left at 0 where the caller gives none.
  unfoldable pub record_credential :
      Config
      → SignerState S
      → String
      → String
      → String
      → Option String
      → ℕ
      → W
      → Result ApiError String × W
  unfolding submit to_bytes32
  record_credential config st holder hash kind accreditation expires_at w =
      if config.rpc_url == "" || config.credential_registry_address == ""
      then (throw (error_of not_loaded), w)
      else submit config.credential_registry_address
          (record_credential_call holder hash kind (to_bytes32 accreditation) expires_at) st w
