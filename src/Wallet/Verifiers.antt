-- ===== src/Wallet/Verifiers.antt =====
-- services/zkpVerifierRegistryService.ts: whether the verification key that the wallet ships is the one on
-- the chain. The registry's contract and keccak256 are parameters; a call that reverts throws.
use did_wallet_thesis.Common.{ℕ, String, Bool, false, not, Result, ok, throw, ◌==◌, if◌then◌else◌}
use did_wallet_thesis.Common.Text.{to_lower}

pub record CircuitRecord : Type 0 where
  pub vkey_hash : String
  pub version : ℕ
  pub registered_at : ℕ
  pub active : Bool

pub record VerifierContract : Type 0 where
  pub get : String → Result String CircuitRecord
  pub is_active : String → Result String Bool
  pub exists : String → Result String Bool

module _ (contract : VerifierContract) (keccak256 : String → String) where
  unfoldable pub get_circuit : String → Result String CircuitRecord
  get_circuit name = contract.get name

  unfoldable pub is_circuit_active : String → Result String Bool
  is_circuit_active name = contract.is_active name

  unfoldable pub circuit_exists : String → Result String Bool
  circuit_exists name = contract.exists name

  unfoldable pub hash_verification_key_json_string : String → String
  hash_verification_key_json_string json = keccak256 json

  abbrev pub matches : CircuitRecord → String → Bool
  matches r json =
      if not r.active
      then false
      else to_lower (hash_verification_key_json_string json) == to_lower r.vkey_hash

  unfoldable pub assert_bundled_vkey_matches_on_chain : String → String → Result String Bool
  unfolding get_circuit to_lower hash_verification_key_json_string
  assert_bundled_vkey_matches_on_chain name json = elim (get_circuit name) [
    | throw e ↦ throw e
    | ok r ↦ ok (matches r json)
  ]
