-- ===== src/Wallet/Zkp.antt =====
-- services/zkpService.ts: proofs of the three circuits. The prover in the web view, behind
-- zkpBridge.ts, and the bundled Merkle paths are parameters.
use did_wallet_thesis.Common.{
  ℕ, String, Bool, false, Option, none, some, List, [], ◌∷◌, Result, ok, throw, ◌==◌, ◌&&◌,
}
use Prim.Native.String
use did_wallet_thesis.Common.Text.{to_upper}
use did_wallet_thesis.Wallet.Presentation.{ZkpCircuit}

pub record MerklePath : Type 0 where
  pub numeric : ℕ
  pub path_elements : List String
  pub path_indices : List ℕ

-- The `input` of `prove`, as the consent screen builds it for each circuit.
pub data CircuitInput : Type 0 where
  age_input : String → String → String → CircuitInput
  graduation_input : String → String → String → CircuitInput
  country_input : String → String → List String → List ℕ → CircuitInput

-- `zkpBridge.prove` and `zkpBridge.verify`, with the assets of a circuit at hand.
pub record ZkpBridge (P : Type 0) : Type 0 where
  pub prove : ZkpCircuit → CircuitInput → Result String (P × List String)
  pub verify : ZkpCircuit → P → List String → Result String Bool

unfoldable pub get_merkle_path_for_country :
    (String → Option MerklePath) → String → Result String MerklePath
unfolding to_upper
get_merkle_path_for_country paths iso2_code = elim (paths (to_upper iso2_code)) [
  | some entry ↦ ok entry
  | none ↦ throw (
      String.◌++◌ "Country \"" (
        String.◌++◌ iso2_code
          "\" is not in the EU Merkle tree. Only EU member states can generate this proof."))
]

-- `publicSignals[0] === '1'`.
abbrev pub says_valid : List String → Bool
says_valid [] = false
says_valid (signal ∷ signals) = signal == "1"

unfoldable pub verify :
    {P : Type 0} → ZkpBridge P → ZkpCircuit → P → List String → Result String Bool
verify bridge circuit proof public_signals = elim (bridge.verify circuit proof public_signals) [
  | throw e ↦ throw e
  | ok proof_valid ↦ ok (proof_valid && says_valid public_signals)
]
