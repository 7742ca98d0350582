-- ===== src/Wallet/Presentation.antt =====
-- types/presentation.ts: requests and responses, and the text of a request. The codec of the platform
-- (JSON, UTF-8 and `btoa`) is a parameter.
mod Base64
mod Laws
mod Tests
use did_wallet_thesis.Common.{
  ℕ, zero, suc, ◌-◌, ◌%◌, String, Bool, true, Option, List, if◌then◌else◌, eqb, ◌&&◌,
}
use Prim.Native.Char.{Char, code}
use Prim.Native.String
use Prim.Native.String.{[], ◌∷◌, count}
use did_wallet_thesis.Common.Text.{starts_with, repeat, nth}

pub data ZkpCircuit : Type 0 where
  age_verification graduation_year_range country_membership : ZkpCircuit

-- A requirement; numbers are taken to be whole and not negative.
pub data Requirement : Type 0 where
  age_requirement : ℕ → Requirement
  graduation_requirement : ℕ → ℕ → Requirement
  country_requirement : String → Requirement
  credential_ref_requirement : String → Bool → Requirement
  full_disclosure_requirement : String → Requirement

pub record PresentationRequest : Type 0 where
  pub id : String
  pub verifier_did : String
  pub purpose : String
  pub challenge : String
  pub expires_at : String
  pub requirements : List Requirement
  pub callback_url : Option String

pub record ZkpProof (P : Type 0) : Type 0 where
  pub circuit : ZkpCircuit
  pub proof : P
  pub public_signals : List String

pub record CredentialRef : Type 0 where
  pub credential_type : String
  pub credential_hash : String
  pub issuer_accreditation_id : String

-- A disclosed credential, `none` where the wallet has none of the type.
pub record FullDisclosure (V : Type 0) : Type 0 where
  pub credential_type : String
  pub credential : Option V

-- `Omit<PresentationResponse, 'signature'>`.
pub record ResponsePayload (P V : Type 0) : Type 0 where
  pub request_id : String
  pub holder_did : String
  pub proofs : List (ZkpProof P)
  pub credential_refs : List CredentialRef
  pub full_disclosures : Option (List (FullDisclosure V))
  pub submitted_at : String

pub record PresentationResponse (P V : Type 0) : Type 0 where
  pub payload : ResponsePayload P V
  pub signature : String

replace_in : String → String → Char → Char
replace_in (u ∷ us) (l ∷ ls) c = if eqb (code u) (code c) then l else replace_in us ls c
replace_in _ _ c = c

-- `s.replace(/a/g, b)` for the characters of `from` and `to` in turn.
unfoldable pub map_chars : String → String → String → String
unfolding replace_in
map_chars from to [] = []
map_chars from to (c ∷ s) = replace_in from to c ∷ map_chars from to s

unfoldable pub all_padding : String → Bool
all_padding [] = true
all_padding (c ∷ s) = eqb (code c) b'=' && all_padding s

-- `s.replace(/=+$/, '')`.
unfoldable pub strip_padding : String → String
unfolding all_padding
strip_padding [] = []
strip_padding (c ∷ s) = let rest = strip_padding s in if all_padding (c ∷ s) then [] else c ∷ rest

unfoldable pub url_safe : String → String
unfolding map_chars strip_padding
url_safe s = strip_padding (map_chars "+/" "-_" s)

unfoldable pub pad_base64 : String → String
unfolding repeat nth
pad_base64 s = String.◌++◌ s (repeat ((4 - count s % 4) % 4) (nth "=" 0))

-- `fromBase64url` up to `atob`.
unfoldable pub url_unsafe : String → String
unfolding map_chars pad_base64
url_unsafe s = pad_base64 (map_chars "-_" "+/" s)

-- `s.replace(p, '')` for a text `p`: its first occurrence only.
drop_chars : ℕ → String → String
drop_chars zero s = s
drop_chars (suc n) [] = []
drop_chars (suc n) (c ∷ s) = drop_chars n s

unfoldable pub remove_first : String → String → String
unfolding starts_with drop_chars
remove_first p [] = []
remove_first p (c ∷ s) =
    let rest = remove_first p s in
    if starts_with p (c ∷ s) then drop_chars (count p) (c ∷ s) else c ∷ rest

-- `btoa(unescape(encodeURIComponent(JSON.stringify(request))))` and its inverse.
pub record RequestCodec : Type 0 where
  pub to_base64 : PresentationRequest → String
  pub from_base64 : String → Option PresentationRequest

abbrev pub scheme : String
scheme = "eudi-pres://"

unfoldable pub encode_presentation_request : RequestCodec → PresentationRequest → String
unfolding url_safe
encode_presentation_request codec req = String.◌++◌ scheme (url_safe (codec.to_base64 req))

unfoldable pub decode_presentation_request : RequestCodec → String → Option PresentationRequest
unfolding url_unsafe remove_first
decode_presentation_request codec encoded =
    codec.from_base64 (url_unsafe (remove_first scheme encoded))
