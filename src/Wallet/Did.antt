-- ===== src/Wallet/Did.antt =====
-- services/didService.ts: the identity of the wallet. Veramo's agent, the curve, keccak256 and the
-- checksum of an address are parameters.
pub mod Laws
mod Tests
use Prim.Native.String
use Prim.Native.String.{[], ◌∷◌, count}
use did_wallet_thesis.Common.{
  ℕ, String, Bool, true, false, not, Option, none, some, List, Result, ok, throw, eqb, ◌==◌, ◌-◌,
  first, if◌then◌else◌, truthy, get_or, run_then, suc, zero,
}
use did_wallet_thesis.Common.Text.{to_lower}
use did_wallet_thesis.Common.Decimal.{print}
use Prim.Native.Char.{code}

pub record AgentKey : Type 0 where
  pub kid : String
  pub key_type : String
  pub public_key_hex : String

pub record Identifier : Type 0 where
  pub did : String
  pub provider : String
  pub alias : Option String
  pub keys : List AgentKey

pub record DidInfo : Type 0 where
  pub did : String
  pub ethereum_address : String
  pub provider : String
  pub alias : Option String
  pub keys : List AgentKey

-- What the agent answers in a state of its database, and the state afterwards.
pub record VeramoAgent : Type 1 where
  pub Database : Type 0
  pub initialize_agent : String → Database → Result String (Unit {0}) × Database
  pub did_manager_find : String → Database → Result String (List Identifier)
  pub did_manager_create : String → String → Database → Result String Identifier × Database
  pub did_manager_get : String → Database → Result String Identifier
  pub key_manager_sign : String → String → Database → Result String String

-- `keccak_of` is the hash of a key's bytes but the first.
pub record Curve : Type 0 where
  pub get_address : String → Result String String
  pub compute_public_key : String → Result String String
  pub keccak_of : String → String

-- `did.split(":").pop()`.
unfoldable pub last_part : String → String → String
last_part acc [] = acc
last_part acc (c ∷ s) =
    if eqb (code c) b':' then last_part "" s else last_part (String.◌++◌ acc (c ∷ "")) s

unfoldable pub drop_chars : ℕ → String → String
drop_chars zero s = s
drop_chars (suc n) [] = []
drop_chars (suc n) (c ∷ s) = drop_chars n s

-- `s.slice(-n)`.
unfoldable pub take_last : ℕ → String → String
unfolding drop_chars
take_last n s = drop_chars (count s - n) s

unfoldable pub derive_ethereum_address : Curve → String → Result String String
unfolding last_part take_last
derive_ethereum_address curve did =
    let raw = last_part "" did in
    if eqb (count raw) 42 then curve.get_address raw else elim (curve.compute_public_key raw) [
      | throw e ↦ throw e
      | ok uncompressed ↦
          curve.get_address (String.◌++◌ "0x" (take_last 40 (curve.keccak_of uncompressed)))
    ]

abbrev pub wallet_identity_alias : String
wallet_identity_alias = "wallet-identity"

pub record DidService (agent : VeramoAgent) : Type 0 where
  pub initialized : Bool
  pub database : agent.Database

abbrev pub info_of : Curve → Identifier → Result String DidInfo
info_of curve id = elim (derive_ethereum_address curve id.did) [
  | throw e ↦ throw e
  | ok ethereum_address ↦ ok (record {
    did = id.did;
    ethereum_address = ethereum_address;
    provider = id.provider;
    alias = id.alias;
    keys = id.keys;
  })
]

module _ (agent : VeramoAgent) (curve : Curve) where
  -- `secret_key` is what `authService.getSecretKey` returned.
  unfoldable pub initialize :
      Option String → DidService agent → Result String (Unit {0}) × DidService agent
  initialize secret_key svc =
      if svc.initialized
      then (ok tt, svc)
      else if not (truthy secret_key)
      then (throw "Wallet not created. No secret key found.", svc)
      else let (outcome, db) = agent.initialize_agent (get_or secret_key "") svc.database in
        elim outcome [
          | throw e ↦ (throw e, record svc { database = db })
          | ok done ↦ (ok tt, record { initialized = true; database = db })
        ]

  unfoldable pub found_or_created :
      Result String (List Identifier) → DidService agent → Result String DidInfo × DidService agent
  unfolding derive_ethereum_address
  found_or_created (throw e) svc = (throw e, svc)
  found_or_created (ok (List.◌∷◌ id ids)) svc = (info_of curve id, svc)
  found_or_created (ok List.[]) svc =
      let (created, db) =
        agent.did_manager_create "did:ethr:sepolia" wallet_identity_alias svc.database in
      elim created [
        | throw e ↦ (throw e, record svc { database = db })
        | ok id ↦ (info_of curve id, record svc { database = db })
      ]

  unfoldable pub get_or_create_identity :
      Option String → DidService agent → Result String DidInfo × DidService agent
  unfolding initialize found_or_created
  get_or_create_identity secret_key svc = run_then (initialize secret_key svc) (λ done svc1.
      found_or_created (agent.did_manager_find wallet_identity_alias svc1.database) svc1)

  unfoldable pub get_did :
      Option String → String → DidService agent → Result String DidInfo × DidService agent
  unfolding initialize derive_ethereum_address
  get_did secret_key did svc = run_then (initialize secret_key svc) (λ done svc1.
      elim (agent.did_manager_get did svc1.database) [
        | throw e ↦ (throw e, svc1)
        | ok id ↦ (info_of curve id, svc1)
      ])

-- The body of `/api/identities/register`.
pub record RegisterRequest : Type 0 where
  pub did : String
  pub controller_address : String
  pub display_name : String
  pub email : String
  pub account_type : String
  pub timestamp : ℕ
  pub signature : Option String
  pub public_key_hex : Option String
  pub key_type : Option String

-- The text that is signed: the address in lower case and the time in seconds.
unfoldable pub ownership_message : String → ℕ → String
unfolding to_lower
ownership_message address timestamp =
    String.◌++◌ (to_lower address) (String.◌++◌ ":" (print timestamp))

-- The payload of a refused request: the texts under `errors`, if it has an object there, in order.
pub record RefusedProfile : Type 0 where
  pub status : ℕ
  pub errors : Option (List String)
  pub message : Option String

pub data RegisterAnswer : Type 0 where
  registered : RegisterAnswer
  refused : RefusedProfile → RegisterAnswer

-- `find(Boolean)`.
abbrev pub find_filled : List String → Option String
find_filled List.[] = none
find_filled (List.◌∷◌ e errors) = let rest = find_filled errors in if e == "" then rest else some e

abbrev pub refusal_message : Option (List String) → Option String → Option String
refusal_message none message = message
refusal_message (some errors) message = find_filled errors

abbrev pub refusal_text : RefusedProfile → String
refusal_text r =
    get_or (refusal_message r.errors r.message)
      (String.◌++◌ "Profile update failed (" (String.◌++◌ (print r.status) ")"))

abbrev pub signed_request :
    String → String → String → String → ℕ → AgentKey → String → RegisterRequest
signed_request did address name email timestamp key signature = record {
  did = did;
  controller_address = address;
  display_name = name;
  email = email;
  account_type = "personal";
  timestamp = timestamp;
  signature = some signature;
  public_key_hex = some key.public_key_hex;
  key_type = some key.key_type;
}

abbrev pub answered : Result String RegisterAnswer → Result String (Unit {0})
answered (throw e) = throw e
answered (ok registered) = ok tt
answered (ok (refused r)) = throw (refusal_text r)

module _ (agent : VeramoAgent) (curve : Curve) where
  -- `post` is the request to the identity service.
  unfoldable pub update_registered_profile :
      (RegisterRequest → Result String RegisterAnswer)
      → Option String
      → String
      → String
      → String
      → String
      → ℕ
      → DidService agent
      → Result String (Unit {0}) × DidService agent
  unfolding get_did ownership_message
  update_registered_profile post secret_key did address name email timestamp svc =
      run_then (get_did agent curve secret_key did svc) (λ identity svc1.
        elim (first identity.keys) [
          | none ↦ (throw "No signing key is available for this identity", svc1)
          | some key ↦
              if key.kid == ""
              then (throw "No signing key is available for this identity", svc1)
              else (elim (agent.key_manager_sign key.kid (ownership_message address timestamp)
                  svc1.database) [
                    | throw e ↦ (throw e, svc1)
                    | ok signature ↦ (
                      answered
                          (post (signed_request did address name email timestamp key signature)),
                      svc1,
                    )
                  ])
        ])
