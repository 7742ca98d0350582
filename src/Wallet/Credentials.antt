-- ===== src/Wallet/Credentials.antt =====
-- services/credentialService.ts: the credentials in Veramo's data store. The store is an interface whose
-- laws are those of a table with the hash as its key. Whether a call of the agent succeeds is an input: a
-- call that it refuses leaves the table as it is, and the code goes on, returns false or throws.
pub mod Laws
mod Tests
use did_wallet_thesis.Common.{
  ℕ, String, Bool, true, false, Option, none, some, List, [], ◌∷◌, map, Result, ok, throw, ◌==◌,
  if◌then◌else◌, length, truthy, ◌≡◌, ◌&&◌, suc,
}
use Prim.Native.String
use did_wallet_thesis.Common.Decimal.{print}

pub record CredentialSubject : Type 0 where
  pub id : String
  pub credential_id : String
  pub credential_type : String
  pub issuer_accreditation_id : Option String
  pub issuer_name : Option String
  pub transaction_hash : String
  pub status : String

pub record VerifiableCredential : Type 0 where
  pub types : List String
  pub issuer : String
  pub issuance_date : String
  pub credential_subject : CredentialSubject
  pub proof_type : Option String
  pub proof_transaction_hash : Option String

pub record DataStoreEntry : Type 0 where
  pub hash : String
  pub verifiable_credential : VerifiableCredential

-- The credentials under a hash.
unfoldable pub under : String → List DataStoreEntry → List VerifiableCredential
under h [] = []
under h (e ∷ es) =
    let rest = under h es in if e.hash == h then e.verifiable_credential ∷ rest else rest

pub record DataStore : Type 1 where
  pub Store : Type 0
  pub hash_of : VerifiableCredential → String
  pub get_credentials : Store → List DataStoreEntry
  pub delete_credential : String → Store → Store
  pub save_credential : VerifiableCredential → Store → Store
  pub get-delete :
      (h k : String) (s : Store)
      → under h (get_credentials (delete_credential k s))
        ≡ (if k == h then [] else under h (get_credentials s))
  pub get-save :
      (h : String) (vc : VerifiableCredential) (s : Store)
      → under h (get_credentials (save_credential vc s))
        ≡ (if hash_of vc == h then vc ∷ [] else under h (get_credentials s))

-- What the backend answers about a credential.
pub record BackendCredential : Type 0 where
  pub credential_id : String
  pub credential_type : String
  pub issuer_did : String
  pub holder_did : String
  pub issued_at : String
  pub issuer_accreditation_id : Option String
  pub issuer_name : Option String
  pub transaction_hash : String
  pub status : String

abbrev pub when_truthy : Option String → Option String
when_truthy o = if truthy o then o else none

unfoldable pub credential_of : BackendCredential → VerifiableCredential
credential_of cred = record {
  types = "VerifiableCredential" ∷ cred.credential_type ∷ [];
  issuer = cred.issuer_did;
  issuance_date = cred.issued_at;
  credential_subject = record {
    id = cred.holder_did;
    credential_id = cred.credential_id;
    credential_type = cred.credential_type;
    issuer_accreditation_id = when_truthy cred.issuer_accreditation_id;
    issuer_name = when_truthy cred.issuer_name;
    transaction_hash = cred.transaction_hash;
    status = cred.status;
  };
  proof_type = some "EthereumOnChainProof";
  proof_transaction_hash = some cred.transaction_hash;
}

abbrev pub text_is : String → Option String → Bool
text_is t none = false
text_is t (some s) = s == t

unfoldable pub is_on_chain : VerifiableCredential → Bool
is_on_chain vc = text_is "EthereumOnChainProof" vc.proof_type

-- `fetch` throws, or the response has a status that is not ok, or it has a list.
pub data SyncReply : Type 0 where
  listed : List BackendCredential → SyncReply
  not_ok : ℕ → SyncReply

-- How the agent ends a call that returns nothing of use.
abbrev pub Ending : Type 0
Ending = Result String (Unit {0})

abbrev pub is_done : Ending → Bool
is_done (ok done) = true
is_done (throw e) = false

-- How the agent ends the calls of a sync: the listing, the deletion of each hash, which is a key and so is
-- deleted once at most, and the saving of each answer, by its place in the list.
pub record SyncEndings : Type 0 where
  pub listing : Ending
  pub deletion : String → Ending
  pub saving : ℕ → Ending

module _ (store : DataStore) where
  open store use {Store, get_credentials, delete_credential, save_credential}

  unfoldable pub remove_synced : (String → Ending) → List DataStoreEntry → Store → Store
  unfolding is_on_chain
  remove_synced deletion [] s = s
  remove_synced deletion (e ∷ existing) s = remove_synced deletion existing (
      if is_on_chain e.verifiable_credential && is_done (deletion e.hash)
      then delete_credential e.hash s
      else s)

  unfoldable pub save_all : (ℕ → Ending) → ℕ → List BackendCredential → Store → Store
  unfolding credential_of
  save_all saving i [] s = s
  save_all saving i (cred ∷ credentials) s =
      save_all saving (suc i) credentials
        (if is_done (saving i) then save_credential (credential_of cred) s else s)

  unfoldable pub synced : SyncEndings → List BackendCredential → Store → Store
  unfolding remove_synced save_all
  synced endings credentials s =
      save_all endings.saving 0 credentials (remove_synced endings.deletion (get_credentials s) s)

  -- `started` is how `initialize` ended, `url` the address of the service.
  unfoldable pub fetch_from_backend :
      Ending → String → Result String SyncReply → SyncEndings → Store → Result String ℕ × Store
  unfolding synced
  fetch_from_backend (throw e) url reply endings s = (throw e, s)
  fetch_from_backend (ok done) url (throw e) endings s = (throw e, s)
  fetch_from_backend (ok done) url (ok (not_ok status)) endings s = (
    throw (
        String.◌++◌ "Credential sync returned "
          (String.◌++◌ (print status) (String.◌++◌ " from " url))),
    s,
  )
  fetch_from_backend (ok done) url (ok (listed credentials)) endings s = elim endings.listing [
    | throw e ↦ (throw e, s)
    | ok listing ↦ (ok (length credentials), synced endings credentials s)
  ]

  -- `deletion` is how the agent ends the deletion.
  unfoldable pub delete_by_hash : Ending → Ending → String → Store → Result String Bool × Store
  delete_by_hash (throw e) deletion hash s = (throw e, s)
  delete_by_hash (ok done) (throw e) hash s = (ok false, s)
  delete_by_hash (ok done) (ok deletion) hash s = (ok true, delete_credential hash s)

  -- `created` is the credential that the agent signs and saves, or what it throws.
  unfoldable pub issue_credential :
      Ending
      → Result String VerifiableCredential
      → Store
      → Result String VerifiableCredential × Store
  issue_credential (throw e) created s = (throw e, s)
  issue_credential (ok done) (throw e) s = (throw e, s)
  issue_credential (ok done) (ok vc) s = (ok vc, save_credential vc s)

-- The calls that change the store, each with how the calls it makes end: a sync, the deletion of a
-- credential, and the issuing of one.
pub data Operation : Type 0 where
  fetched : Ending → String → Result String SyncReply → SyncEndings → Operation
  deleted : Ending → Ending → String → Operation
  issued : Ending → Result String VerifiableCredential → Operation

-- What a call returns.
pub data Returned : Type 0 where
  count_of : Result String ℕ → Returned
  whether : Result String Bool → Returned
  credential : Result String VerifiableCredential → Returned

module _ (store : DataStore) where
  unfoldable pub perform : Operation → store.Store → Returned × store.Store
  unfolding fetch_from_backend delete_by_hash issue_credential
  perform (fetched started url reply endings) s =
      let (count, s') = fetch_from_backend store started url reply endings s in (count_of count, s')
  perform (deleted started deletion hash) s =
      let (gone, s') = delete_by_hash store started deletion hash s in (whether gone, s')
  perform (issued started created) s =
      let (vc, s') = issue_credential store started created s in (credential vc, s')

  -- The calls one after the other, and what they return.
  unfoldable pub perform_all : List Operation → store.Store → List Returned × store.Store
  unfolding perform
  perform_all [] s = ([], s)
  perform_all (operation ∷ rest) s =
      let (value, s') = perform operation s in
      let (values, end) = perform_all rest s' in (value ∷ values, end)
