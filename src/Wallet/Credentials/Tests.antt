-- ===== src/Wallet/Credentials/Tests.antt =====
-- services/credentialService.ts: a data store that is a list, and a run on it.
use did_wallet_thesis.Common.{
  String, false, some, List, [], ◌∷◌, ok, throw, ◌==◌, if◌then◌else◌, ◌≡◌, refl, eq_iff, Bool-cases,
  inl, inr, ap, ◌∙◌, sym,
}
use did_wallet_thesis.Common.Decimal.{print}
use did_wallet_thesis.Wallet.Credentials.{
  VerifiableCredential, DataStoreEntry, under, DataStore, BackendCredential, credential_of,
  is_on_chain, listed, not_ok, SyncEndings, Operation, fetched, deleted, issued, count_of, whether,
  credential, perform, perform_all, fetch_from_backend, synced, remove_synced, save_all,
  delete_by_hash, issue_credential,
}
use did_wallet_thesis.Wallet.Credentials.Laws.{view, replay_all, perform_all-replay_all}

remove : String → List DataStoreEntry → List DataStoreEntry
remove k [] = []
remove k (e ∷ es) = let rest = remove k es in if e.hash == k then rest else e ∷ rest

under-remove :
    (h k : String) (es : List DataStoreEntry)
    → under h (remove k es) ≡ (if k == h then [] else under h es)
unfolding under remove
under-remove h k [] = elim (Bool-cases (k == h)) [
  | inl same ↦ rw same refl
  | inr other ↦ rw other refl
]
under-remove h k (e ∷ es) =
    let rest = under-remove h k es in
    elim (Bool-cases (e.hash == k)) [
      | inl here ↦ elim (Bool-cases (k == h)) [
        | inl same ↦ rw (here, same) (rest ∙ rw same refl)
        | inr other ↦
            let elsewhere = ap (λ (x : String). x == h) ((eq_iff e.hash k).0 here) ∙ other in
            rw (here, other, elsewhere) (rest ∙ rw other refl)
      ]
      | inr kept ↦ elim (Bool-cases (k == h)) [
        | inl same ↦
            let elsewhere = ap (λ (x : String). e.hash == x) (sym ((eq_iff k h).0 same)) ∙ kept in
            rw (kept, same, elsewhere) (rest ∙ rw same refl)
        | inr other ↦ elim (Bool-cases (e.hash == h)) [
          | inl found ↦
              rw (kept, other, found)
                (ap (λ (vcs : List VerifiableCredential). e.verifiable_credential ∷ vcs)
                  (rest ∙ rw other refl))
          | inr elsewhere ↦ rw (kept, other, elsewhere) (rest ∙ rw other refl)
        ]
      ]
    ]

-- The hash of a credential is its number.
abbrev number_of : VerifiableCredential → String
number_of vc = vc.credential_subject.credential_id

abbrev entry_of : VerifiableCredential → DataStoreEntry
entry_of vc = record { hash = number_of vc; verifiable_credential = vc }

put : VerifiableCredential → List DataStoreEntry → List DataStoreEntry
put vc es = entry_of vc ∷ remove (number_of vc) es

under-put :
    (h : String) (vc : VerifiableCredential) (es : List DataStoreEntry)
    → under h (put vc es) ≡ (if number_of vc == h then vc ∷ [] else under h es)
unfolding put under
under-put h vc es = elim (Bool-cases (number_of vc == h)) [
  | inl same ↦ rw same (
      ap (λ (vcs : List VerifiableCredential). vc ∷ vcs)
        (under-remove h (number_of vc) es ∙ rw same refl))
  | inr other ↦ rw other (under-remove h (number_of vc) es ∙ rw other refl)
]

abbrev store : DataStore
store = record {
  Store = List DataStoreEntry;
  hash_of = number_of;
  get_credentials = λ es. es;
  delete_credential = remove;
  save_credential = put;
  get-delete = under-remove;
  get-save = under-put;
}

abbrev answer : String → BackendCredential
answer status = record {
  credential_id = "c1";
  credential_type = "Diploma";
  issuer_did = "did:ethr:sepolia:0x01";
  holder_did = "did:ethr:sepolia:0xab";
  issued_at = "2026-01-01";
  issuer_accreditation_id = some "0x01";
  issuer_name = some "";
  transaction_hash = "0x99";
  status = status;
}

-- An agent that does what it is asked, and one that does not delete.
abbrev willing : SyncEndings
willing = record { listing = ok tt; deletion = λ _. ok tt; saving = λ _. ok tt }

abbrev unwilling : SyncEndings
unwilling = record { listing = ok tt; deletion = λ _. throw "busy"; saving = λ _. throw "busy" }

-- A sync, another one after the credential was revoked, one that the service refuses, one that the agent
-- refuses, a deletion that it refuses, and an issue that throws.
abbrev operations : List Operation
operations =
    fetched (ok tt) "http://x" (ok (listed (answer "Active" ∷ []))) willing
    ∷ fetched (ok tt) "http://x" (ok (listed (answer "Revoked" ∷ []))) willing
    ∷ fetched (ok tt) "http://x" (ok (not_ok 503)) willing
    ∷ fetched (ok tt) "http://x" (ok (listed (answer "Active" ∷ []))) unwilling
    ∷ deleted (ok tt) (throw "busy") "c1"
    ∷ issued (ok tt) (throw "no key")
    ∷ []

revoked : perform_all store operations [] ≡ (
  count_of (ok 1)
      ∷ count_of (ok 1)
      ∷ count_of (throw "Credential sync returned 503 from http://x")
      ∷ count_of (ok 1)
      ∷ whether (ok false)
      ∷ credential (throw "no key")
      ∷ [],
  entry_of (credential_of (answer "Revoked")) ∷ [],
)
unfolding perform_all perform fetch_from_backend synced remove_synced save_all put remove
    is_on_chain credential_of delete_by_hash issue_credential print
revoked = refl

perform_all-replay_all_example :
    view store (perform_all store operations []).1 "c1"
    ≡ replay_all number_of operations (view store []) "c1"
perform_all-replay_all_example = perform_all-replay_all store operations "c1" []
