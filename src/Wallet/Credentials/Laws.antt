-- ===== src/Wallet/Credentials/Laws.antt =====
-- services/credentialService.ts: the store implements a table from hashes to credentials.
use did_wallet_thesis.Common.{
  ℕ, suc, String, Bool, true, false, List, [], ◌∷◌, ok, throw, ◌==◌, if◌then◌else◌, any, ◌≡◌, refl,
  ap, ◌∙◌, sym, ◌&&◌, eq_iff, Bool-cases, Result-cases, inl, inr,
}
use did_wallet_thesis.Wallet.Credentials.{
  VerifiableCredential, DataStoreEntry, under, DataStore, BackendCredential, credential_of,
  is_on_chain, listed, not_ok, Ending, is_done, SyncEndings, remove_synced, save_all, synced,
  fetch_from_backend, delete_by_hash, issue_credential, Operation, fetched, deleted, issued,
  perform, perform_all,
}

-- The abstract store: the credentials under each hash.
abbrev pub Table : Type 0
Table = String → List VerifiableCredential

-- The answers of a sync go in one after the other, except the ones that the agent does not save.
abbrev pub puts :
    (VerifiableCredential → String) → (ℕ → Ending) → ℕ → List BackendCredential → Table → Table
puts hash_of saving i [] table h = table h
puts hash_of saving i (cred ∷ credentials) table h =
    puts hash_of saving (suc i) credentials
      (λ (k : String).
        if is_done (saving i) && hash_of (credential_of cred) == k
        then credential_of cred ∷ []
        else table k)
      h

-- A sync first drops what came from the chain, except the hashes that the agent does not delete.
abbrev pub without_synced : (String → Ending) → Table → Table
without_synced deletion table h =
    if any is_on_chain (table h) && is_done (deletion h) then [] else table h

abbrev pub replay : (VerifiableCredential → String) → Operation → Table → Table
replay hash_of (fetched (ok done) url (ok (listed credentials)) endings) table h =
    if is_done endings.listing
    then puts hash_of endings.saving 0 credentials (without_synced endings.deletion table) h
    else table h
replay hash_of (fetched started url reply endings) table h = table h
replay hash_of (deleted started deletion hash) table h =
    if is_done started && is_done deletion && hash == h then [] else table h
replay hash_of (issued (ok done) (ok vc)) table h = if hash_of vc == h then vc ∷ [] else table h
replay hash_of (issued started created) table h = table h

abbrev pub replay_all : (VerifiableCredential → String) → List Operation → Table → Table
replay_all hash_of [] table h = table h
replay_all hash_of (operation ∷ rest) table h =
    replay_all hash_of rest (λ (k : String). replay hash_of operation table k) h

both_empty : (b : Bool) → ◌≡◌ {A = List VerifiableCredential} (if b then [] else []) []
both_empty true = refl
both_empty false = refl

kept_either :
    (b : Bool) (table : List VerifiableCredential) → (if b && false then [] else table) ≡ table
kept_either true table = refl
kept_either false table = refl

module _ (store : DataStore) where
  open store use {
    Store, hash_of, get_credentials, delete_credential, save_credential, get-delete, get-save,
  }

  abbrev pub view : Store → Table
  view s h = under h (get_credentials s)

  remove_synced-view :
      (deletion : String → Ending) (h : String) (existing : List DataStoreEntry) (s : Store)
      → view (remove_synced store deletion existing s) h
        ≡ (if any is_on_chain (under h existing) && is_done (deletion h) then [] else view s h)
  unfolding remove_synced under
  remove_synced-view deletion h [] s = refl
  remove_synced-view deletion h (e ∷ existing) s =
      let dropped = remove_synced-view deletion h existing (delete_credential e.hash s) in
      let kept = remove_synced-view deletion h existing s in
      let gone = get-delete h e.hash s in
      elim (Bool-cases (is_on_chain e.verifiable_credential)) [
        | inr local ↦ elim (Bool-cases (e.hash == h)) [
          | inr other ↦ rw (local, other) kept
          | inl same ↦ rw (local, same) (kept ∙ rw local refl)
        ]
        | inl chain ↦ elim (Bool-cases (is_done (deletion e.hash))) [
          | inr refused ↦ elim (Bool-cases (e.hash == h)) [
            | inr other ↦ rw (chain, refused, other) kept
            | inl same ↦
                let here =
                  ap (λ k. is_done (deletion k)) (sym ((eq_iff e.hash h).0 same)) ∙ refused in
                rw (chain, refused, same)
                  (kept
                    ∙ rw (here, chain)
                        (kept_either (any is_on_chain (under h existing)) (view s h)))
          ]
          | inl done ↦ elim (Bool-cases (e.hash == h)) [
            | inr other ↦ rw (chain, done, other) (dropped ∙ rw (gone, other) refl)
            | inl same ↦
                let here = ap (λ k. is_done (deletion k)) (sym ((eq_iff e.hash h).0 same)) ∙ done in
                rw (chain, done, same)
                  (dropped
                    ∙ rw (gone, same, chain, here)
                        (both_empty (any is_on_chain (under h existing) && true)))
          ]
        ]
      ]

  saved-view :
      (ending : Ending) (vc : VerifiableCredential) (h : String) (s : Store)
      → view (if is_done ending then save_credential vc s else s) h
        ≡ (if is_done ending && hash_of vc == h then vc ∷ [] else view s h)
  saved-view (ok done) vc h s = get-save h vc s
  saved-view (throw e) vc h s = refl

  save_all-view :
      (saving : ℕ → Ending) (i : ℕ) (h : String) (credentials : List BackendCredential) (s : Store)
      → view (save_all store saving i credentials s) h
        ≡ puts hash_of saving i credentials (view s) h
  unfolding save_all
  save_all-view saving i h [] s = refl
  save_all-view saving i h (cred ∷ credentials) s =
      save_all-view saving (suc i) h credentials
        (if is_done (saving i) then save_credential (credential_of cred) s else s)
      ∙ ap (λ (table : Table). puts hash_of saving (suc i) credentials table h)
          (λ j k. saved-view (saving i) (credential_of cred) k s j)

  synced-view :
      (endings : SyncEndings) (h : String) (credentials : List BackendCredential) (s : Store)
      → view (synced store endings credentials s) h
        ≡ puts hash_of endings.saving 0 credentials (without_synced endings.deletion (view s)) h
  unfolding synced
  synced-view endings h credentials s =
      save_all-view endings.saving 0 h credentials
        (remove_synced store endings.deletion (get_credentials s) s)
      ∙ ap (λ (table : Table). puts hash_of endings.saving 0 credentials table h)
          (λ i k. remove_synced-view endings.deletion k (get_credentials s) s i)

  listed-view :
      (endings : SyncEndings) (url h : String) (credentials : List BackendCredential) (s : Store)
      → view (fetch_from_backend store (ok tt) url (ok (listed credentials)) endings s).1 h ≡ (
          if is_done endings.listing
          then puts hash_of endings.saving 0 credentials
              (without_synced endings.deletion (view s))
              h
          else view s h)
  unfolding fetch_from_backend
  listed-view endings url h credentials s = elim (Result-cases endings.listing) [
    | inl (done, e) ↦ rw e (synced-view endings h credentials s)
    | inr (message, e) ↦ rw e refl
  ]

  perform-replay :
      (operation : Operation) (h : String) (s : Store)
      → view (perform store operation s).1 h ≡ replay hash_of operation (view s) h
  unfolding perform fetch_from_backend delete_by_hash issue_credential
  perform-replay (fetched (ok done) url (ok (listed credentials)) endings) h s =
      listed-view endings url h credentials s
  perform-replay (fetched (ok done) url (ok (not_ok status)) endings) h s = refl
  perform-replay (fetched (ok done) url (throw e) endings) h s = refl
  perform-replay (fetched (throw e) url reply endings) h s = refl
  perform-replay (deleted (throw e) deletion hash) h s = refl
  perform-replay (deleted (ok done) (throw e) hash) h s = refl
  perform-replay (deleted (ok done) (ok deletion) hash) h s = get-delete h hash s
  perform-replay (issued (throw e) created) h s = refl
  perform-replay (issued (ok done) (throw e)) h s = refl
  perform-replay (issued (ok done) (ok vc)) h s = get-save h vc s

  -- Whatever syncs, deletions and issues follow each other, and however the agent ends each of the calls
  -- that they make, the store holds under each hash what the table that knows only the hashes holds. A
  -- deletion empties its hash unless the agent was not started or refuses it; an issue replaces what was
  -- under the hash of its credential unless it throws; a sync that throws changes nothing, and another one
  -- drops every hash with a credential from the chain whose deletion is not refused, and then puts in, in
  -- order, the answers whose saving is not refused.
  pub perform_all-replay_all :
      (operations : List Operation) (h : String) (s : Store)
      → view (perform_all store operations s).1 h ≡ replay_all hash_of operations (view s) h
  unfolding perform_all
  perform_all-replay_all [] h s = refl
  perform_all-replay_all (operation ∷ rest) h s =
      perform_all-replay_all rest h (perform store operation s).1
      ∙ ap (λ (table : Table). replay_all hash_of rest table h)
          (λ i k. perform-replay operation k s i)
