-- ===== src/Wallet/History.antt =====
-- services/presentationService.ts: the presentations that were sent, newest first. The state is the
-- item `vp_history` of AsyncStorage. Its JSON text is a parameter, which reads back what it wrote; an
-- empty text reads as none, so it needs no test of its own.
use did_wallet_thesis.Common.{◌≡◌, refl, String, Option, none, some, List, [], ◌∷◌, get_or}
use did_wallet_thesis.Wallet.Presentation.{PresentationResponse}

pub record StoredPresentation (P V : Type 0) : Type 0 where
  pub id : String
  pub purpose : String
  pub verifier_did : String
  pub response : PresentationResponse P V
  pub submitted_at : String

pub record HistoryJson (P V : Type 0) : Type 1 where
  pub Json : Type 0
  pub write : List (StoredPresentation P V) → Json
  pub read : Json → Option (List (StoredPresentation P V))
  pub read-write : (entries : List (StoredPresentation P V)) → read (write entries) ≡ some entries

module _ {P V : Type 0} (json : HistoryJson P V) where
  open json use {Json, write, read, read-write}

  unfoldable pub list : Option Json → List (StoredPresentation P V)
  list none = []
  list (some raw) = get_or (read raw) []

  unfoldable pub save : StoredPresentation P V → Option Json → Option Json
  unfolding list
  save entry item = some (write (entry ∷ list item))

  unfoldable pub clear : Option Json → Option Json
  clear item = none

  -- A presentation that is saved stands before those that were there, also where the stored text could
  -- not be read; after `clear` there is none.
  pub list-save :
      (entry : StoredPresentation P V) (item : Option Json)
      → (list (save entry item) ≡ entry ∷ list item) × (list (clear (save entry item)) ≡ [])
  unfolding list save clear
  list-save entry item = (rw (read-write (entry ∷ list item)) refl, refl)
