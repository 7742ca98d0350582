-- ===== src/Admin/ApiError.antt =====
-- core/utils/api-error.ts. An error that a call throws, by the parts of it that the client reads.
pub mod Laws
use did_wallet_thesis.Common.{
  String, Bool, true, false, Option, none, some, List, [], ◌∷◌, Result, throw, ◌==◌, if◌then◌else◌,
  get_or,
}

-- `err.code`, the lists of `err.error.errors`, `err.error.message` and `err.message`; a value that is
-- not a list of texts in `errors` is `none`.
pub record ApiError : Type 0 where
  pub code : Option String
  pub errors : Option (List (Option (List String)))
  pub body_message : Option String
  pub message : Option String

-- `new Error(message)`.
abbrev pub error_of : String → ApiError
error_of text = record { code = none; errors = none; body_message = none; message = some text }

-- `ETHERS_ERROR_MESSAGES[code]`.
unfoldable pub ethers_error_message : String → Option String
ethers_error_message code =
    if code == "ACTION_REJECTED"
    then some "You rejected the request in your wallet."
    else if code == "INSUFFICIENT_FUNDS"
    then some "Insufficient funds to complete this transaction."
    else if code == "NETWORK_ERROR"
    then some "A network error occurred. Please check your connection and try again."
    else if code == "TIMEOUT"
    then some "The request timed out. Please try again."
    else if code == "UNSUPPORTED_OPERATION"
    then some "This operation is not supported by your wallet."
    else if code == "UNCONFIGURED_NAME"
    then some "Unable to resolve the wallet address."
    else if code == "CALL_EXCEPTION"
    then some "The transaction was rejected by the smart contract."
    else none

abbrev pub known_code : Option String → Option String
known_code none = none
known_code (some code) = ethers_error_message code

-- The first text of the first list that has one.
unfoldable pub first_message : List (Option (List String)) → Option String
first_message [] = none
first_message (none ∷ rest) = first_message rest
first_message (some [] ∷ rest) = first_message rest
first_message (some (text ∷ _) ∷ rest) = some text

abbrev pub or_else : Option String → Option String → Option String
or_else none b = b
or_else (some a) b = some a

abbrev pub listed_message : Option (List (Option (List String))) → Option String
listed_message none = none
listed_message (some lists) = first_message lists

unfoldable pub extract_api_error : ApiError → String → String
extract_api_error err fallback = elim (known_code err.code) [
  | some text ↦ text
  | none ↦ elim (listed_message err.errors) [
    | some text ↦ text
    | none ↦ get_or (or_else err.body_message err.message) fallback
  ]
]
