-- ===== src/Admin/ApiError/Laws.antt =====
-- core/utils/api-error.ts: which message is shown.
use did_wallet_thesis.Common.{
  String, ◌≡◌, refl, Option, none, some, List, [], ◌∷◌, arith, ◌++◌, All,
}
use did_wallet_thesis.Admin.ApiError.{ApiError, extract_api_error, first_message, known_code}

-- A list with no message in it.
abbrev pub IsSilent : Option (List String) → Type 0
IsSilent none = Unit
IsSilent (some []) = Unit
IsSilent (some (x ∷ xs)) = ⊥

pub first_message-append :
    (before after : List (Option (List String))) (text : String) (more : List String)
    → All IsSilent before
    → first_message (before ++ some (text ∷ more) ∷ after) ≡ some text
unfolding first_message
first_message-append [] after text more h = refl
first_message-append (none ∷ before) after text more (_, h) =
    first_message-append before after text more h
first_message-append (some [] ∷ before) after text more (_, h) =
    first_message-append before after text more h
first_message-append (some (x ∷ xs) ∷ before) after text more (h, _) = absurd h

-- For an error without a known ethers code the first text listed under `errors` is shown, however
-- many empty lists stand before it, and never the generic message of the response.
pub extract_api_error_listed :
    (err : ApiError) (fallback : String) (before after : List (Option (List String)))
    (text : String) (more : List String)
    → known_code err.code ≡ none
    → err.errors ≡ some (before ++ some (text ∷ more) ∷ after)
    → All IsSilent before
    → extract_api_error err fallback ≡ text
unfolding extract_api_error
extract_api_error_listed err fallback before after text more unknown listed silent =
    ground (arith, first_message-append before after text more silent)
