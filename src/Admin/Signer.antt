-- ===== src/Admin/Signer.antt =====
-- core/auth/signer.service.ts. The injected wallet and ethers are third-party code: a record of what
-- they answer. A call either returns or throws, and leaves the service's fields as written here.
pub mod Laws
use did_wallet_thesis.Common.{
  String, Bool, true, false, Option, none, some, List, [], ◌∷◌, Result, ok, throw, ◌==◌, ◌&&◌, not,
  if◌then◌else◌, truthy, get_or, first,
}
use did_wallet_thesis.Common.Text.{to_lower}
use did_wallet_thesis.Admin.ApiError.{ApiError, error_of}

-- `window.ethereum` with ethers on top of it: `request`, `getSigner`, and a signer's methods.
pub record InjectedWallet (S : Type 0) : Type 0 where
  pub request : String → Result ApiError (List String)
  pub get_signer : String → Result ApiError S
  pub get_address : S → Result ApiError String
  pub sign_message : S → String → Result ApiError String

pub data WalletProviderEvent : Type 0 where
  accounts_changed : List String → WalletProviderEvent
  chain_changed disconnect : WalletProviderEvent

pub record SignerState (S : Type 0) : Type 0 where
  pub signer : Option S
  pub has_signer : Bool
  pub address : Option String
  pub wallet_available : Bool

abbrev pub not_detected : String
not_detected =
    "MetaMask was not detected in this browser tab. Enable the extension for localhost and reload the page."

abbrev pub other_account : String
other_account = "Select the MetaMask account used for this authenticated session"

module _ {S : Type 0} where
  unfoldable pub clear : SignerState S → SignerState S
  clear st = record st { signer = none; has_signer = false; address = none }

  -- `getSigner(account)` and `getAddress()`, with the fields set on the way.
  unfoldable pub take_signer :
      InjectedWallet S → String → SignerState S → Result ApiError String × SignerState S
  take_signer provider account st = elim (provider.get_signer account) [
    | throw e ↦ (throw e, st)
    | ok s ↦
        let st1 = record st { signer = some s } in
        elim (provider.get_address s) [
          | throw e ↦ (throw e, st1)
          | ok address ↦ (ok address, record st1 { address = some address; has_signer = true })
        ]
  ]

  -- What `connect` does with the accounts that the wallet returned.
  unfoldable pub choose_account :
      InjectedWallet S
      → Bool
      → Option String
      → List String
      → SignerState S
      → Result ApiError String × SignerState S
  unfolding take_signer
  choose_account provider request_access expected accounts st =
      let account = first accounts in
      if not (truthy account)
      then (
        throw (
            error_of (
              if request_access
              then "No MetaMask account selected"
              else "MetaMask is not connected")),
        st,
      )
      else if truthy expected && not (to_lower (get_or account "") == to_lower (get_or expected ""))
      then (throw (error_of other_account), st)
      else take_signer provider (get_or account "") st

  unfoldable pub connect :
      Option (InjectedWallet S)
      → Bool
      → Option String
      → SignerState S
      → Result ApiError String × SignerState S
  unfolding choose_account
  connect none request_access expected st =
      (throw (error_of not_detected), record st { wallet_available = false })
  connect (some provider) request_access expected st =
      let st1 = record st { wallet_available = true } in
      elim (provider.request (if request_access then "eth_requestAccounts" else "eth_accounts")) [
        | throw e ↦ (throw e, st1)
        | ok accounts ↦ choose_account provider request_access expected accounts st1
      ]

  unfoldable pub restore : Option (InjectedWallet S) → String → SignerState S → Bool × SignerState S
  unfolding connect clear
  restore wallet expected st =
      let (result, st') = connect wallet false (some expected) st in
      elim result [ ok _ ↦ (true, st') | throw _ ↦ (false, clear st') ]

  unfoldable pub sign_message :
      Option (InjectedWallet S) → String → SignerState S → Result ApiError String
  sign_message none message st = throw (error_of "MetaMask is not connected")
  sign_message (some provider) message st = elim st.signer [
    | none ↦ throw (error_of "MetaMask is not connected")
    | some s ↦ provider.sign_message s message
  ]

  unfoldable pub get_transaction_signer : SignerState S → Result ApiError S
  get_transaction_signer st = elim st.signer [
    | none ↦ throw (error_of "SIGNER_LOST")
    | some s ↦ ok s
  ]

  -- The listeners of the constructor: each clears the signer and passes the event on.
  unfoldable pub on_provider_event :
      WalletProviderEvent → SignerState S → SignerState S × WalletProviderEvent
  unfolding clear
  on_provider_event event st = (clear st, event)
