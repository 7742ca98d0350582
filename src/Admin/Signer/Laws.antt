-- ===== src/Admin/Signer/Laws.antt =====
-- core/auth/signer.service.ts: when a signer is at hand, and for which account.
use did_wallet_thesis.Common.{
  String, ◌≡◌, Bool, true, false, Option, none, some, List, [], ◌∷◌, arith, ok, eq_iff, ◌==◌,
  Result-cases, inl, inr, is_some, ◌⊎◌, if◌then◌else◌,
}
use did_wallet_thesis.Common.Text.{to_lower}
use did_wallet_thesis.Admin.Signer.{
  InjectedWallet, SignerState, clear, take_signer, choose_account, connect, restore,
}

-- The flag `hasSigner` is set only with a signer and an address at hand.
pub record IsCoherent {S : Type 0} (st : SignerState S) : Type 0 where
  pub signer_set : st.has_signer ≡ true → is_some st.signer ≡ true
  pub address_set : st.has_signer ≡ true → is_some st.address ≡ true

module _ {S : Type 0} where
  pub clear-IsCoherent : (st : SignerState S) → IsCoherent (clear st)
  unfolding clear
  clear-IsCoherent st = ground arith

  connect-IsCoherent :
      (wallet : Option (InjectedWallet S)) (request_access : Bool) (expected : Option String)
      (st : SignerState S)
      → IsCoherent st
      → IsCoherent (connect wallet request_access expected st).1
  unfolding connect
  connect-IsCoherent none request_access expected st c = ground arith
  connect-IsCoherent (some provider) request_access expected st c = ground arith

  restore-IsCoherent :
      (wallet : Option (InjectedWallet S)) (expected : String) (st : SignerState S)
      → IsCoherent st
      → IsCoherent (restore wallet expected st).1
  unfolding restore
  restore-IsCoherent none expected st c = ground arith
  restore-IsCoherent (some provider) expected st c = ground arith

-- A signer that was asked for by its account reports that account, up to the case of its digits.
abbrev pub ReportsAccount : {S : Type 0} → InjectedWallet S → Type 0
ReportsAccount {S} provider =
    (account : String) (s : S) (a : String)
    → provider.get_signer account ≡ ok s
    → provider.get_address s ≡ ok a
    → to_lower a ≡ to_lower account

module _ {S : Type 0} (provider : InjectedWallet S) (faithful : ReportsAccount provider) where
  take_signer_account :
      (account a : String) (st : SignerState S)
      → (take_signer provider account st).0 ≡ ok a
      → (to_lower a ≡ to_lower account)
        × ((take_signer provider account st).1.has_signer ≡ true)
        × ((take_signer provider account st).1.address ≡ some a)
  unfolding take_signer
  take_signer_account account a st h = elim (Result-cases (provider.get_signer account)) [
    | inr (e, refused) ↦ absurd (ground arith)
    | inl (s, given) ↦ elim (Result-cases (provider.get_address s)) [
      | inr (e, refused) ↦ absurd (ground arith)
      | inl (b, known) ↦
          let same = faithful account s b given known in (ground arith, ground arith, ground arith)
    ]
  ]

  choose_account_expected :
      (request_access : Bool) (expected a : String) (accounts : List String) (st : SignerState S)
      → (expected == "") ≡ false
      → (choose_account provider request_access (some expected) accounts st).0 ≡ ok a
      → (to_lower a ≡ to_lower expected)
        × ((choose_account provider request_access (some expected) accounts st).1.has_signer ≡ true)
        × ((choose_account provider request_access (some expected) accounts st).1.address ≡ some a)
  unfolding choose_account
  choose_account_expected request_access expected a [] st ne h = cc
  choose_account_expected request_access expected a (account ∷ others) st ne h =
      ground
        (arith, take_signer_account account a st, eq_iff (to_lower account) (to_lower expected))

  -- With a wallet whose signers report the account that they were asked for, a `connect` that expects
  -- an account, not the empty text, and returns has a signer for that account: the address that it
  -- returns and stores is the expected one up to case.
  pub connect_expected :
      (request_access : Bool) (expected a : String) (st : SignerState S)
      → (expected == "") ≡ false
      → (connect (some provider) request_access (some expected) st).0 ≡ ok a
      → (to_lower a ≡ to_lower expected)
        × ((connect (some provider) request_access (some expected) st).1.has_signer ≡ true)
        × ((connect (some provider) request_access (some expected) st).1.address ≡ some a)
  unfolding connect
  connect_expected request_access expected a st ne h =
      elim (Result-cases
        (provider.request (if request_access then "eth_requestAccounts" else "eth_accounts"))) [
          | inr (e, refused) ↦ absurd (ground arith)
          | inl (accounts, given) ↦
              let chosen =
                choose_account_expected request_access expected a accounts
                  (record st { wallet_available = true }) ne in
              (ground (arith, chosen), ground (arith, chosen), ground (arith, chosen))
        ]

  -- With such a wallet, `restore` for an account, not the empty text, returns true only with a signer
  -- for that account, and on false it leaves no signer and no address at all.
  pub restore_lem :
      (expected : String) (st : SignerState S)
      → (expected == "") ≡ false
      → let (restored, st') = restore (some provider) expected st in
        ((restored ≡ true)
          × (st'.has_signer ≡ true)
          × ((a : String) × (st'.address ≡ some a) × (to_lower a ≡ to_lower expected)))
        ⊎ ((restored ≡ false) × (st' ≡ clear (connect (some provider) false (some expected) st).1))
  unfolding restore
  restore_lem expected st ne =
      elim (Result-cases (connect (some provider) false (some expected) st).0) [
        | inr (e, refused) ↦ inr (ground arith, ground arith)
        | inl (a, given) ↦
            let (same, has, stored) = connect_expected false expected a st ne given in
            inl (ground arith, ground arith, (a, ground arith, same))
      ]
