-- ===== src/Wallet/Account/Lock.antt =====
-- context/AuthContext.tsx: the lock of the app. The refs that the listener reads are taken to be up to
-- date with the state, as the effects behind each change make them.
use did_wallet_thesis.Common.{◌≡◌, refl, Bool, true, false, arith, if◌then◌else◌, ◌&&◌}
use did_wallet_thesis.Wallet.Account.{
  DeviceStorage, ProfileCipher, ProfileJson, Device, has_wallet, clear_session,
  reset_development_data,
}

pub data AuthState : Type 0 where
  loading unauthenticated authenticated : AuthState

pub data AppStateStatus : Type 0 where
  active inactive background : AppStateStatus

pub record AuthContext (storage : DeviceStorage) : Type 0 where
  pub state : AuthState
  pub wallet_exists : Bool
  pub device : Device storage

-- What happens to the provider: it mounts (with `EXPO_PUBLIC_RESET_WALLET` or without), a screen
-- reports that the user is in, the user signs out, or the app changes its state.
pub data AuthEvent : Type 0 where
  mounted : Bool → AuthEvent
  on_authenticated sign_out : AuthEvent
  app_state_changed : AppStateStatus → AuthEvent

abbrev pub is_authenticated : AuthState → Bool
is_authenticated authenticated = true
is_authenticated _ = false

abbrev pub is_background : AppStateStatus → Bool
is_background background = true
is_background _ = false

module _ {A : Type 0} (storage : DeviceStorage) (cipher : ProfileCipher) (json : ProfileJson A)
    (dev : Bool) where
  abbrev pub start : AuthContext storage → Device storage → AuthContext storage
  start st device = record st {
    device = device;
    wallet_exists = has_wallet storage cipher json device;
    state = unauthenticated;
  }

  abbrev pub lock : AuthContext storage → AuthContext storage
  lock st = record st {
    device = clear_session storage cipher json st.device;
    state = unauthenticated;
  }

  unfoldable pub handle : AuthEvent → AuthContext storage → AuthContext storage
  unfolding has_wallet clear_session reset_development_data
  handle (mounted reset) st =
      if dev && reset
      then start st (reset_development_data storage cipher json dev st.device).1
      else start st st.device
  handle on_authenticated st = record st { wallet_exists = true; state = authenticated }
  handle sign_out st = lock st
  handle (app_state_changed next) st =
      if is_background next && (st.wallet_exists && is_authenticated st.state) then lock st else st

  -- The states of the provider, from the first one on.
  pub data Reached : AuthContext storage → Type 0 where
    initial :
        (device : Device storage)
        → Reached (record { state = loading; wallet_exists = false; device = device })
    after : (event : AuthEvent) (st : AuthContext storage) → Reached st → Reached (handle event st)

  Reached-wallet_exists :
      (st : AuthContext storage)
      → Reached st
      → is_authenticated st.state ≡ true
      → st.wallet_exists ≡ true
  unfolding handle
  Reached-wallet_exists _ (initial device) h = absurd (ground arith)
  Reached-wallet_exists _ (after (mounted reset) st r) h = absurd (ground arith)
  Reached-wallet_exists _ (after on_authenticated st r) h = refl
  Reached-wallet_exists _ (after sign_out st r) h = absurd (ground arith)
  Reached-wallet_exists _ (after (app_state_changed next) st r) h =
      ground (arith, Reached-wallet_exists st r)

  -- However the app came to its state, it is locked when it goes to the background: it is not
  -- authenticated afterwards, whether there is a wallet is kept, and the stored session is cleared if
  -- the app was authenticated, and nothing else of the device changes.
  pub background_locks :
      (st : AuthContext storage)
      → Reached st
      → let st' = handle (app_state_changed background) st in
        (is_authenticated st'.state ≡ false)
        × (st'.wallet_exists ≡ st.wallet_exists)
        × (st'.device ≡ (
            if is_authenticated st.state
            then clear_session storage cipher json st.device
            else st.device))
  unfolding handle
  background_locks st r = ground (arith, Reached-wallet_exists st r)
