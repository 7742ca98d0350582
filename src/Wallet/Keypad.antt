-- ===== src/Wallet/Keypad.antt =====
-- The keypad for a PIN of six digits, which the wizard of the registration (PinKeypad in
-- screens/RegistrationWizardScreen.tsx) and the unlock screen (screens/UnlockSplashScreen.tsx) show.
use Prim.Native.String
use Prim.Native.String.{count}
use did_wallet_thesis.Common.{String, Option, none, some, if◌then◌else◌, ltb}
use did_wallet_thesis.Common.Trim.{drop_last}

pub data Key : Type 0 where
  key_0 key_1 key_2 key_3 key_4 key_5 key_6 key_7 key_8 key_9 erase : Key

abbrev pub key_text : Key → String
key_text key_0 = "0"
key_text key_1 = "1"
key_text key_2 = "2"
key_text key_3 = "3"
key_text key_4 = "4"
key_text key_5 = "5"
key_text key_6 = "6"
key_text key_7 = "7"
key_text key_8 = "8"
key_text key_9 = "9"
key_text erase = "⌫"

abbrev pub append_key : Key → String → Option String
append_key key value = if ltb (count value) 6 then some (String.◌++◌ value (key_text key)) else none

-- What the key hands to `onChange`; `none` is no call.
unfoldable pub press_key : Key → String → Option String
unfolding drop_last
press_key erase value = some (drop_last value)
press_key key value = append_key key value
