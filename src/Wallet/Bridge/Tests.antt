-- ===== src/Wallet/Bridge/Tests.antt =====
-- services/zkpBridge.ts: a request that waits for the web view, and its answer.
use did_wallet_thesis.Common.{◌≡◌, refl, String, List, [], ◌∷◌, ok, if◌then◌else◌, ltb}
use did_wallet_thesis.Wallet.Bridge.{dispatch, dispatch_all, register, send, handle_message}
use did_wallet_thesis.Wallet.Bridge.Pending.{uses}
use did_wallet_thesis.Wallet.Bridge.Laws.{
  Event, registered, sent, received, initial, occur, occur_all, occur_all_once,
}

-- The answer to the first request comes twice.
abbrev events : List (Event String String)
events =
    sent "prove"
    ∷ registered
    ∷ received (record { id = 1; outcome = ok "proof" })
    ∷ received (record { id = 1; outcome = ok "other" })
    ∷ sent "verify"
    ∷ []

first_answer_counts :
    (occur_all events initial).settled ≡ record { promise = 0; outcome = ok "proof" } ∷ []
unfolding occur_all occur send register dispatch_all dispatch handle_message
first_answer_counts = refl

occur_all_once_example :
    let st = occur_all events initial in uses 1 st ≡ (if ltb 1 st.asked then 1 else 0)
occur_all_once_example = occur_all_once events 1
