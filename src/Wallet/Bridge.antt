-- ===== src/Wallet/Bridge.antt =====
-- services/zkpBridge.ts: the requests to the prover in the web view. A promise is the number of its
-- `send`, and what the web view answers is a parameter.
mod Pending
mod Laws
mod Tests
use did_wallet_thesis.Common.{
  ℕ, ◌+◌, String, Bool, true, false, Option, none, some, List, [], ◌∷◌, ◌++◌, eqb, if◌then◌else◌,
  Result, ok, throw,
}

-- A request of `prove` or `verify`, without its identifier.
pub record Request (Q : Type 0) : Type 0 where
  pub promise : ℕ
  pub payload : Q

-- A request that waits for its answer: the `pending` entry at its identifier.
pub record PendingRequest : Type 0 where
  pub id : ℕ
  pub promise : ℕ

-- How a promise was settled.
pub record Settled (R : Type 0) : Type 0 where
  pub promise : ℕ
  pub outcome : Result String R

-- `pending`, whether there is an `injectFn`, `counter`, `ready` and `queue`; what was injected so far,
-- newest last, and the promises that were settled. `asked` counts the calls of `send`.
pub record Bridge (Q R : Type 0) : Type 0 where
  pub pending : List PendingRequest
  pub has_inject_fn : Bool
  pub counter : ℕ
  pub ready : Bool
  pub queue : List (Request Q)
  pub injected : List (ℕ × Q)
  pub settled : List (Settled R)
  pub asked : ℕ

-- A message of the web view that parses: the identifier of the request, and an error or an answer.
pub record Message (R : Type 0) : Type 0 where
  pub id : ℕ
  pub outcome : Result String R

abbrev pub get_pending : ℕ → List PendingRequest → Option PendingRequest
get_pending id [] = none
get_pending id (p ∷ ps) = if eqb p.id id then some p else get_pending id ps

abbrev pub delete_pending : ℕ → List PendingRequest → List PendingRequest
delete_pending id [] = []
delete_pending id (p ∷ ps) = if eqb p.id id then delete_pending id ps else p ∷ delete_pending id ps

module _ {Q R : Type 0} where
  unfoldable pub dispatch : Request Q → Bridge Q R → Bridge Q R
  dispatch req st =
      if st.has_inject_fn
      then record st {
        counter = st.counter + 1;
        pending = st.pending ++ (record { id = st.counter + 1; promise = req.promise } ∷ []);
        injected = st.injected ++ ((st.counter + 1, req.payload) ∷ []);
      }
      else record st {
        settled =
            st.settled
            ++ (record { promise = req.promise; outcome = throw "ZKP bridge not registered" } ∷ []);
      }

  unfoldable pub dispatch_all : List (Request Q) → Bridge Q R → Bridge Q R
  unfolding dispatch
  dispatch_all [] st = st
  dispatch_all (req ∷ reqs) st = dispatch_all reqs (dispatch req st)

  unfoldable pub register : Bridge Q R → Bridge Q R
  unfolding dispatch_all
  register st = record (dispatch_all st.queue (record st { has_inject_fn = true; ready = true })) {
    queue = [];
  }

  unfoldable pub unregister : Bridge Q R → Bridge Q R
  unregister st = record st { has_inject_fn = false; ready = false }

  unfoldable pub send : Q → Bridge Q R → Bridge Q R
  unfolding dispatch
  send payload st =
      if st.ready
      then dispatch (record { promise = st.asked; payload = payload })
          (record st { asked = st.asked + 1 })
      else record st {
        asked = st.asked + 1;
        queue = st.queue ++ (record { promise = st.asked; payload = payload } ∷ []);
      }

  -- A text that is no JSON changes nothing and is not modelled.
  unfoldable pub handle_message : Message R → Bridge Q R → Bridge Q R
  handle_message msg st = elim (get_pending msg.id st.pending) [
    | none ↦ st
    | some req ↦ record st {
      pending = delete_pending msg.id st.pending;
      settled = st.settled ++ (record { promise = req.promise; outcome = msg.outcome } ∷ []);
    }
  ]
