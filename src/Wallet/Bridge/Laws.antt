-- ===== src/Wallet/Bridge/Laws.antt =====
-- services/zkpBridge.ts: each request is in one place, whatever happens.
use did_wallet_thesis.Common.{
  ℕ, ◌+◌, ◌≤◌, ◌≡◌, refl, true, false, List, [], ◌∷◌, ◌++◌, arith, ltb, if◌then◌else◌, All-append,
  Option-cases, Bool-cases, inl, inr, throw,
}
use did_wallet_thesis.Wallet.Bridge.{
  Request, PendingRequest, Bridge, Message, get_pending, dispatch, dispatch_all, register,
  unregister, send, handle_message,
}
use did_wallet_thesis.Wallet.Bridge.Pending.{
  times, queued_promises, pending_promises, settled_promises, uses, Distinct, Bounded, Bounded-suc,
  Distinct-append, Distinct-delete, Bounded-delete, times-delete, times-queued, times-pending,
  times-settled,
}

record IsTidy {Q R : Type 0} (st : Bridge Q R) : Type 0 where
  bounded : Bounded st.counter st.pending
  distinct : Distinct st.pending

-- The promises outside the queue.
abbrev held : {Q R : Type 0} → ℕ → Bridge Q R → ℕ
held n st = times n (pending_promises st.pending) + times n (settled_promises st.settled)

-- What the app and the web view do with the bridge.
pub data Event (Q R : Type 0) : Type 0 where
  registered unregistered : Event Q R
  sent : Q → Event Q R
  received : Message R → Event Q R

module _ {Q R : Type 0} where
  dispatch-IsTidy : (req : Request Q) (st : Bridge Q R) → IsTidy st → IsTidy (dispatch req st)
  unfolding dispatch
  dispatch-IsTidy req st t = elim (Bool-cases st.has_inject_fn) [
    | inr absent ↦ rw (dispatch, absent) (record { bounded = t.bounded; distinct = t.distinct })
    | inl present ↦
        rw (dispatch, present)
          (record {
            bounded =
                All-append (λ (p : PendingRequest). p.id ≤ st.counter + 1) st.pending
                  (record { id = st.counter + 1; promise = req.promise } ∷ [])
                  (Bounded-suc st.counter st.pending t.bounded) (omega arith, tt);
            distinct = Distinct-append st.counter req.promise st.pending t.bounded t.distinct;
          })
  ]

  held-dispatch :
      (n : ℕ) (req : Request Q) (st : Bridge Q R)
      → held n (dispatch req st) ≡ held n st + times n (req.promise ∷ [])
  unfolding dispatch
  held-dispatch n req st = ground (
    arith,
    times-pending n st.pending (record { id = st.counter + 1; promise = req.promise }),
    times-settled n st.settled
        (record { promise = req.promise; outcome = throw "ZKP bridge not registered" }),
  )

  dispatch_all-IsTidy :
      (reqs : List (Request Q)) (st : Bridge Q R) → IsTidy st → IsTidy (dispatch_all reqs st)
  unfolding dispatch_all
  dispatch_all-IsTidy [] st t = t
  dispatch_all-IsTidy (req ∷ reqs) st t =
      dispatch_all-IsTidy reqs (dispatch req st) (dispatch-IsTidy req st t)

  held-dispatch_all :
      (n : ℕ) (reqs : List (Request Q)) (st : Bridge Q R)
      → held n (dispatch_all reqs st) ≡ held n st + times n (queued_promises reqs)
  unfolding dispatch_all
  held-dispatch_all n [] st = omega arith
  held-dispatch_all n (req ∷ reqs) st =
      ground (arith, held-dispatch_all n reqs (dispatch req st), held-dispatch n req st)

  asked-dispatch_all :
      (reqs : List (Request Q)) (st : Bridge Q R) → (dispatch_all reqs st).asked ≡ st.asked
  unfolding dispatch_all dispatch
  asked-dispatch_all [] st = refl
  asked-dispatch_all (req ∷ reqs) st = ground (arith, asked-dispatch_all reqs (dispatch req st))

  unfoldable pub occur : Event Q R → Bridge Q R → Bridge Q R
  unfolding register unregister send handle_message
  occur registered st = register st
  occur unregistered st = unregister st
  occur (sent payload) st = send payload st
  occur (received msg) st = handle_message msg st

  unfoldable pub occur_all : List (Event Q R) → Bridge Q R → Bridge Q R
  unfolding occur
  occur_all [] st = st
  occur_all (event ∷ events) st = occur_all events (occur event st)

  abbrev pub initial : Bridge Q R
  initial = record {
    pending = [];
    has_inject_fn = false;
    counter = 0;
    ready = false;
    queue = [];
    injected = [];
    settled = [];
    asked = 0;
  }

  record IsFair (st : Bridge Q R) : Type 0 where
    tidy : IsTidy st
    once : (n : ℕ) → uses n st ≡ (if ltb n st.asked then 1 else 0)

  queue-dispatch : (req : Request Q) (st : Bridge Q R) → (dispatch req st).queue ≡ st.queue
  unfolding dispatch
  queue-dispatch req st = ground arith

  asked-dispatch : (req : Request Q) (st : Bridge Q R) → (dispatch req st).asked ≡ st.asked
  unfolding dispatch
  asked-dispatch req st = ground arith

  abbrev opened : Bridge Q R → Bridge Q R
  opened st = record st { has_inject_fn = true; ready = true }

  register-IsFair : (st : Bridge Q R) → IsFair st → IsFair (register st)
  unfolding register
  register-IsFair st f =
      let tidy_after =
        dispatch_all-IsTidy st.queue (opened st)
          (record { bounded = f.tidy.bounded; distinct = f.tidy.distinct }) in
      record {
        tidy = record { bounded = tidy_after.bounded; distinct = tidy_after.distinct };
        once = λ n. ground (
          arith,
          f.once n,
          held-dispatch_all n st.queue (opened st),
          asked-dispatch_all st.queue (opened st),
        );
      }

  abbrev request_of : Q → Bridge Q R → Request Q
  request_of payload st = record { promise = st.asked; payload = payload }

  abbrev asked_more : Bridge Q R → Bridge Q R
  asked_more st = record st { asked = st.asked + 1 }

  send-dispatch :
      (payload : Q) (st : Bridge Q R)
      → st.ready ≡ true
      → send payload st ≡ dispatch (request_of payload st) (asked_more st)
  unfolding send
  send-dispatch payload st h = ground arith

  abbrev queued : Q → Bridge Q R → Bridge Q R
  queued payload st = record st {
    asked = st.asked + 1;
    queue = st.queue ++ (request_of payload st ∷ []);
  }

  send-queued :
      (payload : Q) (st : Bridge Q R) → st.ready ≡ false → send payload st ≡ queued payload st
  unfolding send
  send-queued payload st h = ground arith

  send-IsFair : (payload : Q) (st : Bridge Q R) → IsFair st → IsFair (send payload st)
  send-IsFair payload st f =
      let req = request_of payload st in
      elim (Bool-cases st.ready) [
        | inr waiting ↦ rw (send-queued payload st waiting) (record {
          tidy = record { bounded = f.tidy.bounded; distinct = f.tidy.distinct };
          once = λ n. ground (arith, f.once n, times-queued n st.queue req);
        })
        | inl ready ↦ rw (send-dispatch payload st ready) (record {
          tidy =
              dispatch-IsTidy req (asked_more st)
                (record { bounded = f.tidy.bounded; distinct = f.tidy.distinct });
          once = λ n. ground (
            arith,
            f.once n,
            held-dispatch n req (asked_more st),
            queue-dispatch req (asked_more st),
            asked-dispatch req (asked_more st),
          );
        })
      ]

  handle_message-IsFair :
      (msg : Message R) (st : Bridge Q R) → IsFair st → IsFair (handle_message msg st)
  unfolding handle_message
  handle_message-IsFair msg st f = elim (Option-cases (get_pending msg.id st.pending)) [
    | inl unknown ↦ rw (handle_message, unknown) f
    | inr (req, e) ↦
        rw (handle_message, e)
          (record {
            tidy = record {
              bounded = Bounded-delete st.counter msg.id st.pending f.tidy.bounded;
              distinct = Distinct-delete msg.id st.pending f.tidy.distinct;
            };
            once = λ n. ground (
              arith,
              f.once n,
              times-delete n msg.id req st.pending f.tidy.distinct e,
              times-settled n st.settled (record { promise = req.promise; outcome = msg.outcome }),
            );
          })
  ]

  occur-IsFair : (event : Event Q R) (st : Bridge Q R) → IsFair st → IsFair (occur event st)
  unfolding occur
  occur-IsFair registered st f = register-IsFair st f
  occur-IsFair unregistered st f =
      unfold unregister in
      record {
        tidy = record { bounded = f.tidy.bounded; distinct = f.tidy.distinct };
        once = f.once;
      }
  occur-IsFair (sent payload) st f = send-IsFair payload st f
  occur-IsFair (received msg) st f = handle_message-IsFair msg st f

  occur_all-IsFair :
      (events : List (Event Q R)) (st : Bridge Q R) → IsFair st → IsFair (occur_all events st)
  unfolding occur_all
  occur_all-IsFair [] st f = f
  occur_all-IsFair (event ∷ events) st f =
      occur_all-IsFair events (occur event st) (occur-IsFair event st f)

  -- Whatever the app and the web view do, in any order, each request that was made stands in exactly
  -- one place, the queue, the table of pending requests or the settled promises: none is lost, and none
  -- is settled twice; and no promise is there that no request made.
  pub occur_all_once :
      (events : List (Event Q R)) (n : ℕ)
      → let st = occur_all events initial in uses n st ≡ (if ltb n st.asked then 1 else 0)
  occur_all_once events n =
      (occur_all-IsFair events initial
          (record { tidy = record { bounded = tt; distinct = tt }; once = λ m. ground arith })).once
        n
