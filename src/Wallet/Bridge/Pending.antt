-- ===== src/Wallet/Bridge/Pending.antt =====
-- services/zkpBridge.ts: the table of pending requests and the lists of promises.
use did_wallet_thesis.Common.{
  ℕ, suc, ◌+◌, ◌≤◌, ◌≡◌, refl, sym, ap, ◌∙◌, false, none, some, List, [], ◌∷◌, ◌++◌, arith, eqb,
  eqb_iff, if◌then◌else◌, All, Bool-cases, inl, inr,
}
use did_wallet_thesis.Wallet.Bridge.{
  Request, PendingRequest, Settled, Bridge, get_pending, delete_pending,
}

-- How often a promise stands in a list of promises.
abbrev pub times : ℕ → List ℕ → ℕ
times n [] = 0
times n (m ∷ ms) = if eqb m n then suc (times n ms) else times n ms

pub times-append : (n : ℕ) (xs ys : List ℕ) → times n (xs ++ ys) ≡ times n xs + times n ys
times-append n [] ys = omega arith
times-append n (x ∷ xs) ys = ground (arith, times-append n xs ys)

abbrev pub queued_promises : {Q : Type 0} → List (Request Q) → List ℕ
queued_promises [] = []
queued_promises (r ∷ rs) = r.promise ∷ queued_promises rs

abbrev pub pending_promises : List PendingRequest → List ℕ
pending_promises [] = []
pending_promises (p ∷ ps) = p.promise ∷ pending_promises ps

abbrev pub settled_promises : {R : Type 0} → List (Settled R) → List ℕ
settled_promises [] = []
settled_promises (s ∷ ss) = s.promise ∷ settled_promises ss

-- How often a promise is queued, pending or settled.
abbrev pub uses : {Q R : Type 0} → ℕ → Bridge Q R → ℕ
uses n st =
    times n (queued_promises st.queue)
    + times n (pending_promises st.pending)
    + times n (settled_promises st.settled)

abbrev pub Distinct : List PendingRequest → Type 0
Distinct [] = Unit
Distinct (p ∷ ps) = (get_pending p.id ps ≡ none) × Distinct ps

abbrev pub Bounded : ℕ → List PendingRequest → Type 0
Bounded n = All (λ (p : PendingRequest). p.id ≤ n)

pub fresh_lem : (n : ℕ) (ps : List PendingRequest) → Bounded n ps → get_pending (n + 1) ps ≡ none
fresh_lem n [] h = refl
fresh_lem n (p ∷ ps) (b, h) = ground (arith, fresh_lem n ps h)

pub Bounded-suc : (n : ℕ) (ps : List PendingRequest) → Bounded n ps → Bounded (n + 1) ps
Bounded-suc n [] h = tt
Bounded-suc n (p ∷ ps) (b, h) = (omega (arith, b), Bounded-suc n ps h)

pub get_pending-append :
    (j id promise : ℕ) (ps : List PendingRequest)
    → get_pending j ps ≡ none
    → eqb id j ≡ false
    → get_pending j (ps ++ (record { id = id; promise = promise } ∷ [])) ≡ none
get_pending-append j id promise [] h d = ground arith
get_pending-append j id promise (p ∷ ps) h d = ground (arith, get_pending-append j id promise ps)

pub Distinct-append :
    (n promise : ℕ) (ps : List PendingRequest)
    → Bounded n ps
    → Distinct ps
    → Distinct (ps ++ (record { id = n + 1; promise = promise } ∷ []))
Distinct-append n promise [] h d = (refl, tt)
Distinct-append n promise (p ∷ ps) (b, h) (new, d) = (
  get_pending-append p.id (n + 1) promise ps new (ground (arith, b)),
  Distinct-append n promise ps h d,
)

pub get_pending-delete :
    (j id : ℕ) (ps : List PendingRequest)
    → get_pending j ps ≡ none
    → get_pending j (delete_pending id ps) ≡ none
get_pending-delete j id [] h = refl
get_pending-delete j id (p ∷ ps) h = ground (arith, get_pending-delete j id ps)

pub Distinct-delete :
    (id : ℕ) (ps : List PendingRequest) → Distinct ps → Distinct (delete_pending id ps)
Distinct-delete id [] d = tt
Distinct-delete id (p ∷ ps) (new, d) = elim (Bool-cases (eqb p.id id)) [
  | inl same ↦ rw same (Distinct-delete id ps d)
  | inr other ↦ rw other (get_pending-delete p.id id ps new, Distinct-delete id ps d)
]

pub Bounded-delete :
    (n id : ℕ) (ps : List PendingRequest) → Bounded n ps → Bounded n (delete_pending id ps)
Bounded-delete n id [] h = tt
Bounded-delete n id (p ∷ ps) (b, h) = elim (Bool-cases (eqb p.id id)) [
  | inl same ↦ rw same (Bounded-delete n id ps h)
  | inr other ↦ rw other (b, Bounded-delete n id ps h)
]

pub delete_missing :
    (id : ℕ) (ps : List PendingRequest) → get_pending id ps ≡ none → delete_pending id ps ≡ ps
delete_missing id [] h = refl
delete_missing id (p ∷ ps) h = ground (arith, delete_missing id ps)

pub times-delete :
    (n id : ℕ) (r : PendingRequest) (ps : List PendingRequest)
    → Distinct ps
    → get_pending id ps ≡ some r
    → times n (pending_promises ps)
      ≡ times n (pending_promises (delete_pending id ps)) + times n (r.promise ∷ [])
times-delete n id r [] d h = absurd (ground arith)
times-delete n id r (p ∷ ps) (new, d) h = elim (Bool-cases (eqb p.id id)) [
  | inl same ↦
      let gone = ap (λ (j : ℕ). get_pending j ps) (sym ((eqb_iff p.id id).0 same)) ∙ new in
      ground (arith, delete_missing id ps gone)
  | inr other ↦ ground (arith, times-delete n id r ps d)
]

pub times-queued :
    {Q : Type 0} (n : ℕ) (rs : List (Request Q)) (r : Request Q)
    → times n (queued_promises (rs ++ (r ∷ [])))
      ≡ times n (queued_promises rs) + times n (r.promise ∷ [])
times-queued n [] r = omega arith
times-queued n (q ∷ rs) r = ground (arith, times-queued n rs r)

pub times-pending :
    (n : ℕ) (ps : List PendingRequest) (p : PendingRequest)
    → times n (pending_promises (ps ++ (p ∷ [])))
      ≡ times n (pending_promises ps) + times n (p.promise ∷ [])
times-pending n [] p = omega arith
times-pending n (q ∷ ps) p = ground (arith, times-pending n ps p)

pub times-settled :
    {R : Type 0} (n : ℕ) (ss : List (Settled R)) (s : Settled R)
    → times n (settled_promises (ss ++ (s ∷ [])))
      ≡ times n (settled_promises ss) + times n (s.promise ∷ [])
times-settled n [] s = omega arith
times-settled n (q ∷ ss) s = ground (arith, times-settled n ss s)
