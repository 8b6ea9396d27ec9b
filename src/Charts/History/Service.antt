-- ===== src/Charts/History/Service.antt =====
-- What the cache of frontend/src/charts/history.ts promises, said without a cache: what a call may
-- answer, given the requests that were sent before and what has become of them.
use simply_se.Base.{
  ℕ, ◌-◌, ◌<◌, Bool, true, false, not, ◌||◌, Option, none, some, List, [], ◌∷◌, ◌++◌, String,
  length, get_elem?, ◌≡◌, ltb,
}
use simply_se.Charts.History.Promise.{Status, pending, fulfilled, rejected, settle_at, Request}
use simply_se.Charts.History.{ttl_ms, Event, clock, call, reply, fail}
use simply_se.Charts.History.Lookups.{is_failed, any_failed, last_at}

module _ (Response : Type 0) where
  pub record Ledger : Type 0 where
    pub now : ℕ
    pub requests : List (Request Response)

  abbrev pub is_stale : ℕ → Option ℕ → Bool
  is_stale now none = true
  is_stale now (some at) = not (ltb (now - at) ttl_ms)

  -- A new request is due: the last one for the key is a minute old, or there is none, or one for
  -- the key has failed.
  unfoldable pub is_due : String → Ledger → Bool
  is_due key l = any_failed key l.requests || is_stale l.now (last_at key l.requests)

  -- A call is answered with a request for the same key that is less than a minute old and has not
  -- failed, or with a new one where that is due.
  pub data Serves (key : String) (l : Ledger) : ℕ → List (Request Response) → Type 0 where
    shared :
        (i : ℕ) (r : Request Response)
        → get_elem? l.requests i ≡ some r
        → r.key ≡ key
        → is_failed r.status ≡ false
        → l.now - r.at < ttl_ms
        → Serves key l i l.requests
    sent :
        is_due key l ≡ true
        → Serves key l
            (length l.requests)
            (l.requests ++ record { key = key; at = l.now; status = pending } ∷ [])

  abbrev pub settled_ledger : ℕ → Status Response → Ledger → Ledger
  settled_ledger i status l = record { now = l.now; requests = settle_at i status l.requests }

  -- The runs of the service: the events, the answers to the calls, and the ledger at the end.
  pub data Runs : List (Event Response) → List ℕ → Ledger → Ledger → Type 0 where
    done : (l : Ledger) → Runs [] [] l l
    ticked :
        (n : ℕ) {l l' : Ledger} {es : List (Event Response)} {is : List ℕ}
        → Runs es is (record { now = n; requests = l.requests }) l'
        → Runs (clock n ∷ es) is l l'
    called :
        (key : String) (i : ℕ) (rs : List (Request Response)) {l l' : Ledger}
        {es : List (Event Response)} {is : List ℕ}
        → Serves key l i rs
        → Runs es is (record { now = l.now; requests = rs }) l'
        → Runs (call key ∷ es) (i ∷ is) l l'
    replied :
        (i : ℕ) (a : Response) {l l' : Ledger} {es : List (Event Response)} {is : List ℕ}
        → Runs es is (settled_ledger i (fulfilled a) l) l'
        → Runs (reply i a ∷ es) is l l'
    failed :
        (i : ℕ) {l l' : Ledger} {es : List (Event Response)} {is : List ℕ}
        → Runs es is (settled_ledger i rejected l) l'
        → Runs (fail i ∷ es) is l l'
