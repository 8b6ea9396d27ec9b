-- ===== src/Charts/History/Refining.antt =====
-- The cache of frontend/src/charts/history.ts behaves as its service promises.
use simply_se.Base.{
  ℕ, ◌-◌, Bool, true, false, not, ◌||◌, Option, none, some, List, [], ◌∷◌, String, if◌then◌else◌,
  ◌≡◌, refl, sym, subst, arith, ◌⊎◌, inl, inr, ltb, ltb→lt,
}
use simply_se.Charts.History.Promise.{fulfilled, rejected}
use simply_se.Charts.History.{
  Cached, map_get, History, fresh, send, answer, fetch_key, settle, Event, clock, call, reply, fail,
  step, answers, run, initial, ttl_ms,
}
use simply_se.Charts.History.Lookups.{any_failed, last_at}
use simply_se.Charts.History.Service.{
  Ledger, is_due, is_stale, Serves, shared, sent, Runs, done, ticked, called, replied, failed,
}
use simply_se.Charts.History.Sound.{
  time_of, IsHeld, IsSound, initial-IsSound, send-IsSound, settle-IsSound,
}

some_if : (b : Bool) (i j : ℕ) → (if b then some i else none) ≡ some j → (b ≡ true) × (i ≡ j)
some_if true i j h = (refl, cc)
some_if false i j h = cc

not_if : (b : Bool) (i : ℕ) → (if b then some i else none) ≡ none → not b ≡ true
not_if true i h = cc
not_if false i h = refl

or_true : (a : Bool) {b : Bool} → b ≡ true → (a || b) ≡ true
or_true true h = refl
or_true false h = h

module _ (Response : Type 0) where
  abbrev pub ledger : History Response → Ledger Response
  ledger s = record { now = s.now; requests = s.requests }

  fresh_shared :
      (key : String) (s : History Response) (o : Option Cached) (i : ℕ)
      → ((c : Cached) → o ≡ some c → IsHeld Response s.requests key c)
      → fresh Response s.now o ≡ some i
      → Serves Response key (ledger s) i s.requests
  unfolding fresh
  fresh_shared key s none i held h = cc
  fresh_shared key s (some c) i held h =
      let (young, same) = some_if (ltb (s.now - c.at) ttl_ms) c.promise i h in
      let cached = held c refl in
      subst (λ i. Serves Response key (ledger s) i s.requests) same
        (shared c.promise cached.request cached.sits cached.same_key cached.not_failed (
          ltb→lt (s.now - cached.request.at) ttl_ms
            (subst (λ n. ltb (s.now - n) ttl_ms ≡ true) (sym cached.same_time) young)))

  fresh_due :
      (key : String) (s : History Response) (o : Option Cached)
      → (any_failed key s.requests ≡ true) ⊎ (time_of o ≡ last_at key s.requests)
      → fresh Response s.now o ≡ none
      → is_due Response key (ledger s) ≡ true
  unfolding fresh is_due
  fresh_due key s o (inl f) h = ground arith
  fresh_due key s none (inr e) h =
      or_true (any_failed key s.requests) (subst (λ o. is_stale Response s.now o ≡ true) e refl)
  fresh_due key s (some c) (inr e) h = or_true (any_failed key s.requests) (
      subst (λ o. is_stale Response s.now o ≡ true) e
        (not_if (ltb (s.now - c.at) ttl_ms) c.promise h))

  -- One call: its answer is served, and the cache stays sound.
  answered :
      (key : String) (s : History Response) (o : Option ℕ)
      → IsSound Response s
      → fresh Response s.now (map_get key s.cache) ≡ o
      → Serves Response key
          (ledger s)
          (answer Response key o s).1
          (answer Response key o s).0.requests
        × ((answer Response key o s).0.now ≡ s.now)
        × IsSound Response (answer Response key o s).0
  unfolding send
  answered key s none sound h = (
    sent (fresh_due key s (map_get key s.cache) (sound.tracks key) h),
    refl,
    send-IsSound Response key s sound,
  )
  answered key s (some i) sound h =
      (fresh_shared key s (map_get key s.cache) i (sound.holds key) h, refl, sound)

  called_run :
      (key : String) (s t : History Response) (i : ℕ) (es : List (Event Response)) (is : List ℕ)
      (l : Ledger Response)
      → Serves Response key (ledger s) i t.requests
      → t.now ≡ s.now
      → Runs Response es is (ledger t) l
      → Runs Response (call key ∷ es) (i ∷ is) (ledger s) l
  called_run key s t i es is l serves same rest =
      called key i t.requests serves
        (subst (λ n. Runs Response es is (record { now = n; requests = t.requests }) l) same rest)

  run-Runs_from :
      (es : List (Event Response)) (s : History Response)
      → IsSound Response s
      → Runs Response es (answers Response es s) (ledger s) (ledger (run Response es s))
  unfolding answers run
  run-Runs_from [] s sound = done (ledger s)
  run-Runs_from (clock n ∷ es) s sound = ticked n (
      run-Runs_from es (step Response (clock n) s)
        (record { holds = sound.holds; tracks = sound.tracks }))
  run-Runs_from (call key ∷ es) s sound =
      let (serves, same, next) =
        answered key s (fresh Response s.now (map_get key s.cache)) sound refl in
      called_run key s (fetch_key Response key s).0 (fetch_key Response key s).1 es
        (answers Response es (fetch_key Response key s).0)
        (ledger (run Response es (fetch_key Response key s).0)) serves same
        (run-Runs_from es (fetch_key Response key s).0 next)
  run-Runs_from (reply i a ∷ es) s sound = replied i a (
      run-Runs_from es (settle Response i (fulfilled a) s)
        (settle-IsSound Response i (fulfilled a) s sound))
  run-Runs_from (fail i ∷ es) s sound =
      failed i (
        run-Runs_from es (settle Response i rejected s)
          (settle-IsSound Response i rejected s sound))

  -- Every run of the cache is a run of its service: a call shares a request for the same key that
  -- is less than a minute old and has not failed, and sends a new one only where the last one for
  -- the key is a minute old, or there is none, or one for the key has failed.
  pub run-Runs :
      (n : ℕ) (es : List (Event Response))
      → Runs Response es
          (answers Response es (initial Response n))
          (ledger (initial Response n))
          (ledger (run Response es (initial Response n)))
  run-Runs n es = run-Runs_from es (initial Response n) (initial-IsSound Response n)
