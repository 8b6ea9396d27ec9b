-- ===== src/Charts/History/SingleCell.antt =====
-- The cache of the status in frontend/src/charts/history.ts: `fetchHistoryStatus`, which keeps one
-- promise. It is the cache of `fetchHistory` with one key.
use simply_se.Base.{
  ℕ, Option, none, some, List, [], ◌∷◌, ◌++◌, String, length, get_elem?, ◌≡◌, refl, ap, ◌∙◌,
}
use simply_se.Charts.History.Promise.{Status, pending, settle_at, Request}
use simply_se.Charts.History.{Cached, map_get, History, fresh, send, answer, fetch_key, dropped}

-- What is fetched.
abbrev pub status_url : String
status_url = "/api/history"

module _ (Response : Type 0) where
  -- `statusCache` with the requests for the status.
  pub record StatusHistory : Type 0 where
    pub now : ℕ
    pub status_cache : Option Cached
    pub requests : List (Request Response)

  abbrev answer_status : Option ℕ → StatusHistory → StatusHistory × ℕ
  answer_status (some i) s = (s, i)
  answer_status none s = (
    record {
      now = s.now;
      status_cache = some (record { at = s.now; promise = length s.requests });
      requests = s.requests ++ record { key = status_url; at = s.now; status = pending } ∷ [];
    },
    length s.requests,
  )

  unfoldable pub fetch_history_status : StatusHistory → StatusHistory × ℕ
  unfolding fresh
  fetch_history_status s = answer_status (fresh Response s.now s.status_cache) s

  -- `promise.catch` empties the cache.
  abbrev cleared : Option String → Option Cached → Option Cached
  cleared none cell = cell
  cleared (some key) cell = none

  unfoldable pub settle_status : ℕ → Status Response → StatusHistory → StatusHistory
  unfolding settle_at dropped
  settle_status i status s = record {
    now = s.now;
    status_cache = cleared (dropped Response status (get_elem? s.requests i)) s.status_cache;
    requests = settle_at i status s.requests;
  }

  -- The same as a cache of one key.
  abbrev cell_map : Option Cached → List (String × Cached)
  cell_map none = []
  cell_map (some c) = (status_url, c) ∷ []

  abbrev as_history : StatusHistory → History Response
  as_history s = record { now = s.now; cache = cell_map s.status_cache; requests = s.requests }

  map_get-cell_map : (cell : Option Cached) → map_get status_url (cell_map cell) ≡ cell
  unfolding map_get
  map_get-cell_map none = refl
  map_get-cell_map (some c) = refl

  -- One answer, with the cell and the promise found as variables.
  answered_alike :
      (n : ℕ) (cell : Option Cached) (rs : List (Request Response)) (o : Option ℕ)
      → answer Response status_url o (record { now = n; cache = cell_map cell; requests = rs }) ≡ (
        as_history (answer_status o (record { now = n; status_cache = cell; requests = rs })).0,
        (answer_status o (record { now = n; status_cache = cell; requests = rs })).1,
      )
  unfolding send
  answered_alike n cell rs (some i) = refl
  answered_alike n none rs none = refl
  answered_alike n (some c) rs none = refl

  -- A call for the status does what `fetchHistory` does with the one key.
  pub fetch_key-as_history :
      (s : StatusHistory)
      → fetch_key Response status_url (as_history s)
        ≡ (as_history (fetch_history_status s).0, (fetch_history_status s).1)
  unfolding fetch_key fetch_history_status
  fetch_key-as_history s =
      ap (λ o. answer Response status_url (fresh Response s.now o) (as_history s))
        (map_get-cell_map s.status_cache)
      ∙ answered_alike s.now s.status_cache s.requests (fresh Response s.now s.status_cache)
