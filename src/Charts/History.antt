-- ===== src/Charts/History.antt =====
-- The cache of requests of frontend/src/charts/history.ts. A promise is the number of its request;
-- the requests that were sent, and what has become of them, stand in the order in which they were
-- sent. How `URLSearchParams` writes its parameters is a parameter.
pub mod Promise
pub mod Lookups
pub mod Service
pub mod Settling
pub mod Sound
pub mod Refining
pub mod SingleCell
pub mod Rows
use Prim.Native.String.{◌++◌ as join}
use simply_se.Base.{
  ℕ, ◌-◌, suc, zero, Bool, true, false, not, Option, none, some, List, [], ◌∷◌, ◌++◌, String,
  str_eq, ltb, length, get_elem?, if◌then◌else◌, filter,
}
use simply_se.Charts.History.Promise.{Status, pending, fulfilled, rejected, settle_at, Request}

abbrev pub ttl_ms : ℕ
ttl_ms = 60000

pub record Cached : Type 0 where
  pub at : ℕ
  pub promise : ℕ

-- `Map.get`, `Map.delete` and `Map.set`.
unfoldable pub map_get : String → List (String × Cached) → Option Cached
map_get k [] = none
map_get k ((j, c) ∷ cache) = if str_eq j k then some c else map_get k cache

abbrev pub map_delete : String → List (String × Cached) → List (String × Cached)
map_delete k cache = filter (λ e. not (str_eq e.0 k)) cache

abbrev pub map_set : String → Cached → List (String × Cached) → List (String × Cached)
map_set k c cache = (k, c) ∷ map_delete k cache

pub record HistoryParams : Type 0 where
  pub from : ℕ
  pub bucket : String
  pub group : List String

join_comma : List String → String
join_comma [] = ""
join_comma (g ∷ []) = g
join_comma (g ∷ h ∷ gs) = join g (join "," (join_comma (h ∷ gs)))

-- The parameters of the request; `decimal` is `String` of a number. The start is a whole number of
-- seconds, which `Math.floor` leaves as it is.
unfoldable pub query : (ℕ → String) → HistoryParams → List (String × String)
unfolding join_comma
query decimal p =
    ("from", decimal p.from)
    ∷ ("bucket", p.bucket)
    ∷ (if ltb 0 (length p.group) then ("group", join_comma p.group) ∷ [] else [])

module _ (Response : Type 0) where
  -- `now` is `Date.now()`.
  pub record History : Type 0 where
    pub now : ℕ
    pub cache : List (String × Cached)
    pub requests : List (Request Response)

  -- The answer to a call: the promise, and whether it is shared.
  unfoldable pub fresh : ℕ → Option Cached → Option ℕ
  fresh now none = none
  fresh now (some c) = if ltb (now - c.at) ttl_ms then some c.promise else none

  -- A new request, which is cached before its answer is there.
  unfoldable pub send : String → History → History
  send key s = record {
    now = s.now;
    cache = map_set key (record { at = s.now; promise = length s.requests }) s.cache;
    requests = s.requests ++ record { key = key; at = s.now; status = pending } ∷ [];
  }

  abbrev answer : String → Option ℕ → History → History × ℕ
  answer key none s = (send key s, length s.requests)
  answer key (some i) s = (s, i)

  unfoldable pub fetch_key : String → History → History × ℕ
  unfolding fresh send map_get
  fetch_key key s = answer key (fresh s.now (map_get key s.cache)) s

  unfoldable pub fetch_history :
      (ℕ → String)
      → (List (String × String) → String)
      → String
      → HistoryParams
      → History
      → History × ℕ
  unfolding fetch_key query
  fetch_history decimal params dataset p s =
      fetch_key (join dataset (join "?" (params (query decimal p)))) s

  -- The key that `promise.catch` deletes: the one of a request that fails now.
  abbrev open_key : String → Status Response → Option String
  open_key key pending = some key
  open_key key rejected = none
  open_key key (fulfilled a) = none

  unfoldable pub dropped : Status Response → Option (Request Response) → Option String
  dropped rejected none = none
  dropped rejected (some r) = open_key r.key r.status
  dropped pending r = none
  dropped (fulfilled a) r = none

  abbrev drop_key : Option String → List (String × Cached) → List (String × Cached)
  drop_key none cache = cache
  drop_key (some key) cache = map_delete key cache

  -- What becomes of request `i`.
  unfoldable pub settle : ℕ → Status Response → History → History
  unfolding settle_at dropped
  settle i status s = record {
    now = s.now;
    cache = drop_key (dropped status (get_elem? s.requests i)) s.cache;
    requests = settle_at i status s.requests;
  }

  pub data Event : Type 0 where
    clock : ℕ → Event
    call : String → Event
    reply : ℕ → Response → Event
    fail : ℕ → Event

  unfoldable pub step : Event → History → History
  unfolding fetch_key settle
  step (clock n) s = record { now = n; cache = s.cache; requests = s.requests }
  step (call key) s = (fetch_key key s).0
  step (reply i a) s = settle i (fulfilled a) s
  step (fail i) s = settle i rejected s

  -- The promises that the calls of a run return.
  abbrev answer_of : Event → History → List ℕ
  answer_of (call key) s = (fetch_key key s).1 ∷ []
  answer_of (clock n) s = []
  answer_of (reply i a) s = []
  answer_of (fail i) s = []

  unfoldable pub answers : List Event → History → List ℕ
  unfolding fetch_key step
  answers [] s = []
  answers (e ∷ es) s = answer_of e s ++ answers es (step e s)

  unfoldable pub run : List Event → History → History
  unfolding step
  run [] s = s
  run (e ∷ es) s = run es (step e s)

  abbrev pub initial : ℕ → History
  initial now = record { now = now; cache = []; requests = [] }
