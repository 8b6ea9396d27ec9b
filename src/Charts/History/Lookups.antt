-- ===== src/Charts/History/Lookups.antt =====
-- Lookups in the cache and in the list of requests.
use simply_se.Base.{
  ℕ, suc, zero, Bool, true, false, ◌&&◌, ◌||◌, Option, none, some, List, [], ◌∷◌, ◌++◌, String,
  str_eq, eq_iff, length, get_elem?, if◌then◌else◌, ◌≡◌, refl, arith,
}
use simply_se.Charts.History.Promise.{
  Status, pending, fulfilled, rejected, settle_at, settled, Request,
}
use simply_se.Charts.History.{Cached, map_get, map_set, map_delete}

pub map_get-map_delete :
    (k j : String) (cache : List (String × Cached))
    → map_get j (map_delete k cache) ≡ (if str_eq k j then none else map_get j cache)
unfolding map_get
map_get-map_delete k j [] = ground arith
map_get-map_delete k j ((i, c) ∷ cache) =
    ground (arith, eq_iff k j, eq_iff i k, eq_iff i j, map_get-map_delete k j cache)

pub map_get-map_set :
    (k j : String) (c : Cached) (cache : List (String × Cached))
    → map_get j (map_set k c cache) ≡ (if str_eq k j then some c else map_get j cache)
unfolding map_get
map_get-map_set k j c cache = ground (arith, eq_iff k j, map_get-map_delete k j cache)

abbrev pub or_time : Option ℕ → Bool → ℕ → Option ℕ
or_time (some n) b m = some n
or_time none b m = if b then some m else none

or_time-snoc :
    (o : Option ℕ) (b c : Bool) (m n : ℕ)
    → or_time (if c then some n else o) b m ≡ (if c then some n else or_time o b m)
or_time-snoc none b true m n = refl
or_time-snoc none b false m n = refl
or_time-snoc (some x) b true m n = refl
or_time-snoc (some x) b false m n = refl

module _ {Response : Type 0} where
  abbrev pub is_failed : Status Response → Bool
  is_failed pending = false
  is_failed rejected = true
  is_failed (fulfilled a) = false

  -- Some request for a key has failed.
  unfoldable pub any_failed : String → List (Request Response) → Bool
  any_failed key [] = false
  any_failed key (r ∷ rs) = str_eq r.key key && is_failed r.status || any_failed key rs

  -- When the last request for a key was sent.
  unfoldable pub last_at : String → List (Request Response) → Option ℕ
  last_at key [] = none
  last_at key (r ∷ rs) = or_time (last_at key rs) (str_eq r.key key) r.at

  pub get_elem?-snoc :
      (rs : List (Request Response)) (i : ℕ) (r s : Request Response)
      → get_elem? rs i ≡ some r
      → get_elem? (rs ++ s ∷ []) i ≡ some r
  get_elem?-snoc [] i r s h = cc
  get_elem?-snoc (x ∷ rs) zero r s h = h
  get_elem?-snoc (x ∷ rs) (suc i) r s h = get_elem?-snoc rs i r s h

  pub get_elem?-last :
      (rs : List (Request Response)) (s : Request Response)
      → get_elem? (rs ++ s ∷ []) (length rs) ≡ some s
  get_elem?-last [] s = refl
  get_elem?-last (x ∷ rs) s = get_elem?-last rs s

  pub any_failed-snoc :
      (key : String) (rs : List (Request Response)) (s : Request Response)
      → any_failed key rs ≡ true
      → any_failed key (rs ++ s ∷ []) ≡ true
  unfolding any_failed
  any_failed-snoc key [] s h = cc
  any_failed-snoc key (r ∷ rs) s h = ground (arith, any_failed-snoc key rs s)

  pub last_at-snoc :
      (key : String) (rs : List (Request Response)) (s : Request Response)
      → last_at key (rs ++ s ∷ []) ≡ (if str_eq s.key key then some s.at else last_at key rs)
  unfolding last_at
  last_at-snoc key [] s = refl
  last_at-snoc key (r ∷ rs) s =
      rw (last_at-snoc key rs s)
        (or_time-snoc (last_at key rs) (str_eq r.key key) (str_eq s.key key) r.at s.at)

  pub last_at-settle_at :
      (key : String) (i : ℕ) (status : Status Response) (rs : List (Request Response))
      → last_at key (settle_at i status rs) ≡ last_at key rs
  unfolding last_at settle_at
  last_at-settle_at key i status [] = refl
  last_at-settle_at key zero status (r ∷ rs) = refl
  last_at-settle_at key (suc i) status (r ∷ rs) = rw (last_at-settle_at key i status rs) refl

  failed_settled :
      (status old : Status Response) → is_failed old ≡ true → is_failed (settled status old) ≡ true
  failed_settled status pending h = cc
  failed_settled status rejected h = refl
  failed_settled status (fulfilled a) h = cc

  pub any_failed-settle_at :
      (key : String) (i : ℕ) (status : Status Response) (rs : List (Request Response))
      → any_failed key rs ≡ true
      → any_failed key (settle_at i status rs) ≡ true
  unfolding any_failed settle_at
  any_failed-settle_at key i status [] h = h
  any_failed-settle_at key zero status (r ∷ rs) h = ground (arith, failed_settled status r.status)
  any_failed-settle_at key (suc i) status (r ∷ rs) h =
      ground (arith, any_failed-settle_at key i status rs)
