-- ===== src/Charts/History/Sound.antt =====
-- The cache of frontend/src/charts/history.ts always fits the requests that were sent.
use simply_se.Base.{
  ℕ, Bool, true, false, Option, none, some, List, [], ◌∷◌, ◌++◌, String, str_eq, eq_iff, length,
  get_elem?, if◌then◌else◌, ◌≡◌, refl, sym, ap, ◌∙◌, subst, ◌⊎◌, inl, inr, Bool-cases,
}
use simply_se.Charts.History.Promise.{Status, pending, settle_at, settled, Request}
use simply_se.Charts.History.{Cached, map_get, History, send, settle, dropped, drop_key, initial}
use simply_se.Charts.History.Lookups.{
  map_get-map_set, map_get-map_delete, is_failed, any_failed, last_at, get_elem?-snoc,
  get_elem?-last, any_failed-snoc, last_at-snoc, last_at-settle_at, any_failed-settle_at,
}
use simply_se.Charts.History.Settling.{
  get_elem?-settle_at, settled_request, Dropping, kept, removed, dropping, any_failed_rejected,
  some_injective,
}

abbrev pub time_of : Option Cached → Option ℕ
time_of none = none
time_of (some c) = some c.at

time_if :
    (b : Bool) (new : Cached) (o : Option Cached) (t : Option ℕ)
    → time_of o ≡ t
    → time_of (if b then some new else o) ≡ (if b then some new.at else t)
time_if true new o t h = refl
time_if false new o t h = h

cached_injective : (c d : Cached) → some c ≡ some d → c ≡ d
cached_injective c d h = cc

differs :
    {Response : Type 0} (r r' : Request Response) (key : String)
    → r ≡ r'
    → r'.key ≡ key
    → str_eq r.key key ≡ false
    → ⊥
differs r r' key e k h = let same = (eq_iff r.key key).1 (ap (λ x. x.key) e ∙ k) in cc

module _ (Response : Type 0) where
  -- A cached promise belongs to a request for its key that has not failed.
  pub record IsHeld (requests : List (Request Response)) (key : String) (c : Cached) : Type 0 where
    pub request : Request Response
    pub sits : get_elem? requests c.promise ≡ some request
    pub same_key : request.key ≡ key
    pub same_time : request.at ≡ c.at
    pub not_failed : is_failed request.status ≡ false

  pub record IsSound (s : History Response) : Type 0 where
    pub holds : (key : String) (c : Cached) → map_get key s.cache ≡ some c → IsHeld s.requests key c
    pub tracks :
        (key : String)
        → (any_failed key s.requests ≡ true)
          ⊎ (time_of (map_get key s.cache) ≡ last_at key s.requests)

  pub initial-IsSound : (n : ℕ) → IsSound (initial Response n)
  unfolding map_get last_at
  initial-IsSound n = record { holds = λ key c h. cc; tracks = λ key. inr refl }

  -- Which promise is fresh, and what a call answers with it.
  IsHeld-snoc :
      (rs : List (Request Response)) (x : Request Response) (key : String) (c : Cached)
      → IsHeld rs key c
      → IsHeld (rs ++ x ∷ []) key c
  IsHeld-snoc rs x key c h = record {
    request = h.request;
    sits = get_elem?-snoc rs c.promise h.request x h.sits;
    same_key = h.same_key;
    same_time = h.same_time;
    not_failed = h.not_failed;
  }

  IsHeld-if :
      (rs : List (Request Response)) (key : String) (b : Bool) (new c : Cached) (o : Option Cached)
      → (b ≡ true → IsHeld rs key new)
      → (o ≡ some c → IsHeld rs key c)
      → (if b then some new else o) ≡ some c
      → IsHeld rs key c
  IsHeld-if rs key true new c o h k e =
      subst (λ c. IsHeld rs key c) (cached_injective new c e) (h refl)
  IsHeld-if rs key false new c o h k e = k e

  pub send-IsSound :
      (key : String) (s : History Response) → IsSound s → IsSound (send Response key s)
  unfolding send
  send-IsSound key s sound =
      let entry : Cached = record { at = s.now; promise = length s.requests } in
      let x : Request Response = record { key = key; at = s.now; status = pending } in
      record {
        holds = λ j c h.
            IsHeld-if (s.requests ++ x ∷ []) j (str_eq key j) entry c (map_get j s.cache)
              (λ e. record {
                request = x;
                sits = get_elem?-last s.requests x;
                same_key = (eq_iff key j).0 e;
                same_time = refl;
                not_failed = refl;
              })
              (λ e. IsHeld-snoc s.requests x j c (sound.holds j c e))
              (sym (map_get-map_set key j entry s.cache) ∙ h);
        tracks = λ j. elim (sound.tracks j) [
          | inl f ↦ inl (any_failed-snoc j s.requests x f)
          | inr e ↦ inr (
              ap time_of (map_get-map_set key j entry s.cache)
              ∙ time_if (str_eq key j) entry (map_get j s.cache) (last_at j s.requests) e
              ∙ sym (last_at-snoc j s.requests x))
        ];
      }

  IsHeld-settle :
      (status : Status Response) (i : ℕ) (rs : List (Request Response)) (key : String) (c : Cached)
      → ((r : Request Response)
          → i ≡ c.promise
          → get_elem? rs c.promise ≡ some r
          → r.key ≡ key
          → is_failed r.status ≡ false
          → is_failed (settled status r.status) ≡ false)
      → IsHeld rs key c
      → IsHeld (settle_at i status rs) key c
  IsHeld-settle status i rs key c live h =
      elim (get_elem?-settle_at status i c.promise rs h.request h.sits) [
        | inl (e, g) ↦ record {
          request = settled_request status h.request;
          sits = g;
          same_key = h.same_key;
          same_time = h.same_time;
          not_failed = live h.request e h.sits h.same_key h.not_failed;
        }
        | inr g ↦ record {
          request = h.request;
          sits = g;
          same_key = h.same_key;
          same_time = h.same_time;
          not_failed = h.not_failed;
        }
      ]

  -- `map_get` after a key has been dropped.
  none_if :
      (b : Bool) (o : Option Cached) (c : Cached)
      → (if b then none else o) ≡ some c
      → (b ≡ false) × (o ≡ some c)
  none_if true o c h = cc
  none_if false o c h = (refl, h)

  keep_time : (b : Bool) (o : Option Cached) → b ≡ false → (if b then none else o) ≡ o
  keep_time true o h = cc
  keep_time false o h = refl

  settled-IsSound :
      (status : Status Response) (i : ℕ) (s : History Response) (d : Option String)
      → Dropping status s.requests i d
      → IsSound s
      → IsSound (record {
        now = s.now;
        cache = drop_key Response d s.cache;
        requests = settle_at i status s.requests;
      })
  settled-IsSound status i s none (kept live) sound = record {
    holds = λ key c h.
        IsHeld-settle status i s.requests key c
          (λ r e sits k nf. live r (subst (λ j. get_elem? s.requests j ≡ some r) (sym e) sits) nf)
          (sound.holds key c h);
    tracks = λ key. elim (sound.tracks key) [
      | inl f ↦ inl (any_failed-settle_at key i status s.requests f)
      | inr e ↦ inr (e ∙ sym (last_at-settle_at key i status s.requests))
    ];
  }
  settled-IsSound status i s (some k) (removed r sits open_before fails) sound = record {
    holds = λ key c h.
        let (other, there) =
          none_if (str_eq r.key key) (map_get key s.cache) c
            (sym (map_get-map_delete r.key key s.cache) ∙ h) in
        IsHeld-settle status i s.requests key c
          (λ r' e sits' k nf. absurd (
            differs r r' key
              (some_injective r r'
                (sym sits ∙ subst (λ j. get_elem? s.requests j ≡ some r') (sym e) sits'))
              k other))
          (sound.holds key c there);
    tracks = λ key. elim (Bool-cases (str_eq r.key key)) [
      | inl same ↦ inl (
          subst (λ st. any_failed key (settle_at i st s.requests) ≡ true) (sym fails)
            (any_failed_rejected i s.requests r key sits open_before same))
      | inr other ↦ elim (sound.tracks key) [
        | inl f ↦ inl (any_failed-settle_at key i status s.requests f)
        | inr e ↦ inr (
            ap time_of (
              map_get-map_delete r.key key s.cache
              ∙ keep_time (str_eq r.key key) (map_get key s.cache) other)
            ∙ e
            ∙ sym (last_at-settle_at key i status s.requests))
      ]
    ];
  }

  pub settle-IsSound :
      (i : ℕ) (status : Status Response) (s : History Response)
      → IsSound s
      → IsSound (settle Response i status s)
  unfolding settle
  settle-IsSound i status s sound =
      settled-IsSound status i s (dropped Response status (get_elem? s.requests i))
        (dropping status s.requests i) sound
