-- ===== src/Charts/History/Settling.antt =====
-- What a reply does to the requests and to the cache of frontend/src/charts/history.ts.
use simply_se.Base.{
  ℕ, suc, zero, Bool, true, false, ◌&&◌, ◌||◌, Option, none, some, List, [], ◌∷◌, String, str_eq,
  get_elem?, ◌≡◌, ◌≢◌, refl, sym, ap, ◌∙◌, subst, arith, ◌⊎◌, inl, inr,
}
use simply_se.Charts.History.Promise.{
  Status, pending, fulfilled, rejected, settle_at, settled, Request,
}
use simply_se.Charts.History.{dropped, open_key}
use simply_se.Charts.History.Lookups.{is_failed, any_failed}

module _ {Response : Type 0} where
  abbrev pub settled_request : Status Response → Request Response → Request Response
  settled_request status r = record { key = r.key; at = r.at; status = settled status r.status }

  pub get_elem?-settle_at :
      (status : Status Response) (i j : ℕ) (rs : List (Request Response)) (r : Request Response)
      → get_elem? rs j ≡ some r
      → ((i ≡ j) × (get_elem? (settle_at i status rs) j ≡ some (settled_request status r)))
        ⊎ (get_elem? (settle_at i status rs) j ≡ some r)
  unfolding settle_at
  get_elem?-settle_at status i j [] r h = cc
  get_elem?-settle_at status zero zero (x ∷ rs) r h = inl (refl, ap (λ o. map_it o) h)
    where
      map_it : Option (Request Response) → Option (Request Response)
      map_it none = none
      map_it (some r) = some (settled_request status r)
  get_elem?-settle_at status zero (suc j) (x ∷ rs) r h = inr h
  get_elem?-settle_at status (suc i) zero (x ∷ rs) r h = inr h
  get_elem?-settle_at status (suc i) (suc j) (x ∷ rs) r h =
      elim (get_elem?-settle_at status i j rs r h) [
        | inl (e, g) ↦ inl (ap suc e, g)
        | inr g ↦ inr g
      ]

  pub some_injective : (x r : Request Response) → some x ≡ some r → x ≡ r
  some_injective x r h = cc

  open_fails :
      (status : Status Response) → status ≡ pending → is_failed (settled rejected status) ≡ true
  open_fails pending h = refl
  open_fails rejected h = refl
  open_fails (fulfilled a) h = cc

  first_fails :
      (x : Request Response) (key : String) (rest : Bool)
      → str_eq x.key key ≡ true
      → x.status ≡ pending
      → (str_eq x.key key && is_failed (settled rejected x.status) || rest) ≡ true
  first_fails x key rest k p = ground (arith, open_fails x.status p)

  pub any_failed_rejected :
      (i : ℕ) (rs : List (Request Response)) (r : Request Response) (key : String)
      → get_elem? rs i ≡ some r
      → r.status ≡ pending
      → str_eq r.key key ≡ true
      → any_failed key (settle_at i rejected rs) ≡ true
  unfolding any_failed settle_at
  any_failed_rejected i [] r key h p k = cc
  any_failed_rejected zero (x ∷ rs) r key h p k =
      let same = sym (some_injective x r h) in
      first_fails x key (any_failed key rs) (subst (λ y. str_eq y.key key ≡ true) same k)
        (subst (λ y. y.status ≡ pending) same p)
  any_failed_rejected (suc i) (x ∷ rs) r key h p k =
      ground (arith, any_failed_rejected i rs r key h p k)

  -- The key that a reply drops from the cache: that of a request that was open and fails.
  pub data Dropping (status : Status Response) (rs : List (Request Response)) (i : ℕ)
      : Option String → Type 0 where
    kept :
        ((r : Request Response)
          → get_elem? rs i ≡ some r
          → is_failed r.status ≡ false
          → is_failed (settled status r.status) ≡ false)
        → Dropping status rs i none
    removed :
        (r : Request Response)
        → get_elem? rs i ≡ some r
        → r.status ≡ pending
        → status ≡ rejected
        → Dropping status rs i (some r.key)

  never_fails :
      (status old : Status Response)
      → is_failed status ≡ false
      → is_failed old ≡ false
      → is_failed (settled status old) ≡ false
  never_fails status pending h k = h
  never_fails status rejected h k = k
  never_fails status (fulfilled a) h k = refl

  closed_stays :
      (old : Status Response)
      → old ≢ pending
      → is_failed old ≡ false
      → is_failed (settled rejected old) ≡ false
  closed_stays pending h live = absurd (h refl)
  closed_stays rejected h live = live
  closed_stays (fulfilled a) h live = refl

  same_status :
      (rs : List (Request Response)) (i : ℕ) (r r' : Request Response)
      → get_elem? rs i ≡ some r
      → get_elem? rs i ≡ some r'
      → r'.status ≡ r.status
  same_status rs i r r' h h' = ap (λ x. x.status) (some_injective r' r (sym h' ∙ h))

  dropping_open :
      (rs : List (Request Response)) (i : ℕ) (r : Request Response) (old : Status Response)
      → get_elem? rs i ≡ some r
      → r.status ≡ old
      → Dropping rejected rs i (open_key Response r.key old)
  dropping_open rs i r pending h e = removed r h e refl
  dropping_open rs i r rejected h e = kept λ r' h' live.
      closed_stays r'.status (λ p. let bad = sym (same_status rs i r r' h h' ∙ e) ∙ p in cc) live
  dropping_open rs i r (fulfilled a) h e = kept λ r' h' live.
      closed_stays r'.status (λ p. let bad = sym (same_status rs i r r' h h' ∙ e) ∙ p in cc) live

  dropping_at :
      (status : Status Response) (rs : List (Request Response)) (i : ℕ)
      (o : Option (Request Response))
      → get_elem? rs i ≡ o
      → Dropping status rs i (dropped Response status o)
  unfolding dropped
  dropping_at rejected rs i none h = kept λ r' h' live. let bad = sym h ∙ h' in cc
  dropping_at rejected rs i (some r) h = dropping_open rs i r r.status h refl
  dropping_at pending rs i o h = kept λ r h live. never_fails pending r.status refl live
  dropping_at (fulfilled a) rs i o h = kept λ r h live. never_fails (fulfilled a) r.status refl live

  pub dropping :
      (status : Status Response) (rs : List (Request Response)) (i : ℕ)
      → Dropping status rs i (dropped Response status (get_elem? rs i))
  dropping status rs i = dropping_at status rs i (get_elem? rs i) refl
