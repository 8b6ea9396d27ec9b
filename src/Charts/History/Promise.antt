-- ===== src/Charts/History/Promise.antt =====
-- The requests of frontend/src/charts/history.ts and their promises. A promise is settled once.
use simply_se.Base.{ℕ, zero, suc, List, [], ◌∷◌, String}

pub data Status (Response : Type 0) : Type 0 where
  pending rejected : Status Response
  fulfilled : Response → Status Response

pub record Request (Response : Type 0) : Type 0 where
  pub key : String
  pub at : ℕ
  pub status : Status Response

module _ {Response : Type 0} where
  abbrev pub settled : Status Response → Status Response → Status Response
  settled status pending = status
  settled status rejected = rejected
  settled status (fulfilled a) = fulfilled a

  unfoldable pub settle_at : ℕ → Status Response → List (Request Response) → List (Request Response)
  settle_at i status [] = []
  settle_at zero status (r ∷ rs) =
      record { key = r.key; at = r.at; status = settled status r.status } ∷ rs
  settle_at (suc i) status (r ∷ rs) = r ∷ settle_at i status rs
