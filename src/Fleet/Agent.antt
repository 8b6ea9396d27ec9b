-- ===== src/Fleet/Agent.antt =====
-- The replies of the master that the dashboard judges agents by, from frontend/src/lib/api.ts. An
-- optional field is an `Option`; a union of texts with `string` is a text.
use simply_se.Base.{Bool, Option, String}

pub record Agent : Type 0 where
  pub id : String
  pub hostname : String
  pub ip : String
  pub os_release : String
  pub kernel_version : String
  pub agent_version : String
  pub mode : String
  pub policy_name : String
  pub policy_version : String
  pub group : String
  pub status : String
  pub enrolled_at : String
  pub last_seen_at : Option String
  pub connected : Bool

pub record Alert : Type 0 where
  pub id : String
  pub type : String
  pub title : String
  pub message : String
  pub agent_id : String
  pub scontext : String
  pub tcontext : String
  pub tclass : String
  pub severity : String
  pub status : String
  pub created_at : String
  pub acknowledged_at : Option String
  pub acknowledged_by : String
