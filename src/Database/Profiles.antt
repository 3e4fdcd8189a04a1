-- ===== src/Database/Profiles.antt =====
-- backend/database/profiles.py: the rows of the table tenant_profiles, by tenant. What the JSONB
-- column makes of a dict that is written is a parameter.
use ai_lead_qualifier.Prelude.{String, Option, ◌≡◌}
use ai_lead_qualifier.Core.Json.{Json, Dict, lookup, insert}
use ai_lead_qualifier.Core.Exceptions.{Answer, ok, ◌>>=◌}

abbrev pub Profiles : Type 0 → Type 0
Profiles W = Dict (Dict (Json W))

-- `json.loads` of the column after `json.dumps` of the dict, or what the database raises.
pub record Jsonb (W : Type 0) : Type 0 where
  pub convert : Dict (Json W) → Answer (Dict (Json W))

-- The column forgets the order of the keys, and keeps their values.
pub record JsonbLaws (W : Type 0) (jsonb : Jsonb W) : Type 0 where
  pub lookup-convert :
      (d d' : Dict (Json W)) (k : String) → jsonb.convert d ≡ ok d' → lookup k d' ≡ lookup k d

module _ {W : Type 0} where
  unfoldable pub get_profile : String → Profiles W → Option (Dict (Json W))
  unfolding lookup
  get_profile tenant_id profiles = lookup tenant_id profiles

  -- `INSERT … ON CONFLICT (tenant_id) DO UPDATE`
  unfoldable pub upsert_profile :
      Jsonb W → String → Dict (Json W) → Profiles W → Answer (Profiles W)
  unfolding insert
  upsert_profile jsonb tenant_id profile profiles = do
    stored ← jsonb.convert profile
    ok (insert tenant_id stored profiles)
