-- ===== src/Api/Health.antt =====
-- backend/main.py: the health check. What the three probes raise comes from outside.
use ai_lead_qualifier.Prelude.{
  ℕ, String, Bool, true, false, ◌||◌, [], ◌∷◌, if◌then◌else◌, ◌≡◌, refl,
}
use ai_lead_qualifier.Core.Text.{f_string}
use ai_lead_qualifier.Core.Json.{Dict}
use ai_lead_qualifier.Core.Exceptions.{Answer, ok, raised, type_name, runtime_error}

pub record HealthResponse : Type 0 where
  pub status_code : ℕ
  pub status : String
  pub service : String
  pub version : String
  pub checks : Dict String

abbrev check_text : Answer (Unit {0}) → String
check_text (ok done) = "ok"
check_text (raised exc) = f_string ("error: " ∷ type_name exc.kind ∷ [])

abbrev has_failed : Answer (Unit {0}) → Bool
has_failed (ok done) = false
has_failed (raised exc) = true

pub health : String → Answer (Unit {0}) → Answer (Unit {0}) → Answer (Unit {0}) → HealthResponse
health app_version postgres redis s3 =
    let is_down = has_failed postgres || has_failed redis || has_failed s3 in
    record {
      status_code = if is_down then 503 else 200;
      status = if is_down then "error" else "ok";
      service = "ai_lead_qualifier";
      version = app_version;
      checks =
          ("postgres", check_text postgres)
          ∷ ("redis", check_text redis)
          ∷ ("s3", check_text s3)
          ∷ [];
    }

redis_down :
    (health "2.0.0"
      (ok tt)
      (raised (record { kind = runtime_error; message = "connection refused" }))
      (ok tt)).checks
    ≡ ("postgres", "ok") ∷ ("redis", "error: RuntimeError") ∷ ("s3", "ok") ∷ []
unfolding health f_string type_name
redis_down = refl
