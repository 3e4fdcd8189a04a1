-- ===== src/Database/Migration.antt =====
-- backend/scripts/migrate_profiles_to_db.py: the profiles that were kept as JSON files are put into
-- the table tenant_profiles. What is printed is left out, as are the arguments of the script and the
-- closing of the connections.
pub mod Columns
pub mod Importing
use ai_lead_qualifier.Prelude.{
  ℕ, ◌+◌, ◌==◌, String, Option, none, some, List, [], ◌∷◌, if◌then◌else◌,
}
use ai_lead_qualifier.Core.Json.{
  Json, Dict, null, boolean, number, text, array, object, entries, without,
}
use ai_lead_qualifier.Core.Exceptions.{Answer, ok, raised, Exc, type_error, other, ◌>>=◌}
use ai_lead_qualifier.Database.Profiles.{Profiles, Jsonb, upsert_profile}

-- A file of the directory: its name without the extension, what reading it gives, and what the
-- database answers to its statement, the conversion of the column apart.
pub record ProfileFile : Type 0 where
  pub stem : String
  pub contents : Answer String
  pub execute : Answer (Unit {0})

pub record Progress (W : Type 0) : Type 0 where
  pub profiles : Profiles W
  pub migrated : ℕ
  pub errors : ℕ

-- What a run leaves, and the exit code of the process.
pub record Migration (W : Type 0) : Type 0 where
  pub progress : Progress W
  pub exit_code : ℕ

abbrev no_pop : Exc
no_pop = record { kind = other "AttributeError"; message = "object has no attribute 'pop'" }

module _ {W : Type 0} where
  -- `data.pop("tenant_id", None)`; the `pop` of a list takes one argument only.
  pub pop_tenant_id : Json W → Answer (Dict (Json W))
  unfolding without
  pop_tenant_id (object es) = ok (without "tenant_id" (entries es))
  pop_tenant_id (array vs) =
      raised (record { kind = type_error; message = "pop expected at most 1 argument, got 2" })
  pop_tenant_id null = raised no_pop
  pop_tenant_id (boolean b) = raised no_pop
  pop_tenant_id (number x) = raised no_pop
  pop_tenant_id (text t) = raised no_pop

  -- The counters after one file: `except Exception` catches whatever was raised.
  pub count_file : Progress W → Answer (Profiles W) → Progress W
  count_file p (ok profiles) = record p { profiles = profiles; migrated = p.migrated + 1 }
  count_file p (raised e) = record p { errors = p.errors + 1 }

  pub exit_with : Progress W → Migration W
  exit_with p = record { progress = p; exit_code = if p.errors == 0 then 0 else 1 }

  abbrev pub start_of : Profiles W → Progress W
  start_of profiles = record { profiles = profiles; migrated = 0; errors = 0 }

module _ {W : Type 0} (loads : String → Answer (Json W)) (jsonb : Jsonb W) where
  pub read_profile : ProfileFile → Answer (Dict (Json W))
  unfolding pop_tenant_id
  read_profile file = do raw ← file.contents; parsed ← loads raw; pop_tenant_id parsed

  pub migrate_file : ProfileFile → Profiles W → Answer (Profiles W)
  unfolding read_profile upsert_profile
  migrate_file file profiles = do
    profile ← read_profile file
    done ← file.execute
    upsert_profile jsonb file.stem profile profiles

  pub migrate_files : List ProfileFile → Progress W → Progress W
  unfolding count_file migrate_file
  migrate_files [] p = p
  migrate_files (file ∷ files) p = migrate_files files (count_file p (migrate_file file p.profiles))

  -- `none` is a directory that does not exist.
  unfoldable pub main :
      Answer (Unit {0}) → Option (List ProfileFile) → Profiles W → Answer (Migration W)
  unfolding exit_with migrate_files
  main create_pool none profiles = ok (exit_with (start_of profiles))
  main create_pool (some []) profiles = ok (exit_with (start_of profiles))
  main create_pool (some (file ∷ files)) profiles = do
    pool ← create_pool
    ok (exit_with (migrate_files (file ∷ files) (start_of profiles)))
