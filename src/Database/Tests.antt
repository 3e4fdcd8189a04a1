-- ===== src/Database/Tests.antt =====
-- The vector store on concrete rows.
use ai_lead_qualifier.Prelude.{
  String, List, str_eq, ◌↔◌, if◌then◌else◌, ◌≡◌, refl, some, none, [], ◌∷◌,
}
use ai_lead_qualifier.Float.{Fixed, fixed_float}
use ai_lead_qualifier.Agents.Fixtures.{distance}
use ai_lead_qualifier.Core.Exceptions.{Answer, ok, raised, other}
use ai_lead_qualifier.Core.Json.{Json, null, text, object, end, entry}
use ai_lead_qualifier.Database.Profiles.{Profiles, Jsonb, get_profile}
use ai_lead_qualifier.Database.Migration.{ProfileFile, Migration, main}
use ai_lead_qualifier.Database.Migration.Importing.{IsImported, files_of, main_twice}
use ai_lead_qualifier.Database.Documents.{Document}
use ai_lead_qualifier.Database.Catalogue.{Item, Table, to_row, find_row, upsert_items}
use ai_lead_qualifier.Database.Catalogue.Keys.{
  last_written, IsUnique, upsert_items_lookup, upsert_items-IsUnique,
}

abbrev document : Document Fixed
document = record {
  page_content = "Sito Web";
  metadata = record {
    service = "Sito Web";
    price = some 1000000;
    price_type = "FIXED";
    distance = 1000;
    tenant_id = "acme";
    rest = [];
  };
}

abbrev logo : Item Fixed
logo = record {
  service = "Logo";
  price = some 500000;
  price_type = "FIXED";
  description = none;
  embedding = 1 ∷ 2 ∷ [];
  metadata = none;
}

abbrev cheap_logo : Item Fixed
cheap_logo = record logo { price = some 400000 }

abbrev table : Table Fixed
table = to_row "acme" logo ∷ to_row "other" logo ∷ []

upsert_items_lookup_example :
    find_row "acme" "Logo" (upsert_items (logo ∷ cheap_logo ∷ []) "acme" table).0
    ≡ last_written "acme" "Logo" (logo ∷ cheap_logo ∷ []) (find_row "acme" "Logo" table)
upsert_items_lookup_example = upsert_items_lookup (logo ∷ cheap_logo ∷ []) "acme" "Logo" table

table-IsUnique : IsUnique table
unfolding find_row
table-IsUnique = (refl, (refl, tt))

upsert_items-IsUnique_example : IsUnique (upsert_items (cheap_logo ∷ []) "acme" table).0
upsert_items-IsUnique_example = upsert_items-IsUnique (cheap_logo ∷ []) "acme" table table-IsUnique

-- The directory of profiles holds a good file, one that is not an object, and one that is not read.
abbrev profile_files : List ProfileFile
profile_files =
    record { stem = "acme"; contents = ok "{}"; execute = ok tt }
    ∷ record { stem = "beta"; contents = ok "null"; execute = ok tt }
    ∷ record {
      stem = "gamma";
      contents = raised (record { kind = other "PermissionError"; message = "" });
      execute = ok tt;
    }
    ∷ []

abbrev loads : String → Answer (Json Fixed)
loads raw =
    if str_eq raw "{}"
    then ok (object (entry "tenant_id" (text "acme") (entry "name" (text "Acme") end)))
    else ok null

abbrev jsonb : Jsonb Fixed
jsonb = record { convert = λ d. ok d }

abbrev old_profiles : Profiles Fixed
old_profiles = ("gamma", []) ∷ ("acme", []) ∷ []

imported :
    main loads jsonb (ok tt) (some profile_files) old_profiles
    ≡ ok (record {
      progress = record {
        profiles = ("gamma", []) ∷ ("acme", ("name", text "Acme") ∷ []) ∷ [];
        migrated = 1;
        errors = 2;
      };
      exit_code = 1;
    })
unfolding main
imported = refl

main_twice_example :
    (m : Migration Fixed) × (m' : Migration Fixed) × (main loads jsonb
        (ok tt)
        (some profile_files)
        old_profiles
      ≡ ok m)
    × IsImported loads jsonb (files_of loads jsonb (some profile_files)) old_profiles m
    × (main loads jsonb (ok tt) (some profile_files) m.progress.profiles ≡ ok m')
    × ((t : String) → get_profile t m'.progress.profiles ≡ get_profile t m.progress.profiles)
    × (m'.progress.errors ≡ m.progress.errors)
    × (m'.progress.migrated ≡ m.progress.migrated)
    × ((m'.exit_code ≡ 0) ↔ (m.exit_code ≡ 0))
main_twice_example = main_twice loads jsonb (some profile_files) old_profiles
