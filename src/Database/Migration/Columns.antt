-- ===== src/Database/Migration/Columns.antt =====
-- What the column holds of a file that is good, whatever the run does with it.
use ai_lead_qualifier.Prelude.{
  ℕ, ◌+◌, String, Option, none, some, List, [], ◌∷◌, ◌≡◌, refl, inl, inr, str_eq, if◌then◌else◌,
}
use ai_lead_qualifier.Core.Json.{
  Json, Dict, null, boolean, number, text, array, object, entries, without,
}
use ai_lead_qualifier.Core.Exceptions.{Answer, ok, raised, ◌>>=◌, Answer-cases}
use ai_lead_qualifier.Database.Profiles.{Jsonb}
use ai_lead_qualifier.Database.Migration.{ProfileFile, pop_tenant_id, read_profile}

abbrev pub or_else : {A : Type 0} → Option A → Option A → Option A
or_else (some a) b = some a
or_else none b = b

abbrev pub to_option : {A : Type 0} → Answer A → Option A
to_option (ok a) = some a
to_option (raised e) = none

abbrev bind : {A B : Type 0} → Option A → (A → Option B) → Option B
bind none f = none
bind (some a) f = f a

module _ {W : Type 0} where
  abbrev object_of : Json W → Option (Dict (Json W))
  object_of (object es) = some (entries es)
  object_of _ = none

  -- The other entries of a dict.
  abbrev without_tenant_id : Dict (Json W) → Dict (Json W)
  without_tenant_id [] = []
  without_tenant_id ((k, v) ∷ d) =
      let rest = without_tenant_id d in if str_eq k "tenant_id" then rest else (k, v) ∷ rest

  without-tenant_id : (d : Dict (Json W)) → without "tenant_id" d ≡ without_tenant_id d
  unfolding without
  without-tenant_id [] = refl
  without-tenant_id ((k, v) ∷ d) = rw (without-tenant_id d) refl

  after_pop :
      (convert : Dict (Json W) → Answer (Dict (Json W))) (done : Answer (Unit {0}))
      (parsed : Json W)
      → to_option (pop_tenant_id parsed >>= λ d. done >>= λ u. convert d)
        ≡ bind
            (object_of parsed)
            (λ d. bind (to_option done) (λ u. to_option (convert (without_tenant_id d))))
  unfolding pop_tenant_id
  after_pop convert (ok u) (object es) = rw (without-tenant_id (entries es)) refl
  after_pop convert (raised e) (object es) = refl
  after_pop convert done (array vs) = refl
  after_pop convert done null = refl
  after_pop convert done (boolean b) = refl
  after_pop convert done (number x) = refl
  after_pop convert done (text t) = refl

module _ {W : Type 0} (loads : String → Answer (Json W)) (jsonb : Jsonb W) where
  -- What the column holds of a good file: one that is read, holds a JSON object, and whose statement
  -- the database takes. It is the object without its "tenant_id".
  abbrev pub column_of : ProfileFile → Option (Dict (Json W))
  column_of file = bind (to_option file.contents) λ raw. bind (to_option (loads raw)) λ parsed.
      bind (object_of parsed)
        λ d. bind (to_option file.execute) λ u. to_option (jsonb.convert (without_tenant_id d))

  -- The profile that the last good file of a tenant has.
  abbrev pub last_imported : String → List ProfileFile → Option (Dict (Json W))
  last_imported t [] = none
  last_imported t (file ∷ files) =
      or_else (last_imported t files) (if str_eq file.stem t then column_of file else none)

  abbrev pub failed : List ProfileFile → ℕ
  failed [] = 0
  failed (file ∷ files) = (elim (column_of file) [ some d ↦ 0 | none ↦ 1 ]) + failed files

  -- The same, as the run computes it.
  abbrev pub written : ProfileFile → Answer (Dict (Json W))
  written file = do
    profile ← read_profile loads jsonb file
    done ← file.execute
    jsonb.convert profile

  pub written-column_of : (file : ProfileFile) → to_option (written file) ≡ column_of file
  unfolding read_profile
  written-column_of file = elim (Answer-cases file.contents) [
    | inr (e, p) ↦ rw p refl
    | inl (raw, p) ↦ elim (Answer-cases (loads raw)) [
      | inr (e, q) ↦ rw (p, q) refl
      | inl (parsed, q) ↦ rw (p, q) (after_pop jsonb.convert file.execute parsed)
    ]
  ]
