-- ===== src/Database/Migration/Importing.antt =====
-- What the migration of the profiles leaves, and that it can be run again.
use ai_lead_qualifier.Prelude.{
  ◌+◌, String, Option, none, some, List, [], ◌∷◌, length, ◌≡◌, refl, sym, ◌∙◌, ap, ◌↔◌, inl, inr,
  str_eq, suc, Bool, true, false, if◌then◌else◌, arith,
}
use ai_lead_qualifier.Core.Json.{Json, insert}
use ai_lead_qualifier.Core.Json.Lookups.{lookup-insert}
use ai_lead_qualifier.Core.Exceptions.{Answer, ok, ◌>>=◌, Answer-cases}
use ai_lead_qualifier.Database.Profiles.{Profiles, Jsonb, get_profile, upsert_profile}
use ai_lead_qualifier.Database.Migration.Columns.{
  or_else, to_option, column_of, last_imported, failed, written, written-column_of,
}
use ai_lead_qualifier.Database.Migration.{
  ProfileFile, Progress, Migration, start_of, count_file, exit_with, read_profile, migrate_file,
  migrate_files, main,
}

or_else_twice : {A : Type 0} (a b : Option A) → or_else a (or_else a b) ≡ or_else a b
or_else_twice none b = refl
or_else_twice (some a) b = refl

or_else_assoc : {A : Type 0} (a b c : Option A) → or_else (or_else a b) c ≡ or_else a (or_else b c)
or_else_assoc none b c = refl
or_else_assoc (some a) b c = refl

or_else_chosen :
    {A : Type 0} (b : Bool) (a : A) (c : Option A)
    → (if b then some a else c) ≡ or_else (if b then some a else none) c
or_else_chosen true a c = refl
or_else_chosen false a c = refl

or_else_skipped : {A : Type 0} (b : Bool) (c : Option A) → c ≡ or_else (if b then none else none) c
or_else_skipped true c = refl
or_else_skipped false c = refl

module _ {W : Type 0} (loads : String → Answer (Json W)) (jsonb : Jsonb W) where
  migrate_file_lem :
      (file : ProfileFile) (profiles : Profiles W)
      → migrate_file loads jsonb file profiles
        ≡ written loads jsonb file >>= (λ d. ok (insert file.stem d profiles))
  unfolding migrate_file upsert_profile
  migrate_file_lem file profiles = elim (Answer-cases (read_profile loads jsonb file)) [
    | inr (e, q) ↦ rw q refl
    | inl (d, q) ↦ elim (Answer-cases file.execute) [
      | inr (e, r) ↦ rw (q, r) refl
      | inl (done, r) ↦ rw (q, r) refl
    ]
  ]

  after_file : (file : ProfileFile) (p : Progress W) → Progress W
  after_file file p = count_file p (migrate_file loads jsonb file p.profiles)

  after_file-profile :
      (t : String) (file : ProfileFile) (p : Progress W)
      → get_profile t (after_file file p).profiles
        ≡ or_else
            (if str_eq file.stem t then column_of loads jsonb file else none)
            (get_profile t p.profiles)
  unfolding after_file count_file get_profile
  after_file-profile t file p =
      rw (migrate_file_lem file p.profiles) (elim (Answer-cases (written loads jsonb file)) [
        | inr (e, q) ↦
            let c : column_of loads jsonb file ≡ none =
              sym (written-column_of loads jsonb file) ∙ ap to_option q in
            rw (q, c) (or_else_skipped (str_eq file.stem t) _)
        | inl (d, q) ↦
            let c : column_of loads jsonb file ≡ some d =
              sym (written-column_of loads jsonb file) ∙ ap to_option q in
            rw (q, c)
              (lookup-insert file.stem t d p.profiles ∙ or_else_chosen (str_eq file.stem t) d _)
      ])

  migrate_files-profile :
      (t : String) (files : List ProfileFile) (p : Progress W)
      → get_profile t (migrate_files loads jsonb files p).profiles
        ≡ or_else (last_imported loads jsonb t files) (get_profile t p.profiles)
  unfolding migrate_files after_file
  migrate_files-profile t [] p = refl
  migrate_files-profile t (file ∷ files) p =
      migrate_files-profile t files (count_file p (migrate_file loads jsonb file p.profiles))
      ∙ ap (or_else (last_imported loads jsonb t files)) (after_file-profile t file p)
      ∙ sym (or_else_assoc (last_imported loads jsonb t files) _ _)

  after_file-counts :
      (file : ProfileFile) (p : Progress W)
      → let q = after_file file p in
        (q.errors ≡ p.errors + failed loads jsonb (file ∷ []))
        × (q.migrated + q.errors ≡ suc (p.migrated + p.errors))
  unfolding after_file count_file
  after_file-counts file p =
      rw (migrate_file_lem file p.profiles) (elim (Answer-cases (written loads jsonb file)) [
        | inr (e, q) ↦
            let c : column_of loads jsonb file ≡ none =
              sym (written-column_of loads jsonb file) ∙ ap to_option q in
            rw (q, c) (omega arith, omega arith)
        | inl (d, q) ↦
            let c : column_of loads jsonb file ≡ some d =
              sym (written-column_of loads jsonb file) ∙ ap to_option q in
            rw (q, c) (omega arith, omega arith)
      ])

  migrate_files-counts :
      (files : List ProfileFile) (p : Progress W)
      → let q = migrate_files loads jsonb files p in
        (q.errors ≡ p.errors + failed loads jsonb files)
        × (q.migrated + q.errors ≡ p.migrated + p.errors + length files)
  unfolding migrate_files after_file
  migrate_files-counts [] p = (omega arith, omega arith)
  migrate_files-counts (file ∷ files) p =
      let (errors, total) = after_file-counts file p in
      let (errors', total') = migrate_files-counts files (after_file file p) in
      (omega arith, omega arith)

  abbrev pub files_of : Option (List ProfileFile) → List ProfileFile
  files_of none = []
  files_of (some files) = files

  -- What a run on the files of a directory has done to the table `profiles`.
  pub record IsImported (files : List ProfileFile) (profiles : Profiles W) (m : Migration W)
      : Type 0 where
    pub profile :
        (t : String)
        → get_profile t m.progress.profiles
          ≡ or_else (last_imported loads jsonb t files) (get_profile t profiles)
    pub errors : m.progress.errors ≡ failed loads jsonb files
    pub total : m.progress.migrated + m.progress.errors ≡ length files
    pub exit_iff : (m.exit_code ≡ 0) ↔ (failed loads jsonb files ≡ 0)

  exit_with-IsImported :
      (files : List ProfileFile) (profiles : Profiles W)
      → IsImported files profiles (exit_with (migrate_files loads jsonb files (start_of profiles)))
  unfolding exit_with
  exit_with-IsImported files profiles =
      let q = migrate_files loads jsonb files (start_of profiles) in
      let (errors, total) = migrate_files-counts files (start_of profiles) in
      record {
        profile = λ t. migrate_files-profile t files (start_of profiles);
        errors = omega arith;
        total = omega arith;
        exit_iff = (λ h. ground arith, λ h. ground arith);
      }

  main-IsImported :
      (directory : Option (List ProfileFile)) (profiles : Profiles W)
      → (m : Migration W) × (main loads jsonb (ok tt) directory profiles ≡ ok m)
        × IsImported (files_of directory) profiles m
  unfolding main migrate_files
  main-IsImported none profiles = (_, refl, exit_with-IsImported [] profiles)
  main-IsImported (some []) profiles = (_, refl, exit_with-IsImported [] profiles)
  main-IsImported (some (file ∷ files)) profiles =
      (_, refl, exit_with-IsImported (file ∷ files) profiles)

  -- A run that gets its connections ends. Then a tenant that has a good file has the profile of the
  -- last one, without its "tenant_id", and the other tenants what they had before; the files that
  -- failed and those that were migrated are counted; and the process exits with 0 exactly when none
  -- failed. A second run on the same files, with the same answers, ends too: it leaves the profile
  -- of each tenant as the first has left it, and counts and exits as the first.
  pub main_twice :
      (directory : Option (List ProfileFile)) (profiles : Profiles W)
      → (m : Migration W) × (m' : Migration W) × (main loads jsonb (ok tt) directory profiles
          ≡ ok m)
        × IsImported (files_of directory) profiles m
        × (main loads jsonb (ok tt) directory m.progress.profiles ≡ ok m')
        × ((t : String) → get_profile t m'.progress.profiles ≡ get_profile t m.progress.profiles)
        × (m'.progress.errors ≡ m.progress.errors)
        × (m'.progress.migrated ≡ m.progress.migrated)
        × ((m'.exit_code ≡ 0) ↔ (m.exit_code ≡ 0))
  main_twice directory profiles =
      let (m, p, i) = main-IsImported directory profiles in
      let (m', p', i') = main-IsImported directory m.progress.profiles in
      let same_errors = i'.errors ∙ sym i.errors in
      let total = i.total in
      let total' = i'.total in
      (
        m,
        m',
        p,
        i,
        p',
        λ t.
            i'.profile t
            ∙ ap (or_else (last_imported loads jsonb t (files_of directory))) (i.profile t)
            ∙ or_else_twice (last_imported loads jsonb t (files_of directory))
                (get_profile t profiles)
            ∙ sym (i.profile t),
        same_errors,
        omega arith,
        (λ h. i.exit_iff.1 (i'.exit_iff.0 h), λ h. i'.exit_iff.1 (i.exit_iff.0 h)),
      )
