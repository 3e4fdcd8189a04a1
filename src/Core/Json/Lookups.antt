-- ===== src/Core/Json/Lookups.antt =====
-- What is found in a dict after a write or a deletion.
use ai_lead_qualifier.Prelude.{
  String, false, none, some, [], ◌∷◌, any, ◌≡◌, refl, ◌∙◌, ap, str_eq, eq_iff, if◌then◌else◌, arith,
}
use ai_lead_qualifier.Core.Json.{Dict, keys, lookup, insert, without}

module _ {V : Type 0} where
  pub lookup-insert :
      (k j : String) (v : V) (d : Dict V)
      → lookup j (insert k v d) ≡ (if str_eq k j then some v else lookup j d)
  unfolding lookup insert
  lookup-insert k j v [] = refl
  lookup-insert k j v ((i, w) ∷ d) =
      ground (arith, eq_iff k j, eq_iff i k, eq_iff i j, lookup-insert k j v d)

  pub lookup-insert_self : (k : String) (v : V) (d : Dict V) → lookup k (insert k v d) ≡ some v
  lookup-insert_self k v d =
      lookup-insert k k v d ∙ ap (λ b. if b then some v else lookup k d) ((eq_iff k k).1 refl)

  pub lookup-without :
      (k j : String) (d : Dict V)
      → lookup j (without k d) ≡ (if str_eq k j then none else lookup j d)
  unfolding lookup without
  lookup-without k j [] = ground arith
  lookup-without k j ((i, w) ∷ d) =
      ground (arith, eq_iff k j, eq_iff i k, eq_iff i j, lookup-without k j d)

  pub lookup-keys : (k : String) (d : Dict V) → any (str_eq k) (keys d) ≡ false → lookup k d ≡ none
  unfolding lookup
  lookup-keys k [] h = refl
  lookup-keys k ((j, v) ∷ d) h = ground (arith, eq_iff k j, eq_iff j k, lookup-keys k d)
