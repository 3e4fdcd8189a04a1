-- ===== src/Core/Json.antt =====
-- JSON values as Python holds them: LLM replies, source rows and JSONB columns. A number is a float.
pub mod Lookups
use ai_lead_qualifier.Prelude.{
  String, Bool, Option, none, some, List, [], ◌∷◌, map, str_eq, if◌then◌else◌,
}

mutual
  pub data Json (W : Type 0) : Type 0 where
    null : Json W
    boolean : Bool → Json W
    number : W → Json W
    text : String → Json W
    array : Elements W → Json W
    object : Entries W → Json W

  pub data Elements (W : Type 0) : Type 0 where
    no_more : Elements W
    element : Json W → Elements W → Elements W

  pub data Entries (W : Type 0) : Type 0 where
    end : Entries W
    entry : String → Json W → Entries W → Entries W

module _ {W : Type 0} where
  abbrev pub elements : Elements W → List (Json W)
  elements no_more = []
  elements (element v vs) = v ∷ elements vs

  abbrev pub entries : Entries W → List (String × Json W)
  entries end = []
  entries (entry k v es) = (k, v) ∷ entries es

-- A dict with string keys, in insertion order.
abbrev pub Dict : Type 0 → Type 0
Dict V = List (String × V)

module _ {V : Type 0} where
  abbrev pub keys : Dict V → List String
  keys d = map (λ entry. entry.0) d

  -- `d.get(k)`
  unfoldable pub lookup : String → Dict V → Option V
  lookup k [] = none
  lookup k ((j, v) ∷ d) = if str_eq j k then some v else lookup k d

  -- `d[k] = v`
  unfoldable pub insert : String → V → Dict V → Dict V
  insert k v [] = (k, v) ∷ []
  insert k v ((j, w) ∷ d) = if str_eq j k then (j, v) ∷ d else (j, w) ∷ insert k v d

  -- `{k: v for k, v in d.items() if k != key}`, and `del d[key]`
  unfoldable pub without : String → Dict V → Dict V
  without k [] = []
  without k ((j, v) ∷ d) = let rest = without k d in if str_eq j k then rest else (j, v) ∷ rest
