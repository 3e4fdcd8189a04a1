-- ===== src/Logging/Redaction.antt =====
-- What the PII processor leaves of an event.
use ai_lead_qualifier.Prelude.{
  String, Bool, true, false, none, some, List, [], ◌∷◌, ◌&&◌, any, ◌≡◌, refl, ◌∙◌, ap, str_eq,
  eq_iff, if◌then◌else◌, Bool-cases, Option-cases, inl, inr, arith,
}
use ai_lead_qualifier.Float.{Float}
use ai_lead_qualifier.Core.Text.{f_string, is_empty_text}
use ai_lead_qualifier.Core.Json.{Json, boolean, Dict, keys, lookup, insert}
use ai_lead_qualifier.Core.Json.Lookups.{lookup-insert, lookup-without, lookup-keys}
use ai_lead_qualifier.Agents.State.{AgentState}
use ai_lead_qualifier.Logging.{
  pii_keys, is_pii, redacted, drop_key, drop_keys, drop_pii_processor, safe_state_log_context,
}

any_none :
    (p : String → Bool) (k : String) (ks : List String)
    → any p ks ≡ false
    → any (str_eq k) ks ≡ true
    → p k ≡ false
any_none p k [] h e = absurd (ground arith)
any_none p k (j ∷ ks) h e = elim (Bool-cases (str_eq k j)) [
  | inl same ↦ rw ((eq_iff k j).0 same) (ground arith)
  | inr other ↦ any_none p k ks (ground arith) (rw other at e)
]

-- A sentinel is no PII key itself.
is_pii-redacted : (k : String) → is_pii k ≡ true → is_pii (redacted k) ≡ false
unfolding is_pii redacted f_string
is_pii-redacted k h = any_none (λ j. is_pii (redacted j)) k pii_keys refl h

-- Whether a key is the sentinel of a PII key among these.
abbrev pub is_sentinel : String → List String → Bool
is_sentinel k ks = any (λ j. is_pii j && str_eq (redacted j) k) ks

module _ {W : Type 0} where
  lookup-drop_key :
      (k j : String) (event : Dict (Json W))
      → lookup k (drop_key j event) ≡ (
          if is_pii j
          then if str_eq j k
            then none
            else if str_eq (redacted j) k
            then some (boolean true)
            else lookup k event
          else lookup k event)
  unfolding drop_key
  lookup-drop_key k j event = elim (Bool-cases (is_pii j)) [
    | inl pii ↦ rw pii (
        lookup-without j k (insert (redacted j) (boolean true) event)
        ∙ ap (λ o. if str_eq j k then none else o)
            (lookup-insert (redacted j) k (boolean true) event))
    | inr plain ↦ rw plain refl
  ]

  drop_keys-cons :
      (j : String) (ks : List String) (event : Dict (Json W))
      → drop_keys (j ∷ ks) event ≡ drop_keys ks (drop_key j event)
  unfolding drop_keys
  drop_keys-cons j ks event = refl

  drop_keys-nil : (event : Dict (Json W)) → drop_keys [] event ≡ event
  unfolding drop_keys
  drop_keys-nil event = refl

  drop_keys_pii :
      (k : String) (ks : List String) (event : Dict (Json W))
      → is_pii k ≡ true
      → lookup k (drop_keys ks event) ≡ (if any (str_eq k) ks then none else lookup k event)
  drop_keys_pii k [] event h = rw (drop_keys-nil event) refl
  drop_keys_pii k (j ∷ ks) event h = rw (drop_keys-cons j ks event) (
      ground (
        arith,
        drop_keys_pii k ks (drop_key j event) h,
        lookup-drop_key k j event,
        eq_iff j k,
        eq_iff k j,
        is_pii-redacted j,
        eq_iff (redacted j) k,
      ))

  drop_keys_other :
      (k : String) (ks : List String) (event : Dict (Json W))
      → is_pii k ≡ false
      → lookup k (drop_keys ks event)
        ≡ (if is_sentinel k ks then some (boolean true) else lookup k event)
  drop_keys_other k [] event h = rw (drop_keys-nil event) refl
  drop_keys_other k (j ∷ ks) event h = rw (drop_keys-cons j ks event) (
      ground
        (arith, drop_keys_other k ks (drop_key j event) h, lookup-drop_key k j event, eq_iff j k))

  -- After the PII processor an event has no PII key; the sentinel of every PII key that it had is true,
  -- and every other key has the value that it had.
  pub lookup-drop_pii_processor :
      (k : String) (event : Dict (Json W))
      → lookup k (drop_pii_processor event) ≡ (
          if is_pii k
          then none
          else if is_sentinel k (keys event)
          then some (boolean true)
          else lookup k event)
  unfolding drop_pii_processor
  lookup-drop_pii_processor k event = elim (Bool-cases (is_pii k)) [
    | inl pii ↦ rw pii (ground (arith, drop_keys_pii k (keys event) event pii, lookup-keys k event))
    | inr plain ↦ rw plain (drop_keys_other k (keys event) event plain)
  ]

  drop_key_plain :
      (k : String) (event : Dict (Json W)) → is_pii k ≡ false → drop_key k event ≡ event
  unfolding drop_key
  drop_key_plain k event plain = rw plain refl

  drop_keys_plain :
      (ks : List String) (event : Dict (Json W))
      → any is_pii ks ≡ false
      → drop_keys ks event ≡ event
  drop_keys_plain [] event h = drop_keys-nil event
  drop_keys_plain (k ∷ ks) event h =
      drop_keys-cons k ks event
      ∙ ap (drop_keys ks) (drop_key_plain k event (ground arith))
      ∙ drop_keys_plain ks event (ground arith)

module _ {W : Type 0} ⦃fl : Float W⦄ where
  safe_keys :
      (state : AgentState W) (thread_id : String)
      → any is_pii (keys (safe_state_log_context state thread_id)) ≡ false
  unfolding is_pii safe_state_log_context
  safe_keys state thread_id = elim (Bool-cases (is_empty_text thread_id)) [
    | inl e ↦ elim (Option-cases state.error_detail) [
      | inl n ↦ rw e (rw n refl)
      | inr (d, n) ↦ rw e (rw n refl)
    ]
    | inr e ↦ elim (Option-cases state.error_detail) [
      | inl n ↦ rw e (rw n refl)
      | inr (d, n) ↦ rw e (rw n refl)
    ]
  ]

  -- The context that a node logs of its state has no PII key: the PII processor leaves it as it is.
  pub drop_pii_processor-safe_state_log_context :
      (state : AgentState W) (thread_id : String)
      → drop_pii_processor (safe_state_log_context state thread_id)
        ≡ safe_state_log_context state thread_id
  unfolding drop_pii_processor
  drop_pii_processor-safe_state_log_context state thread_id =
      let event = safe_state_log_context state thread_id in
      drop_keys_plain (keys event) event (safe_keys state thread_id)
