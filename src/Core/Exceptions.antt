-- ===== src/Core/Exceptions.antt =====
-- Python's exceptions: a call returns a value or raises. `kind` is the class that an `except` clause
-- tests, and `message` is `str(exc)`.
use ai_lead_qualifier.Prelude.{ℕ, String, ◌≡◌, refl, ap, ◌⊎◌, inl, inr, Bool, true, false}

pub data Kind : Type 0 where
  embedding_error dimension_mismatch value_error key_error type_error validation_error : Kind
  request_error runtime_error recursion_error client_error : Kind
  boto_core_error file_not_found_error expired_signature_error jwt_error : Kind
  check_violation_error unique_violation_error : Kind
  http_status_error http_exception : ℕ → Kind
  other : String → Kind

-- `type(exc).__name__`
unfoldable pub type_name : Kind → String
type_name embedding_error = "EmbeddingError"
type_name dimension_mismatch = "EmbeddingDimensionMismatchError"
type_name value_error = "ValueError"
type_name key_error = "KeyError"
type_name type_error = "TypeError"
type_name validation_error = "ValidationError"
type_name request_error = "RequestError"
type_name (http_status_error code) = "HTTPStatusError"
type_name (http_exception code) = "HTTPException"
type_name runtime_error = "RuntimeError"
type_name recursion_error = "GraphRecursionError"
type_name client_error = "ClientError"
type_name boto_core_error = "BotoCoreError"
type_name file_not_found_error = "FileNotFoundError"
type_name expired_signature_error = "ExpiredSignatureError"
type_name jwt_error = "PyJWTError"
type_name check_violation_error = "CheckViolationError"
type_name unique_violation_error = "UniqueViolationError"
type_name (other name) = name

-- `except ValueError` also catches its subclass EmbeddingDimensionMismatchError.
abbrev pub is_value_error : Kind → Bool
is_value_error value_error = true
is_value_error dimension_mismatch = true
is_value_error validation_error = true
is_value_error _ = false

abbrev pub is_embedding_error : Kind → Bool
is_embedding_error embedding_error = true
is_embedding_error _ = false

abbrev pub is_request_error : Kind → Bool
is_request_error request_error = true
is_request_error _ = false

pub record Exc : Type 0 where
  pub kind : Kind
  pub message : String

abbrev pub http_error : ℕ → String → Exc
http_error code detail = record { kind = http_exception code; message = detail }

pub data Answer {ℓ} (A : Type ℓ) : Type ℓ where
  ok : A → Answer A
  raised : Exc → Answer A

infixl 5 ◌>>=◌
abbrev pub ◌>>=◌ {ℓ κ} : {A : Type ℓ} {B : Type κ} → Answer A → (A → Answer B) → Answer B
ok a >>= f = f a
raised e >>= f = raised e

abbrev value_or {ℓ} : {A : Type ℓ} → A → Answer A → A
value_or d (ok a) = a
value_or d (raised e) = d

abbrev pub is_ok {ℓ} : {A : Type ℓ} → Answer A → Bool
is_ok (ok a) = true
is_ok (raised e) = false

pub Answer-cases {ℓ} :
    {A : Type ℓ} (r : Answer A) → ((a : A) × (r ≡ ok a)) ⊎ ((e : Exc) × (r ≡ raised e))
Answer-cases (ok a) = inl (a, refl)
Answer-cases (raised e) = inr (e, refl)

pub ok-injective {ℓ} : {A : Type ℓ} {a b : A} → ok a ≡ ok b → a ≡ b
ok-injective {a} p = ap (value_or a) p
