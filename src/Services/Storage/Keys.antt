-- ===== src/Services/Storage/Keys.antt =====
-- The key of an object has one slash, after the tenant's part, which has only safe characters.
use Prim.Native.Char.{code}
use Prim.Native.String.append
use Prim.Native.String.{[], ◌∷◌, ◌++◌}
use mathlib.Core.Path.{subst}
use mathlib.Core.Option.{some-injective}
use ai_lead_qualifier.Prelude.{
  ℕ, String, Bool, true, false, none, some, ◌≡◌, refl, ◌∙◌, ap, sym, ◌==◌, ◌&&◌, arith,
  if◌then◌else◌, Bool-cases, inl, inr,
}
use ai_lead_qualifier.Core.Text.{
  f_string, is_empty_text, text_length, find_char, rfind_char, take_text,
}
use ai_lead_qualifier.Services.Storage.{is_safe, keep_safe, safe_tenant, make_object_key}

-- Every character is one of `[A-Za-z0-9_-]`.
abbrev pub all_safe : String → Bool
all_safe [] = true
all_safe (c ∷ s) = is_safe c && all_safe s

abbrev pub has_char : ℕ → String → Bool
has_char n [] = false
has_char n (c ∷ s) = if code c == n then true else has_char n s

all_safe-keep_safe : (s : String) → all_safe (keep_safe s) ≡ true
unfolding keep_safe
all_safe-keep_safe [] = refl
all_safe-keep_safe (c ∷ s) = ground (arith, all_safe-keep_safe s)

-- A tenant id of safe characters is kept as it is.
pub keep_safe_lem : (s : String) → all_safe s ≡ true → keep_safe s ≡ s
unfolding keep_safe
keep_safe_lem [] h = refl
keep_safe_lem (c ∷ s) h = ground (arith, keep_safe_lem s)

no_slash : (s : String) → all_safe s ≡ true → has_char b'/' s ≡ false
unfolding is_safe
no_slash [] h = refl
no_slash (c ∷ s) h = ground (arith, no_slash s)

no_dot : (s : String) → all_safe s ≡ true → has_char b'.' s ≡ false
unfolding is_safe
no_dot [] h = refl
no_dot (c ∷ s) h = ground (arith, no_dot s)

pub all_safe-safe_tenant : (s : String) → all_safe (safe_tenant s) ≡ true
unfolding safe_tenant
all_safe-safe_tenant s = elim (Bool-cases (is_empty_text (keep_safe s))) [
  | inl e ↦ rw e refl
  | inr e ↦ rw e (all_safe-keep_safe s)
]

pub is_empty_text-safe_tenant : (s : String) → is_empty_text (safe_tenant s) ≡ false
unfolding safe_tenant
is_empty_text-safe_tenant s = elim (Bool-cases (is_empty_text (keep_safe s))) [
  | inl e ↦ rw e refl
  | inr e ↦ rw e e
]

rfind_char_missing : (n : ℕ) (s : String) → has_char n s ≡ false → rfind_char n s ≡ none
unfolding rfind_char
rfind_char_missing n [] h = refl
rfind_char_missing n (c ∷ s) h = ground (arith, rfind_char_missing n s)

find_slash :
    (s r : String) → has_char b'/' s ≡ false → find_char b'/' (s ++ "/" ++ r) ≡ some (text_length s)
unfolding find_char
find_slash [] r h = rw (append.nil ("/" ++ r)) (rw (append.cons "/" [] r) refl)
find_slash (c ∷ s) r h = rw (append.cons c s ("/" ++ r)) (ground (arith, find_slash s r))

rfind_slash :
    (s r : String)
    → has_char b'/' r ≡ false
    → rfind_char b'/' (s ++ "/" ++ r) ≡ some (text_length s)
unfolding rfind_char
rfind_slash [] r h =
    rw (append.cons "/" [] r, append.nil r, append.nil (◌∷◌ "/" r))
      (rw (rfind_char_missing b'/' r h) refl)
rfind_slash (c ∷ s) r h = rw (append.cons c s ("/" ++ r)) (rw (rfind_slash s r h, rfind_char) refl)

take_text-append : (s r : String) → take_text (text_length s) (s ++ r) ≡ s
unfolding take_text
take_text-append [] r = refl
take_text-append (c ∷ s) r = rw (append.cons c s r) (ap (◌∷◌ c) (take_text-append s r))

has_char-append :
    (n : ℕ) (s r : String)
    → has_char n s ≡ false
    → has_char n r ≡ false
    → has_char n (s ++ r) ≡ false
has_char-append n [] r h k = rw (append.nil r) k
has_char-append n (c ∷ s) r h k = rw (append.cons c s r) (ground (arith, has_char-append n s r))

-- The first slash of the text is also the last, and the owner stands before it.
pub record IsScoped (owner key : String) : Type 0 where
  pub first : find_char b'/' key ≡ some (text_length owner)
  pub last : rfind_char b'/' key ≡ some (text_length owner)
  pub before : take_text (text_length owner) key ≡ owner

make_object_key_lem :
    (tenant_id hex extension : String)
    → make_object_key tenant_id hex extension
      ≡ safe_tenant tenant_id ++ "/" ++ hex ++ extension ++ ""
unfolding make_object_key f_string
make_object_key_lem tenant_id hex extension = refl

pub make_object_key-IsScoped :
    (tenant_id hex extension : String)
    → all_safe hex ≡ true
    → has_char b'/' extension ≡ false
    → IsScoped (safe_tenant tenant_id) (make_object_key tenant_id hex extension)
make_object_key-IsScoped tenant_id hex extension h e =
    let owner = safe_tenant tenant_id in
    let rest : has_char b'/' (hex ++ extension ++ "") ≡ false =
      has_char-append b'/' hex (extension ++ "") (no_slash hex h)
        (has_char-append b'/' extension "" e refl) in
    rw (make_object_key_lem tenant_id hex extension) (record {
      first =
          find_slash owner (hex ++ extension ++ "")
            (no_slash owner (all_safe-safe_tenant tenant_id));
      last = rfind_slash owner (hex ++ extension ++ "") rest;
      before = take_text-append owner ("/" ++ hex ++ extension ++ "");
    })

IsScoped-unique : (a b key : String) → IsScoped a key → IsScoped b key → a ≡ b
IsScoped-unique a b key p q =
    let same : text_length a ≡ text_length b = some-injective _ _ (sym p.first ∙ q.first) in
    sym p.before ∙ ap (λ n. take_text n key) same ∙ q.before

-- A tenant id that is not empty and has only safe characters is its own part of the key.
pub safe_tenant_lem : (s : String) → all_safe s ≡ true → is_empty_text s ≡ false → safe_tenant s ≡ s
unfolding safe_tenant
safe_tenant_lem s h e = rw (keep_safe_lem s h, e) refl

-- Let the hexadecimal name have only safe characters, and the extension no slash. The key of an
-- object has one slash, and before it the tenant's part, which is not empty and has only safe
-- characters.
pub make_object_key-IsOwned :
    (tenant_id hex extension : String)
    → all_safe hex ≡ true
    → has_char b'/' extension ≡ false
    → IsScoped (safe_tenant tenant_id) (make_object_key tenant_id hex extension)
      × (all_safe (safe_tenant tenant_id) ≡ true)
      × (is_empty_text (safe_tenant tenant_id) ≡ false)
make_object_key-IsOwned tenant_id hex extension h e = (
  make_object_key-IsScoped tenant_id hex extension h e,
  all_safe-safe_tenant tenant_id,
  is_empty_text-safe_tenant tenant_id,
)

-- No key is given by two tenants whose ids are not empty and have only safe characters.
pub make_object_key-injective :
    (t u hex hex' extension extension' : String)
    → all_safe t ≡ true
    → is_empty_text t ≡ false
    → all_safe u ≡ true
    → is_empty_text u ≡ false
    → all_safe hex ≡ true
    → all_safe hex' ≡ true
    → has_char b'/' extension ≡ false
    → has_char b'/' extension' ≡ false
    → make_object_key t hex extension ≡ make_object_key u hex' extension'
    → t ≡ u
make_object_key-injective t u hex hex' extension extension' a b c d h h' e e' same =
    sym (safe_tenant_lem t a b)
    ∙ IsScoped-unique (safe_tenant t) (safe_tenant u) (make_object_key u hex' extension')
        (subst (IsScoped (safe_tenant t)) same (make_object_key-IsScoped t hex extension h e))
        (make_object_key-IsScoped u hex' extension' h' e')
    ∙ safe_tenant_lem u c d
