-- ===== src/Agents/Sanitizer/Masking.antt =====
-- `_mask_pii` masks what each pattern matches, one pattern after the other, and counts the matches.
use mathlib.Core.Path.{subst}
use ai_lead_qualifier.Prelude.{
  ℕ, ◌+◌, String, ◌≡◌, refl, sym, ◌∙◌, ap, ◌⊎◌, ◌↔◌, List, [], ◌∷◌, length, arith, All, inl, inr,
}
use ai_lead_qualifier.Core.Exceptions.{ok, Answer-cases, ok-injective}
use ai_lead_qualifier.Agents.Sanitizer.{
  PiiPattern, card, fiscal_code, ssn, email, phone, iban, Regex, apply_pattern, mask_loop, mask_pii,
}

add_zero : (n : ℕ) → n ≡ n + 0
add_zero n = omega arith

add_assoc : (a b c : ℕ) → a + b + c ≡ a + (b + c)
add_assoc a b c = omega arith

List-cases : {A : Type 0} (xs : List A) → (xs ≡ []) ⊎ ((a : A) × (rest : List A) × (xs ≡ a ∷ rest))
List-cases [] = inl refl
List-cases (a ∷ rest) = inr (a, rest, refl)

-- The six kinds of personal data.
abbrev pub all_patterns : List PiiPattern
all_patterns = card ∷ fiscal_code ∷ ssn ∷ email ∷ phone ∷ iban ∷ []

module _ (re : Regex) (mask : String) where
  -- The patterns make the second text of the first, with so many matches: each one in turn leaves a
  -- text without a match as it is, and has the matches in any other text substituted.
  pub data Masked : List PiiPattern → String → String → ℕ → Type 0 where
    done : {t : String} → Masked [] t t 0
    clean :
        {p : PiiPattern} {ps : List PiiPattern} {t u : String} {n : ℕ}
        → re.findall p t ≡ []
        → Masked ps t u n
        → Masked (p ∷ ps) t u n
    substituted :
        {p : PiiPattern} {ps : List PiiPattern} {t t' u found : String} {more : List String} {n : ℕ}
        → re.findall p t ≡ found ∷ more
        → re.sub p mask t ≡ ok t'
        → Masked ps t' u n
        → Masked (p ∷ ps) t u (length (found ∷ more) + n)

  mask_loop_computes :
      {ps : List PiiPattern} {text t : String} {k : ℕ} (n : ℕ)
      → Masked ps text t k
      → mask_loop re ps mask text n ≡ ok (t, n + k)
  unfolding mask_loop apply_pattern
  mask_loop_computes n done = ap (λ k. ok (_, k)) (add_zero n)
  mask_loop_computes n (clean e m) = rw e (mask_loop_computes n m)
  mask_loop_computes n (substituted {u = u} {found = found} {more = more} {n = k} e s m) =
      rw (e, s)
        (mask_loop_computes (n + length (found ∷ more)) m
          ∙ ap (λ j. ok (u, j)) (add_assoc n (length (found ∷ more)) k))

  mask_loop-Masked :
      (ps : List PiiPattern) (text t : String) (n m : ℕ)
      → mask_loop re ps mask text n ≡ ok (t, m)
      → (k : ℕ) × Masked ps text t k × (m ≡ n + k)
  unfolding mask_loop apply_pattern
  mask_loop-Masked [] text t n m h =
      let p = ok-injective h in
      let same : text ≡ t = ap (λ x. x.0) p in
      let count : n ≡ m = ap (λ x. x.1) p in
      (0, subst (λ u. Masked [] text u 0) same done, omega arith)
  mask_loop-Masked (p ∷ ps) text t n m h = elim (List-cases (re.findall p text)) [
    | inl e ↦
        let (k, masked, q) = mask_loop-Masked ps text t n m (rw e at h) in (k, clean e masked, q)
    | inr (found, more, e) ↦ elim (Answer-cases (re.sub p mask text)) [
      | inr (x, s) ↦ absurd (ground arith)
      | inl (u, s) ↦
          let (k, masked, q) =
            mask_loop-Masked ps u t (n + length (found ∷ more)) m (rw (e, s) at h) in
          (length (found ∷ more) + k, substituted e s masked, omega arith)
    ]
  ]

  -- Without a match no pattern changes the text.
  unmatched_all :
      {ps : List PiiPattern} {text t : String} {n : ℕ}
      → n ≡ 0
      → Masked ps text t n
      → (t ≡ text) × All (λ p. re.findall p text ≡ []) ps
  unmatched_all z done = (refl, tt)
  unmatched_all z (clean e m) = let (same, h) = unmatched_all z m in (same, (e, h))
  unmatched_all z (substituted e s m) = absurd (omega arith)

  no_match-Masked :
      (ps : List PiiPattern) (text : String)
      → ((p : PiiPattern) → re.findall p text ≡ [])
      → Masked ps text text 0
  no_match-Masked [] text h = done
  no_match-Masked (p ∷ ps) text h = clean (h p) (no_match-Masked ps text h)

  every_pattern :
      (text : String)
      → All (λ p. re.findall p text ≡ []) all_patterns
      → (p : PiiPattern) → re.findall p text ≡ []
  every_pattern text (h, _) card = h
  every_pattern text (_, (h, _)) fiscal_code = h
  every_pattern text (_, (_, (h, _))) ssn = h
  every_pattern text (_, (_, (_, (h, _)))) email = h
  every_pattern text (_, (_, (_, (_, (h, _))))) phone = h
  every_pattern text (_, (_, (_, (_, (_, (h, _)))))) iban = h

  mask_pii-Masked :
      (text t : String) (n : ℕ) → (mask_pii re text mask ≡ ok (t, n)) ↔ Masked all_patterns text t n
  unfolding mask_pii
  mask_pii-Masked text t n = (
    λ h.
        let (k, m, q) = mask_loop-Masked all_patterns text t 0 n h in
        let e : k ≡ n = omega arith in subst (Masked all_patterns text t) e m,
    λ m. mask_loop_computes 0 m ∙ (let e : 0 + n ≡ n = omega arith in ap (λ k. ok (t, k)) e),
  )

  -- `_mask_pii` returns a text and a count exactly when the patterns for cards, fiscal codes, SSNs,
  -- e-mail addresses, phone numbers and IBANs, in this order, make that text of the given one: each
  -- has all its matches substituted in the text that those before it left, and the count is that of
  -- the matches. It returns the text unchanged with the count 0 exactly when none of the six matches it.
  pub mask_pii_iff :
      (text t : String) (n : ℕ)
      → ((mask_pii re text mask ≡ ok (t, n)) ↔ Masked all_patterns text t n)
        × ((mask_pii re text mask ≡ ok (t, 0))
            ↔ ((t ≡ text) × ((p : PiiPattern) → re.findall p text ≡ [])))
  mask_pii_iff text t n =
      let masked = mask_pii-Masked text t 0 in
      (
        mask_pii-Masked text t n,
        (
          λ h.
              let (same, none) = unmatched_all refl (masked.0 h) in (same, every_pattern text none),
          λ h. masked.1 (
              subst (λ u. Masked all_patterns text u 0) (sym h.0)
                (no_match-Masked all_patterns text h.1)),
        ),
      )
