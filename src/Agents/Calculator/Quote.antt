-- ===== src/Agents/Calculator/Quote.antt =====
-- What the total is, when it can be computed, and what stays on request.
use mathlib.Core.Path.{subst}
use mathlib.Core.List.{foldl}
use ai_lead_qualifier.Prelude.{
  ◌≡◌, refl, sym, ◌∙◌, ◌↔◌, Bool, ◌||◌, ◌+◌, Option, none, some, true, false, List, [], ◌∷◌, arith,
  All, length, if◌then◌else◌, inl, inr, Bool-cases, Option-cases,
}
use ai_lead_qualifier.Float.{Float, FloatLaws, ◌≼◌}
use ai_lead_qualifier.Core.Exceptions.{ok, ok-injective}
use ai_lead_qualifier.Agents.State.{MappedService}
use ai_lead_qualifier.Agents.Calculator.{is_variable, to_float, sum_loop, sum_prices, on_request}

abbrev known : {W : Type 0} → Option W → List W → List W
known none xs = xs
known (some x) xs = x ∷ xs

-- The prices of the services that are not VARIABLE, in order.
unfoldable pub prices : {W : Type 0} → List (MappedService W) → List W
prices [] = []
prices (m ∷ ms) = let rest = prices ms in if is_variable m then rest else known m.price rest

abbrev pub is_known : {W : Type 0} → Option W → Bool
is_known none = false
is_known (some x) = true

-- Every service is VARIABLE or has a price.
abbrev pub IsPriced : {W : Type 0} → List (MappedService W) → Type 0
IsPriced = All (λ m. (is_variable m || is_known m.price) ≡ true)

module _ {W : Type 0} ⦃fl : Float W⦄ where
  sum_loop-prices :
      (total : W) (ms : List (MappedService W))
      → IsPriced ms
      → sum_loop total ms ≡ ok (fl.round 2 (foldl fl.add total (prices ms)))
  unfolding sum_loop prices to_float
  sum_loop-prices total [] h = refl
  sum_loop-prices total (m ∷ ms) (p, h) = elim (Bool-cases (is_variable m)) [
    | inl variable ↦ ground (arith, sum_loop-prices total ms h)
    | inr fixed ↦ elim (Option-cases m.price) [
      | inl missing ↦ ground arith
      | inr (x, e) ↦ ground (arith, sum_loop-prices (fl.add total x) ms h)
    ]
  ]

  sum_loop-IsPriced :
      (total t : W) (ms : List (MappedService W)) → sum_loop total ms ≡ ok t → IsPriced ms
  unfolding sum_loop to_float
  sum_loop-IsPriced total t [] h = tt
  sum_loop-IsPriced total t (m ∷ ms) h = elim (Bool-cases (is_variable m)) [
    | inl variable ↦ ground (arith, sum_loop-IsPriced total t ms)
    | inr fixed ↦ elim (Option-cases m.price) [
      | inl missing ↦ ground arith
      | inr (x, e) ↦ ground (arith, sum_loop-IsPriced (fl.add total x) t ms)
    ]
  ]

  -- The calculator returns a total exactly when every service that is not VARIABLE has a price, and
  -- the total is then the sum of those prices from the left, rounded to two digits.
  pub sum_prices_iff :
      (ms : List (MappedService W)) (t : W)
      → (sum_prices ms ≡ ok t)
        ↔ (IsPriced ms × (t ≡ fl.round 2 (foldl fl.add (fl.literal 0) (prices ms))))
  unfolding sum_prices
  sum_prices_iff ms t = (
    λ h.
        let p = sum_loop-IsPriced (fl.literal 0) t ms h in
        (p, ok-injective (sym h ∙ sum_loop-prices (fl.literal 0) ms p)),
    λ (p, e). sum_loop-prices (fl.literal 0) ms p ∙ rw e,
  )

  -- Where every service that is not VARIABLE has a price, the services on request and the prices in
  -- the total are together as many as the services.
  pub on_request_partition :
      (ms : List (MappedService W))
      → IsPriced ms
      → length (on_request ms) + length (prices ms) ≡ length ms
  unfolding on_request prices
  on_request_partition [] h = omega arith
  on_request_partition (m ∷ ms) (p, h) = elim (Bool-cases (is_variable m)) [
    | inl variable ↦ ground (arith, on_request_partition ms h)
    | inr fixed ↦ elim (Option-cases m.price) [
      | inl missing ↦ ground arith
      | inr (x, e) ↦ ground (arith, on_request_partition ms h)
    ]
  ]

  module _ (laws : FloatLaws W) where
    foldl_nonneg :
        (total : W) (xs : List W)
        → fl.literal 0 ≼ total
        → All (λ x. fl.literal 0 ≼ x) xs
        → fl.literal 0 ≼ foldl fl.add total xs
    foldl_nonneg total [] z h = z
    foldl_nonneg total (x ∷ xs) z (p, h) =
        foldl_nonneg (fl.add total x) xs (laws.add_nonneg total x z p) h

    -- By the laws of the order and the sum of floats, the total is not negative if no price in it
    -- is.
    pub sum_prices_nonneg :
        (ms : List (MappedService W)) (t : W)
        → All (λ x. fl.literal 0 ≼ x) (prices ms)
        → sum_prices ms ≡ ok t
        → fl.literal 0 ≼ t
    sum_prices_nonneg ms t h e =
        let (p, q) = (sum_prices_iff ms t).0 e in
        let z = foldl_nonneg (fl.literal 0) (prices ms) (laws.le_refl _) h in
        subst (λ o. fl.literal 0 ≼ o) (sym q)
          (subst (λ o. o ≼ fl.round 2 (foldl fl.add (fl.literal 0) (prices ms))) (laws.round-zero 2)
            (laws.round_mono 2 _ _ z))
