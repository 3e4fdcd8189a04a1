-- ===== src/Agents/Mapper/Matching.antt =====
-- The choice of the best match: the nearest document within the threshold.
use mathlib.Core.Path.{subst}
use ai_lead_qualifier.Prelude.{
  ◌≡◌, refl, sym, inl, inr, true, Option, none, some, List, [], ◌∷◌, arith, All, Bool-cases,
}
use ai_lead_qualifier.Float.{Float, FloatLaws, float_lt, ◌≼◌}
use ai_lead_qualifier.Database.Documents.{Document}
use ai_lead_qualifier.Agents.Mapper.{relevant, nearest_from, best_match}

module _ {W : Type 0} ⦃fl : Float W⦄ where
  -- No document of the list is nearer than `d`.
  abbrev pub IsNearest : Document W → List (Document W) → Type 0
  IsNearest d = All (λ e. d.metadata.distance ≼ e.metadata.distance)

  abbrev pub IsWithin : W → Document W → Type 0
  IsWithin t d = d.metadata.distance ≼ t

  abbrev pub AllBeyond : W → List (Document W) → Type 0
  AllBeyond t = All (λ d. float_lt t d.metadata.distance ≡ true)

  -- What the search finds for one query: nothing within the threshold, or the nearest document of
  -- all, which lies within it and has whatever all the documents have.
  abbrev pub IsChoice : (Document W → Type 0) → W → List (Document W) → Option (Document W) → Type 0
  IsChoice P t ds none = AllBeyond t ds
  IsChoice P t ds (some d) = P d × IsWithin t d × IsNearest d ds

module _ {W : Type 0} ⦃fl : Float W⦄ (laws : FloatLaws W) where
  open laws use {le_refl, le_trans, le_total}

  nearest_from-IsNearest :
      (best : Document W) (ds : List (Document W)) → IsNearest (nearest_from best ds) (best ∷ ds)
  unfolding nearest_from
  nearest_from-IsNearest best [] = (le_refl _, tt)
  nearest_from-IsNearest best (d ∷ ds) =
      elim (Bool-cases (float_lt d.metadata.distance best.metadata.distance)) [
        | inl closer ↦
            let (p, h) = nearest_from-IsNearest d ds in
            let q : d.metadata.distance ≼ best.metadata.distance =
              ground (arith, le_total d.metadata.distance best.metadata.distance) in
            let e : nearest_from best (d ∷ ds) ≡ nearest_from d ds =
              rw (closer, nearest_from) refl in
            subst (λ b. IsNearest b (best ∷ d ∷ ds)) (sym e) (le_trans _ _ _ p q, (p, h))
        | inr farther ↦
            let (p, h) = nearest_from-IsNearest best ds in
            let q : best.metadata.distance ≼ d.metadata.distance = ground arith in
            let e : nearest_from best (d ∷ ds) ≡ nearest_from best ds =
              rw (farther, nearest_from) refl in
            subst (λ b. IsNearest b (best ∷ d ∷ ds)) (sym e) (p, (le_trans _ _ _ p q, h))
      ]

  module _ {κ} (P : Document W → Type κ) where
    -- The choice is one of the documents, so it has what they all have.
    nearest_from_all :
        (best : Document W) (ds : List (Document W)) → P best → All P ds → P (nearest_from best ds)
    unfolding nearest_from
    nearest_from_all best [] p h = p
    nearest_from_all best (d ∷ ds) p (q, h) =
        elim (Bool-cases (float_lt d.metadata.distance best.metadata.distance)) [
          | inl closer ↦ rw closer (nearest_from_all d ds q h)
          | inr farther ↦ rw farther (nearest_from_all best ds p h)
        ]

    relevant-All : (t : W) (ds : List (Document W)) → All P ds → All P (relevant t ds)
    unfolding relevant
    relevant-All t [] h = tt
    relevant-All t (d ∷ ds) (p, h) = elim (Bool-cases (float_lt t d.metadata.distance)) [
      | inl beyond ↦ rw beyond (relevant-All t ds h)
      | inr within ↦ rw within (p, relevant-All t ds h)
    ]

  relevant-IsWithin : (t : W) (ds : List (Document W)) → All (IsWithin t) (relevant t ds)
  unfolding relevant
  relevant-IsWithin t [] = tt
  relevant-IsWithin t (d ∷ ds) = ground (arith, relevant-IsWithin t ds)

  -- What is near the relevant documents is near them all: the others are beyond the threshold.
  relevant-IsNearest :
      (t : W) (d : Document W) (ds : List (Document W))
      → IsWithin t d
      → IsNearest d (relevant t ds)
      → IsNearest d ds
  unfolding relevant
  relevant-IsNearest t d [] p h = tt
  relevant-IsNearest t d (e ∷ ds) p h = elim (Bool-cases (float_lt t e.metadata.distance)) [
    | inl beyond ↦
        let q : t ≼ e.metadata.distance = ground (arith, le_total t e.metadata.distance) in
        (le_trans _ _ _ p q, relevant-IsNearest t d ds p (rw beyond at h))
    | inr within ↦
        let h' : IsNearest d (e ∷ relevant t ds) = rw within at h in
        (h'.0, relevant-IsNearest t d ds p h'.1)
  ]

  relevant-nil : (t : W) (ds : List (Document W)) → relevant t ds ≡ [] → AllBeyond t ds
  unfolding relevant
  relevant-nil t [] h = tt
  relevant-nil t (d ∷ ds) h = ground (arith, relevant-nil t ds)

  pub best_match-relevant :
      (P : Document W → Type 0) (t : W) (ds : List (Document W))
      → All P ds
      → IsChoice P t ds (best_match (relevant t ds))
  best_match-relevant P t ds h = go (relevant t ds) refl
    where
      near : (d : Document W) → IsWithin t d → IsNearest d (relevant t ds) → IsNearest d ds
      near d = relevant-IsNearest t d ds

      go : (rs : List (Document W)) → relevant t ds ≡ rs → IsChoice P t ds (best_match rs)
      go [] e = unfold best_match in relevant-nil t ds e
      go (r ∷ rs) e =
          let within : All (IsWithin t) (r ∷ rs) =
            subst (All (IsWithin t)) e (relevant-IsWithin t ds) in
          let having : All P (r ∷ rs) = subst (All P) e (relevant-All P t ds h) in
          let w = nearest_from_all (IsWithin t) r rs within.0 within.1 in
          let n = nearest_from-IsNearest r rs in
          unfold best_match in
          (
            nearest_from_all P r rs having.0 having.1,
            w,
            near (nearest_from r rs) w (subst (IsNearest (nearest_from r rs)) (sym e) n),
          )
