-- ===== src/Prelude/Permutation.antt =====
-- Rearranged lists: their native length, their elements and their images.
use Prim.Native.Nat.{ℕ, zero, suc}
use mathlib.Core.Path.{◌≡◌, refl, sym, ◌∙◌, ap}
use mathlib.Core.List.{List, [], ◌∷◌, map, Memᴰ, Permᴰ}
use ai_lead_qualifier.Prelude.Lists.{length, take}

module _ {ℓ} {A : Type ℓ} where
  pub Memᴰ-take : {a : A} (n : ℕ) (xs : List A) → Memᴰ a (take n xs) → Memᴰ a xs
  Memᴰ-take zero xs m = elim m [ ]
  Memᴰ-take (suc n) [] m = elim m [ ]
  Memᴰ-take (suc n) (x ∷ xs) (Memᴰ.head e) = Memᴰ.head e
  Memᴰ-take (suc n) (x ∷ xs) (Memᴰ.tail m) = Memᴰ.tail (Memᴰ-take n xs m)

  pub perm_refl : (l : List A) → Permᴰ l l
  perm_refl [] = Permᴰ.nil
  perm_refl (a ∷ l) = Permᴰ.cons refl (perm_refl l)

  pub length-Permᴰ : {l r : List A} → Permᴰ l r → length l ≡ length r
  length-Permᴰ Permᴰ.nil = refl
  length-Permᴰ (Permᴰ.cons e p) = ap suc (length-Permᴰ p)
  length-Permᴰ (Permᴰ.swap e f) = refl
  length-Permᴰ (Permᴰ.trans p q) = length-Permᴰ p ∙ length-Permᴰ q

  pub perm_symm : {l r : List A} → Permᴰ l r → Permᴰ r l
  perm_symm Permᴰ.nil = Permᴰ.nil
  perm_symm (Permᴰ.cons e p) = Permᴰ.cons (sym e) (perm_symm p)
  perm_symm (Permᴰ.swap e f) = Permᴰ.swap (sym f) (sym e)
  perm_symm (Permᴰ.trans p q) = Permᴰ.trans (perm_symm q) (perm_symm p)

  pub Memᴰ-Permᴰ : {a : A} {l r : List A} → Permᴰ l r → Memᴰ a l → Memᴰ a r
  Memᴰ-Permᴰ Permᴰ.nil m = elim m [ ]
  Memᴰ-Permᴰ (Permᴰ.cons e p) (Memᴰ.head h) = Memᴰ.head (h ∙ e)
  Memᴰ-Permᴰ (Permᴰ.cons e p) (Memᴰ.tail m) = Memᴰ.tail (Memᴰ-Permᴰ p m)
  Memᴰ-Permᴰ (Permᴰ.swap e f) (Memᴰ.head h) = Memᴰ.tail (Memᴰ.head (h ∙ e))
  Memᴰ-Permᴰ (Permᴰ.swap e f) (Memᴰ.tail (Memᴰ.head h)) = Memᴰ.head (h ∙ f)
  Memᴰ-Permᴰ (Permᴰ.swap e f) (Memᴰ.tail (Memᴰ.tail m)) = Memᴰ.tail (Memᴰ.tail m)
  Memᴰ-Permᴰ (Permᴰ.trans p q) m = Memᴰ-Permᴰ q (Memᴰ-Permᴰ p m)

  pub map-Permᴰ {κ} :
      {B : Type κ} (f : A → B) {l r : List A} → Permᴰ l r → Permᴰ (map f l) (map f r)
  map-Permᴰ f Permᴰ.nil = Permᴰ.nil
  map-Permᴰ f (Permᴰ.cons e p) = Permᴰ.cons (ap f e) (map-Permᴰ f p)
  map-Permᴰ f (Permᴰ.swap e g) = Permᴰ.swap (ap f e) (ap f g)
  map-Permᴰ f (Permᴰ.trans p q) = Permᴰ.trans (map-Permᴰ f p) (map-Permᴰ f q)
