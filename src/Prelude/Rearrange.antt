-- ===== src/Prelude/Rearrange.antt =====
-- What holds of all or of some elements of a list, when the list is rearranged.
use Prim.Native.Nat.{suc}
use mathlib.Core.Path.{◌≡◌, refl, ap, subst, ◌∙◌}
use mathlib.Core.Logic.{◌⊎◌, inl, inr}
use mathlib.Core.List.{List, [], ◌∷◌, Permᴰ}
use incubator_horaedb_client.Prelude.Lists.{length, All}

module _ {ℓ} {A : Type ℓ} where
  pub length-Permᴰ : {xs ys : List A} → Permᴰ xs ys → length xs ≡ length ys
  length-Permᴰ Permᴰ.nil = refl
  length-Permᴰ (Permᴰ.cons e d) = ap suc (length-Permᴰ d)
  length-Permᴰ (Permᴰ.swap e f) = refl
  length-Permᴰ (Permᴰ.trans d d') = length-Permᴰ d ∙ length-Permᴰ d'

  abbrev pub Any : (A → Type 0) → List A → Type 0
  Any P [] = ⊥
  Any P (x ∷ xs) = P x ⊎ Any P xs

  module _ (P : A → Type 0) where
    pub All-Permᴰ : {xs ys : List A} → Permᴰ xs ys → All P xs → All P ys
    All-Permᴰ Permᴰ.nil h = tt
    All-Permᴰ (Permᴰ.cons e d) (p, h) = (subst P e p, All-Permᴰ d h)
    All-Permᴰ (Permᴰ.swap e f) (p, (q, h)) = (subst P f q, (subst P e p, h))
    All-Permᴰ (Permᴰ.trans d d') h = All-Permᴰ d' (All-Permᴰ d h)

    pub Any-Permᴰ : {xs ys : List A} → Permᴰ xs ys → Any P xs → Any P ys
    Any-Permᴰ Permᴰ.nil h = elim h [ ]
    Any-Permᴰ (Permᴰ.cons e d) (inl p) = inl (subst P e p)
    Any-Permᴰ (Permᴰ.cons e d) (inr h) = inr (Any-Permᴰ d h)
    Any-Permᴰ (Permᴰ.swap e f) (inl p) = inr (inl (subst P e p))
    Any-Permᴰ (Permᴰ.swap e f) (inr (inl q)) = inl (subst P f q)
    Any-Permᴰ (Permᴰ.swap e f) (inr (inr h)) = inr (inr h)
    Any-Permᴰ (Permᴰ.trans d d') h = Any-Permᴰ d' (Any-Permᴰ d h)
