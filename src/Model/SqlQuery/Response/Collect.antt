-- ===== src/Model/SqlQuery/Response/Collect.antt =====
-- `collect::<Result<Vec<_>>>()` of src/model/sql_query/response.rs, by what each element has.
use incubator_horaedb_client.Prelude.{
  ◌≡◌, ◌↔◌, ◌⊎◌, ◌∙◌, refl, ap, subst, inl, inr, List, [], ◌∷◌, arith,
}
use incubator_horaedb_client.Errors.{Error, Result, ok, err, ◌>>=◌}
use incubator_horaedb_client.Model.SqlQuery.Response.{collect}

pub Result-cases :
    {X A : Type 0} (r : Result X A) → ((e : Error X) × (r ≡ err e)) ⊎ ((a : A) × (r ≡ ok a))
Result-cases (err e) = inl (e, refl)
Result-cases (ok a) = inr (a, refl)

module _ {X A B : Type 0} (f : A → Result X B) where
  pub bind-ok_iff :
      (r : Result X A) (b : B) → (r >>= f ≡ ok b) ↔ ((a : A) × (r ≡ ok a) × (f a ≡ ok b))
  bind-ok_iff (ok a) b = (λ h. (a, refl, h), λ (a', same, h). ap (λ r. r >>= f) same ∙ h)
  bind-ok_iff (err e) b = (λ h. cc, λ (a, same, h). cc)

  pub bind-err_iff :
      (r : Result X A) (e : Error X)
      → (r >>= f ≡ err e) ↔ ((r ≡ err e) ⊎ ((a : A) × (r ≡ ok a) × (f a ≡ err e)))
  bind-err_iff (ok a) e = (
    λ h. inr (a, refl, h),
    λ h. elim h [ inl refused ↦ cc | inr (a', same, h') ↦ ap (λ r. r >>= f) same ∙ h' ],
  )
  bind-err_iff (err e') e = (
    λ h. inl (ground (arith, h)),
    λ h. elim h [ inl same ↦ ground (arith, same) | inr (a, refused, h') ↦ cc ],
  )

-- An error of the whole is an error of an element.
pub err_of-collect :
    {X A B : Type 0} (f : A → Result X B) (as' : List A) (e : Error X)
    → collect f as' ≡ err e
    → (a : A) × (f a ≡ err e)
unfolding collect
err_of-collect f [] e h = cc
err_of-collect f (a ∷ as') e h = elim (Result-cases (f a)) [
  | inl (e', at) ↦ (a, ground (arith, at, h))
  | inr (b, at) ↦ elim (Result-cases (collect f as')) [
    | inl (e', later) ↦ err_of-collect f as' e (ground (arith, at, later, h))
    | inr (rest, later) ↦ absurd (ground (arith, at, later, h))
  ]
]

module _ {A B : Type 0} (R : A → B → Type 0) where
  -- The lists are of one length and related at each position.
  abbrev pub Each : List A → List B → Type 0
  Each [] [] = Unit
  Each (a ∷ as') (b ∷ bs) = R a b × Each as' bs
  Each _ _ = ⊥

  -- The first element that is related to nothing has a fault.
  abbrev pub First : (A → Type 0) → List A → Type 0
  First F [] = ⊥
  First F (a ∷ as') = F a ⊎ ((b : B) × R a b × First F as')

  module _ {X : Type 0} (f : A → Result X B) (ok_iff : (a : A) (b : B) → (f a ≡ ok b) ↔ R a b) where
    ok-Each : (as' : List A) (bs : List B) → collect f as' ≡ ok bs → Each as' bs
    unfolding collect
    ok-Each [] [] h = tt
    ok-Each [] (b ∷ bs) h = cc
    ok-Each (a ∷ as') bs h = elim (Result-cases (f a)) [
      | inl (e, at) ↦ absurd (ground (arith, at, h))
      | inr (b, at) ↦ elim (Result-cases (collect f as')) [
        | inl (e, later) ↦ absurd (ground (arith, at, later, h))
        | inr (rest, later) ↦
            let same : b ∷ rest ≡ bs = ground (arith, at, later, h) in
            subst (Each (a ∷ as')) same ((ok_iff a b).0 at, ok-Each as' rest later)
      ]
    ]

    Each-ok : (as' : List A) (bs : List B) → Each as' bs → collect f as' ≡ ok bs
    unfolding collect
    Each-ok [] [] h = refl
    Each-ok [] (b ∷ bs) h = elim h [ ]
    Each-ok (a ∷ as') [] h = elim h [ ]
    Each-ok (a ∷ as') (b ∷ bs) (here, later) =
        ground (arith, (ok_iff a b).1 here, Each-ok as' bs later)

    pub collect-ok_iff : (as' : List A) (bs : List B) → (collect f as' ≡ ok bs) ↔ Each as' bs
    collect-ok_iff as' bs = (ok-Each as' bs, Each-ok as' bs)

    module _ (e : Error X) (F : A → Type 0) (err_iff : (a : A) → (f a ≡ err e) ↔ F a) where
      err-First : (as' : List A) → collect f as' ≡ err e → First F as'
      unfolding collect
      err-First [] h = cc
      err-First (a ∷ as') h = elim (Result-cases (f a)) [
        | inl (e', at) ↦ inl ((err_iff a).0 (ground (arith, at, h)))
        | inr (b, at) ↦ elim (Result-cases (collect f as')) [
          | inl (e', later) ↦
              inr (b, (ok_iff a b).0 at, err-First as' (ground (arith, at, later, h)))
          | inr (rest, later) ↦ absurd (ground (arith, at, later, h))
        ]
      ]

      First-err : (as' : List A) → First F as' → collect f as' ≡ err e
      unfolding collect
      First-err [] h = elim h [ ]
      First-err (a ∷ as') (inl fault) = ground (arith, (err_iff a).1 fault)
      First-err (a ∷ as') (inr (b, here, later)) =
          ground (arith, (ok_iff a b).1 here, First-err as' later)

      pub collect-err_iff : (as' : List A) → (collect f as' ≡ err e) ↔ First F as'
      collect-err_iff as' = (err-First as', First-err as')
