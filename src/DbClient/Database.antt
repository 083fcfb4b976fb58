-- ===== src/DbClient/Database.antt =====
-- The database that `resolve_database` of src/db_client/mod.rs chooses.
use incubator_horaedb_client.Prelude.{
  ◌≡◌, ◌≢◌, ◌↔◌, ◌⊎◌, ◌∙◌, refl, sym, ap, Option, none, some, Text, arith, Option-cases, inl, inr,
}
use incubator_horaedb_client.Errors.{ok, err, no_database}
use incubator_horaedb_client.RpcClient.{RpcContext}
use incubator_horaedb_client.DbClient.{resolve_database}

-- The first of two options that is there.
abbrev pub first_of : Option Text → Option Text → Option Text
first_of none d = d
first_of (some x) d = some x

-- The choice has two outcomes. It fails exactly when neither the context nor the client names a
-- database, with the error that says so. It gives a new context exactly when one of them does, and
-- the new context has the database of the old one, or else the client's, and the old timeout.
pub resolve_database_lem :
    (X : Type 0) (ctx : RpcContext) (default_database : Option Text)
    → ((resolve_database {X = X} ctx default_database ≡ err no_database)
        ↔ (first_of ctx.database default_database ≡ none))
      × ((ctx' : RpcContext)
          → (resolve_database {X = X} ctx default_database ≡ ok ctx') ↔ (
              (database : Text) × (first_of ctx.database default_database ≡ some database)
              × (ctx' ≡ record { database = some database; timeout = ctx.timeout })))
unfolding resolve_database
resolve_database_lem X ctx d = elim (Option-cases ctx.database) [
  | inr (database, has) ↦ (
    (λ h. absurd (ground (arith, has)), λ h. absurd (ground (arith, has))),
    λ ctx'. (
      λ h. (database, ground (arith, has), ground (arith, has, h)),
      λ (database', is, same). ground (arith, has, is, same),
    ),
  )
  | inl missing ↦ elim (Option-cases d) [
    | inr (database, has) ↦ (
      (λ h. absurd (ground (arith, missing, has)), λ h. absurd (ground (arith, missing, has))),
      λ ctx'. (
        λ h. (database, ground (arith, missing, has), ground (arith, missing, has, h)),
        λ (database', is, same). ground (arith, missing, has, is, same),
      ),
    )
    | inl neither ↦ (
      (λ h. ground (arith, missing, neither), λ h. ground (arith, missing, neither)),
      λ ctx'. (
        λ h. absurd (ground (arith, missing, neither)),
        λ (database', is, same). absurd (ground (arith, missing, neither, is)),
      ),
    )
  ]
]

-- The chosen context names a database.
pub resolve_database-named :
    (X : Type 0) (ctx ctx' : RpcContext) (default_database : Option Text)
    → resolve_database {X = X} ctx default_database ≡ ok ctx'
    → ctx'.database ≢ none
resolve_database-named X ctx ctx' d h missing =
    let (database, is, same) = ((resolve_database_lem X ctx d).1 ctx').0 h in
    cc (sym missing ∙ ap (λ (c : RpcContext). c.database) same)

pub resolve_database-cases :
    (X : Type 0) (ctx : RpcContext) (default_database : Option Text)
    → (resolve_database {X = X} ctx default_database ≡ err no_database)
      ⊎ ((ctx' : RpcContext) × (resolve_database {X = X} ctx default_database ≡ ok ctx'))
resolve_database-cases X ctx d =
    let (fails, gives) = resolve_database_lem X ctx d in
    elim (Option-cases (first_of ctx.database d)) [
      | inl neither ↦ inl (fails.1 neither)
      | inr (database, is) ↦
          let ctx' : RpcContext = record { database = some database; timeout = ctx.timeout } in
          inr (ctx', (gives ctx').1 (database, is, refl))
    ]
