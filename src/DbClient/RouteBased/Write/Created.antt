-- ===== src/DbClient/RouteBased/Write/Created.antt =====
-- The tables that `write` of src/db_client/route_based.rs notes for each part.
use mathlib.Core.List.{append_assoc}
use incubator_horaedb_client.Prelude.{
  ℕ, suc, ◌≡◌, ◌∙◌, refl, sym, ap, some, List, [], ◌∷◌, ◌++◌, map, Text, length, length-append,
  replicate, arith,
}
use incubator_horaedb_client.Model.Route.{Endpoint}
use incubator_horaedb_client.Write.Request.{Request}
use incubator_horaedb_client.DbClient.Inner.{Env}
use incubator_horaedb_client.DbClient.RouteBased.Clients.{Pool, get_or_create}
use incubator_horaedb_client.DbClient.RouteBased.Write.{tables_of, extend_at, create_all}

extend_at-append :
    (before : List (List Text)) (names : List Text) (rest : List (List Text))
    → extend_at (length before) names (before ++ [] ∷ rest) ≡ before ++ names ∷ rest
extend_at-append [] names rest = refl
extend_at-append (tables ∷ before) names rest =
    ap (λ r. tables ∷ r) (extend_at-append before names rest)

module _ {X W : Type 0} (env : Env X W) where
  created_after :
      (before : List (List Text)) (idx : ℕ) (pool : Pool X W) (parts : List (Endpoint × Request))
      → length before ≡ idx
      → (pool' : Pool X W) × (create_all env idx (before ++ replicate (length parts) []) pool parts
          ≡ some (before ++ map (tables_of env) parts, pool'))
  unfolding create_all
  created_after before idx pool [] at = (pool, refl)
  created_after before idx pool ((e, req) ∷ parts) at =
      let names = tables_of env (e, req) in
      let (pool', later) =
        created_after (before ++ names ∷ []) (suc idx) (get_or_create pool e).1 parts
          (omega (arith, length-append before (names ∷ []), at)) in
      let extended : extend_at idx names (before ++ [] ∷ replicate (length parts) [])
          ≡ (before ++ names ∷ []) ++ replicate (length parts) [] =
        ap (λ i. extend_at i names (before ++ [] ∷ replicate (length parts) [])) (sym at)
        ∙ extend_at-append before names (replicate (length parts) [])
        ∙ sym (append_assoc before (names ∷ []) (replicate (length parts) [])) in
      (
        pool',
        ground (
          arith,
          length-append before ([] ∷ replicate (length parts) []),
          at,
          extended,
          later,
          append_assoc before (names ∷ []) (map (tables_of env) parts),
        ),
      )

  -- No index is out of bounds, and each part has its own tables.
  pub create_all_lem :
      (pool : Pool X W) (parts : List (Endpoint × Request))
      → (pool' : Pool X W) × (create_all env 0 (replicate (length parts) []) pool parts
          ≡ some (map (tables_of env) parts, pool'))
  create_all_lem pool parts = created_after [] 0 pool parts refl
