-- ===== src/Router/Shared/Named.antt =====
-- What the calls that run at the same time on the router of src/router.rs hold, endpoint by endpoint.
use incubator_horaedb_client.Prelude.{
  ℕ, ◌<◌, ◌≡◌, ◌≢◌, ◌∙◌, refl, sym, ap, subst, ◌⊎◌, inl, inr, none, some, List, [], ◌∷◌, ◌++◌, Text,
  text_beq, text_beq_iff, text_eq, length, length-set, true, length-replicate, get_elem?,
  get_elem?-lt, get_elem?-replicate, get_elem?-set_self, get_elem?-set_ne, set, replicate,
  if◌then◌else◌, arith, All, Bool-cases, ltb,
}
use native.Mathlib.Decide.{ℕ_discrete}
use incubator_horaedb_client.Prelude.HashMap
use incubator_horaedb_client.Prelude.HashMap.{HashMap, HashOrder}
use incubator_horaedb_client.Errors.{ok}
use incubator_horaedb_client.Model.Route.{Endpoint, EndpointPb, from_pb}
use incubator_horaedb_client.RpcClient.{Route}
use incubator_horaedb_client.Router.{Cache, Targets}
use incubator_horaedb_client.Router.Shared.{
  Task, entering, scanning, filling, returned, panicked, Request, routing, eviction,
}

-- The tables that a request names for routing.
abbrev pub routed_tables : Request → List Text
routed_tables (routing ctx tables) = tables
routed_tables (eviction tables) = []

-- A routing request has a database in its context.
abbrev pub HasDatabase : Request → Type 0
HasDatabase (routing ctx tables) = ctx.database ≢ none
HasDatabase (eviction tables) = Unit

module _ (Named : Text → Endpoint → Type 0) where
  -- The endpoint that a route names, if any, is one that may be named for its table.
  abbrev pub IsNamed : Route → Type 0
  IsNamed r = (pb : EndpointPb) → r.endpoint ≡ some pb → Named r.table (from_pb pb)

  abbrev pub CacheIsNamed : Cache → Type 0
  CacheIsNamed cache = (t : Text) (e : Endpoint) → HashMap.get t cache ≡ some e → Named t e

  module _ (d : Endpoint) where
    -- One target for each table: the default endpoint or one that may be named for the table.
    pub record AreNamed (tables : List Text) (targets : Targets) : Type 0 where
      pub sized : length targets ≡ length tables
      pub named :
          (j : ℕ) (t : Text)
          → get_elem? tables j ≡ some t
          → (e : Endpoint) × (get_elem? targets j ≡ some (some e)) × ((e ≡ d) ⊎ Named t e)

    -- Every miss has the index of its table.
    abbrev pub Indexes : List Text → HashMap Text ℕ → Type 0
    Indexes tables misses =
        (t : Text) (k : ℕ) → HashMap.get t misses ≡ some k → get_elem? tables k ≡ some t

    pub replicate-AreNamed :
        (tables : List Text) → AreNamed tables (replicate (length tables) (some d))
    replicate-AreNamed tables = record {
      sized = length-replicate (length tables) (some d);
      named = λ j t at.
          (d, get_elem?-replicate (length tables) j (some d) (get_elem?-lt tables j at), inl refl);
    }

    pub set-AreNamed :
        {tables : List Text} {targets : Targets} (k : ℕ) (t : Text) (e : Endpoint)
        → AreNamed tables targets
        → get_elem? tables k ≡ some t
        → Named t e
        → AreNamed tables (set targets k (some e))
    set-AreNamed {tables} {targets} k t e a here n = record {
      sized = length-set targets k (some e) ∙ a.sized;
      named = λ j u at. elim (ℕ_discrete k j) [
        | yes same ↦
            let t_is_u : t ≡ u = cc (sym here ∙ ap (get_elem? tables) same ∙ at) in
            (
              e,
              subst (λ i. get_elem? (set targets k (some e)) i ≡ some (some e)) same
                  (get_elem?-set_self targets k (some e)
                    (omega (arith, a.sized, get_elem?-lt tables k here))),
              inr (subst (λ x. Named x e) t_is_u n),
            )
        | no differ ↦
            let (o, at', from) = a.named j u at in
            (o, get_elem?-set_ne targets k j (some e) differ ∙ at', from)
      ];
    }

    pub insert-Indexes :
        (tables : List Text) (misses : HashMap Text ℕ) (t : Text) (k : ℕ)
        → get_elem? tables k ≡ some t
        → Indexes tables misses
        → Indexes tables (HashMap.insert t k misses)
    insert-Indexes tables misses t k here h u i has =
        ground (arith, HashMap.get-insert t u k misses, text_beq_iff t u, h u i)

    -- The call asked for these tables and has not panicked; what it holds is in order, and so is what
    -- it has returned.
    abbrev pub Follows : {X : Type 0} → List Text → Task X → Type 0
    Follows tables (entering ctx ts) = (ts ≡ tables) × (ctx.database ≢ none)
    Follows tables (scanning ctx database idx rest targets misses) =
        (before : List Text) × (before ++ rest ≡ tables)
        × (length before ≡ idx)
        × AreNamed tables targets
        × Indexes tables misses
    Follows tables (filling misses routes targets) =
        AreNamed tables targets × Indexes tables misses × All IsNamed routes
    Follows tables (returned (ok targets)) = AreNamed tables targets
    Follows tables panicked = ⊥
    Follows tables _ = Unit

    pub fill_next :
        (X : Type 0) (tables : List Text) (misses : HashMap Text ℕ) (route : Route)
        (routes : List Route) (targets : Targets) (cache : Cache) (pb : EndpointPb) (k : ℕ)
        → route.endpoint ≡ some pb
        → HashMap.get route.table misses ≡ some k
        → AreNamed tables targets
        → Indexes tables misses
        → All IsNamed (route ∷ routes)
        → CacheIsNamed cache
        → CacheIsNamed (HashMap.insert route.table (from_pb pb) cache)
          × Follows {X = X} tables (
              if ltb k (length targets)
              then filling misses routes (set targets k (some (from_pb pb)))
              else panicked)
    fill_next X tables misses route routes targets cache pb k present missed a h (n, ns) c =
        let here = h route.table k missed in
        let inside : k < length targets = omega (arith, a.sized, get_elem?-lt tables k here) in
        let ltb_true : ltb k (length targets) ≡ true = ground arith in
        (
          λ t e has. elim (Bool-cases (text_beq route.table t)) [
            | inl same ↦
                let t_is : route.table ≡ t = ground (arith, text_beq_iff route.table t) in
                let e_is : from_pb pb ≡ e =
                  ground (arith, HashMap.get-insert route.table t (from_pb pb) cache, same) in
                subst (λ u. Named u e) t_is (subst (λ v. Named route.table v) e_is (n pb present))
            | inr differ ↦
                c t e (ground (arith, HashMap.get-insert route.table t (from_pb pb) cache, differ))
          ],
          rw (ltb_true) (set-AreNamed k route.table (from_pb pb) a here (n pb present), h, ns),
        )

    pub remove-CacheIsNamed :
        (t : Text) (cache : Cache) → CacheIsNamed cache → CacheIsNamed (HashMap.remove t cache)
    remove-CacheIsNamed t cache c u e has = c u e (ground (arith, HashMap.get-remove t u cache))
