-- ===== src/Errors/Merge.antt =====
-- What the merge of src/errors.rs keeps of the results of the parts of a write.
use incubator_horaedb_client.Prelude.{
  ℕ, ◌+◌, ◌%◌, ◌^◌, ◌<◌, ◌≡◌, refl, sym, ap, ◌∙◌, ◌↔◌, true, List, [], ◌∷◌, ◌++◌, Text, arith, All,
  perm_rotate,
}
use mathlib.Core.List.{append_assoc, append-nil, Perm}
use mathlib.Core.List.Perm
use incubator_horaedb_client.Errors.{
  Response, Error, TableErrors, nil, cons, Result, ok, err, RouteBasedWriteError, push_error,
  merge_result, merge_results, no_results, from_results, all_ok,
}

module _ {X : Type 0} where
  -- The tables of the parts that succeeded, in order.
  abbrev pub written : List (List Text × Result X Response) → List Text
  written [] = []
  written ((tables, ok resp) ∷ rest) = tables ++ written rest
  written ((tables, err e) ∷ rest) = written rest

  -- The parts that failed, in order.
  abbrev pub failures : List (List Text × Result X Response) → TableErrors X
  failures [] = nil
  failures ((tables, ok resp) ∷ rest) = failures rest
  failures ((tables, err e) ∷ rest) = cons tables e (failures rest)

  abbrev pub total_success : List (List Text × Result X Response) → ℕ
  total_success [] = 0
  total_success ((tables, ok resp) ∷ rest) = resp.success + total_success rest
  total_success ((tables, err e) ∷ rest) = total_success rest

  abbrev pub total_failed : List (List Text × Result X Response) → ℕ
  total_failed [] = 0
  total_failed ((tables, ok resp) ∷ rest) = resp.failed + total_failed rest
  total_failed ((tables, err e) ∷ rest) = total_failed rest

  abbrev pub IsOk : List Text × Result X Response → Type 0
  IsOk (tables, ok resp) = Unit
  IsOk (tables, err e) = ⊥

  abbrev join : TableErrors X → TableErrors X → TableErrors X
  join nil ds = ds
  join (cons ts e es) ds = cons ts e (join es ds)

  join-nil : (es : TableErrors X) → join es nil ≡ es
  join-nil nil = refl
  join-nil (cons ts e es) = ap (cons ts e) (join-nil es)

  join-push :
      (es ds : TableErrors X) (ts : List Text) (e : Error X)
      → join (push_error es ts e) ds ≡ join es (cons ts e ds)
  unfolding push_error
  join-push nil ds ts e = refl
  join-push (cons us d es) ds ts e = ap (cons us d) (join-push es ds ts e)

  tables-merge :
      (acc : RouteBasedWriteError X) (rs : List (List Text × Result X Response))
      → (merge_results acc rs).ok_tables ≡ acc.ok_tables ++ written rs
  unfolding merge_results merge_result
  tables-merge acc [] = sym (append-nil _)
  tables-merge acc ((ts, ok r) ∷ rs) =
      tables-merge (merge_result acc ts (ok r)) rs ∙ append_assoc acc.ok_tables ts (written rs)
  tables-merge acc ((ts, err e) ∷ rs) = tables-merge (merge_result acc ts (err e)) rs

  errors-merge :
      (acc : RouteBasedWriteError X) (rs : List (List Text × Result X Response))
      → (merge_results acc rs).errors ≡ join acc.errors (failures rs)
  unfolding merge_results merge_result
  errors-merge acc [] = sym (join-nil _)
  errors-merge acc ((ts, ok r) ∷ rs) = errors-merge (merge_result acc ts (ok r)) rs
  errors-merge acc ((ts, err e) ∷ rs) =
      errors-merge (merge_result acc ts (err e)) rs ∙ join-push acc.errors (failures rs) ts e

  success-merge :
      (acc : RouteBasedWriteError X) (rs : List (List Text × Result X Response))
      → acc.ok_response.success < 2 ^ 32
      → (merge_results acc rs).ok_response.success
        ≡ (acc.ok_response.success + total_success rs) % 2 ^ 32
  unfolding merge_results merge_result
  success-merge acc [] h = omega arith
  success-merge acc ((ts, ok r) ∷ rs) h =
      omega (arith, success-merge (merge_result acc ts (ok r)) rs (omega arith))
  success-merge acc ((ts, err e) ∷ rs) h = success-merge (merge_result acc ts (err e)) rs h

  failed-merge :
      (acc : RouteBasedWriteError X) (rs : List (List Text × Result X Response))
      → acc.ok_response.failed < 2 ^ 32
      → (merge_results acc rs).ok_response.failed
        ≡ (acc.ok_response.failed + total_failed rs) % 2 ^ 32
  unfolding merge_results merge_result
  failed-merge acc [] h = omega arith
  failed-merge acc ((ts, ok r) ∷ rs) h =
      omega (arith, failed-merge (merge_result acc ts (ok r)) rs (omega arith))
  failed-merge acc ((ts, err e) ∷ rs) h = failed-merge (merge_result acc ts (err e)) rs h

  -- The merge keeps the tables of the parts that succeeded and the parts that failed with their
  -- errors, each in order, and adds up both row counts of the parts that succeeded modulo 2 ^ 32.
  pub from_results_lem :
      (rs : List (List Text × Result X Response))
      → ((from_results rs).ok_tables ≡ written rs)
        × ((from_results rs).errors ≡ failures rs)
        × ((from_results rs).ok_response.success ≡ total_success rs % 2 ^ 32)
        × ((from_results rs).ok_response.failed ≡ total_failed rs % 2 ^ 32)
  unfolding from_results
  from_results_lem rs = (
    tables-merge no_results rs,
    errors-merge no_results rs,
    omega (arith, success-merge no_results rs (omega arith)),
    omega (arith, failed-merge no_results rs (omega arith)),
  )

  failures-nil_iff : (rs : List (List Text × Result X Response)) → (failures rs ≡ nil) ↔ All IsOk rs
  failures-nil_iff [] = (λ _. tt, λ _. refl)
  failures-nil_iff ((ts, ok r) ∷ rs) =
      let (sound, complete) = failures-nil_iff rs in (λ h. (tt, sound h), λ h. complete h.1)
  failures-nil_iff ((ts, err e) ∷ rs) = (λ h. cc, λ h. absurd h.0)

  -- The whole write counts as successful exactly when every part succeeded.
  pub all_ok-from_results :
      (rs : List (List Text × Result X Response)) → (all_ok (from_results rs) ≡ true) ↔ All IsOk rs
  unfolding all_ok
  all_ok-from_results rs =
      let (sound, complete) = failures-nil_iff rs in
      let (_, same, _, _) = from_results_lem rs in
      (λ h. sound (ground (arith, same)), λ h. ground (arith, same, complete h))

  abbrev pub failed_tables : TableErrors X → List Text
  failed_tables nil = []
  failed_tables (cons ts e es) = ts ++ failed_tables es

  abbrev pub sent : List (List Text × Result X Response) → List Text
  sent [] = []
  sent ((ts, r) ∷ rs) = ts ++ sent rs

  accounted :
      (rs : List (List Text × Result X Response))
      → Perm (written rs ++ failed_tables (failures rs)) (sent rs)
  accounted [] = Perm.refl []
  accounted ((ts, ok r) ∷ rs) = rw append_assoc (Perm.append (Perm.refl ts) (accounted rs))
  accounted ((ts, err e) ∷ rs) =
      Perm.trans (perm_rotate (written rs) ts (failed_tables (failures rs)))
        (Perm.append (Perm.refl ts) (accounted rs))

  -- Every table of every part is reported once, as written or as failed, and none other is.
  pub from_results-Perm :
      (rs : List (List Text × Result X Response))
      → Perm ((from_results rs).ok_tables ++ failed_tables (from_results rs).errors) (sent rs)
  from_results-Perm rs =
      let (tables, errors, _, _) = from_results_lem rs in rw (tables, errors) (accounted rs)
