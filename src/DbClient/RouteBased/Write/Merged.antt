-- ===== src/DbClient/RouteBased/Write/Merged.antt =====
-- The result of a write over several servers in src/db_client/route_based.rs.
use incubator_horaedb_client.Prelude.{
  ◌≡◌, ◌%◌, ◌^◌, refl, true, false, List, [], ◌∷◌, Text, text_eq, arith, All, Bool-cases, inl, inr,
}
use incubator_horaedb_client.Errors.{
  Response, route_based_write_error, ok, err, from_results, all_ok,
}
use incubator_horaedb_client.Errors.Merge.{
  written, failures, total_success, total_failed, IsOk, from_results_lem, all_ok-from_results,
}
use incubator_horaedb_client.DbClient.RouteBased.Write.{Results, merged, with_unrouted}

module _ {X : Type 0} where
  -- The counts of rows of the parts that succeeded.
  abbrev pub totals : Results X → Response
  totals rs = record { success = total_success rs % 2 ^ 32; failed = total_failed rs % 2 ^ 32 }

  merged_ok : (rs : Results X) → all_ok (from_results rs) ≡ true → merged rs ≡ ok (totals rs)
  unfolding merged
  merged_ok rs h =
      let (_, _, success, failed) = from_results_lem rs in ground (arith, h, success, failed)

  merged_err :
      (rs : Results X)
      → all_ok (from_results rs) ≡ false
      → merged rs ≡ err (route_based_write_error (written rs) (totals rs) (failures rs))
  unfolding merged
  merged_err rs h =
      let (tables, errors, success, failed) = from_results_lem rs in
      ground (arith, h, tables, errors, success, failed)

  unrouted-failed :
      (t : Text) (ts : List Text) (rs : Results X) → ¬ All IsOk (with_unrouted (t ∷ ts) rs)
  unfolding with_unrouted
  unrouted-failed t ts [] h = h.0
  unrouted-failed t ts (r ∷ rs) h = unrouted-failed t ts rs h.1

  -- If every part of a write succeeds and every table was routed, the write succeeds with the total
  -- counts of rows modulo 2 ^ 32. In every other case it fails with the error that holds the tables
  -- of the parts that succeeded, their total counts, and the parts that failed with their errors,
  -- the tables without endpoint among them.
  pub merged-with_unrouted :
      (ts : List Text) (rs : Results X)
      → ((ts ≡ [] × All IsOk rs) → merged (with_unrouted ts rs) ≡ ok (totals rs))
        × (¬ (ts ≡ [] × All IsOk rs)
            → merged (with_unrouted ts rs)
              ≡ err (
                  route_based_write_error
                    (written (with_unrouted ts rs))
                    (totals (with_unrouted ts rs))
                    (failures (with_unrouted ts rs))))
  unfolding with_unrouted
  merged-with_unrouted [] rs =
      let (sound, complete) = all_ok-from_results rs in
      (
        λ h. merged_ok rs (complete h.1),
        λ h. elim (Bool-cases (all_ok (from_results rs))) [
          | inl fine ↦ absurd (h (refl, sound fine))
          | inr failed ↦ merged_err rs failed
        ],
      )
  merged-with_unrouted (t ∷ ts) rs =
      let (sound, complete) = all_ok-from_results (with_unrouted (t ∷ ts) rs) in
      (
        λ h. absurd (cc h.0),
        λ h. elim (Bool-cases (all_ok (from_results (with_unrouted (t ∷ ts) rs)))) [
          | inl fine ↦ absurd (unrouted-failed t ts rs (sound fine))
          | inr failed ↦ merged_err (with_unrouted (t ∷ ts) rs) failed
        ],
      )
