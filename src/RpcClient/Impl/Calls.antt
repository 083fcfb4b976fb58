-- ===== src/RpcClient/Impl/Calls.antt =====
-- When a call of src/rpc_client/rpc_client_impl.rs succeeds, and the errors with which it fails.
use incubator_horaedb_client.Prelude.{
  ◌≡◌, ◌≢◌, ◌↔◌, ◌⊎◌, ◌∙◌, ap, sym, subst, refl, Option, none, some, inl, inr, ==_iff, arith,
}
use mathlib.Core.Option.{get_or}
use incubator_horaedb_client.Util.{is_ok}
use incubator_horaedb_client.Config.{Duration}
use incubator_horaedb_client.Errors.{Error, Foreign, good, bad, ok, err, server, rpc}
use incubator_horaedb_client.RpcClient.{
  RpcContext, ResponseHeader, RouteRequest, RouteResponse, SqlQueryRequestPb, SqlQueryResponsePb,
  WriteRequestPb, WriteResponsePb,
}
use incubator_horaedb_client.RpcClient.Impl.{
  TonicRequest, RpcClientImpl, check_status, checked, make_request, make_query_request,
  make_write_request, received, sql_query, write, route,
}

-- There is no header, or its code is that of success.
abbrev pub IsAccepted : Option ResponseHeader → Type 0
IsAccepted none = Unit
IsAccepted (some header) = header.code ≡ 200

-- The transport failed, or the header has another code; the error says which.
abbrev pub IsFault :
    {X W A : Type 0} → (A → Option ResponseHeader) → Foreign X A × W → Error X → W → Type 0
IsFault {X} {W} {A} header reply e w' =
    ((status : X) × (reply ≡ (bad status, w')) × (e ≡ rpc status))
    ⊎ ((resp : A) × (h : ResponseHeader) × (reply ≡ (good resp, w'))
        × (header resp ≡ some h)
        × (h.code ≢ 200)
        × (e ≡ server (record { code = h.code; msg = h.error })))

module _ {X A : Type 0} where
  checked-ok_iff :
      (header : Option ResponseHeader) (resp a : A)
      → (checked {X = X} header resp ≡ ok a) ↔ (IsAccepted header × (resp ≡ a))
  unfolding checked check_status is_ok
  checked-ok_iff none resp a = (λ h. (tt, ground arith), λ h. ground arith)
  checked-ok_iff (some h) resp a = ground (arith, ==_iff h.code 200)

  checked-err :
      (header : Option ResponseHeader) (resp : A) (e : Error X)
      → checked {X = X} header resp ≡ err e
      → (h : ResponseHeader) × (header ≡ some h)
        × (h.code ≢ 200)
        × (e ≡ server (record { code = h.code; msg = h.error }))
  unfolding checked check_status is_ok
  checked-err none resp e h = cc
  checked-err (some hd) resp e h =
      (hd, refl, ground (arith, ==_iff hd.code 200), ground (arith, ==_iff hd.code 200))

module _ {X W A : Type 0} (header : A → Option ResponseHeader) (strip : A → A) where
  received-ok_iff :
      (reply : Foreign X A × W) (a : A) (w' : W)
      → (received {X = X} (λ resp. checked (header resp) (strip resp)) reply ≡ (ok a, w'))
        ↔ ((resp : A) × (reply ≡ (good resp, w')) × IsAccepted (header resp) × (strip resp ≡ a))
  received-ok_iff (bad x, w) a w' = (λ h. cc, λ h. cc)
  received-ok_iff (good resp, w) a w' =
      let (to, from) = checked-ok_iff {X = X} (header resp) (strip resp) a in
      (
        λ h. let (accepted, same) = to (ground arith) in (resp, ground arith, accepted, same),
        λ (r, same, accepted, stripped).
            let is : r ≡ resp = cc in
            let done =
              from (subst (λ x. IsAccepted (header x)) is accepted, ap strip (sym is) ∙ stripped) in
            ground (arith, done),
      )

  received-err :
      (reply : Foreign X A × W) (e : Error X) (w' : W)
      → received {X = X} (λ resp. checked (header resp) (strip resp)) reply ≡ (err e, w')
      → IsFault header reply e w'
  received-err (bad x, w) e w' h = inl (x, ground arith, ground arith)
  received-err (good resp, w) e w' h =
      let (hd, has, refused, is) = checked-err (header resp) (strip resp) e (ground arith) in
      inr (resp, hd, ground arith, has, refused, is)

module _ {X W : Type 0} (client : RpcClientImpl X W) (ctx : RpcContext) where
  -- What is sent: the message with the timeout of the context, or else the client's, and the
  -- client's metadata.
  abbrev pub sent : {T : Type 0} → T → Duration → TonicRequest T
  sent req default_timeout = record {
    message = req;
    timeout = get_or ctx.timeout default_timeout;
    authorization = client.metadata;
  }

  -- Each of the three calls succeeds exactly when the channel answers to the message that is sent,
  -- with the timeout of the context or else the client's for reads or writes, a route request having
  -- that for writes, and the answer has no header or one with the code of success; what is returned
  -- is the answer without its header.
  pub calls_ok_iff :
      ((req : SqlQueryRequestPb) (w w' : W) (resp : SqlQueryResponsePb)
        → (sql_query client ctx req w ≡ (ok resp, w')) ↔ (
            (r : SqlQueryResponsePb) × (client.channel.sql_query
                (sent req client.default_read_timeout)
                w
              ≡ (good r, w'))
            × IsAccepted r.header
            × (record r { header = none } ≡ resp)))
      × ((req : WriteRequestPb) (w w' : W) (resp : WriteResponsePb)
          → (write client ctx req w ≡ (ok resp, w')) ↔ (
              (r : WriteResponsePb) × (client.channel.write
                  (sent req client.default_write_timeout)
                  w
                ≡ (good r, w'))
              × IsAccepted r.header
              × (record r { header = none } ≡ resp)))
      × ((req : RouteRequest) (w w' : W) (resp : RouteResponse)
          → (route client ctx req w ≡ (ok resp, w')) ↔ (
              (r : RouteResponse) × (client.channel.route (sent req client.default_write_timeout) w
                ≡ (good r, w'))
              × IsAccepted r.header
              × (record r { header = none } ≡ resp)))
  unfolding sql_query write route make_query_request make_write_request make_request
  calls_ok_iff = (
    λ req w w' resp.
        received-ok_iff (λ r. r.header) (λ r. record r { header = none })
          (client.channel.sql_query (sent req client.default_read_timeout) w) resp w',
    λ req w w' resp.
        received-ok_iff (λ r. r.header) (λ r. record r { header = none })
          (client.channel.write (sent req client.default_write_timeout) w) resp w',
    λ req w w' resp.
        received-ok_iff (λ r. r.header) (λ r. record r { header = none })
          (client.channel.route (sent req client.default_write_timeout) w) resp w',
  )

  -- A call that fails has one of two errors: that of the transport, or a server error with the code
  -- and the text of a header whose code is not that of success.
  pub calls_err :
      ((req : SqlQueryRequestPb) (w w' : W) (e : Error X)
        → sql_query client ctx req w ≡ (err e, w')
        → IsFault
            (λ (r : SqlQueryResponsePb). r.header)
            (client.channel.sql_query (sent req client.default_read_timeout) w)
            e
            w')
      × ((req : WriteRequestPb) (w w' : W) (e : Error X)
          → write client ctx req w ≡ (err e, w')
          → IsFault
              (λ (r : WriteResponsePb). r.header)
              (client.channel.write (sent req client.default_write_timeout) w)
              e
              w')
      × ((req : RouteRequest) (w w' : W) (e : Error X)
          → route client ctx req w ≡ (err e, w')
          → IsFault
              (λ (r : RouteResponse). r.header)
              (client.channel.route (sent req client.default_write_timeout) w)
              e
              w')
  unfolding sql_query write route make_query_request make_write_request make_request
  calls_err = (
    λ req w w' e h.
        received-err (λ r. r.header) (λ r. record r { header = none })
          (client.channel.sql_query (sent req client.default_read_timeout) w) e w' h,
    λ req w w' e h.
        received-err (λ r. r.header) (λ r. record r { header = none })
          (client.channel.write (sent req client.default_write_timeout) w) e w' h,
    λ req w w' e h.
        received-err (λ r. r.header) (λ r. record r { header = none })
          (client.channel.route (sent req client.default_write_timeout) w) e w' h,
  )
