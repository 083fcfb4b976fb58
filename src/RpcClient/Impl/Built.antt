-- ===== src/RpcClient/Impl/Built.antt =====
-- What the factory of src/rpc_client/rpc_client_impl.rs builds.
use incubator_horaedb_client.Prelude.{
  ◌≡◌, ◌⊎◌, ◌++◌, ◌∷◌, subst, refl, Option, none, some, true, false, Bool-cases, inl, inr, Text,
  text, arith,
}
use incubator_horaedb_client.Config.{RpcConfig, Authorization}
use incubator_horaedb_client.Errors.{Error, Foreign, good, bad, Result, ok, err, connect, other}
use incubator_horaedb_client.RpcClient.Impl.{
  Channel, RpcClientImpl, TonicEndpoint, Transport, RpcClientImplFactory, make_endpoint_with_scheme,
  credentials, configure, make_metadata, finish, build,
}

module _ {X W U : Type 0} (t : Transport X W U) where
  -- The metadata of an authorization: none without one, and otherwise the text `Basic ` and the
  -- base64 form of `username:password`, as the metadata parser reads it.
  abbrev pub IsMetadata : Option Authorization → Option Text → Type 0
  IsMetadata none metadata = metadata ≡ none
  IsMetadata (some auth) metadata =
      (md : Text) × (t.parse_metadata
          (text "Basic " ++ t.base64_encode (auth.username ++ b':' ∷ auth.password))
        ≡ good md)
      × (metadata ≡ some md)

  make_metadata_lem :
      (auth : Option Authorization) (metadata : Option Text)
      → make_metadata t auth ≡ good metadata
      → IsMetadata auth metadata
  unfolding make_metadata credentials
  make_metadata_lem none metadata h = ground arith
  make_metadata_lem (some auth) metadata h =
      go
        (t.parse_metadata
          (text "Basic " ++ t.base64_encode (auth.username ++ b':' ∷ auth.password)))
        refl h
    where
      go :
          (parsed : Foreign X Text)
          → t.parse_metadata
              (text "Basic " ++ t.base64_encode (auth.username ++ b':' ∷ auth.password))
            ≡ parsed
          → (elim parsed [ good md ↦ good (some md) | bad x ↦ bad x ]) ≡ good metadata
          → IsMetadata (some auth) metadata
      go (good md) is k = (md, is, ground arith)
      go (bad x) is k = cc

  -- The endpoint that is connected: its address, and the settings that the factory makes, those for
  -- keep-alive probes only where probes of an idle connection are asked for.
  pub record IsConfigured (config : RpcConfig) (uri : U) (e : TonicEndpoint U) : Type 0 where
    pub same_uri : e.uri ≡ uri
    pub limited : e.connect_timeout ≡ some config.connect_timeout
    pub while_idle : e.keep_alive_while_idle ≡ some config.keep_alive_while_idle
    pub probed :
        config.keep_alive_while_idle ≡ true
        → (e.keep_alive_timeout ≡ some config.keep_alive_timeout)
          × (e.http2_keep_alive_interval ≡ some config.keep_alive_interval)
    pub unprobed :
        config.keep_alive_while_idle ≡ false
        → (e.keep_alive_timeout ≡ none) × (e.http2_keep_alive_interval ≡ none)

  configure-IsConfigured :
      (config : RpcConfig) (uri : U) → IsConfigured config uri (configure config uri)
  unfolding configure
  configure-IsConfigured config uri = elim (Bool-cases config.keep_alive_while_idle) [
    | inl idle ↦ record {
      same_uri = ground (arith, idle);
      limited = ground (arith, idle);
      while_idle = ground (arith, idle);
      probed = λ h. (ground (arith, idle), ground (arith, idle));
      unprobed = λ h. absurd (ground (arith, idle, h));
    }
    | inr busy ↦ record {
      same_uri = ground (arith, busy);
      limited = ground (arith, busy);
      while_idle = ground (arith, busy);
      probed = λ h. absurd (ground (arith, busy, h));
      unprobed = λ h. (ground (arith, busy), ground (arith, busy));
    }
  ]

  -- The outcome of connecting to the address under the settings.
  abbrev pub Connects : RpcConfig → U → W → Foreign X (Channel X W) → W → Type 0
  Connects config uri w channel w' =
      (e : TonicEndpoint U) × IsConfigured config uri e × (t.connect_to e w ≡ (channel, w'))

  -- How a built client came about.
  pub record IsBuilt (factory : RpcClientImplFactory) (endpoint : Text) (w : W)
      (client : RpcClientImpl X W) (w' : W) : Type 0 where
    pub uri : U
    pub parsed : t.parse_uri (text "http://" ++ endpoint) ≡ good uri
    pub connected : Connects factory.rpc_config uri w (good client.channel) w'
    pub read_timeout : client.default_read_timeout ≡ factory.rpc_config.default_sql_query_timeout
    pub write_timeout : client.default_write_timeout ≡ factory.rpc_config.default_write_timeout
    pub authorized : IsMetadata factory.authorization client.metadata

  -- The metadata of an authorization cannot be parsed.
  abbrev pub CannotAuthorize : Option Authorization → X → Type 0
  CannotAuthorize none x = ⊥
  CannotAuthorize (some auth) x =
      t.parse_metadata (text "Basic " ++ t.base64_encode (auth.username ++ b':' ∷ auth.password))
      ≡ bad x

  cannot_authorize :
      (auth : Option Authorization) (x : X) → make_metadata t auth ≡ bad x → CannotAuthorize auth x
  unfolding make_metadata credentials
  cannot_authorize none x h = cc
  cannot_authorize (some auth) x h =
      go
        (t.parse_metadata
          (text "Basic " ++ t.base64_encode (auth.username ++ b':' ∷ auth.password)))
        refl h
    where
      go :
          (parsed : Foreign X Text)
          → t.parse_metadata
              (text "Basic " ++ t.base64_encode (auth.username ++ b':' ∷ auth.password))
            ≡ parsed
          → ◌≡◌ {A = Foreign X (Option Text)}
              (elim parsed [ good md ↦ good (some md) | bad y ↦ bad y ])
              (bad x)
          → CannotAuthorize (some auth) x
      go (good md) is k = cc
      go (bad y) is k = ground (arith, is, k)

  -- Why nothing was built: the address is no URI, or the connection failed, or there is a connection
  -- but the metadata cannot be parsed.
  abbrev pub IsUnbuilt : RpcClientImplFactory → Text → W → Error X → W → Type 0
  IsUnbuilt factory endpoint w e w' =
      ((x : X) × (t.parse_uri (text "http://" ++ endpoint) ≡ bad x)
        × (e ≡ connect endpoint x)
        × (w' ≡ w))
      ⊎ ((uri : U) × (t.parse_uri (text "http://" ++ endpoint) ≡ good uri)
          × (((x : X) × Connects factory.rpc_config uri w (bad x) w' × (e ≡ connect endpoint x))
              ⊎ ((x : X) × (channel : Channel X W) × Connects factory.rpc_config uri w
                    (good channel) w'
                  × CannotAuthorize factory.authorization x
                  × (e ≡ other (t.in_context (text "invalid grpc metadata") x)))))

  abbrev Outcome : RpcClientImplFactory → Text → W → Result X (RpcClientImpl X W) → W → Type 0
  Outcome factory endpoint w (ok client) w' = IsBuilt factory endpoint w client w'
  Outcome factory endpoint w (err e) w' = IsUnbuilt factory endpoint w e w'

  finish-Outcome :
      (factory : RpcClientImplFactory) (endpoint : Text) (w : W) (uri : U)
      (connection : Foreign X (Channel X W) × W)
      → t.parse_uri (text "http://" ++ endpoint) ≡ good uri
      → t.connect_to (configure factory.rpc_config uri) w ≡ connection
      → (λ (o : Result X (RpcClientImpl X W) × W). Outcome factory endpoint w o.0 o.1)
          (finish t factory endpoint connection)
  finish-Outcome factory endpoint w uri (bad x, w') parsed is =
      let configured = configure-IsConfigured factory.rpc_config uri in
      inr (uri, parsed, inl (x, (configure factory.rpc_config uri, configured, is), refl))
  finish-Outcome factory endpoint w uri (good channel, w') parsed is =
      go (make_metadata t factory.authorization) refl
    where
      go :
          (made : Foreign X (Option Text))
          → make_metadata t factory.authorization ≡ made
          → Outcome factory endpoint w
              (elim made [
                | bad x ↦ err (other (t.in_context (text "invalid grpc metadata") x))
                | good metadata ↦ ok (record {
                  channel = channel;
                  default_read_timeout = factory.rpc_config.default_sql_query_timeout;
                  default_write_timeout = factory.rpc_config.default_write_timeout;
                  metadata = metadata;
                })
              ])
              w'
      go (bad x) made_is = inr (
        uri,
        parsed,
        inr (
          x,
          channel,
          (configure factory.rpc_config uri, configure-IsConfigured factory.rpc_config uri, is),
          cannot_authorize factory.authorization x made_is,
          refl,
        ),
      )
      go (good metadata) made_is = record {
        uri = uri;
        parsed = parsed;
        connected =
            (configure factory.rpc_config uri, configure-IsConfigured factory.rpc_config uri, is);
        read_timeout = refl;
        write_timeout = refl;
        authorized = make_metadata_lem factory.authorization metadata made_is;
      }

  build-Outcome :
      (factory : RpcClientImplFactory) (endpoint : Text) (w : W)
      → (λ (o : Result X (RpcClientImpl X W) × W). Outcome factory endpoint w o.0 o.1)
          (build t factory endpoint w)
  unfolding build make_endpoint_with_scheme
  build-Outcome factory endpoint w = go (t.parse_uri (text "http://" ++ endpoint)) refl
    where
      go :
          (parsed : Foreign X U)
          → t.parse_uri (text "http://" ++ endpoint) ≡ parsed
          → (λ (o : Result X (RpcClientImpl X W) × W). Outcome factory endpoint w o.0 o.1)
              (elim parsed [
                | bad x ↦ (err (connect endpoint x), w)
                | good uri ↦
                    finish t factory endpoint (t.connect_to (configure factory.rpc_config uri) w)
              ])
      go (bad x) is = inl (x, is, refl, refl)
      go (good uri) is = finish-Outcome factory endpoint w uri _ is refl

  -- A client that is built has a channel that was connected to the address with `http://` before it.
  -- The connection has the connect timeout of the factory's settings and sends keep-alive probes
  -- when idle exactly if the settings say so, and then with their keep-alive timeout and interval,
  -- and otherwise without either. The timeouts of the client are those of the settings, and its
  -- metadata carry the user name and the password, in base64. An error has one of three reasons: the
  -- address is no URI, and nothing has happened; the connection under these settings failed, which
  -- like the first the error says with the address; or it was made, but the metadata of the
  -- authorization cannot be parsed.
  pub build_lem :
      (factory : RpcClientImplFactory) (endpoint : Text) (w w' : W)
      → ((client : RpcClientImpl X W)
          → build t factory endpoint w ≡ (ok client, w')
          → IsBuilt factory endpoint w client w')
        × ((e : Error X)
            → build t factory endpoint w ≡ (err e, w')
            → IsUnbuilt factory endpoint w e w')
  build_lem factory endpoint w w' =
      let o = build-Outcome factory endpoint w in
      (
        λ client h. subst (λ p. Outcome factory endpoint w p.0 p.1) h o,
        λ e h. subst (λ p. Outcome factory endpoint w p.0 p.1) h o,
      )
