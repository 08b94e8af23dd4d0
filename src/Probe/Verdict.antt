-- ===== src/Probe/Verdict.antt =====
-- docker/grpc_health.go against pkg/grpc/grpc_server.go, Health: what the probe makes of the state that
-- the server reports.
use go_statemachine.Prelude.{
  Text, ◌≡◌, ◌≢◌, ◌↔◌, refl, ◌∙◌, ap, Bool, true, false, some, ◌⊎◌, inl, inr, arith,
}
use go_statemachine.Protos.{HealthResponse, ready, not_ready}
use go_statemachine.Go.Result.{Error, Result, ok, err, panic}
use go_statemachine.Grpc.Status.{Rpc, reply}
use go_statemachine.Grpc.Server.{GrpcSubscriber, health}
use go_statemachine.Storage.Manager.{StoreManager}
use go_statemachine.Probe.{ProbeFlags, Network, returned, probe_creds, answered, dialled, probe}

module _ {S : Type 0} (m : StoreManager S) (release : Text) where
  -- A server with the store, with an events channel or not, with TLS or not.
  abbrev pub server : Bool → Bool → GrpcSubscriber S
  server channel tls = record { store = some m; events_channel = channel; tls_enabled = tls }

  -- The response of the server, and what its state means.
  record Reported (channel tls : Bool) (s : S) : Type 0 where
    pub response : HealthResponse
    pub replied : (health (server channel tls) release s).0 ≡ reply response
    pub state_iff : (response.state ≡ ready) ↔ ((channel ≡ true) × ((m.health s).0 ≡ ok tt))

  Result-cases : (r : Result (Unit {0})) → r ≢ panic → (r ≡ ok tt) ⊎ ((e : Error) × (r ≡ err e))
  Result-cases (ok u) n = inl refl
  Result-cases (err e) n = inr (e, refl)
  Result-cases panic n = absurd (n refl)

  server_reports : (channel tls : Bool) (s : S) → (m.health s).0 ≢ panic → Reported channel tls s
  unfolding health
  server_reports false tls s calm = record {
    response = record { state = not_ready; release = release; tls_enabled = tls };
    replied = refl;
    state_iff = (λ h. cc, λ h. cc);
  }
  server_reports true tls s calm = elim (Result-cases (m.health s).0 calm) [
    | inl e ↦ record {
      response = record { state = ready; release = release; tls_enabled = tls };
      replied = ground (arith, e);
      state_iff = (λ h. (refl, e), λ h. refl);
    }
    | inr (why, e) ↦ record {
      response = record { state = not_ready; release = release; tls_enabled = tls };
      replied = ground (arith, e);
      state_iff = (λ h. cc, λ (a, h). cc);
    }
  ]

  -- The server over a connection that loses no call; the deadline is not met.
  abbrev pub Reaches : Network S → ProbeFlags → Bool → Bool → Type 0
  Reaches net flags channel tls =
      net.dial flags.host (probe_creds flags.no_tls)
      ≡ ok (λ deadline. health (server channel tls) release)

  answered_reply :
      (net : Network S) (r : Rpc HealthResponse × S) (response : HealthResponse) (json : Text)
      → r.0 ≡ reply response
      → net.marshal_json response ≡ ok json
      → (answered net r).0 ≡ returned json
  answered_reply net (r, s) response json h j = ground (arith, h, j)

  -- Against a server with a store, the probe returns, which is exit code 0, with the JSON of the response
  -- on its output, whether or not the state there is READY: it is READY exactly if the server has an
  -- events channel and the store's Health returns nil. The probe must reach the server in time, the
  -- response must have a JSON text, and the store's Health must not panic.
  pub probe-Returned :
      (net : Network S) (flags : ProbeFlags) (channel tls : Bool) (s : S)
      → Reaches net flags channel tls
      → ((r : HealthResponse) → (json : Text) × (net.marshal_json r ≡ ok json))
      → (m.health s).0 ≢ panic
      → (r : HealthResponse) × (json : Text) × ((probe net flags s).0 ≡ returned json)
        × (net.marshal_json r ≡ ok json)
        × ((r.state ≡ ready) ↔ ((channel ≡ true) × ((m.health s).0 ≡ ok tt)))
  unfolding probe
  probe-Returned net flags channel tls s reach texts calm =
      let x = server_reports channel tls s calm in
      let (json, j) = texts x.response in
      (
        x.response,
        json,
        ap (λ d. (dialled net flags d s).0) reach
            ∙ answered_reply net (health (server channel tls) release s) x.response json x.replied
                j,
        j,
        x.state_iff,
      )
