-- ===== src/Proxy/Server/Laws.antt =====
-- What the handler hands over to the Docker socket.
use run_secure.Common.{
  ℕ, ◌≡◌, refl, sym, ap, subst, ◌∙◌, ◌↔◌, ◌⊎◌, inl, inr, Bool, true, false, ◌&&◌, List, take, ◌==◌,
  bytes_equal, bytes_eq, bytes_eq_iff, Bool-cases, arith,
}
use run_secure.Common.Text.{Text, codes}
use run_secure.Proxy.Errors.{Check, ok, err}
use run_secure.Proxy.Create.{Body}
use run_secure.Proxy.Policy.{validate_container_create, validate_network_create}
use run_secure.Proxy.Routes.{strip_version, route_allowed}
use run_secure.Proxy.Server.{
  Reader, fails, content, Request, Server, Outcome, DenyCode, denied, forwarded, body_read_failed,
  validation_failed, route_not_allowed, body_limit, container_create_path, network_create_path,
  checked_body, network_stage, serve_http,
}

abbrev pub posts_to : (Text → Bool) → Request → Bool
posts_to path request = request.method == codes "POST" && path request.path

-- The body that is handed over passed the check, and is what was read of the request's own.
abbrev pub Checked : (Body → Check) → Server → Request → Request → Type 0
Checked validate server request sent =
    (bytes : List ℕ) × (request.body ≡ content bytes)
    × (validate (server.parse (take body_limit bytes)) ≡ ok tt)
    × (sent ≡ record request { body = content (take body_limit bytes) })

abbrev pub container_check : Server → Body → Check
container_check server =
    validate_container_create server.fold server.images server.egress_net server.egress_vol

abbrev pub network_check : Server → Body → Check
network_check server = validate_network_create server.fold

abbrev pub Passes : Server → Request → Request → Type 0
Passes server request sent =
    ((posts_to container_create_path request ≡ true)
      × Checked (container_check server) server request sent)
    ⊎ ((posts_to network_create_path request ≡ true)
        × Checked (network_check server) server request sent)
    ⊎ ((posts_to container_create_path request ≡ false)
        × (posts_to network_create_path request ≡ false)
        × (sent ≡ request))

forwarded-eq : (a b : Request) → forwarded a ≡ forwarded b → a ≡ b
forwarded-eq a b h = cc

denied-ne-forwarded :
    (code : DenyCode) (status : ℕ) (r : Request) → denied code status ≡ forwarded r → ⊥
denied-ne-forwarded code status r h = cc

-- A checked body comes to the next stage.
checked_body_iff :
    (validate : Body → Check) (server : Server) (request sent : Request)
    → (next : Request → Outcome)
    → (checked_body validate server request next ≡ forwarded sent) ↔ (
        (bytes : List ℕ) × (request.body ≡ content bytes)
        × (validate (server.parse (take body_limit bytes)) ≡ ok tt)
        × (next (record request { body = content (take body_limit bytes) }) ≡ forwarded sent))
unfolding checked_body
checked_body_iff validate server request sent next = (
  reads request.body refl,
  λ (bytes, is, passed, goes).
      subst (λ b. outcome b ≡ forwarded sent) (sym is)
        (subst (λ c. step c bytes ≡ forwarded sent) (sym passed) goes),
)
  where
    put : List ℕ → Request
    put bytes = record request { body = content (take body_limit bytes) }

    step : Check → List ℕ → Outcome
    step c bytes = elim c [ err e ↦ denied validation_failed 403 | ok _ ↦ next (put bytes) ]

    outcome : Reader → Outcome
    outcome b = elim b [
      | fails ↦ denied body_read_failed 400
      | content bytes ↦ step (validate (server.parse (take body_limit bytes))) bytes
    ]

    passes :
        (c : Check) (bytes : List ℕ)
        → step c bytes ≡ forwarded sent
        → (c ≡ ok tt) × (next (put bytes) ≡ forwarded sent)
    passes (err e) bytes h = absurd (ground arith)
    passes (ok _) bytes h = (refl, h)

    reads :
        (body : Reader)
        → request.body ≡ body
        → checked_body validate server request next ≡ forwarded sent
        → (bytes : List ℕ) × (request.body ≡ content bytes)
          × (validate (server.parse (take body_limit bytes)) ≡ ok tt)
          × (next (put bytes) ≡ forwarded sent)
    reads fails is h = absurd (ground arith)
    reads (content bytes) is h =
        let shown = subst (λ b. outcome b ≡ forwarded sent) is h in
        let both = passes (validate (server.parse (take body_limit bytes))) bytes shown in
        (bytes, is, both.0, both.1)

apart : (path : Text) → container_create_path path ≡ true → network_create_path path ≡ false
unfolding container_create_path network_create_path bytes_eq
apart path h =
    let is = (bytes_eq_iff (strip_version path) (codes "/containers/create")).0 h in
    subst (λ p. (p == codes "/networks/create") ≡ false) (sym is) refl

posts_apart :
    (request : Request)
    → posts_to container_create_path request ≡ true
    → posts_to network_create_path request ≡ false
posts_apart request h = ground (arith, apart request.path)

network_stage-network :
    (server : Server) (request : Request)
    → posts_to network_create_path request ≡ true
    → network_stage server request ≡ checked_body (network_check server) server request forwarded
unfolding network_stage
network_stage-network server request h = ground arith

network_stage-other :
    (server : Server) (request : Request)
    → posts_to network_create_path request ≡ false
    → network_stage server request ≡ forwarded request
unfolding network_stage
network_stage-other server request h = ground arith

serve_http-denied :
    (server : Server) (request : Request)
    → route_allowed request.method request.path ≡ false
    → serve_http server request ≡ denied route_not_allowed 403
unfolding serve_http
serve_http-denied server request h = ground arith

serve_http-container :
    (server : Server) (request : Request)
    → route_allowed request.method request.path ≡ true
    → posts_to container_create_path request ≡ true
    → serve_http server request
      ≡ checked_body (container_check server) server request (network_stage server)
unfolding serve_http
serve_http-container server request a h = ground arith

serve_http-other :
    (server : Server) (request : Request)
    → route_allowed request.method request.path ≡ true
    → posts_to container_create_path request ≡ false
    → serve_http server request ≡ network_stage server request
unfolding serve_http
serve_http-other server request a h = ground arith

network_stage-Passes :
    (server : Server) (request sent : Request)
    → posts_to container_create_path request ≡ false
    → (network_stage server request ≡ forwarded sent) ↔ Passes server request sent
network_stage-Passes server request sent c =
    elim (Bool-cases (posts_to network_create_path request)) [
      | inl n ↦
          let opens = network_stage-network server request n in
          let checks = checked_body_iff (network_check server) server request sent forwarded in
          (
            λ h.
                let (bytes, is, passed, goes) = checks.0 (sym opens ∙ h) in
                inr (inl (n, (bytes, is, passed, sym (forwarded-eq _ _ goes)))),
            λ w. elim w [
              | inl v ↦ absurd (ground arith)
              | inr (inl (_, (bytes, is, passed, sent_is))) ↦
                  opens ∙ checks.1 (bytes, is, passed, ap forwarded (sym sent_is))
              | inr (inr v) ↦ absurd (ground arith)
            ],
          )
      | inr n ↦
          let opens = network_stage-other server request n in
          (
            λ h. inr (inr (c, n, sym (forwarded-eq _ _ (sym opens ∙ h)))),
            λ w. elim w [
              | inl v ↦ absurd (ground arith)
              | inr (inl v) ↦ absurd (ground arith)
              | inr (inr v) ↦ opens ∙ ap forwarded (sym v.2)
            ],
          )
    ]

container-Passes :
    (server : Server) (request sent : Request)
    → posts_to container_create_path request ≡ true
    → (checked_body (container_check server) server request (network_stage server) ≡ forwarded sent)
      ↔ Passes server request sent
container-Passes server request sent c =
    let checks =
      checked_body_iff (container_check server) server request sent (network_stage server) in
    let apart_from = posts_apart request c in
    (
      λ h.
          let (bytes, is, passed, goes) = checks.0 h in
          let hand = network_stage-other server _ apart_from in
          inl (c, (bytes, is, passed, sym (forwarded-eq _ _ (sym hand ∙ goes)))),
      λ w. elim w [
        | inl (_, (bytes, is, passed, sent_is)) ↦ checks.1 (
          bytes,
          is,
          passed,
          network_stage-other server _ apart_from ∙ ap forwarded (sym sent_is),
        )
        | inr (inl v) ↦ absurd (ground arith)
        | inr (inr v) ↦ absurd (ground arith)
      ],
    )

-- A request goes on to the Docker socket exactly when the route table lets it through and one of
-- three holds: it creates a container, the first 2^20 bytes of its body pass the container check and
-- are what is sent; it creates a network, with the network check; or it does neither and is sent
-- unchanged.
pub serve_http_forwards_iff :
    (server : Server) (request sent : Request)
    → (serve_http server request ≡ forwarded sent)
      ↔ ((route_allowed request.method request.path ≡ true) × Passes server request sent)
serve_http_forwards_iff server request sent =
    elim (Bool-cases (route_allowed request.method request.path)) [
      | inr refused ↦ (
        λ h.
            absurd (denied-ne-forwarded _ _ _ (sym (serve_http-denied server request refused) ∙ h)),
        λ w. absurd (ground arith),
      )
      | inl a ↦ elim (Bool-cases (posts_to container_create_path request)) [
        | inl c ↦
            let opens = serve_http-container server request a c in
            let passes = container-Passes server request sent c in
            (λ h. (a, passes.0 (sym opens ∙ h)), λ w. opens ∙ passes.1 w.1)
        | inr c ↦
            let opens = serve_http-other server request a c in
            let passes = network_stage-Passes server request sent c in
            (λ h. (a, passes.0 (sym opens ∙ h)), λ w. opens ∙ passes.1 w.1)
      ]
    ]
