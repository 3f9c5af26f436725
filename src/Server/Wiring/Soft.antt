-- ===== src/Server/Wiring/Soft.antt =====
-- src/server.rs: NATS and the database are soft dependencies of `serve`.
use act_api_server_rs.Prelude.{
  inl, inr, ℕ, ◌≡◌, refl, sym, ap, ◌∙◌, Bool, Option, List, [], ◌∷◌, ◌++◌, arith, Result, ok, err,
  Bool-cases, if◌then◌else◌,
}
use act_api_server_rs.Text.{Text}
use act_api_server_rs.Config.{Config}
use act_api_server_rs.Youtube.Client.{YoutubeGasClient}
use act_api_server_rs.Server.Wiring.{
  worker_part, mtls_acceptor, HttpState, Launch, http_server, event_subscriber, mtls_listener,
  jetstream_worker, StartError, Outside, Started, launching, mtls_part, journal_part, http_part,
  from_listener, from_clients, build_clients, serve,
}

-- The states with which the HTTP server is started, less what depends on NATS and the database.
abbrev pub served : List Launch → List (Option YoutubeGasClient × Bool × ℕ)
served [] = []
served (event_subscriber ∷ ls) = served ls
served (mtls_listener address limit ∷ ls) = served ls
served (jetstream_worker key config ∷ ls) = served ls
served (http_server state port ∷ ls) = (state.youtube, state.shared_auth, port) ∷ served ls

served-append : (xs ys : List Launch) → served (xs ++ ys) ≡ served xs ++ served ys
served-append [] ys = refl
served-append (event_subscriber ∷ xs) ys = served-append xs ys
served-append (mtls_listener address limit ∷ xs) ys = served-append xs ys
served-append (jetstream_worker key config ∷ xs) ys = served-append xs ys
served-append (http_server state port ∷ xs) ys =
    ap (λ ls. (state.youtube, state.shared_auth, port) ∷ ls) (served-append xs ys)

module _ (o : Outside) (nats database : Text → Bool) where
  abbrev pub other : Outside
  other = record o { connects_nats = nats; connects_database = database }

  abbrev pub Alike : Started → Started → Type 0
  Alike s t = (s.outcome ≡ t.outcome) × (served s.launched ≡ served t.launched)

  journal_serves :
      (p : Outside) (c : Config) (up auth : Bool) (url : Option Text)
      → served (journal_part p c up auth url).1 ≡ []
  unfolding journal_part worker_part
  journal_serves p c up auth url = ground arith

  http-Alike :
      (s t : HttpState) (port : ℕ)
      → s.youtube ≡ t.youtube
      → s.shared_auth ≡ t.shared_auth
      → Alike (http_part other s port) (http_part o t port)
  unfolding http_part
  http-Alike s t port y a = elim (Bool-cases (o.binds_http port)) [
    | inl up ↦ rw up (refl, rw (y, a))
    | inr down ↦ rw down (refl, refl)
  ]

  launched-Alike :
      (before after : List Launch) (l : List Launch) (s t : Started)
      → served before ≡ []
      → served after ≡ []
      → Alike s t
      → Alike (launching l (launching before s)) (launching l (launching after t))
  launched-Alike before after l s t b a (same, alike) = (
    same,
    served-append l (before ++ s.launched)
        ∙ (ap (λ ls. served l ++ ls)
              (served-append before s.launched
                ∙ (ap (λ ls. ls ++ served s.launched) b
                    ∙ (alike
                        ∙ (ap (λ ls. ls ++ served t.launched) (sym a)
                            ∙ sym (served-append after t.launched)))))
            ∙ sym (served-append l (after ++ t.launched))),
  )

  listener-Alike :
      (c : Config) (a b : Bool) (youtube : Option YoutubeGasClient) (auth : Bool)
      (l : Result (List Launch) StartError)
      → Alike (from_listener other c a youtube auth l) (from_listener o c b youtube auth l)
  unfolding from_listener
  listener-Alike c a b youtube auth (err e) = (refl, refl)
  listener-Alike c a b youtube auth (ok ls) =
      let url = c.operation_database_url in
      let (journal, worker) = journal_part other c a auth url in
      let (journal', worker') = journal_part o c b auth url in
      let s : HttpState = record {
        nats = a;
        youtube = youtube;
        shared_auth = auth;
        operation_journal = journal;
      } in
      let t : HttpState = record {
        nats = b;
        youtube = youtube;
        shared_auth = auth;
        operation_journal = journal';
      } in
      launched-Alike worker worker' ls (http_part other s c.port) (http_part o t c.port)
        (journal_serves other c a auth url) (journal_serves o c b auth url)
        (http-Alike s t c.port refl refl)

  clients-Alike :
      (c : Config) (a b : Bool) (r : Result (Option YoutubeGasClient × Bool) StartError)
      → Alike (from_clients other c a r) (from_clients o c b r)
  unfolding from_clients mtls_acceptor mtls_part
  clients-Alike c a b (err e) = (refl, refl)
  clients-Alike c a b (ok (youtube, auth)) =
      listener-Alike c a b youtube auth (mtls_part o c.mtls auth)

  abbrev subscriber : Bool → List Launch
  subscriber up = if up then event_subscriber ∷ [] else []

  subscribers : (up : Bool) → served (subscriber up) ≡ []
  subscribers up = ground arith

  -- NATS and the database decide neither how `serve` ends nor whether, where and with which clients
  -- HTTP is served: with any other answers of the two to a connection, the outcome, the port, the
  -- YouTube client and the Shared Auth verifier are the same.
  pub serve-Alike : (c : Config) → Alike (serve other c) (serve o c)
  unfolding serve
  serve-Alike c =
      let up = o.connects_nats c.nats_url in
      let clients = build_clients o c in
      launched-Alike (subscriber (nats c.nats_url)) (subscriber up) []
        (from_clients other c (nats c.nats_url) clients) (from_clients o c up clients)
        (subscribers (nats c.nats_url)) (subscribers up)
        (clients-Alike c (nats c.nats_url) up clients)
