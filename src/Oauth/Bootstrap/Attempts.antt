-- ===== src/Oauth/Bootstrap/Attempts.antt =====
-- What the bootstrap endpoint of internal/oauth/bootstrap.go asks of InvenTree for one request.
use inventree_mcp.Prelude.{
  ℕ, zero, suc, ◌≤◌, String, Option, none, some, List, [], ◌∷◌, ◌++◌, map, true, ◌≡◌, ◌⊎◌, inl, inr,
  refl, sym, ap, subst, ◌∙◌, arith, ◌==◌, length, Bool-cases, Option-cases, Result-cases,
}
use inventree_mcp.Oauth.Envelope.{seal_token}
use inventree_mcp.Oauth.Claims.{Credential, validate_for_envelope}
use inventree_mcp.Oauth.RateLimiter.{Limiter}
use inventree_mcp.Oauth.Bootstrap.{
  Library, Upstream, BootstrapServer, Request, max_dedicated_token_attempts,
  dedicated_bootstrap_token_name, parse_bootstrap_authorization, ip_key, credential_key, reads_body,
  create_dedicated, admit, associated_data, bootstrap_claims, seal_dedicated, exchange_credential,
  handle_admitted, handle_bootstrap,
}

-- A request to InvenTree.
pub data BrokerCall : Type 0 where
  validated : Credential → BrokerCall
  created : Credential → (name : String) → BrokerCall

module _ {W : Type 0} where
  -- The same, with the requests to InvenTree, the latest first.
  abbrev pub recording : Upstream W → Upstream (W × List BrokerCall)
  recording up = record {
    validate_credential =
        λ c (w, log). let (r, w') = up.validate_credential c w in (r, (w', validated c ∷ log));
    create_dedicated_credential = λ c name (w, log).
        let (r, w') = up.create_dedicated_credential c name w in (r, (w', created c name ∷ log));
    new_id = λ (w, log). let (r, w') = up.new_id w in (r, (w', log));
    context_error = λ (w, log). let (r, w') = up.context_error w in (r, (w', log));
    now = λ (w, log). let (r, w') = up.now w in (r, (w', log));
    limiter_now = λ (w, log). let (r, w') = up.limiter_now w in (r, (w', log));
    random_nonce = λ (w, log). let (r, w') = up.random_nonce w in (r, (w', log));
  }

-- At most so many requests for a dedicated token for the credential, after those of `before`.
pub record Creations (credential : Credential) (most : ℕ) (before log : List BrokerCall)
    : Type 0 where
  pub names : List String
  pub asked : log ≡ map (λ name. created credential name) names ++ before
  pub few : length names ≤ most

none_created :
    (credential : Credential) (most : ℕ) (log log' : List BrokerCall)
    → log' ≡ log
    → Creations credential most log log'
none_created credential most log log' h = record { names = []; asked = h; few = omega arith }

map-snoc :
    {A B : Type 0} (f : A → B) (xs : List A) (x : A) (ys : List B)
    → map f (xs ++ (x ∷ [])) ++ ys ≡ map f xs ++ (f x ∷ ys)
map-snoc f [] x ys = refl
map-snoc f (y ∷ xs) x ys = ap (λ zs. f y ∷ zs) (map-snoc f xs x ys)

length-snoc : {A : Type 0} (xs : List A) (x : A) → length (xs ++ (x ∷ [])) ≡ suc (length xs)
length-snoc [] x = refl
length-snoc (y ∷ xs) x = ap suc (length-snoc xs x)

one_more :
    (credential : Credential) (most : ℕ) (name : String) (log log' : List BrokerCall)
    → Creations credential most (created credential name ∷ log) log'
    → Creations credential (suc most) log log'
one_more credential most name log log' c = record {
  names = c.names ++ (name ∷ []);
  asked = c.asked ∙ sym (map-snoc (λ n. created credential n) c.names name log);
  few = omega (arith, length-snoc c.names name, c.few);
}

module _ {W : Type 0} (up : Upstream W) where
  create_dedicated-Creations :
      (left : ℕ) (last : String) (credential : Credential) (w : W) (log : List BrokerCall)
      → Creations credential left log
          (create_dedicated (recording up) left last credential (w, log)).1.1
  unfolding create_dedicated
  create_dedicated-Creations zero last credential w log = none_created credential zero log log refl
  create_dedicated-Creations (suc left) last credential w log =
      elim (Option-cases (up.context_error w).0) [
        | inr (e, k) ↦ none_created credential (suc left) log _ (rw (create_dedicated, k) refl)
        | inl k ↦ elim (Result-cases (up.new_id (up.context_error w).1).0) [
          | inr (e, n) ↦ none_created credential (suc left) log _ (rw (create_dedicated, k, n) refl)
          | inl (id, n) ↦
              let name = dedicated_bootstrap_token_name id in
              let answer =
                up.create_dedicated_credential credential name
                  (up.new_id (up.context_error w).1).1 in
              let first =
                none_created credential left (created credential name ∷ log)
                  (created credential name ∷ log) refl in
              one_more credential left name log _ (elim (Result-cases answer.0) [
                | inl (d, m) ↦ rw (create_dedicated, k, n, m) first
                | inr (e, m) ↦
                    rw (create_dedicated, k, n, m)
                      (create_dedicated-Creations left e credential answer.1
                        (created credential name ∷ log))
              ])
        ]
      ]

  admit_quiet :
      (lim : Option Limiter) (key : String) (w : W) (log : List BrokerCall)
      → (admit (recording up) lim key (w, log)).2.1 ≡ log
  admit_quiet none key w log = refl
  admit_quiet (some l) key w log = refl

  module _ (server : BootstrapServer) (lib : Library) where
    seal_dedicated_quiet :
        (subject : String) (dedicated : Credential) (w : W) (log : List BrokerCall)
        → (seal_dedicated (recording up) server lib subject dedicated (w, log)).1.1 ≡ log
    unfolding seal_dedicated
    seal_dedicated_quiet subject dedicated w log =
        elim (Result-cases (validate_for_envelope dedicated)) [
          | inr (e, k) ↦ rw (seal_dedicated, k) refl
          | inl (u, k) ↦
              let draw = up.random_nonce (up.now w).1 in
              let claims = bootstrap_claims server subject dedicated (up.now w).0 in
              elim (Result-cases (
                seal_token server.crypto server.token_json server.ring draw.0
                  (associated_data server) claims)) [
                    | inr (e, s) ↦ rw (seal_dedicated, k, s) refl
                    | inl (t, s) ↦ rw (seal_dedicated, k, s) refl
                  ]
        ]

    exchange-Creations :
        (credential : Credential) (w : W) (log : List BrokerCall)
        → Creations credential max_dedicated_token_attempts
            (validated credential ∷ log)
            (exchange_credential (recording up) server lib credential (w, log)).1.1
    unfolding exchange_credential
    exchange-Creations credential w log =
        let asked = validated credential ∷ log in
        let answer = up.validate_credential credential w in
        elim (Result-cases answer.0) [
          | inr (e, k) ↦
              none_created credential max_dedicated_token_attempts asked _
                (rw (exchange_credential, k) refl)
          | inl (subject, k) ↦
              let made =
                create_dedicated (recording up) max_dedicated_token_attempts "" credential
                  (answer.1, asked) in
              let c =
                create_dedicated-Creations max_dedicated_token_attempts "" credential answer.1
                  asked in
              elim (Result-cases made.0) [
                | inr (e, m) ↦ rw (exchange_credential, k, m) c
                | inl (d, m) ↦
                    rw (exchange_credential, k, m, seal_dedicated_quiet subject d made.1.0 made.1.1)
                      c
              ]
        ]

    -- For one request the endpoint asks InvenTree for nothing; or, once the limiter has let the request
    -- through for its address and for its credential, to validate the credential that the request
    -- carries and then, at most three times, for a dedicated token for that credential.
    pub handle_bootstrap-Creations :
        (lim : Option Limiter) (req : Request) (w : W)
        → let first = admit (recording up) lim (ip_key lib req) (w, []) in
          ((handle_bootstrap (recording up) server lib lim req (w, [])).2.1 ≡ [])
          ⊎ ((credential : Credential) × (parse_bootstrap_authorization lib req.authorization
                ≡ some credential)
              × (first.0 ≡ true)
              × ((admit (recording up) first.1 (credential_key lib credential) first.2).0 ≡ true)
              × Creations credential max_dedicated_token_attempts
                  (validated credential ∷ [])
                  (handle_bootstrap (recording up) server lib lim req (w, [])).2.1)
    unfolding handle_bootstrap
    handle_bootstrap-Creations lim req w =
        let first = admit (recording up) lim (ip_key lib req) (w, []) in
        let quiet = admit_quiet lim (ip_key lib req) w [] in
        elim (Bool-cases (req.method == "POST")) [
          | inr other ↦ inl (rw (handle_bootstrap, other) refl)
          | inl post ↦ elim (Bool-cases first.0) [
            | inr many ↦ inl (rw (handle_bootstrap, post, handle_admitted, many) quiet)
            | inl few ↦ elim (Bool-cases (reads_body req.body)) [
              | inr long ↦ inl (rw (handle_bootstrap, post, handle_admitted, few, long) quiet)
              | inl read ↦
                  elim (Option-cases (parse_bootstrap_authorization lib req.authorization)) [
                    | inl bad ↦
                        inl (rw (handle_bootstrap, post, handle_admitted, few, read, bad) quiet)
                    | inr (credential, p) ↦
                        let key = credential_key lib credential in
                        let second = admit (recording up) first.1 key first.2 in
                        let quiet' = admit_quiet first.1 key first.2.0 first.2.1 ∙ quiet in
                        elim (Bool-cases second.0) [
                          | inr again ↦ inl (
                              rw (handle_bootstrap, post, handle_admitted, few, read, p, again)
                                quiet')
                          | inl fine ↦ inr (
                            credential,
                            p,
                            few,
                            fine,
                            subst
                                (λ l.
                                  Creations credential max_dedicated_token_attempts
                                    (validated credential ∷ l)
                                    (handle_bootstrap (recording up) server lib lim req
                                      (w, [])).2.1)
                                quiet'
                                (rw (handle_bootstrap, post, handle_admitted, few, read, p, fine)
                                  (exchange-Creations credential second.2.0 second.2.1)),
                          )
                        ]
                  ]
            ]
          ]
        ]
