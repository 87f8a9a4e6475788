-- ===== src/Docker/Pull/Effects.antt =====
-- What a pull, src/docker.rs, leaves of the state.
use dockfoxprox.Base.{
  ℕ, zero, suc, Bool, true, false, ◌==◌, ◌≡◌, refl, ap, ◌∙◌, Option, none, some, Bytes, Bool-cases,
  Option-cases, inl, inr,
}
use dockfoxprox.Base.Map.{lookup}
use dockfoxprox.Base.Text.{pair_key}
use dockfoxprox.State.{State}
use dockfoxprox.Docker.Challenge.{parse_bearer_challenge}
use dockfoxprox.Docker.Pull.{
  Libs, Client, Reply, Target, World, Pulled, header, forget_token, fetch_token, renew, judge,
  after_send, attempts, target_of, is_some, call_of, upstream_pull_request, keep_token,
  count_request,
}

-- Only the tokens and the metrics differ.
abbrev pub KeepsCaches : State → State → Type 0
KeepsCaches s t = t ≡ record s { tokens = t.tokens; metrics = t.metrics }

pub KeepsCaches-trans : (s t u : State) → KeepsCaches s t → KeepsCaches t u → KeepsCaches s u
KeepsCaches-trans s t u p q =
    let moved : State → State = λ x. record x { tokens = u.tokens; metrics = u.metrics } in
    q ∙ ap moved p

forget_token-KeepsCaches :
    (had_cached : Bool) (key : Bytes × Bytes) (s : State)
    → KeepsCaches s (forget_token had_cached key s)
unfolding forget_token
forget_token-KeepsCaches true key s = refl
forget_token-KeepsCaches false key s = refl

module _ (libs : Libs) (client : Client) where
  -- A continuation that keeps the caches of every state.
  abbrev AllKeep : (Bytes → World libs client → Pulled libs client) → Type 0
  AllKeep next = (token : Bytes) (w : World libs client) → KeepsCaches w.0 (next token w).0.0

  renew-KeepsCaches :
      (next : Bytes → World libs client → Pulled libs client) (t : Target) (s : State)
      (got : client.Net × Option Bytes)
      → AllKeep next
      → KeepsCaches s (renew libs client next t s got).0.0
  unfolding renew
  renew-KeepsCaches next t s (net, none) h = refl
  renew-KeepsCaches next t s (net, some fresh) h =
      KeepsCaches-trans s (keep_token t.token_key fresh s) _ refl
        (h fresh (keep_token t.token_key fresh s, net))

  judge-KeepsCaches :
      (next : Bytes → World libs client → Pulled libs client) (t : Target) (had_cached : Bool)
      (r : Reply) (s : State) (net : client.Net)
      → AllKeep next
      → KeepsCaches s (judge libs client next t had_cached r s net).0.0
  unfolding judge
  judge-KeepsCaches next t had_cached r s net h =
      let s' = forget_token had_cached t.token_key s in
      let kept = forget_token-KeepsCaches had_cached t.token_key s in
      elim (Bool-cases (r.status == 401)) [
        | inr e ↦ rw (e, judge) refl
        | inl e ↦ (elim (Option-cases (header libs r.www_authenticate)) [
          | inl f ↦ rw (e, f, judge) kept
          | inr (www, f) ↦ (elim (Option-cases (parse_bearer_challenge www)) [
            | inl g ↦ rw (e, f, g, judge) kept
            | inr (ch, g) ↦
                rw (e, f, g, judge)
                  (KeepsCaches-trans s s' _ kept
                    (renew-KeepsCaches next t s' (fetch_token libs client ch t.creds net) h))
          ])
        ])
      ]

  after_send-KeepsCaches :
      (next : Bytes → World libs client → Pulled libs client) (t : Target) (had_cached : Bool)
      (s : State) (sent : client.Net × Option Reply)
      → AllKeep next
      → KeepsCaches s (after_send libs client next t had_cached s sent).0.0
  unfolding after_send
  after_send-KeepsCaches next t had_cached s (net, none) h = refl
  after_send-KeepsCaches next t had_cached s (net, some r) h =
      judge-KeepsCaches next t had_cached r s net h

  attempts-KeepsCaches :
      (left : ℕ) (t : Target) (token : Option Bytes) (had_cached : Bool) (w : World libs client)
      → KeepsCaches w.0 (attempts libs client left t token had_cached w).0.0
  unfolding attempts
  attempts-KeepsCaches zero t token had_cached w = refl
  attempts-KeepsCaches (suc left) t token had_cached (s, net) =
      KeepsCaches-trans s (count_request s) _ refl (
        after_send-KeepsCaches (λ fresh. attempts libs client left t (some fresh) false) t
          had_cached (count_request s) (client.send (call_of libs t token) net)
          (λ fresh w. attempts-KeepsCaches left t (some fresh) false w))

  -- A request to an upstream registry changes nothing but the tokens and the metrics, whatever the
  -- registry and the server of the tokens answer, failures included.
  pub upstream_pull_request-KeepsCaches :
      (host name method sub_path : Bytes) (accept : Option Bytes) (w : World libs client)
      → KeepsCaches w.0 (upstream_pull_request libs client host name method sub_path accept w).0.0
  unfolding upstream_pull_request
  upstream_pull_request-KeepsCaches host name method sub_path accept (s, net) =
      let t = target_of s host name method sub_path accept in
      let token = lookup t.token_key s.tokens in
      attempts-KeepsCaches 3 t token (is_some token) (s, net)
