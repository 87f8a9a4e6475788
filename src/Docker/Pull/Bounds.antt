-- ===== src/Docker/Pull/Bounds.antt =====
-- How much a pull, src/docker.rs, asks of other servers, and with which responses it ends.
use dockfoxprox.Base.{
  ℕ, zero, suc, ◌+◌, ◌*◌, ◌≤◌, Bool, false, ◌==◌, ◌≡◌, refl, ◌⊎◌, inl, inr, Option, none, some,
  Bytes, Bool-cases, Option-cases, arith,
}
use dockfoxprox.Base.Map.{lookup}
use dockfoxprox.Base.Text.{pair_key}
use dockfoxprox.State.{State}
use dockfoxprox.Docker.Http.{Fallible, ok, err}
use dockfoxprox.Docker.Challenge.{BearerChallenge, parse_bearer_challenge}
use dockfoxprox.Docker.Pull.{
  Libs, Client, Reply, Target, World, Pulled, header, forget_token, fetch_token, renew, judge,
  after_send, attempts, target_of, is_some, call_of, upstream_pull_request, keep_token,
  count_request,
}

-- The client, which counts what it is asked.
abbrev pub counted : Client → Client
counted client = record {
  Net = ℕ × client.Net;
  send = λ call net. ((net.0 + 1, (client.send call net.1).0), (client.send call net.1).1);
}

module _ (libs : Libs) (client : Client) where
  -- A continuation that asks no more than so often.
  abbrev AllWithin :
      ℕ → (Bytes → World libs (counted client) → Pulled libs (counted client)) → Type 0
  AllWithin k next =
      (token : Bytes) (w : World libs (counted client)) → (next token w).0.1.0 ≤ w.1.0 + k

  renew_calls :
      (k : ℕ) (next : Bytes → World libs (counted client) → Pulled libs (counted client))
      (t : Target) (s : State) (got : (ℕ × client.Net) × Option Bytes)
      → AllWithin k next
      → (renew libs (counted client) next t s got).0.1.0 ≤ got.0.0 + k
  unfolding renew
  renew_calls k next t s (net, none) h = omega arith
  renew_calls k next t s (net, some fresh) h = h fresh (keep_token t.token_key fresh s, net)

  judge_calls :
      (k : ℕ) (next : Bytes → World libs (counted client) → Pulled libs (counted client))
      (t : Target) (had_cached : Bool) (r : Reply) (s : State) (net : ℕ × client.Net)
      → AllWithin k next
      → (judge libs (counted client) next t had_cached r s net).0.1.0 ≤ net.0 + 1 + k
  unfolding judge fetch_token
  judge_calls k next t had_cached r s net h = elim (Bool-cases (r.status == 401)) [
    | inr e ↦ rw (e, judge) (omega arith)
    | inl e ↦ (elim (Option-cases (header libs r.www_authenticate)) [
      | inl f ↦ rw (e, f, judge) (omega arith)
      | inr (www, f) ↦ (elim (Option-cases (parse_bearer_challenge www)) [
        | inl g ↦ rw (e, f, g, judge) (omega arith)
        | inr (ch, g) ↦
            rw (e, f, g, judge)
              (renew_calls k next t (forget_token had_cached t.token_key s)
                (fetch_token libs (counted client) ch t.creds net) h)
      ])
    ])
  ]

  after_send_calls :
      (k : ℕ) (next : Bytes → World libs (counted client) → Pulled libs (counted client))
      (t : Target) (had_cached : Bool) (s : State) (sent : (ℕ × client.Net) × Option Reply)
      → AllWithin k next
      → (after_send libs (counted client) next t had_cached s sent).0.1.0 ≤ sent.0.0 + 1 + k
  unfolding after_send
  after_send_calls k next t had_cached s (net, none) h = omega arith
  after_send_calls k next t had_cached s (net, some r) h = judge_calls k next t had_cached r s net h

  attempts_calls :
      (left : ℕ) (t : Target) (token : Option Bytes) (had_cached : Bool)
      (w : World libs (counted client))
      → (attempts libs (counted client) left t token had_cached w).0.1.0 ≤ w.1.0 + 2 * left
  unfolding attempts
  attempts_calls zero t token had_cached w = omega arith
  attempts_calls (suc left) t token had_cached (s, net) = omega (
    arith,
    after_send_calls (2 * left) (λ fresh. attempts libs (counted client) left t (some fresh) false)
        t had_cached (count_request s) ((counted client).send (call_of libs t token) net)
        (λ fresh w. attempts_calls left t (some fresh) false w),
  )

  -- A request to an upstream registry asks the client at most six times: three attempts, with a request
  -- for a token after each, whatever the servers answer.
  pub upstream_pull_request-calls_bounded :
      (host name method sub_path : Bytes) (accept : Option Bytes) (w : World libs (counted client))
      → (upstream_pull_request libs (counted client) host name method sub_path accept w).0.1.0
        ≤ w.1.0 + 6
  unfolding upstream_pull_request
  upstream_pull_request-calls_bounded host name method sub_path accept (s, net) =
      let t = target_of s host name method sub_path accept in
      let token = lookup t.token_key s.tokens in attempts_calls 3 t token (is_some token) (s, net)

  -- What the challenge of a response asks for.
  unfoldable pub challenge_in : Reply → Option BearerChallenge
  challenge_in r = elim (header libs r.www_authenticate) [
    | none ↦ none
    | some www ↦ parse_bearer_challenge www
  ]

  -- A response that is no 401, or that gives no bearer challenge.
  abbrev pub IsFinal : Fallible Reply → Type 0
  IsFinal (err e) = Unit
  IsFinal (ok r) = (r.status == 401 ≡ false) ⊎ (challenge_in r ≡ none)

  AllFinal : (Bytes → World libs client → Pulled libs client) → Type 0
  AllFinal next = (token : Bytes) (w : World libs client) → IsFinal (next token w).1

  renew-IsFinal :
      (next : Bytes → World libs client → Pulled libs client) (t : Target) (s : State)
      (got : client.Net × Option Bytes)
      → AllFinal next
      → IsFinal (renew libs client next t s got).1
  unfolding renew AllFinal
  renew-IsFinal next t s (net, none) h = tt
  renew-IsFinal next t s (net, some fresh) h = h fresh (keep_token t.token_key fresh s, net)

  judge-IsFinal :
      (next : Bytes → World libs client → Pulled libs client) (t : Target) (had_cached : Bool)
      (r : Reply) (s : State) (net : client.Net)
      → AllFinal next
      → IsFinal (judge libs client next t had_cached r s net).1
  unfolding judge challenge_in
  judge-IsFinal next t had_cached r s net h = elim (Bool-cases (r.status == 401)) [
    | inr e ↦ rw (e, judge) (inl e)
    | inl e ↦ (elim (Option-cases (header libs r.www_authenticate)) [
      | inl f ↦ rw (e, f, judge) (inr (rw (f, challenge_in) refl))
      | inr (www, f) ↦ (elim (Option-cases (parse_bearer_challenge www)) [
        | inl g ↦ rw (e, f, g, judge) (inr (rw (f, g, challenge_in) refl))
        | inr (ch, g) ↦
            rw (e, f, g, judge)
              (renew-IsFinal next t (forget_token had_cached t.token_key s)
                (fetch_token libs client ch t.creds net) h)
      ])
    ])
  ]

  after_send-IsFinal :
      (next : Bytes → World libs client → Pulled libs client) (t : Target) (had_cached : Bool)
      (s : State) (sent : client.Net × Option Reply)
      → AllFinal next
      → IsFinal (after_send libs client next t had_cached s sent).1
  unfolding after_send
  after_send-IsFinal next t had_cached s (net, none) h = tt
  after_send-IsFinal next t had_cached s (net, some r) h = judge-IsFinal next t had_cached r s net h

  attempts-IsFinal :
      (left : ℕ) (t : Target) (token : Option Bytes) (had_cached : Bool) (w : World libs client)
      → IsFinal (attempts libs client left t token had_cached w).1
  unfolding attempts AllFinal
  attempts-IsFinal zero t token had_cached w = tt
  attempts-IsFinal (suc left) t token had_cached (s, net) =
      after_send-IsFinal (λ fresh. attempts libs client left t (some fresh) false) t had_cached
        (count_request s) (client.send (call_of libs t token) net)
        (λ fresh w. attempts-IsFinal left t (some fresh) false w)

  -- A response that a request to an upstream registry returns is no 401, or it gives no bearer challenge:
  -- a 401 with one never reaches the client.
  pub upstream_pull_request-IsFinal :
      (host name method sub_path : Bytes) (accept : Option Bytes) (w : World libs client)
      → IsFinal (upstream_pull_request libs client host name method sub_path accept w).1
  unfolding upstream_pull_request
  upstream_pull_request-IsFinal host name method sub_path accept (s, net) =
      let t = target_of s host name method sub_path accept in
      let token = lookup t.token_key s.tokens in attempts-IsFinal 3 t token (is_some token) (s, net)
