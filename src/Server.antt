-- ===== src/Server.antt =====
-- The HTTP service of src/main.rs: the router `handle`, and the headers that `serve_connection` adds to
-- every response. The layer that sets a header which is not there yet is tower_http's, a parameter.
pub mod Headers
use dockfoxprox.Base.{
  Bool, true, false, Option, none, some, List, [], ◌∷◌, Bytes, bytes, bytes_eq, strip_prefix,
  length, if◌then◌else◌,
}
use dockfoxprox.State.{State}
use dockfoxprox.Metrics.Render.{render}
use dockfoxprox.Redis.Text.{decimal}
use dockfoxprox.Docker.Http.{Response, Answer, replied, plain_text, full}
use dockfoxprox.Docker.Pull.{Libs, Client, World}
use dockfoxprox.Docker.Blob.{Fill, Outcome, plain}
use dockfoxprox.Docker.Route.{Incoming, Handled, handle_request, response_of}

unfoldable pub starts_with : Bytes → Bytes → Bool
starts_with prefix s = elim (strip_prefix prefix s) [ none ↦ false | some rest ↦ true ]

unfoldable pub metrics_reply : State → Response
unfolding render
metrics_reply s = record {
  status = 200;
  headers =
      (bytes "content-type", bytes "text/plain; version=0.0.4; charset=utf-8")
      ∷ (bytes "content-length", decimal (length (render s)))
      ∷ [];
  body = full (render s);
}

abbrev pub unknown_reply : Response
unknown_reply = record { status = 404; headers = plain_text ∷ []; body = full (bytes "not found") }

module _ (libs : Libs) (client : Client) where
  -- `handle`.
  unfoldable pub handle : Incoming → World libs client → Handled libs client
  unfolding starts_with metrics_reply handle_request
  handle req (s, net) =
      if starts_with (bytes "/v2/") req.path
      then handle_request libs client req (s, net)
      else if bytes_eq req.path (bytes "/metrics")
      then ((s, net), plain (replied (metrics_reply s)))
      else ((s, net), plain (replied unknown_reply))

-- The headers of the layers, the outermost first; the first one is there only over TLS.
abbrev pub transport_header : Bytes × Bytes
transport_header = (bytes "strict-transport-security", bytes "max-age=63072000; includeSubDomains")

abbrev pub static_headers : List (Bytes × Bytes)
static_headers =
    (bytes "x-content-type-options", bytes "nosniff")
    ∷ (bytes "x-frame-options", bytes "DENY")
    ∷ (bytes "referrer-policy", bytes "no-referrer")
    ∷ (bytes "content-security-policy", bytes "default-src 'none'; frame-ancestors 'none'")
    ∷ (bytes "cross-origin-opener-policy", bytes "same-origin")
    ∷ (bytes "cross-origin-resource-policy", bytes "same-origin")
    ∷ (
      bytes "permissions-policy",
      bytes "accelerometer=(), camera=(), geolocation=(), microphone=()",
    )
    ∷ []

abbrev pub layers : Bool → List (Bytes × Bytes)
layers true = transport_header ∷ static_headers
layers false = static_headers

module _ (set_if_absent : Bytes × Bytes → Response → Response) where
  -- A response on its way out, through the innermost layer first.
  unfoldable pub through : List (Bytes × Bytes) → Response → Response
  through [] r = r
  through (h ∷ hs) r = set_if_absent h (through hs r)

  -- The service of a connection, over TLS or not.
  unfoldable pub service :
      (libs : Libs) (client : Client)
      → Bool
      → Incoming
      → World libs client
      → World libs client × Response × Option Fill
  unfolding handle through
  service libs client tls req w =
      let (w', outcome) = handle libs client req w in
      (w', through (layers tls) (response_of outcome.answer), outcome.fill)
