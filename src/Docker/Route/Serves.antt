-- ===== src/Docker/Route/Serves.antt =====
-- What src/docker.rs serves from the cache: what was stored there by a PUT, by an upload or by the task
-- that fills it.
use dockfoxprox.Base.{false, Option, Bytes, bytes}
use dockfoxprox.Base.Map.{Map}
use dockfoxprox.Base.Text.{bytes_key, pair_key, nat_key}
use dockfoxprox.State.{State, Digest, Manifest}
use dockfoxprox.Docker.Http.{Answer}
use dockfoxprox.Docker.Pull.{Libs, Client}
use dockfoxprox.Docker.Manifest.{get_head_manifest}

module _ (libs : Libs) (client : Client) where
  -- What a GET of a reference in `self` is answered with.
  abbrev pub got_manifest : Option Bytes → Bytes → Bytes → State → client.Net → client.Net × Answer
  got_manifest accept name reference s net =
      let (w, answer) =
        get_head_manifest libs client accept (bytes "self") name reference false (s, net) in
      (w.1, answer)
