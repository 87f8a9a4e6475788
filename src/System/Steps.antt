-- ===== src/System/Steps.antt =====
-- The steps of the program: a request that is handled, a task of src/docker.rs that ends, a command of
-- src/redis.rs, a second of the clock and a pass of src/eviction.rs. Each is taken as a whole; the
-- order is any.
use dockfoxprox.Base.{ℕ, ◌≡◌, ◌⊎◌, inl, inr, Bool, Option, none, some, List, [], ◌∷◌, ◌++◌, Bytes}
use mathlib.Core.Path.{subst}
use dockfoxprox.Base.Map.{Map}
use dockfoxprox.Base.Text.{bytes_key, nat_key}
use dockfoxprox.Config.{Config}
use dockfoxprox.State.{State, new}
use dockfoxprox.Redis.Commands.{run_command}
use dockfoxprox.Eviction.Json.{Value}
use dockfoxprox.Eviction.Evict.{Result, done, error, evict}
use dockfoxprox.Eviction.Keeps.Whole.{Leaves}
use dockfoxprox.Docker.Pull.{Libs, Client, World}
use dockfoxprox.Docker.Blob.{Fill, run_fill}
use dockfoxprox.Docker.Route.{Incoming, handle_request}
use dockfoxprox.Docker.Upload.Addressed.{IsAddressed}
use dockfoxprox.Docker.Keeps.Addressed.{run_fill-IsAddressed, handle_request-IsAddressed}
use dockfoxprox.System.Blobs.{KeepsBlobs-IsAddressed}
use dockfoxprox.System.Evict.{evict-IsAddressed}
use dockfoxprox.System.Commands.{run_command-KeepsBlobs}

-- A task that is left is one more.
abbrev pub spawn : Option Fill → List Fill → List Fill
spawn none fills = fills
spawn (some fill) fills = fill ∷ fills

module _ (libs : Libs) (client : Client) (json : Bytes → Option Value) where
  -- The state, that of the client, and the tasks that have not ended.
  abbrev pub Site : Type 0
  Site = World libs client × List Fill

  pub data Step : Site → Site → Type 0 where
    requested :
        (req : Incoming) (w : World libs client) (fills : List Fill)
        → Step
            (w, fills)
            (
              (handle_request libs client req w).0,
              spawn (handle_request libs client req w).1.fill fills,
            )
    filled :
        (fill : Fill) (before after : List Fill) (s : State) (net : client.Net)
        → Step
            ((s, net), before ++ fill ∷ after)
            ((run_fill libs.sha256 fill s, net), before ++ after)
    commanded :
        (args : List Bytes) (authed : Bool) (s : State) (net : client.Net) (fills : List Fill)
        → Step ((s, net), fills) (((run_command args authed s).state, net), fills)
    ticked :
        (now : ℕ) (s : State) (net : client.Net) (fills : List Fill)
        → Step ((s, net), fills) ((record s { now = now }, net), fills)
    evicted :
        (writable : ℕ → Bool) (s t : State) (net : client.Net) (fills : List Fill)
        → (evict json writable s ≡ done t) ⊎ (evict json writable s ≡ error t)
        → Step ((s, net), fills) ((t, net), fills)

  -- Any number of steps.
  pub data Steps : Site → Site → Type 0 where
    still : (a : Site) → Steps a a
    onward : (a b c : Site) → Step a b → Steps b c → Steps a c

of_Leaves :
    (P : State → Type 0) (t : State) (r : Result) → (r ≡ done t) ⊎ (r ≡ error t) → Leaves P r → P t
of_Leaves P t r (inl e) h = subst (Leaves P) e h
of_Leaves P t r (inr e) h = subst (Leaves P) e h

module _ (libs : Libs) (client : Client) (json : Bytes → Option Value) where
  Step-IsAddressed :
      (a b : Site libs client json)
      → Step libs client json a b
      → IsAddressed libs.sha256 a.0.0
      → IsAddressed libs.sha256 b.0.0
  Step-IsAddressed _ _ (requested req w fills) h = handle_request-IsAddressed libs client req w h
  Step-IsAddressed _ _ (filled fill before after s net) h =
      run_fill-IsAddressed libs.sha256 fill s h
  Step-IsAddressed _ _ (commanded args authed s net fills) h =
      KeepsBlobs-IsAddressed libs.sha256 s _ (run_command-KeepsBlobs args authed s) h
  Step-IsAddressed _ _ (ticked now s net fills) h = record { blobs = h.blobs; uploads = h.uploads }
  Step-IsAddressed _ _ (evicted writable s t net fills e) h =
      of_Leaves (IsAddressed libs.sha256) t (evict json writable s) e
        (evict-IsAddressed libs.sha256 json writable s h)

  Steps-IsAddressed :
      (a b : Site libs client json)
      → Steps libs client json a b
      → IsAddressed libs.sha256 a.0.0
      → IsAddressed libs.sha256 b.0.0
  Steps-IsAddressed _ _ (still a) h = h
  Steps-IsAddressed _ _ (onward a b c one rest) h =
      Steps-IsAddressed b c rest (Step-IsAddressed a b one h)

  -- In every state that the program reaches from a start with empty caches, by requests, ends of tasks,
  -- redis commands, ticks of the clock and passes of the eviction in any order, every blob in memory
  -- stands under the digest of its bytes, and every upload's hasher was fed what is in its buffer.
  pub Steps-new-IsAddressed :
      (config : Config) (now : ℕ) (disk : Map ℕ Bytes) (net : client.Net)
      (b : Site libs client json)
      → Steps libs client json ((new config now disk, net), []) b
      → IsAddressed libs.sha256 b.0.0
  Steps-new-IsAddressed config now disk net b r =
      Steps-IsAddressed ((new config now disk, net), []) b r (record { blobs = tt; uploads = tt })
