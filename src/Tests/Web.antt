-- ===== src/Tests/Web.antt =====
-- The service of src/main.rs at a concrete request.
use dockfoxprox.Base.{
  ◌≡◌, refl, ap, sym, ◌∙◌, Bool, true, false, ◌||◌, ◌⊎◌, inl, inr, List, [], ◌∷◌, Bytes, bytes_eq,
  Bool-cases, if◌then◌else◌,
}
use dockfoxprox.Base.Lists.{Among}
use dockfoxprox.Base.Text.{eq_of_bytes_eq}
use dockfoxprox.Docker.Http.{Response}
use dockfoxprox.Docker.Route.{response_of}
use dockfoxprox.Server.{handle, service}
use dockfoxprox.Server.Headers.{Header, HasHeader, Adds, protection, service-Adds}
use dockfoxprox.Tests.Data.{start}
use dockfoxprox.Tests.Server.{libs, upstream_client, get_blob}

-- Whether a header of a name is there.
unfoldable has_name : Bytes → List (Bytes × Bytes) → Bool
has_name name [] = false
has_name name ((n, v) ∷ hs) = bytes_eq name n || has_name name hs

-- A layer that sets a header which is not there.
unfoldable set_header : Bytes × Bytes → Response → Response
unfolding has_name
set_header h r = if has_name h.0 r.headers then r else record r { headers = h ∷ r.headers }

has_name-Among :
    (name : Bytes) (hs : List (Bytes × Bytes))
    → has_name name hs ≡ true
    → (v : Bytes) × Among (name, v) hs
unfolding has_name
has_name-Among name [] e = absurd (cc e)
has_name-Among name ((n, v) ∷ hs) e = elim (Bool-cases (bytes_eq name n)) [
  | inl f ↦ (v, inl (ap (λ x. (x, v)) (eq_of_bytes_eq name n f)))
  | inr f ↦
      let rest = has_name-Among name hs (sym (ap (λ b. b || has_name name hs) f) ∙ e) in
      (rest.0, inr rest.1)
]

set_header_sets : (h : Header) (r : Response) → Among h (set_header h r).headers ⊎ HasHeader r h.0
unfolding set_header
set_header_sets h r = elim (Bool-cases (has_name h.0 r.headers)) [
  | inl e ↦ inr (has_name-Among h.0 r.headers e)
  | inr e ↦ rw e (inl (inl refl))
]

set_header_keeps :
    (h : Header) (r : Response) (k : Header) → Among k r.headers → Among k (set_header h r).headers
unfolding set_header
set_header_keeps h r k m = elim (Bool-cases (has_name h.0 r.headers)) [
  | inl e ↦ rw e m
  | inr e ↦ rw e (inr m)
]

set_header_only :
    (h : Header) (r : Response) (k : Header)
    → Among k (set_header h r).headers
    → (k ≡ h) ⊎ Among k r.headers
unfolding set_header
set_header_only h r k = elim (Bool-cases (has_name h.0 r.headers)) [
  | inl e ↦ rw e (λ m. inr m)
  | inr e ↦ rw e (λ m. m)
]

service_example :
    Adds
      (protection true)
      (response_of (handle libs upstream_client get_blob (start, 0)).1.answer)
      (service set_header libs upstream_client true get_blob (start, 0)).1
service_example =
    service-Adds set_header set_header_sets set_header_keeps set_header_only libs upstream_client
      true get_blob (start, 0)
