-- ===== src/Server/Headers.antt =====
-- The headers of the responses of src/main.rs.
use dockfoxprox.Base.{
  ◌≡◌, ◌≢◌, refl, sym, ap, ◌∙◌, Bool, true, false, not, ◌&&◌, ◌⊎◌, inl, inr, List, [], ◌∷◌, Bytes,
  bytes, bytes_eq, All, All-imp,
}
use dockfoxprox.Base.Lists.{Among}
use dockfoxprox.Base.Text.{bytes_eq_refl}
use dockfoxprox.Docker.Http.{Response}
use dockfoxprox.Docker.Pull.{Libs, Client, World}
use dockfoxprox.Docker.Route.{Incoming, response_of}
use dockfoxprox.Server.{handle, through, layers, service}

abbrev pub Header : Type 0
Header = Bytes × Bytes

-- A response has a header of this name.
abbrev pub HasHeader : Response → Bytes → Type 0
HasHeader r name = (value : Bytes) × Among (name, value) r.headers

-- The headers that protect a browser, and over TLS the one that keeps it on TLS.
abbrev browser_protection : List Header
browser_protection =
    (bytes "x-content-type-options", bytes "nosniff")
    ∷ (bytes "x-frame-options", bytes "DENY")
    ∷ (bytes "referrer-policy", bytes "no-referrer")
    ∷ (bytes "content-security-policy", bytes "default-src 'none'; frame-ancestors 'none'")
    ∷ (bytes "cross-origin-opener-policy", bytes "same-origin")
    ∷ (bytes "cross-origin-resource-policy", bytes "same-origin")
    ∷ (
      bytes "permissions-policy",
      bytes "accelerometer=(), camera=(), geolocation=(), microphone=()",
    )
    ∷ []

abbrev pub protection : Bool → List Header
protection true =
    (bytes "strict-transport-security", bytes "max-age=63072000; includeSubDomains")
    ∷ browser_protection
protection false = browser_protection

-- A response has each of some headers, or had one of that name before; it has all that it had before,
-- and no others.
pub record Adds (hs : List Header) (before after : Response) : Type 0 where
  pub added : All (λ h. Among h after.headers ⊎ HasHeader before h.0) hs
  pub kept : (k : Header) → Among k before.headers → Among k after.headers
  pub nothing_else : (k : Header) → Among k after.headers → Among k hs ⊎ Among k before.headers

-- The names of headers are all different, as a test and as a statement.
unfoldable is_new : Bytes → List Header → Bool
is_new name [] = true
is_new name (k ∷ ks) = not (bytes_eq name k.0) && is_new name ks

unfoldable names_differ : List Header → Bool
unfolding is_new
names_differ [] = true
names_differ (h ∷ hs) = is_new h.0 hs && names_differ hs

abbrev NamesDiffer : List Header → Type 0
NamesDiffer [] = Unit
NamesDiffer (h ∷ hs) = All (λ k. h.0 ≢ k.0) hs × NamesDiffer hs

and_true : (a b : Bool) → (a && b) ≡ true → (a ≡ true) × (b ≡ true)
and_true true true e = (refl, refl)
and_true true false e = absurd (cc e)
and_true false b e = absurd (cc e)

not_equal : (a b : Bytes) → not (bytes_eq a b) ≡ true → a ≢ b
not_equal a b e = λ p.
    let same : bytes_eq a b ≡ true = ap (bytes_eq a) (sym p) ∙ bytes_eq_refl a in
    absurd (cc (sym (ap not same) ∙ e))

is_new_sound : (name : Bytes) (ks : List Header) → is_new name ks ≡ true → All (λ k. name ≢ k.0) ks
unfolding is_new
is_new_sound name [] e = tt
is_new_sound name (k ∷ ks) e =
    let (p, q) = and_true (not (bytes_eq name k.0)) (is_new name ks) e in
    (not_equal name k.0 p, is_new_sound name ks q)

names_differ-NamesDiffer : (hs : List Header) → names_differ hs ≡ true → NamesDiffer hs
unfolding names_differ
names_differ-NamesDiffer [] e = tt
names_differ-NamesDiffer (h ∷ hs) e =
    let (p, q) = and_true (is_new h.0 hs) (names_differ hs) e in
    (is_new_sound h.0 hs p, names_differ-NamesDiffer hs q)

layers-names_differ : (tls : Bool) → names_differ (layers tls) ≡ true
unfolding names_differ bytes_eq
layers-names_differ true = refl
layers-names_differ false = refl

not_among :
    (name value : Bytes) (hs : List Header) → All (λ k. name ≢ k.0) hs → ¬ Among (name, value) hs
not_among name value [] h m = elim m [ ]
not_among name value (k ∷ hs) h (inl e) = h.0 (ap (λ x. x.0) e)
not_among name value (k ∷ hs) h (inr m) = not_among name value hs h.1 m

module _ (set_if_absent : Header → Response → Response)
    (sets : (h : Header) (r : Response) → Among h (set_if_absent h r).headers ⊎ HasHeader r h.0)
    (keeps : (h : Header) (r : Response) (k : Header)
      → Among k r.headers
      → Among k (set_if_absent h r).headers)
    (sets_only : (h : Header) (r : Response) (k : Header)
      → Among k (set_if_absent h r).headers
      → (k ≡ h) ⊎ Among k r.headers) where
  through_kept :
      (hs : List Header) (r : Response) (k : Header)
      → Among k r.headers
      → Among k (through set_if_absent hs r).headers
  unfolding through
  through_kept [] r k m = m
  through_kept (h ∷ hs) r k m = keeps h (through set_if_absent hs r) k (through_kept hs r k m)

  through_only :
      (hs : List Header) (r : Response) (k : Header)
      → Among k (through set_if_absent hs r).headers
      → Among k hs ⊎ Among k r.headers
  unfolding through
  through_only [] r k m = inr m
  through_only (h ∷ hs) r k m = elim (sets_only h (through set_if_absent hs r) k m) [
    | inl e ↦ inl (inl e)
    | inr n ↦ elim (through_only hs r k n) [ inl a ↦ inl (inr a) | inr b ↦ inr b ]
  ]

  through_added :
      (hs : List Header) (r : Response)
      → NamesDiffer hs
      → All (λ h. Among h (through set_if_absent hs r).headers ⊎ HasHeader r h.0) hs
  unfolding through
  through_added [] r d = tt
  through_added (h ∷ hs) r d =
      let inner = through set_if_absent hs r in
      (
        elim (sets h inner) [
          | inl m ↦ inl m
          | inr (value, m) ↦ elim (through_only hs r (h.0, value) m) [
            | inl n ↦ absurd (not_among h.0 value hs d.0 n)
            | inr n ↦ inr (value, n)
          ]
        ],
        All-imp _ _ hs (λ k a. elim a [ inl m ↦ inl (keeps h inner k m) | inr n ↦ inr n ])
            (through_added hs r d.1),
      )

  through-Adds :
      (hs : List Header) (r : Response)
      → names_differ hs ≡ true
      → Adds hs r (through set_if_absent hs r)
  through-Adds hs r e = record {
    added = through_added hs r (names_differ-NamesDiffer hs e);
    kept = through_kept hs r;
    nothing_else = through_only hs r;
  }

  layers-Adds :
      (tls : Bool) (r : Response) → Adds (protection tls) r (through set_if_absent (layers tls) r)
  layers-Adds true r = through-Adds (layers true) r (layers-names_differ true)
  layers-Adds false r = through-Adds (layers false) r (layers-names_differ false)

  -- Whatever the request is, its response has each of the protecting headers with its value, over TLS
  -- that for the transport security too, unless `handle` gave one of that name; it has all headers that
  -- `handle` gave and no others, so none for the transport security without TLS. It is so if the layer
  -- sets a header where none of its name is, keeps what is there, and sets nothing else.
  pub service-Adds :
      (libs : Libs) (client : Client) (tls : Bool) (req : Incoming) (w : World libs client)
      → Adds
          (protection tls)
          (response_of (handle libs client req w).1.answer)
          (service set_if_absent libs client tls req w).1
  unfolding service
  service-Adds libs client tls req w = layers-Adds tls _
