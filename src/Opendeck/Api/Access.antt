-- ===== src/Opendeck/Api/Access.antt =====
-- opendeck-broker/opendeck_broker/api.py: what a request without the token can do.
use home_ailab.Prelude.{
  ℕ, ◌≡◌, refl, ◌⊎◌, inl, inr, String, Bool, true, false, Returns, Returns-bind, Bool-cases, str_eq,
}
use home_ailab.Opendeck.Objects.{Ref}
use home_ailab.Opendeck.Device.{DeviceAdapter}
use home_ailab.Opendeck.Focus.{Desktop}
use home_ailab.Opendeck.Broker.{Painter}
use home_ailab.Opendeck.Messages.{
  Method, HttpRequest, Response, unauthorized, not_found, is_authorized,
}
use home_ailab.Opendeck.Api.{Server, do_get, get_display, get_diagnostics, dispatch, handle}

-- The reply tells nothing of the registry: it is one of the two errors.
abbrev pub IsRefusal : Response → Type 0
IsRefusal r = (r ≡ unauthorized) ⊎ (r ≡ not_found)

module _ (painter : Painter) (dev : DeviceAdapter (Painter.Image painter)) (desk : Desktop) where
  open desk use {World}

  -- the test of `GET /v1/deck`
  abbrev pub IsDeck : HttpRequest → Type 0
  IsDeck q = (q.method ≡ Method.get) × (str_eq q.path "/v1/deck" ≡ true)

  get_refused :
      (q : HttpRequest) (s : Server painter dev desk)
      → is_authorized s.token q.token ≡ false
      → str_eq q.path "/v1/deck" ≡ false
      → Returns (λ p. (p.0 ≡ s) × IsRefusal p.1) (do_get painter dev desk q s)
  unfolding do_get get_display get_diagnostics
  get_refused q s wrong other = elim (Bool-cases (str_eq q.path "/v1/display")) [
    | inl display ↦ rw (display, wrong) (refl, inl refl)
    | inr no_display ↦ elim (Bool-cases (str_eq q.path "/v1/diagnostics")) [
      | inl diagnostics ↦ rw (no_display, diagnostics, wrong) (refl, inl refl)
      | inr neither ↦ rw (no_display, neither, other) (refl, inr refl)
    ]
  ]

  -- A request without the token that is not a GET of the deck's stream changes neither the server nor
  -- the desktop, and is answered by one of the two errors: not allowed, or not found.
  pub handle_refused :
      (now : ℕ) (ref : Ref) (iid : String) (q : HttpRequest) (s : Server painter dev desk)
      (w : World)
      → is_authorized s.token q.token ≡ false
      → ¬ IsDeck q
      → Returns
          (λ p. (p.0 ≡ s) × IsRefusal p.1 × (p.2 ≡ w))
          (handle painter dev desk now ref iid q s w)
  unfolding handle dispatch
  handle_refused now ref iid q s w wrong other = rw wrong (by_method q.method other)
    where
      no_deck :
          ¬ ((Method.get ≡ Method.get) × (str_eq q.path "/v1/deck" ≡ true))
          → (b : Bool) → str_eq q.path "/v1/deck" ≡ b
          → str_eq q.path "/v1/deck" ≡ false
      no_deck not_deck true e = absurd (not_deck (refl, e))
      no_deck not_deck false e = e

      by_method :
          (m : Method)
          → ¬ ((m ≡ Method.get) × (str_eq q.path "/v1/deck" ≡ true))
          → Returns
              (λ p. (p.0 ≡ s) × IsRefusal p.1 × (p.2 ≡ w))
              (dispatch painter dev desk m false now ref iid q s w)
      by_method Method.get not_deck =
          Returns-bind (λ p. (p.0 ≡ s) × IsRefusal p.1) (λ p. (p.0 ≡ s) × IsRefusal p.1 × (p.2 ≡ w))
            (do_get painter dev desk q s) _
            (get_refused q s wrong (no_deck not_deck (str_eq q.path "/v1/deck") refl))
            (λ r h. (h.0, h.1, refl))
      by_method Method.post not_deck = (refl, inl refl, refl)
      by_method Method.put not_deck = (refl, inl refl, refl)
      by_method Method.delete not_deck = (refl, inl refl, refl)
