-- ===== src/Router/Proxy/Guards.antt =====
-- router-legacy/router.py, `proxy`: what reaches a backend.
use home_ailab.Prelude.{
  ℕ, ◌≡◌, refl, ap, ◌∙◌, inl, inr, String, Bool, true, false, not, Option, none, some, [], ◌∷◌,
  insert, str_eq, eq_iff, lower, contains, starts_with, Bool-cases, arith, if◌then◌else◌,
}
use home_ailab.Router.Backends.{Answers, Parsing}
use home_ailab.Router.Requests.{Headers, hget, auth_ok}
use home_ailab.Router.Routing.{Router}
use home_ailab.Router.Proxy.{
  Config, Message, Outcome, Snapshot, sent, health_page, status_page, unauthorized, models_page,
  strip_headers, forward_headers, forward, route, proxy, own_headers, is_health, is_status,
  is_models,
}

hget-insert :
    (key k v : String) (headers : Headers)
    → str_eq (lower k) (lower key) ≡ false
    → hget key (insert k v headers) ≡ hget key headers
unfolding hget insert
hget-insert key k v [] h = rw h refl
hget-insert key k v ((j, w) ∷ headers) h = elim (Bool-cases (str_eq j k)) [
  | inl same ↦
      let there : str_eq (lower j) (lower key) ≡ false =
        ap (λ x. str_eq (lower x) (lower key)) ((eq_iff j k).0 same) ∙ h in
      rw (same, h, there) refl
  | inr other ↦
      rw other (
        ap (λ x. if str_eq (lower j) (lower key) then some w else x)
          (hget-insert key k v headers h))
]

hget-strip_headers :
    (key : String) (headers : Headers)
    → contains (lower key) own_headers ≡ true
    → hget key (strip_headers headers) ≡ none
unfolding hget strip_headers
hget-strip_headers key [] h = refl
hget-strip_headers key ((k, v) ∷ headers) h = elim (Bool-cases (contains (lower k) own_headers)) [
  | inl own ↦ rw own (hget-strip_headers key headers h)
  | inr other ↦
      let differ : str_eq (lower k) (lower key) ≡ false =
        elim (Bool-cases (str_eq (lower k) (lower key))) [
          | inl same ↦
              absurd (cc (ap (λ x. contains x own_headers) ((eq_iff (lower k) (lower key)).0 same)))
          | inr no_match ↦ no_match
        ] in
      rw (other, differ) (hget-strip_headers key headers h)
]

forward_headers-none :
    (key : String) (headers : Headers)
    → contains (lower key) own_headers ≡ true
    → str_eq (lower "connection") (lower key) ≡ false
    → hget key (forward_headers headers) ≡ none
unfolding forward_headers
forward_headers-none key headers own other =
    hget-insert key "connection" "keep-alive" (strip_headers headers) other
    ∙ hget-strip_headers key headers own

-- what holds of a request that was sent to a backend
pub record Passed (config : Config) (m : Message) (headers : Headers) : Type 0 where
  pub allowed : auth_ok config.api_key m.headers ≡ true
  pub no_key : hget "x-api-key" headers ≡ none
  pub no_token : hget "authorization" headers ≡ none

module _ (parsing : Parsing) (config : Config) (now : ℕ) (answers : String → Answers) (m : Message)
    (name url : String) (headers : Headers) where
  sent_headers :
      (q : Router) (o : Option String)
      → (forward m q o).1 ≡ sent name url headers
      → headers ≡ forward_headers m.headers
  sent_headers q none h = absurd (cc)
  sent_headers q (some n) h = cc

  only_routed :
      (a b c d up : Bool) (page : Snapshot) (p r : Router) (x : Router × Outcome)
      → (if a
          then (p, health_page up)
          else if b
          then (r, status_page page)
          else if not c
          then (r, unauthorized)
          else if d
          then (r, models_page)
          else x).1
        ≡ sent name url headers
      → (c ≡ true) × (x.1 ≡ sent name url headers)
  only_routed true b c d up page p r x h = absurd (cc)
  only_routed false true c d up page p r x h = absurd (cc)
  only_routed false false false d up page p r x h = absurd (cc)
  only_routed false false true true up page p r x h = absurd (cc)
  only_routed false false true false up page p r x h = (refl, h)

  routed_headers :
      (r : Router)
      → (route parsing config now answers m r).1 ≡ sent name url headers
      → headers ≡ forward_headers m.headers
  unfolding route
  routed_headers r h = sent_headers _ _ h

  -- A request that reaches a backend was authorised, and the headers that the backend gets hold
  -- neither the router's key nor a token, in whatever case they are written.
  pub proxy-Passed :
      (r : Router)
      → (proxy parsing config now answers m r).1 ≡ sent name url headers
      → Passed config m headers
  unfolding proxy lower contains
  proxy-Passed r h =
      let (allowed, routed) =
        only_routed (is_health m.path) (is_status m.path) (auth_ok config.api_key m.headers)
          (is_models m.path) _ _ _ r (route parsing config now answers m r) h in
      let same = routed_headers r routed in
      record {
        allowed = allowed;
        no_key = rw same (forward_headers-none "x-api-key" m.headers refl refl);
        no_token = rw same (forward_headers-none "authorization" m.headers refl refl);
      }

-- Any request with basic credentials passes, whatever they are and whatever the router's key is.
pub basic-passes :
    (api_key : String) (headers : Headers) (credentials : String)
    → hget "authorization" headers ≡ some credentials
    → starts_with credentials "Bearer " ≡ false
    → starts_with credentials "Basic " ≡ true
    → auth_ok api_key headers ≡ true
unfolding auth_ok
basic-passes api_key headers credentials at plain basic = rw at (ground arith)
