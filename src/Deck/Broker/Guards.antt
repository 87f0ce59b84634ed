-- ===== src/Deck/Broker/Guards.antt =====
-- opencode-deck/opencode-deck/ocdeck/broker.py, the handler's guards: which requests have an effect.
use home_ailab.Prelude.{
  ℕ, ◌≤◌, ◌≡◌, ◌≢◌, refl, ◌⊎◌, inl, inr, String, false, not, Option, none, some, Result, ◌>>=◌,
  Error, leb, ◌==◌, str_eq, eq_iff, truthy, Bool-cases, arith, if◌then◌else◌, ℤ, pos, negsuc,
}
use mathlib.Core.Path.{subst}
use home_ailab.Deck.Broker.{Broker, Machine}
use home_ailab.Deck.Broker.Requests.{
  Body, Message, Response, refusal, respond, read_body, or_empty, expected, dispatch, answer_sized,
  answer_length, handle_request,
}

-- What a request that is not refused at once has: no origin, the token, and a length of at most 64
-- KiB that is the length of the body.
pub record Allowed (token : String) (q : Message) : Type 0 where
  pub no_origin : truthy (or_empty q.origin) ≡ false
  pub authorized : or_empty q.authorization ≡ expected token
  pub sized : (n : ℕ) × (q.content_length ≡ some (pos n)) × (n ≤ 65536) × (q.received ≡ n)

-- the broker is another one, or the answer is good
abbrev pub HasEffect : Broker → Broker × Response → Type 0
HasEffect b r = (r.0 ≢ b) ⊎ (r.1.code ≡ 200)

refused : (b : Broker) (code : ℕ) → code ≢ 200 → HasEffect b (b, refusal code) → ⊥
refused b code h (inl changed) = changed refl
refused b code h (inr good) = h good

module _ (m : Machine) (stale_after : ℕ) (token : String) (empty : Body) where
  sized_lem :
      (q : Message) (n : ℕ) (b : Broker)
      → HasEffect b (answer_sized m stale_after token empty q n b)
      → q.received ≡ n
  unfolding answer_sized
  sized_lem q n b h = elim (Bool-cases (q.received == n)) [
    | inl same ↦ ground arith
    | inr short ↦ absurd (
        refused b 400 (omega arith) (
          subst
            (λ c. HasEffect b (
              respond b (do
                body ←
                    (if not c then Result.raise Error.value_error else read_body empty n q.payload)
                dispatch m stale_after q.method q.path body b)))
            short h))
  ]

  length_lem :
      (q : Message) (o : Option ℤ) (b : Broker)
      → HasEffect b (answer_length m stale_after token empty q o b)
      → (n : ℕ) × (o ≡ some (pos n)) × (n ≤ 65536) × (q.received ≡ n)
  length_lem q none b h = absurd (refused b 400 (omega arith) h)
  length_lem q (some (negsuc n)) b h = absurd (refused b 413 (omega arith) h)
  length_lem q (some (pos n)) b h = elim (Bool-cases (leb n 65536)) [
    | inl fits ↦ (
      n,
      refl,
      ground arith,
      sized_lem q n b (
          subst
            (λ c.
              HasEffect b
                (if c then answer_sized m stale_after token empty q n b else (b, refusal 413)))
            fits h),
    )
    | inr long ↦ absurd (
        refused b 413 (omega arith) (
          subst
            (λ c.
              HasEffect b
                (if c then answer_sized m stale_after token empty q n b else (b, refusal 413)))
            long h))
  ]

  -- A request that is answered with 200, or that changes the broker in any way, has no origin, the
  -- broker's token, and a body of the length that it says, of at most 64 KiB.
  pub handle_request-Allowed :
      (q : Message) (b : Broker)
      → HasEffect b (handle_request m stale_after token empty q b)
      → Allowed token q
  unfolding handle_request
  handle_request-Allowed q b h = elim (Bool-cases (truthy (or_empty q.origin))) [
    | inl foreign ↦ absurd (refused b 403 (omega arith) (rw foreign at h))
    | inr local ↦ elim (Bool-cases (str_eq (or_empty q.authorization) (expected token))) [
      | inr wrong ↦ absurd (refused b 401 (omega arith) (rw (local, wrong) at h))
      | inl right ↦
          let passed : HasEffect b (answer_length m stale_after token empty q q.content_length b) =
            rw (local, right) at h in
          record {
            no_origin = local;
            authorized = (eq_iff (or_empty q.authorization) (expected token)).0 right;
            sized = length_lem q q.content_length b passed;
          }
    ]
  ]
