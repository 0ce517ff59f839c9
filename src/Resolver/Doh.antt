-- ===== src/Resolver/Doh.antt =====
-- internal/resolver/doh.go: `DoH.Exchange`, over what the network does. The outcomes of the two
-- HTTP exchanges are arguments; `pack` and `unpack` are `Msg.Pack` and `Msg.Unpack`.
use true_dns.Base.{
  ℕ, ◌^◌, ◌≡◌, ◌⊎◌, inl, inr, Bool, true, false, not, Option, none, some, arith, ◌==◌,
  if◌then◌else◌, take, Option-cases, Bool-cases, subst, ap, ◌∙◌,
}
use true_dns.Base.Result.{Result, ok, err, ◌>>=◌, Result-cases}
use true_dns.Text.{Bytes}
use true_dns.Dns.{Msg}
use true_dns.Resolver.Validate.{ValidateError, Answers, validate_against, validate_against_iff}

pub data DohError : Type 0 where
  pack_failed request_failed read_failed : DohError
  http_status : ℕ → DohError
  unpack_failed : DohError
  not_valid : ValidateError → DohError

-- what comes of sending one HTTP request: no response, or a status and a body that may break off
pub data HttpOutcome : Type 0 where
  no_response : HttpOutcome
  response : ℕ → Option Bytes → HttpOutcome

-- the network during one exchange; `expired` is `ctx.Err() != nil` after a failed POST
pub record Wire : Type 0 where
  pub post_outcome : HttpOutcome
  pub get_outcome : HttpOutcome
  pub expired : Bool

module _ (pack : Msg → Option Bytes) (unpack : Bytes → Option Msg) where
  -- `readResponse`, behind a response
  unfoldable pub read_response : ℕ → Option Bytes → Result DohError Msg
  read_response status none = err read_failed
  read_response status (some body) =
      if not (status == 200)
      then err (http_status status)
      else elim (unpack (take (2 ^ 16) body)) [ none ↦ err unpack_failed | some m ↦ ok m ]

  -- `post` and `get`, behind the building of the request
  unfoldable pub send : HttpOutcome → Result DohError Msg
  unfolding read_response
  send no_response = err request_failed
  send (response status body) = read_response status body

  abbrev pub validated : Msg → Msg → Result DohError Msg
  validated req resp = elim (validate_against req (some resp)) [
    | none ↦ ok resp
    | some e ↦ err (not_valid e)
  ]

  -- `Exchange`
  unfoldable pub exchange : Wire → Msg → Result DohError Msg
  exchange wire req = elim (pack req) [
    | none ↦ err pack_failed
    | some bytes ↦ elim (send wire.post_outcome) [
      | ok resp ↦ validated req resp
      | err e ↦
          if wire.expired then err e else (do resp ← send wire.get_outcome; validated req resp)
    ]
  ]

  validated-ok :
      (req r : Msg) {resp : Msg} → validated req r ≡ ok resp → (r ≡ resp) × Answers req resp
  validated-ok req r {resp} h = elim (Option-cases (validate_against req (some r))) [
    | inl v ↦
        let e : r ≡ resp = ground arith in
        (e, subst (Answers req) e ((validate_against_iff req r).0 v))
    | inr (x, v) ↦ ground arith
  ]

  -- Whatever the network does, a response that is returned answers the query, and it came from
  -- the POST, or from the GET after a POST that failed in time.
  pub exchange-Answers :
      (wire : Wire) (req : Msg) {resp : Msg}
      → exchange wire req ≡ ok resp
      → Answers req resp
        × ((send wire.post_outcome ≡ ok resp)
            ⊎ (((e : DohError) × (send wire.post_outcome ≡ err e))
                × (wire.expired ≡ false)
                × (send wire.get_outcome ≡ ok resp)))
  exchange-Answers wire req {resp} h = elim (Option-cases (pack req)) [
    | inl p ↦ unfold exchange in ground arith
    | inr (bytes, p) ↦ elim (Result-cases (send wire.post_outcome)) [
      | inl (r, s) ↦
          let v = validated-ok req r {resp = resp} (unfold exchange in ground arith) in
          (v.1, inl (s ∙ ap ok v.0))
      | inr (e, s) ↦ elim (Bool-cases wire.expired) [
        | inl late ↦ unfold exchange in ground arith
        | inr early ↦ elim (Result-cases (send wire.get_outcome)) [
          | inl (r, g) ↦
              let v = validated-ok req r {resp = resp} (unfold exchange in ground arith) in
              (v.1, inr ((e, s), early, g ∙ ap ok v.0))
          | inr (e', g) ↦ unfold exchange in ground arith
        ]
      ]
    ]
  ]

  -- The outcome of a GET makes no difference where the POST brought a response, valid or not, or
  -- where it failed and the deadline has passed.
  exchange_no_get :
      (wire : Wire) (req : Msg) (other : HttpOutcome)
      → ((resp : Msg) × (send wire.post_outcome ≡ ok resp)) ⊎ (wire.expired ≡ true)
      → exchange (record wire { get_outcome = other }) req ≡ exchange wire req
  unfolding exchange
  exchange_no_get wire req other h = ground arith

  -- A query that packs and whose POST failed before the deadline gets the response of the GET, if
  -- that is valid.
  exchange_get :
      (wire : Wire) (req resp : Msg) {bytes : Bytes} {e : DohError}
      → pack req ≡ some bytes
      → send wire.post_outcome ≡ err e
      → wire.expired ≡ false
      → send wire.get_outcome ≡ ok resp
      → Answers req resp
      → exchange wire req ≡ ok resp
  unfolding exchange
  exchange_get wire req resp p s early g v = ground (arith, (validate_against_iff req resp).1 v)
