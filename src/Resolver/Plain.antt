-- ===== src/Resolver/Plain.antt =====
-- internal/resolver/plain.go: `Plain.Exchange`. What each address answers over UDP and TCP is an
-- argument, and so is the order in which the goroutines' results arrive at the channel. The
-- channel holds a result of every address, so no goroutine waits to send.
use true_dns.Base.{
  ℕ, zero, suc, ◌≡◌, ◌⊎◌, refl, inl, inr, Option, none, some, List, [], ◌∷◌, arith, if◌then◌else◌,
  length, In, ap, ◌∙◌, sym,
}
use true_dns.Base.Perms.{length-Permᴰ, In-Permᴰ}
use mathlib.Core.List.{Permᴰ}
use mathlib.Core.List.Permᴰ
use true_dns.Base.Result.{Result, ok, err, Result-cases}
use true_dns.Text.{Bytes}
use true_dns.Dns.{Msg}

pub data PlainError : Type 0 where
  no_addresses cancelled : PlainError
  udp_failed tcp_failed : Bytes → PlainError

-- what one address answers, by transport; `none` stands for an error
pub record Server : Type 0 where
  pub addr : Bytes
  pub udp : Option Msg
  pub tcp : Option Msg

-- `exchangeAddr`
unfoldable pub exchange_addr : Server → Result PlainError Msg
exchange_addr s = elim s.udp [
  | none ↦ err (udp_failed s.addr)
  | some resp ↦
      if resp.truncated
      then elim s.tcp [ none ↦ err (tcp_failed s.addr) | some t ↦ ok t ]
      else ok resp
]

-- what the `select` of the loop sees: a result, or the end of the context
pub data Arrival : Type 0 where
  result : Result PlainError Msg → Arrival
  done : Arrival

abbrev pub first_of_errors : Option PlainError → PlainError → PlainError
first_of_errors none e = e
first_of_errors (some first) e = first

-- The loop over the results, with the number of rounds left and the first error so far. `none`
-- stands for waiting: there is a round left and nothing arrives.
unfoldable pub collect :
    ℕ → Option PlainError → List Arrival → Option (Result (Option PlainError) Msg)
collect zero first arrivals = some (err first)
collect (suc rounds) first [] = none
collect (suc rounds) first (done ∷ rest) = some (err (some (first_of_errors first cancelled)))
collect (suc rounds) first (result (ok resp) ∷ rest) = some (ok resp)
collect (suc rounds) first (result (err e) ∷ rest) =
    collect rounds (some (first_of_errors first e)) rest

abbrev pub plain_error : Result PlainError Msg → Result (Option PlainError) Msg
plain_error (ok m) = ok m
plain_error (err e) = err (some e)

-- `Exchange`: with one address there is no goroutine and no channel.
unfoldable pub exchange : List Server → List Arrival → Option (Result (Option PlainError) Msg)
exchange [] arrivals = some (err (some no_addresses))
exchange (s ∷ []) arrivals = some (plain_error (exchange_addr s))
exchange (s ∷ t ∷ servers) arrivals = collect (length (s ∷ t ∷ servers)) none arrivals

abbrev pub arrivals_of : List Server → List Arrival
arrivals_of [] = []
arrivals_of (s ∷ servers) = result (exchange_addr s) ∷ arrivals_of servers

-- The first server of the list, if any, that answers.
Answering : List Server → Type 0
Answering order = (s : Server) × (m : Msg) × In s order × (exchange_addr s ≡ ok m)

abbrev AllFail : List Server → Type 0
AllFail [] = Unit
AllFail (s ∷ order) = ((e : PlainError) × (exchange_addr s ≡ err e)) × AllFail order

AllFail-In :
    (order : List Server) (s : Server)
    → AllFail order
    → In s order
    → (e : PlainError) × (exchange_addr s ≡ err e)
AllFail-In [] s h i = absurd i
AllFail-In (t ∷ order) s h (inl e) = (h.0.0, ap exchange_addr (sym e) ∙ h.0.1)
AllFail-In (t ∷ order) s h (inr i) = AllFail-In order s h.1 i

-- With a round for each arrival, the first answer is the result; with none, an error is.
collect_arrivals :
    (order : List Server) (rounds : ℕ) (first : Option PlainError)
    → length order ≡ rounds
    → ((s : Server) × (m : Msg) × In s order
        × (exchange_addr s ≡ ok m)
        × (collect rounds first (arrivals_of order) ≡ some (ok m)))
      ⊎ (AllFail order
          × ((e : Option PlainError) × (collect rounds first (arrivals_of order) ≡ some (err e))))
unfolding collect
collect_arrivals [] zero first h = inr (tt, (first, refl))
collect_arrivals [] (suc rounds) first h = absurd (omega arith)
collect_arrivals (s ∷ order) zero first h = absurd (omega arith)
collect_arrivals (s ∷ order) (suc rounds) first h = elim (Result-cases (exchange_addr s)) [
  | inl (m, e) ↦ inl (s, m, inl refl, e, rw (e, collect))
  | inr (x, e) ↦
      elim (collect_arrivals order rounds (some (first_of_errors first x)) (omega arith)) [
        | inl (t, m, i, f, run) ↦ inl (t, m, inr i, f, rw (e, collect) run)
        | inr (fail, (y, run)) ↦ inr (((x, e), fail), (y, rw (e, collect) run))
      ]
]

-- If all results arrive, in whatever order, before the context ends, and some address answers,
-- then the query is answered, with what one of the addresses answers.
pub exchange_answered :
    (servers order : List Server) (s : Server) (m : Msg)
    → Permᴰ order servers
    → In s servers
    → exchange_addr s ≡ ok m
    → (t : Server) × (r : Msg) × In t servers
      × (exchange_addr t ≡ ok r)
      × (exchange servers (arrivals_of order) ≡ some (ok r))
unfolding exchange
exchange_answered [] order s m p i e = absurd i
exchange_answered (t ∷ []) order s m p (inl same) e =
    let f : exchange_addr t ≡ ok m = ap exchange_addr same ∙ e in (t, m, inl refl, f, rw f)
exchange_answered (t ∷ []) order s m p (inr i) e = absurd i
exchange_answered (t ∷ u ∷ servers) order s m p i e =
    elim (collect_arrivals order (length (t ∷ u ∷ servers)) none (length-Permᴰ p)) [
      | inl (w, r, j, f, run) ↦ (w, r, In-Permᴰ w p j, f, run)
      | inr (fail, _) ↦
          let (x, bad) = AllFail-In order s fail (In-Permᴰ s (Permᴰ.symm p) i) in absurd (cc)
    ]

-- If every address fails and all results arrive, in whatever order, the query fails: the loop
-- ends with an error.
exchange_failed :
    (servers order : List Server)
    → Permᴰ order servers
    → ((s : Server) → In s servers → (e : PlainError) × (exchange_addr s ≡ err e))
    → (e : Option PlainError) × (exchange servers (arrivals_of order) ≡ some (err e))
unfolding exchange
exchange_failed [] order p h = (some no_addresses, refl)
exchange_failed (t ∷ []) order p h = let (e, f) = h t (inl refl) in (some e, rw f)
exchange_failed (t ∷ u ∷ servers) order p h =
    elim (collect_arrivals order (length (t ∷ u ∷ servers)) none (length-Permᴰ p)) [
      | inl (w, r, j, f, run) ↦ let (e, g) = h w (In-Permᴰ w p j) in absurd (cc)
      | inr (fail, failed) ↦ failed
    ]
