-- ===== src/Api/Guard.antt =====
-- What the guard of the control API keeps out, and what a request that passes it does in a reload.
use true_dns.Base.{
  ◌≡◌, ◌↔◌, ◌⊎◌, refl, inl, inr, Bool, true, false, [], ◌∷◌, arith, Bool-cases, Option-cases,
}
use true_dns.Base.Result.{Result}
use true_dns.Text.{Bytes, is_empty, bytes_eq, bytes_eq_iff}
use true_dns.Net.{Net}
use true_dns.Cache
use true_dns.Config.Defs.{Config}
use true_dns.Api.Handlers.{
  Endpoint, healthz, status, flush, reload_config, shutdown, Request, ReloadEnd, done, died, failed,
  Reply, status_of, Server, State, is_authorized, auth, handle_status, handle_flush, reload_reply,
  handle_reload, handle_shutdown, handle,
}

-- The request has the token, where one is configured.
abbrev pub HasToken : Server → Request → Type 0
HasToken s r = (s.token ≡ []) ⊎ ((r.header_token ≡ s.token) ⊎ (r.query_token ≡ s.token))

is_empty_iff : (b : Bytes) → (is_empty b ≡ true) ↔ (b ≡ [])
is_empty_iff [] = ((λ h. refl), λ h. refl)
is_empty_iff (c ∷ b) = ((λ h. absurd (ground arith)), λ h. absurd (ground arith))

HasToken-is_authorized : (s : Server) (r : Request) → HasToken s r → is_authorized s r ≡ true
HasToken-is_authorized s r (inl e) = rw ((is_empty_iff s.token).1 e) refl
HasToken-is_authorized s r (inr (inl e)) =
    let same = (bytes_eq_iff r.header_token s.token).1 e in ground arith
HasToken-is_authorized s r (inr (inr e)) =
    let same = (bytes_eq_iff r.query_token s.token).1 e in ground arith

is_authorized-HasToken : (s : Server) (r : Request) → is_authorized s r ≡ true → HasToken s r
is_authorized-HasToken s r h = elim (Bool-cases (is_empty s.token)) [
  | inl e ↦ inl ((is_empty_iff s.token).0 e)
  | inr e ↦ elim (Bool-cases (bytes_eq r.header_token s.token)) [
    | inl f ↦ inr (inl ((bytes_eq_iff r.header_token s.token).0 f))
    | inr f ↦
        let g : bytes_eq r.query_token s.token ≡ true = ground arith in
        inr (inr ((bytes_eq_iff r.query_token s.token).0 g))
  ]
]

auth_guarded :
    (s : Server) (r : Request) (st : State) (next : State × Reply)
    → (status_of next.1 ≡ 401 → ⊥)
    → ((status_of (auth s r st next).1 ≡ 401) ↔ (¬ HasToken s r))
      × (HasToken s r ⊎ ((auth s r st next).0 ≡ st))
auth_guarded s r st next other = elim (Bool-cases (is_authorized s r)) [
  | inl b ↦
      let has = is_authorized-HasToken s r b in
      rw b (((λ h. absurd (other h)), λ h. absurd (h has)), inl has)
  | inr b ↦
      let lacks : ¬ HasToken s r = λ has. absurd (refute b (HasToken-is_authorized s r has)) in
      rw b (((λ h. lacks), λ h. refl), inr refl)
]
  where
    refute : {x : Bool} → x ≡ false → x ≡ true → ⊥
    refute e f = cc

reload_reply-status : (o : ReloadEnd) → ¬ (status_of (reload_reply o) ≡ 401)
reload_reply-status done = λ h. omega arith
reload_reply-status died = λ h. omega arith
reload_reply-status (failed e) = λ h. omega arith

handle_reload-status : (s : Server) (st : State) → ¬ (status_of (handle_reload s st).1 ≡ 401)
handle_reload-status s st = elim (Option-cases s.reload_fn) [
  | inl e ↦ rw e (λ h. omega arith)
  | inr (f, e) ↦ rw e (reload_reply-status (f st.engine).1)
]

handle_shutdown-status : (s : Server) (st : State) → ¬ (status_of (handle_shutdown s st).1 ≡ 401)
handle_shutdown-status s st = elim (Bool-cases s.has_shutdown) [
  | inl b ↦ rw b (λ h. omega arith)
  | inr b ↦ rw b (λ h. omega arith)
]

also_unhealthy :
    {A B : Type 0} → (e : Endpoint) → (e ≡ healthz → ⊥) → (A ↔ B) → A ↔ (B × ¬ (e ≡ healthz))
also_unhealthy e other (to, from) = ((λ a. (to a, other)), λ b. from b.0)

-- A request is answered with 401 just if a token is configured, neither its header nor its query
-- has that token, and it asks for another endpoint than the health check; and whatever a request
-- without the token asks for, the engine is left as it was.
pub handle_guarded :
    (s : Server) (e : Endpoint) (r : Request) (st : State)
    → ((status_of (handle s e r st).1 ≡ 401) ↔ ((¬ HasToken s r) × ¬ (e ≡ healthz)))
      × (HasToken s r ⊎ ((handle s e r st).0 ≡ st))
unfolding handle
handle_guarded s healthz r st = (((λ h. absurd (omega arith)), λ h. absurd (h.1 refl)), inr refl)
handle_guarded s status r st =
    let (answer, kept) = auth_guarded s r st (handle_status s st) (λ h. omega arith) in
    (also_unhealthy status (λ x. cc) answer, kept)
handle_guarded s flush r st =
    let (answer, kept) = auth_guarded s r st (handle_flush st) (λ h. omega arith) in
    (also_unhealthy flush (λ x. cc) answer, kept)
handle_guarded s reload_config r st =
    let (answer, kept) = auth_guarded s r st (handle_reload s st) (handle_reload-status s st) in
    (also_unhealthy reload_config (λ x. cc) answer, kept)
handle_guarded s shutdown r st =
    let (answer, kept) = auth_guarded s r st (handle_shutdown s st) (handle_shutdown-status s st) in
    (also_unhealthy shutdown (λ x. cc) answer, kept)
