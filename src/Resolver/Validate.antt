-- ===== src/Resolver/Validate.antt =====
-- internal/resolver/doh.go: `ValidateAgainst`.
use true_dns.Base.{
  ◌≡◌, ◌↔◌, refl, Bool, not, ◌&&◌, Option, none, some, List, [], ◌∷◌, arith, ◌==◌, if◌then◌else◌,
}
use true_dns.Text.{Bytes, bytes_eq, bytes_eq_iff, to_lower}
use true_dns.Dns.{Msg, Question}

pub data ValidateError : Type 0 where
  nil_response mismatched : ValidateError

-- `strings.EqualFold`
abbrev pub equal_fold : Bytes → Bytes → Bool
equal_fold s t = bytes_eq (to_lower s) (to_lower t)

abbrev pub same_question : Question → Question → Bool
same_question rq sq = equal_fold rq.name sq.name && rq.qtype == sq.qtype && rq.qclass == sq.qclass

-- the test of the first questions, where the query has one question and the response has any
unfoldable pub check_questions : List Question → List Question → Option ValidateError
check_questions (rq ∷ []) (sq ∷ rest) = if same_question rq sq then none else some mismatched
check_questions [] resp = none
check_questions (rq ∷ r ∷ rs) resp = none
check_questions (rq ∷ []) [] = none

-- `ValidateAgainst`; a response `none` stands for nil, and a result `none` for no error
unfoldable pub validate_against : Msg → Option Msg → Option ValidateError
unfolding check_questions
validate_against req none = some nil_response
validate_against req (some resp) =
    if not (resp.id == req.id) then some mismatched else check_questions req.question resp.question

-- A response plausibly answers a query: the same number, and the same question up to the case of
-- the name if the query has one question and the response has one at all.
pub record Answers (req resp : Msg) : Type 0 where
  pub id_same : resp.id ≡ req.id
  pub question_same :
      (rq sq : Question) (rest : List Question)
      → req.question ≡ rq ∷ []
      → resp.question ≡ sq ∷ rest
      → (to_lower rq.name ≡ to_lower sq.name) × (rq.qtype ≡ sq.qtype) × (rq.qclass ≡ sq.qclass)

check_questions_sound :
    (qs rs : List Question)
    → check_questions qs rs ≡ none
    → (rq sq : Question) (rest : List Question) → qs ≡ rq ∷ []
    → rs ≡ sq ∷ rest
    → (to_lower rq.name ≡ to_lower sq.name) × (rq.qtype ≡ sq.qtype) × (rq.qclass ≡ sq.qclass)
unfolding check_questions
check_questions_sound qs rs h rq sq rest p q =
    ground (arith, bytes_eq_iff (to_lower rq.name) (to_lower sq.name))

check_questions_complete :
    (qs rs : List Question)
    → ((rq sq : Question) (rest : List Question)
        → qs ≡ rq ∷ []
        → rs ≡ sq ∷ rest
        → (to_lower rq.name ≡ to_lower sq.name) × (rq.qtype ≡ sq.qtype) × (rq.qclass ≡ sq.qclass))
    → check_questions qs rs ≡ none
unfolding check_questions
check_questions_complete (rq ∷ []) (sq ∷ rest) h =
    let k = h rq sq rest refl refl in
    ground (arith, bytes_eq_iff (to_lower rq.name) (to_lower sq.name))
check_questions_complete [] rs h = refl
check_questions_complete (rq ∷ r ∷ qs) rs h = refl
check_questions_complete (rq ∷ []) [] h = refl

-- The check passes exactly the responses that answer the query.
pub validate_against_iff :
    (req : Msg) (resp : Msg) → (validate_against req (some resp) ≡ none) ↔ Answers req resp
unfolding validate_against
validate_against_iff req resp = (
  λ h. record {
    id_same = ground arith;
    question_same = check_questions_sound req.question resp.question (ground arith);
  },
  λ v.
      let same = v.id_same in
      ground (arith, check_questions_complete req.question resp.question v.question_same),
)
