-- ===== src/Problem.antt =====
-- `ProblemDetail` of src/ProblemDetails.h and its json value.
use ash_coin.Base.{ℕ, ◌%◌, ◌^◌, ◌<◌, ◌≡◌, Option, some, [], ◌∷◌, Text, txt, ◌>>=◌, arith}
use ash_coin.External.{JsonOps, object, IsJson}
use ash_coin.Tx.Json.{nat_at, text_at}

pub record ProblemDetail : Type 0 where
  pub kind : Text
  pub title : Text
  pub status : ℕ
  pub detail : Text
  pub instance_path : Text

-- The status is a `std::uint32_t`, to which the number is cut.
unfoldable pub problem_of_json : {J : Type 0} → JsonOps J → J → Option ProblemDetail
problem_of_json o j = do
  k ← text_at o j (txt "type")
  t ← text_at o j (txt "title")
  s ← nat_at o j (txt "status")
  d ← text_at o j (txt "detail")
  i ← text_at o j (txt "instance")
  some (record { kind = k; title = t; status = s % 2 ^ 32; detail = d; instance_path = i })

unfoldable pub problem_to_json : {J : Type 0} → JsonOps J → ProblemDetail → J
problem_to_json o pd = object o (
    (txt "type", o.of_text pd.kind)
    ∷ (txt "title", o.of_text pd.title)
    ∷ (txt "status", o.of_nat pd.status)
    ∷ (txt "detail", o.of_text pd.detail)
    ∷ (txt "instance", o.of_text pd.instance_path)
    ∷ [])

-- Under the laws of json values, a problem with a status of 32 bits is read back from its json value.
pub problem_of_json-problem_to_json :
    {J : Type 0} (o : JsonOps J) (pd : ProblemDetail)
    → IsJson o
    → pd.status < 2 ^ 32
    → problem_of_json o (problem_to_json o pd) ≡ some pd
unfolding problem_of_json problem_to_json
problem_of_json-problem_to_json o pd laws h =
    let kept : pd.status % 2 ^ 32 ≡ pd.status = omega arith in
    let status = laws.to_nat-of_nat pd.status (omega arith) in
    simp (laws.get-object, laws.to_text-of_text, status, kept)
