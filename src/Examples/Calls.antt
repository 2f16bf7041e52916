-- ===== src/Examples/Calls.antt =====
-- Requests to GitHub's API, answered by concrete servers.
use mathlib.Core.Option.{some-injective}
use action_runner_cluster.Prelude.{
  Text, [], ap, arith, codes, if◌then◌else◌, lookup, nat_eq, none, refl, some, sym, text_eq, ◌==◌,
  ◌∙◌, ◌≡◌,
}
use action_runner_cluster.Ghapi.Requests.{
  HttpResponse, Remote, no_response, responded, no_refresher, answered, is_success, read_response,
  tag_sent, try_once, attempts_from, request, runner_busy, removal_of, remove_runner,
}
use action_runner_cluster.Ghapi.Requests.Answers.{
  Honest, GoodOutcome, request-Good, request_client_error,
}

abbrev fine : HttpResponse
fine = record {
  status = 200;
  body = some (codes "[]");
  link = [];
  etag = codes "v1";
  retry_after = none;
  remaining = codes "4999";
  reset = none;
}

abbrev server : Remote
server = record { attempt = λ k t. responded fine; refresh = λ k. no_refresher; now = λ k. 0 }

-- The first attempt gets no response, the second a good one.
abbrev flaky : Remote
flaky = record server { attempt = λ k t. if k == 0 then no_response else responded fine }

retried : (request flaky (codes "runs:app") []).1 ≡ answered (codes "[]") []
unfolding request attempts_from try_once tag_sent lookup read_response is_success
retried = refl

abbrev IsEmptyList : Text → Text → Type 0
IsEmptyList key b = b ≡ codes "[]"

response_of : {r s : HttpResponse} → responded r ≡ responded s → r ≡ s
response_of e = cc

server-Honest : (key : Text) → Honest IsEmptyList server key
server-Honest key k t r b e ok read =
    sym (some-injective _ _ (ap (λ (x : HttpResponse). x.body) (response_of e) ∙ read))

request-Good_example :
    GoodOutcome IsEmptyList (codes "runs:app") (request server (codes "runs:app") [])
request-Good_example =
    request-Good IsEmptyList server (codes "runs:app") [] (server-Honest (codes "runs:app")) tt

-- GitHub's answer to the removal of a runner that is busy.
abbrev refusal : HttpResponse
refusal = record fine { status = 422; body = some (codes "busy") }

abbrev refusing : Remote
refusing = record server { attempt = λ k t. responded refusal }

told_busy : (remove_runner refusing []).1 ≡ runner_busy
unfolding remove_runner removal_of
told_busy =
    rw
      (request_client_error refusing [] [] refusal (codes "busy") refl refl refl (omega arith)
        (omega arith) (omega arith) (omega arith) (omega arith))
      refl
