-- ===== src/Ghapi/Requests/Answers.antt =====
-- internal/ghapi/client.go: what request hands back and caches, what it does not retry, how long it
-- waits.
use action_runner_cluster.Prelude.{
  All, Bool-cases, Map, Option, Option-cases, Text, [], ap, arith, delete-All, inl, inr, insert-All,
  lookup, lookup-All, nat_eq, none, not, pos, refl, some, subst, suc, text_eq, true, zero, ℕ, ℤ,
  ◌&&◌, ◌+◌, ◌<◌, ◌==◌, ◌||◌, ◌∙◌, ◌≡◌, ◌≢◌, ◌≤ℤ◌, ◌≤◌, ◌⊎◌,
}
use action_runner_cluster.Ghapi.Requests.{
  Entry, HttpResponse, Attempted, cancelled, no_token, unsendable, no_response, responded, Remote,
  Outcome, answered, api_error, other_error, Verdict, returns, continues, max_retries,
  max_retry_sleep, cap_sleep, backoff, retry_wait, is_success, judge, remember, read_response,
  tag_sent, try_once, attempts_from, request,
}

-- Every cached body satisfies `P` under its key.
abbrev pub Good : (Text → Text → Type 0) → Map Text Entry → Type 0
Good P etags = All (λ (kv : Text × Entry). P kv.0 kv.1.body) etags

-- Every body of a success satisfies `P` under the key.
abbrev pub Honest : (Text → Text → Type 0) → Remote → Text → Type 0
Honest P remote key =
    (k : ℕ) (t : Option Text) (r : HttpResponse) (b : Text)
    → remote.attempt k t ≡ responded r
    → is_success r.status ≡ true
    → r.body ≡ some b
    → P key b

abbrev GoodVerdict : (Text → Text → Type 0) → Text → Map Text Entry × Verdict → Type 0
GoodVerdict P key (etags, v) =
    Good P etags × ((d next : Text) → v ≡ returns (answered d next) → P key d)

goes_on : {o : Outcome} → continues ≡ returns o → ⊥
goes_on e = cc

data_of : {a b n m : Text} → answered a n ≡ answered b m → a ≡ b
data_of e = cc

outcome_of : {a b : Outcome} → returns a ≡ returns b → a ≡ b
outcome_of e = cc

judge_no_data :
    (remote : Remote) (k : ℕ) (r : HttpResponse) (d next : Text)
    → judge remote k r ≢ returns (answered d next)
unfolding judge
judge_no_data remote k r d next e = ground arith

remember-Good :
    (P : Text → Text → Type 0) (key : Text) (r : HttpResponse) (b : Text) (etags : Map Text Entry)
    → P key b
    → Good P etags
    → Good P (remember key r b etags)
unfolding remember
remember-Good P key r b etags p g = elim (Bool-cases ((key == []) || (r.etag == []))) [
  | inl e ↦ rw e g
  | inr e ↦ rw e (insert-All _ key (record { tag = r.etag; body = b }) etags p g)
]

read_response-Good :
    (P : Text → Text → Type 0) (remote : Remote) (key : Text) (k : ℕ) (r : HttpResponse)
    (etags : Map Text Entry)
    → ((b : Text) → is_success r.status ≡ true → r.body ≡ some b → P key b)
    → Good P etags
    → GoodVerdict P key (read_response remote key k r etags)
unfolding read_response
read_response-Good P remote key k r etags h g =
    elim (Bool-cases (r.status == 304 && not (key == []))) [
      | inl same ↦ elim (Option-cases (lookup key etags)) [
        | inl e ↦
            rw (same, e, read_response) (delete-All _ key etags g, λ d next q. absurd (goes_on q))
        | inr (entry, e) ↦
            rw (same, e, read_response)
              (
                g,
                λ d next q. subst (P key) (data_of (outcome_of q)) (
                    lookup-All (λ (kv : Text × Entry). P kv.0 kv.1.body) key etags {val = entry} g
                      e),
              )
      ]
      | inr other ↦ elim (Option-cases r.body) [
        | inl e ↦ rw (other, e, read_response) (g, λ d next q. absurd (goes_on q))
        | inr (b, e) ↦ elim (Bool-cases (is_success r.status)) [
          | inl good ↦
              rw (other, e, good, read_response)
                (
                  remember-Good P key r b etags (h b good e) g,
                  λ d next q. subst (P key) (data_of (outcome_of q)) (h b good e),
                )
          | inr bad ↦
              rw (other, e, bad, read_response)
                (g, λ d next q. absurd (judge_no_data remote k r d next q))
        ]
      ]
    ]

Attempted-cases :
    (a : Attempted)
    → (a ≡ cancelled)
      ⊎ ((a ≡ no_token)
          ⊎ ((a ≡ unsendable) ⊎ ((a ≡ no_response) ⊎ ((r : HttpResponse) × (a ≡ responded r)))))
Attempted-cases cancelled = inl refl
Attempted-cases no_token = inr (inl refl)
Attempted-cases unsendable = inr (inr (inl refl))
Attempted-cases no_response = inr (inr (inr (inl refl)))
Attempted-cases (responded r) = inr (inr (inr (inr (r, refl))))

no_data : {d next : Text} → returns other_error ≡ returns (answered d next) → ⊥
no_data e = cc

try_once-Good :
    (P : Text → Text → Type 0) (remote : Remote) (key : Text) (k : ℕ) (etags : Map Text Entry)
    → Honest P remote key
    → Good P etags
    → GoodVerdict P key (try_once remote key k etags)
unfolding try_once
try_once-Good P remote key k etags h g =
    elim (Attempted-cases (remote.attempt k (tag_sent key etags))) [
      | inl e ↦ rw (e, try_once) (g, λ d next q. absurd (no_data q))
      | inr (inl e) ↦ rw (e, try_once) (g, λ d next q. absurd (no_data q))
      | inr (inr (inl e)) ↦ rw (e, try_once) (g, λ d next q. absurd (no_data q))
      | inr (inr (inr (inl e))) ↦ rw (e, try_once) (g, λ d next q. absurd (goes_on q))
      | inr (inr (inr (inr (r, e)))) ↦
          rw (e, try_once)
            (read_response-Good P remote key k r etags (λ b ok read. h k _ r b e ok read) g)
    ]

Verdict-cases : (v : Verdict) → (v ≡ continues) ⊎ ((o : Outcome) × (v ≡ returns o))
Verdict-cases continues = inl refl
Verdict-cases (returns o) = inr (o, refl)

-- What holds of the cache after a request, and of the data that it hands back.
abbrev pub GoodOutcome : (Text → Text → Type 0) → Text → Map Text Entry × Outcome → Type 0
GoodOutcome P key (etags, o) = Good P etags × ((d next : Text) → o ≡ answered d next → P key d)

failed : {d next : Text} → other_error ≡ answered d next → ⊥
failed e = cc

attempts_from-Good :
    (P : Text → Text → Type 0) (left : ℕ) (remote : Remote) (key : Text) (k : ℕ)
    (etags : Map Text Entry)
    → Honest P remote key
    → Good P etags
    → GoodOutcome P key (attempts_from left remote key k etags)
unfolding attempts_from
attempts_from-Good P zero remote key k etags h g =
    let (kept, fine) = try_once-Good P remote key k etags h g in
    elim (Verdict-cases (try_once remote key k etags).1) [
      | inl e ↦ rw (e, attempts_from) (kept, λ d next q. absurd (failed q))
      | inr (o, e) ↦ rw (e, attempts_from) (kept, λ d next q. fine d next (e ∙ ap returns q))
    ]
attempts_from-Good P (suc left) remote key k etags h g =
    let (kept, fine) = try_once-Good P remote key k etags h g in
    elim (Verdict-cases (try_once remote key k etags).1) [
      | inl e ↦
          rw (e, attempts_from)
            (attempts_from-Good P left remote key (k + 1) (try_once remote key k etags).0 h kept)
      | inr (o, e) ↦ rw (e, attempts_from) (kept, λ d next q. fine d next (e ∙ ap returns q))
    ]

-- If every body of a success that GitHub gives for a key satisfies a predicate, and every cached
-- body does so under its key, then so does the data that a request for the key hands back, fresh or
-- from the cache, and every cached body after it.
pub request-Good :
    (P : Text → Text → Type 0) (remote : Remote) (key : Text) (etags : Map Text Entry)
    → Honest P remote key
    → Good P etags
    → GoodOutcome P key (request remote key etags)
unfolding request
request-Good P remote key etags h g = attempts_from-Good P max_retries remote key 0 etags h g

-- An answer with an error of the client, from 400 to 499, that is neither 401, 403 nor 429 and has
-- no Retry-After, is handed back after the first attempt, and leaves the cache.
pub request_client_error :
    (remote : Remote) (key : Text) (etags : Map Text Entry) (r : HttpResponse) (b : Text)
    → remote.attempt 0 (tag_sent key etags) ≡ responded r
    → r.body ≡ some b
    → r.retry_after ≡ none
    → 400 ≤ r.status
    → r.status < 500
    → r.status ≢ 401
    → r.status ≢ 403
    → r.status ≢ 429
    → request remote key etags ≡ (etags, api_error r.status)
unfolding request attempts_from try_once read_response judge retry_wait is_success
request_client_error remote key etags r b e body no_wait low high n1 n2 n3 = ground arith

-- No wait between attempts is negative or longer than thirty seconds.
pub waits_bounded :
    (now k : ℕ) (r : HttpResponse)
    → (pos 0 ≤ℤ backoff k)
      × (backoff k ≤ℤ max_retry_sleep)
      × ((w : ℤ) → retry_wait now r ≡ some w → (pos 0 ≤ℤ w) × (w ≤ℤ max_retry_sleep))
unfolding backoff retry_wait cap_sleep
waits_bounded now k r = (ground arith, ground arith, λ w e. ground arith)
