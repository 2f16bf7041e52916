-- ===== src/Ghapi/Requests.antt =====
-- internal/ghapi/client.go: request, with its retries and its cache of bodies by ETag, and
-- RemoveRunner of internal/ghapi/runners.go. What becomes of an attempt is an argument, `Remote`,
-- and so is the clock, in seconds since the epoch; a wait that is cancelled shows as a cancelled
-- next attempt.
pub mod Answers
use mathlib.Core.Option
use action_runner_cluster.Prelude.{
  Bool, Map, Option, Text, [], codes, delete, false, if◌then◌else◌, insert, is_some, leb, lookup,
  ltb, ltb_ℤ, map, nat_eq, negsuc, none, not, pos, some, suc, text_eq, true, zero, ℕ, ℤ, ◌&&◌, ◌*◌,
  ◌+◌, ◌-ℤ◌, ◌==◌, ◌^◌, ◌||◌,
}

-- A cached body, with the tag that it came with.
pub record Entry : Type 0 where
  pub tag : Text
  pub body : Text

-- A response as it is read: a header that is missing is the empty text, and one that does not parse
-- as a number is none.
pub record HttpResponse : Type 0 where
  pub status : ℕ
  pub body : Option Text
  pub link : Text
  pub etag : Text
  pub retry_after : Option ℤ
  pub remaining : Text
  pub reset : Option ℕ

pub data Attempted : Type 0 where
  cancelled no_token unsendable no_response : Attempted
  responded : HttpResponse → Attempted

-- What re-reading a rejected credential comes to.
pub data Refreshed : Type 0 where
  no_refresher refresh_failed unchanged changed : Refreshed

-- The attempts are counted from 0; the tag is the one of If-None-Match.
pub record Remote : Type 0 where
  pub attempt : ℕ → Option Text → Attempted
  pub refresh : ℕ → Refreshed
  pub now : ℕ → ℕ

pub data Outcome : Type 0 where
  answered : (data_read next : Text) → Outcome
  api_error : ℕ → Outcome
  other_error : Outcome

-- How the body of the loop ends: with a `return`, or with a `continue`.
pub data Verdict : Type 0 where
  returns : Outcome → Verdict
  continues : Verdict

abbrev pub max_retries : ℕ
max_retries = 4

abbrev pub max_retry_sleep : ℤ
max_retry_sleep = pos 30000000000

unfoldable pub cap_sleep : ℤ → ℤ
cap_sleep d =
    if ltb_ℤ max_retry_sleep d then max_retry_sleep else if ltb_ℤ d (pos 0) then pos 0 else d

unfoldable pub backoff : ℕ → ℤ
unfolding cap_sleep
backoff attempt = cap_sleep (pos (2 ^ attempt * 250000000))

seconds : ℤ → ℤ
seconds (pos n) = pos (n * 1000000000)
seconds (negsuc n) = pos 0 -ℤ pos ((n + 1) * 1000000000)

-- `retryAfter`, at the time `now`.
unfoldable pub retry_wait : ℕ → HttpResponse → Option ℤ
unfolding cap_sleep seconds
retry_wait now r = elim r.retry_after [
  | some secs ↦ some (cap_sleep (seconds secs))
  | none ↦
      if not (r.status == 403) && not (r.status == 429)
      then none
      else if not (r.remaining == codes "0")
      then none
      else elim r.reset [
        | none ↦ none
        | some at ↦
            if leb at now
            then some (pos 1000000000)
            else some (cap_sleep (seconds (pos at -ℤ pos now)))
      ]
]

is_changed : Refreshed → Bool
is_changed changed = true
is_changed no_refresher = false
is_changed refresh_failed = false
is_changed unchanged = false

unfoldable pub is_success : ℕ → Bool
is_success status = leb 200 status && ltb status 300

-- A response that is neither cached nor a success: another try, or the error.
unfoldable pub judge : Remote → ℕ → HttpResponse → Verdict
unfolding is_changed
judge remote attempt r =
    let more : Bool = ltb attempt max_retries in
    if is_some (retry_wait (remote.now attempt) r) && more
    then continues
    else if r.status == 401 && more && is_changed (remote.refresh attempt)
    then continues
    else if leb 500 r.status && more
    then continues
    else returns (api_error r.status)

-- What is stored of a success.
unfoldable pub remember : Text → HttpResponse → Text → Map Text Entry → Map Text Entry
remember key r body etags =
    if (key == []) || (r.etag == [])
    then etags
    else insert key (record { tag = r.etag; body = body }) etags

-- The loop's body once there is a response.
unfoldable pub read_response :
    Remote → Text → ℕ → HttpResponse → Map Text Entry → Map Text Entry × Verdict
unfolding remember judge
read_response remote key attempt r etags =
    if r.status == 304 && not (key == [])
    then elim (lookup key etags) [
      | some e ↦ (etags, returns (answered e.body r.link))
      | none ↦ (delete key etags, continues)
    ]
    else elim r.body [
      | none ↦ (etags, continues)
      | some body ↦
          if is_success r.status
          then (remember key r body etags, returns (answered body r.link))
          else (etags, judge remote attempt r)
    ]

unfoldable pub tag_sent : Text → Map Text Entry → Option Text
tag_sent key etags = if key == [] then none else Option.map (λ e. e.tag) (lookup key etags)

-- The loop's body.
unfoldable pub try_once : Remote → Text → ℕ → Map Text Entry → Map Text Entry × Verdict
unfolding read_response tag_sent
try_once remote key attempt etags = elim (remote.attempt attempt (tag_sent key etags)) [
  | cancelled ↦ (etags, returns other_error)
  | no_token ↦ (etags, returns other_error)
  | unsendable ↦ (etags, returns other_error)
  | no_response ↦ (etags, continues)
  | responded r ↦ read_response remote key attempt r etags
]

-- The loop with `left` more attempts after this one; the last error, when none is left, is not told.
unfoldable pub attempts_from : ℕ → Remote → Text → ℕ → Map Text Entry → Map Text Entry × Outcome
attempts_from zero remote key attempt etags = elim (try_once remote key attempt etags).1 [
  | returns o ↦ ((try_once remote key attempt etags).0, o)
  | continues ↦ ((try_once remote key attempt etags).0, other_error)
]
attempts_from (suc left) remote key attempt etags =
    let rest : Map Text Entry × Outcome =
      attempts_from left remote key (attempt + 1) (try_once remote key attempt etags).0 in
    elim (try_once remote key attempt etags).1 [
      | returns o ↦ ((try_once remote key attempt etags).0, o)
      | continues ↦ rest
    ]

-- `Client.request`, from the cache to the cache; a key that is empty asks for no cache.
unfoldable pub request : Remote → Text → Map Text Entry → Map Text Entry × Outcome
request remote key etags = attempts_from max_retries remote key 0 etags

-- What `RemoveRunner` makes of the outcome.
pub data RemovedRunner : Type 0 where
  runner_gone runner_busy not_removed : RemovedRunner

unfoldable pub removal_of : Outcome → RemovedRunner
removal_of (answered d next) = runner_gone
removal_of (api_error status) =
    if status == 404 then runner_gone else if status == 422 then runner_busy else not_removed
removal_of other_error = not_removed

unfoldable pub remove_runner : Remote → Map Text Entry → Map Text Entry × RemovedRunner
unfolding removal_of
remove_runner remote etags =
    let out : Map Text Entry × Outcome = request remote [] etags in (out.0, removal_of out.1)
