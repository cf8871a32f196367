-- ===== src/Http.antt =====
-- src/api/http.ts: one request to Alarm.com under a deadline, and the guard that keeps session cookies
-- on its origin. Text is the list of its UTF-16 code units. The runtime's URL parser, `toLowerCase`
-- and `fetch` are parameters: the origin of a URL, if it parses; the text in lower case; what the
-- fetch does, and which of the deadline's two causes fired.
mod Tests
pub mod Cookies
pub mod Jar
pub mod Changes
use homebridge_myalarmcom.Common.{
  ℕ, Bool, true, false, not, ◌&&◌, ◌||◌, Option, none, some, List, [], ◌∷◌, ◌==◌, text_eq, leb,
  if◌then◌else◌,
}
use homebridge_myalarmcom.Errors.{
  AlarmComError, Thrown, ours, aborted, network, timeout, RetryAfter,
}
use homebridge_myalarmcom.Retry.{Outcome, returns, throws}

pub data Redirect : Type 0 where
  manual follow error : Redirect

-- A response: its status, its `Retry-After` header, what `JSON.parse` makes of its text, and whether
-- the text holds the two-factor marker.
pub record HttpResponse {ℓ} (A : Type ℓ) : Type ℓ where
  pub status : ℕ
  pub retry_after : Option RetryAfter
  pub document : Option A
  pub is_marked : Bool

pub record HttpRequest : Type 0 where
  pub url : List ℕ
  pub header_names : List (List ℕ)
  pub redirect : Redirect

-- What the fetch does, the reading of the text included.
pub data Exchange {ℓ} (A : Type ℓ) : Type ℓ where
  responded : HttpResponse A → Exchange A
  failed : Bool → Bool → Exchange A

-- `response.ok`
unfoldable pub is_ok_status : ℕ → Bool
is_ok_status status = leb 200 status && leb status 299

-- `cookie`
abbrev pub cookie_name : List ℕ
cookie_name = 99 ∷ 111 ∷ 111 ∷ 107 ∷ 105 ∷ 101 ∷ []

-- `https://www.alarm.com`
abbrev pub allowed_api_origin : List ℕ
allowed_api_origin =
    104 ∷ 116 ∷ 116 ∷ 112 ∷ 115 ∷ 58 ∷ 47 ∷ 47 ∷ 119 ∷ 119 ∷ 119 ∷ 46 ∷ 97 ∷ 108 ∷ 97 ∷ 114 ∷ 109
    ∷ 46 ∷ 99 ∷ 111 ∷ 109 ∷ []

abbrev pub is_follow : Redirect → Bool
is_follow follow = true
is_follow _ = false

abbrev pub is_allowed : Option (List ℕ) → Bool
is_allowed none = false
is_allowed (some origin) = text_eq origin allowed_api_origin

-- The error of a fetch that threw: a timeout, a cancellation or a network failure.
abbrev pub deadline_error : Bool → Bool → AlarmComError
deadline_error is_timed_out is_cancelled =
    if is_timed_out then timeout else if is_cancelled then aborted else network

abbrev pub received {ℓ} : {A : Type ℓ} → Exchange A → Outcome (HttpResponse A)
received (responded response) = returns response
received (failed is_timed_out is_cancelled) =
    throws (ours (deadline_error is_timed_out is_cancelled))

module _ (origin_of : List ℕ → Option (List ℕ)) (to_lower_case : List ℕ → List ℕ) where
  unfoldable pub has_cookie : List (List ℕ) → Bool
  has_cookie [] = false
  has_cookie (name ∷ names) = text_eq (to_lower_case name) cookie_name || has_cookie names

  -- Whether it returns; it throws a network error where it does not.
  unfoldable pub assert_cookie_destination : HttpRequest → Bool
  unfolding has_cookie
  assert_cookie_destination request =
      if not (has_cookie request.header_names)
      then true
      else if is_follow request.redirect
      then false
      else is_allowed (origin_of request.url)

  -- Whether the request left the process, and how it ended.
  unfoldable pub http_request {ℓ} :
      {A : Type ℓ} → HttpRequest → Bool → Exchange A → Bool × Outcome (HttpResponse A)
  http_request request is_aborted exchange =
      if not (assert_cookie_destination request)
      then (false, throws (ours network))
      else if is_aborted
      then (false, throws (ours aborted))
      else (true, received exchange)
