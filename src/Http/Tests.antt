-- ===== src/Http/Tests.antt =====
-- Concrete requests, and the witnesses.
use homebridge_myalarmcom.Common.{
  ℕ, ◌+◌, ◌≡◌, ◌⊎◌, refl, true, false, Option, some, List, [], ◌∷◌, leb, ◌&&◌, if◌then◌else◌,
}
use homebridge_myalarmcom.Errors.{ours, network, aborted}
use homebridge_myalarmcom.Retry.{throws}
use homebridge_myalarmcom.Http.{
  HttpRequest, Exchange, failed, manual, follow, allowed_api_origin, http_request, received,
  assert_cookie_destination,
}
use homebridge_myalarmcom.Http.Cookies.{http_request_guarded, HasNoCookie, IsHomeBound}

abbrev own_origin : List ℕ → Option (List ℕ)
own_origin url = some url

-- `toLowerCase` of ASCII text.
abbrev lower_unit : ℕ → ℕ
lower_unit unit = if leb 65 unit && leb unit 90 then unit + 32 else unit

abbrev lower : List ℕ → List ℕ
lower [] = []
lower (unit ∷ text) = lower_unit unit ∷ lower text

-- `Cookie`
abbrev capital_cookie : List ℕ
capital_cookie = 67 ∷ 111 ∷ 111 ∷ 107 ∷ 105 ∷ 101 ∷ []

abbrev home : HttpRequest
home = record { url = allowed_api_origin; header_names = capital_cookie ∷ []; redirect = manual }

abbrev lost : Exchange ℕ
lost = failed false false

-- Cookies go to the allowed origin, and not along a redirect.
sent : http_request own_origin lower home false lost ≡ (true, received lost)
unfolding http_request assert_cookie_destination
sent = refl

not_sent : (http_request own_origin lower (record home { redirect = follow }) false lost).0 ≡ false
unfolding http_request assert_cookie_destination
not_sent = refl

http_request_guarded_example :
    let away = record home { redirect = follow } in
    let result = http_request own_origin lower away false lost in
    ((HasNoCookie own_origin lower away ⊎ IsHomeBound own_origin lower away)
      × (false ≡ false)
      × (result ≡ (true, received lost)))
    ⊎ ((HasNoCookie own_origin lower away ⊎ IsHomeBound own_origin lower away)
        × (false ≡ true)
        × (result ≡ (false, throws (ours aborted))))
    ⊎ (¬ (HasNoCookie own_origin lower away ⊎ IsHomeBound own_origin lower away)
        × (result ≡ (false, throws (ours network))))
http_request_guarded_example =
    http_request_guarded own_origin lower (record home { redirect = follow }) false lost
