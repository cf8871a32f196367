-- ===== src/Http/Cookies.antt =====
-- Where a request that carries session cookies may go.
use homebridge_myalarmcom.Common.{
  text_eq, text_eq_sound, text_eq_refl, ℕ, ◌≡◌, ◌≢◌, ◌↔◌, ◌⊎◌, inl, inr, refl, Bool, true, false,
  Option, none, some, List, [], ◌∷◌, arith, All, Bool-cases,
}
use homebridge_myalarmcom.Retry.{throws}
use homebridge_myalarmcom.Errors.{ours, aborted, network}
use homebridge_myalarmcom.Http.{
  Redirect, manual, follow, error, HttpRequest, Exchange, cookie_name, allowed_api_origin,
  has_cookie, assert_cookie_destination, http_request, received, is_allowed, is_follow,
}

module _ (origin_of : List ℕ → Option (List ℕ)) (to_lower_case : List ℕ → List ℕ) where
  -- No header of the request is spelled `cookie`, in whatever case.
  abbrev pub HasNoCookie : HttpRequest → Type 0
  HasNoCookie request = All (λ name. to_lower_case name ≢ cookie_name) request.header_names

  abbrev pub IsHomeBound : HttpRequest → Type 0
  IsHomeBound request =
      (request.redirect ≢ follow) × (origin_of request.url ≡ some allowed_api_origin)

  has_cookie-false :
      (names : List (List ℕ))
      → has_cookie origin_of to_lower_case names ≡ false
      → All (λ name. to_lower_case name ≢ cookie_name) names
  unfolding has_cookie
  has_cookie-false [] h = tt
  has_cookie-false (name ∷ names) h = elim (Bool-cases (text_eq (to_lower_case name) cookie_name)) [
    | inl e ↦ ground arith
    | inr e ↦
        (λ same. ground (arith, text_eq_refl cookie_name), has_cookie-false names (ground arith))
  ]

  has_cookie-true :
      (names : List (List ℕ))
      → has_cookie origin_of to_lower_case names ≡ true
      → All (λ name. to_lower_case name ≢ cookie_name) names
      → ⊥
  unfolding has_cookie
  has_cookie-true [] h none_is = cc
  has_cookie-true (name ∷ names) h (here, later) =
      elim (Bool-cases (text_eq (to_lower_case name) cookie_name)) [
        | inl e ↦ here (text_eq_sound (to_lower_case name) cookie_name e)
        | inr e ↦ has_cookie-true names (ground arith) later
      ]

  allowed_iff : (o : Option (List ℕ)) → (is_allowed o ≡ true) ↔ (o ≡ some allowed_api_origin)
  allowed_iff none = (λ h. cc, λ h. cc)
  allowed_iff (some origin) = (
    λ h. rw (text_eq_sound origin allowed_api_origin h) refl,
    λ h. ground (arith, text_eq_refl allowed_api_origin),
  )

  follow_iff : (r : Redirect) → (is_follow r ≡ false) ↔ (r ≢ follow)
  follow_iff follow = (λ h. cc, λ h. absurd (h refl))
  follow_iff manual = (λ h. λ e. cc, λ h. refl)
  follow_iff error = (λ h. λ e. cc, λ h. refl)

  -- The guard, as the source's comment on it says.
  guard-cases :
      (request : HttpRequest)
      → ((assert_cookie_destination origin_of to_lower_case request ≡ true)
          × (HasNoCookie request ⊎ IsHomeBound request))
        ⊎ ((assert_cookie_destination origin_of to_lower_case request ≡ false)
            × ¬ (HasNoCookie request ⊎ IsHomeBound request))
  unfolding assert_cookie_destination
  guard-cases request =
      elim (Bool-cases (has_cookie origin_of to_lower_case request.header_names)) [
        | inr e ↦ inl (ground arith, inl (has_cookie-false request.header_names e))
        | inl e ↦
            let carries = has_cookie-true request.header_names e in
            elim (Bool-cases (is_follow request.redirect)) [
              | inl f ↦ inr (
                ground arith,
                λ m. elim m [
                  | inl n ↦ carries n
                  | inr b ↦ cc (f, (follow_iff request.redirect).1 b.0)
                ],
              )
              | inr f ↦ elim (Bool-cases (is_allowed (origin_of request.url))) [
                | inl a ↦ inl (
                  ground arith,
                  inr (
                    (follow_iff request.redirect).0 f,
                    (allowed_iff (origin_of request.url)).0 a,
                  ),
                )
                | inr a ↦ inr (
                  ground arith,
                  λ m. elim m [
                    | inl n ↦ carries n
                    | inr b ↦ cc (a, (allowed_iff (origin_of request.url)).1 b.1)
                  ],
                )
              ]
            ]
      ]

-- A request leaves the process exactly where it is not aborted and either none of its header names
-- is `cookie` in lower case, or its redirects are not followed and its URL parses to the allowed
-- origin; and then it ends as the fetch does. One that may not leave ends with a network error,
-- aborted or not; one that may, and is aborted, with an abort.
pub http_request_guarded {ℓ} :
    {A : Type ℓ} (origin_of : List ℕ → Option (List ℕ)) (to_lower_case : List ℕ → List ℕ)
    (request : HttpRequest) (is_aborted : Bool) (exchange : Exchange A)
    → let result = http_request origin_of to_lower_case request is_aborted exchange in
      ((HasNoCookie origin_of to_lower_case request ⊎ IsHomeBound origin_of to_lower_case request)
        × (is_aborted ≡ false)
        × (result ≡ (true, received exchange)))
      ⊎ ((HasNoCookie origin_of to_lower_case request ⊎ IsHomeBound origin_of to_lower_case request)
          × (is_aborted ≡ true)
          × (result ≡ (false, throws (ours aborted))))
      ⊎ (¬ (
            HasNoCookie origin_of to_lower_case request
            ⊎ IsHomeBound origin_of to_lower_case request)
          × (result ≡ (false, throws (ours network))))
unfolding http_request
http_request_guarded origin_of to_lower_case request true exchange =
    elim (guard-cases origin_of to_lower_case request) [
      | inl (e, may) ↦ inr (inl (may, refl, rw e refl))
      | inr (e, may_not) ↦ inr (inr (may_not, rw e refl))
    ]
http_request_guarded origin_of to_lower_case request false exchange =
    elim (guard-cases origin_of to_lower_case request) [
      | inl (e, may) ↦ inl (may, refl, rw e refl)
      | inr (e, may_not) ↦ inr (inr (may_not, rw e refl))
    ]
