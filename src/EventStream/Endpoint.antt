-- ===== src/EventStream/Endpoint.antt =====
-- src/api/event-stream.ts: the endpoint that the token is sent to. The runtime's URL parser is a
-- parameter: the protocol and the host name of a value, where it parses as a URL.
use homebridge_myalarmcom.Common.{
  text_eq, text_eq_sound, ℕ, ◌≡◌, ◌⊎◌, inl, inr, refl, ap, Bool, true, ◌&&◌, ◌||◌, Option, none,
  some, List, [], ◌∷◌, ◌++◌, arith, if◌then◌else◌, Bool-cases,
}
use homebridge_myalarmcom.Js.{Value, string, is_truthy}

pub record Url : Type 0 where
  pub protocol : List ℕ
  pub hostname : List ℕ

-- `alarm.com`
abbrev pub alarm_com_apex_host : List ℕ
alarm_com_apex_host = 97 ∷ 108 ∷ 97 ∷ 114 ∷ 109 ∷ 46 ∷ 99 ∷ 111 ∷ 109 ∷ []

-- `.alarm.com`
abbrev pub websocket_host_suffix : List ℕ
websocket_host_suffix = 46 ∷ 97 ∷ 108 ∷ 97 ∷ 114 ∷ 109 ∷ 46 ∷ 99 ∷ 111 ∷ 109 ∷ []

-- `wss:`
abbrev pub wss_protocol : List ℕ
wss_protocol = 119 ∷ 115 ∷ 115 ∷ 58 ∷ []

-- `wss://webskt.alarm.com:8443`
abbrev pub default_websocket_endpoint : Value
default_websocket_endpoint = string (
    119 ∷ 115 ∷ 115 ∷ 58 ∷ 47 ∷ 47 ∷ 119 ∷ 101 ∷ 98 ∷ 115 ∷ 107 ∷ 116 ∷ 46 ∷ 97 ∷ 108 ∷ 97 ∷ 114
    ∷ 109 ∷ 46 ∷ 99 ∷ 111 ∷ 109 ∷ 58 ∷ 56 ∷ 52 ∷ 52 ∷ 51 ∷ [])

-- `text.endsWith(suffix)`
unfoldable pub ends_with : List ℕ → List ℕ → Bool
ends_with [] suffix = text_eq [] suffix
ends_with (x ∷ xs) suffix = text_eq (x ∷ xs) suffix || ends_with xs suffix

unfoldable pub is_alarm_com_host : List ℕ → Bool
unfolding ends_with
is_alarm_com_host hostname =
    text_eq hostname alarm_com_apex_host || ends_with hostname websocket_host_suffix

abbrev pub resolve_parsed : Value → Option Url → Value
resolve_parsed endpoint none = default_websocket_endpoint
resolve_parsed endpoint (some url) =
    if text_eq url.protocol wss_protocol && is_alarm_com_host url.hostname
    then endpoint
    else default_websocket_endpoint

-- `#resolveEndpoint`
unfoldable pub resolve_endpoint : (Value → Option Url) → Option Value → Value
unfolding is_alarm_com_host
resolve_endpoint parse_url none = default_websocket_endpoint
resolve_endpoint parse_url (some endpoint) =
    if is_truthy endpoint
    then resolve_parsed endpoint (parse_url endpoint)
    else default_websocket_endpoint

ends_with_sound :
    (text suffix : List ℕ)
    → ends_with text suffix ≡ true
    → (prefix : List ℕ) × (text ≡ prefix ++ suffix)
unfolding ends_with
ends_with_sound [] suffix h = ([], text_eq_sound [] suffix h)
ends_with_sound (x ∷ xs) suffix h = elim (Bool-cases (text_eq (x ∷ xs) suffix)) [
  | inl e ↦ ([], text_eq_sound (x ∷ xs) suffix e)
  | inr e ↦
      let (prefix, tail) = ends_with_sound xs suffix (ground arith) in
      (x ∷ prefix, ap (λ rest. x ∷ rest) tail)
]

-- A URL that a credential may go to.
pub record IsTrusted (url : Url) : Type 0 where
  pub secure : url.protocol ≡ wss_protocol
  pub host :
      (url.hostname ≡ alarm_com_apex_host)
      ⊎ ((subdomain : List ℕ) × (url.hostname ≡ subdomain ++ websocket_host_suffix))

resolve_parsed-IsTrusted :
    (endpoint : Value) (o : Option Url)
    → (resolve_parsed endpoint o ≡ default_websocket_endpoint)
      ⊎ ((resolve_parsed endpoint o ≡ endpoint) × ((url : Url) × (o ≡ some url) × IsTrusted url))
unfolding is_alarm_com_host
resolve_parsed-IsTrusted endpoint none = inl refl
resolve_parsed-IsTrusted endpoint (some url) =
    elim (Bool-cases (text_eq url.protocol wss_protocol && is_alarm_com_host url.hostname)) [
      | inr e ↦ inl (ground arith)
      | inl e ↦ inr (
        ground arith,
        (
          url,
          refl,
          record {
            secure = text_eq_sound url.protocol wss_protocol (ground arith);
            host = elim (Bool-cases (text_eq url.hostname alarm_com_apex_host)) [
              | inl apex ↦ inl (text_eq_sound url.hostname alarm_com_apex_host apex)
              | inr below ↦ inr (ends_with_sound url.hostname websocket_host_suffix (ground arith))
            ];
          },
        ),
      )
    ]

-- The token goes to the default endpoint or to the endpoint that the response named; and to the
-- latter only where it parses to a URL whose protocol is secure WebSocket and whose host is alarm.com
-- or ends in .alarm.com.
pub resolve_endpoint-IsTrusted :
    (parse_url : Value → Option Url) (endpoint : Option Value)
    → (resolve_endpoint parse_url endpoint ≡ default_websocket_endpoint)
      ⊎ ((reported : Value) × (endpoint ≡ some reported)
          × (resolve_endpoint parse_url endpoint ≡ reported)
          × ((url : Url) × (parse_url reported ≡ some url) × IsTrusted url))
unfolding resolve_endpoint
resolve_endpoint-IsTrusted parse_url none = inl refl
resolve_endpoint-IsTrusted parse_url (some endpoint) = elim (Bool-cases (is_truthy endpoint)) [
  | inr e ↦ inl (ground arith)
  | inl e ↦ elim (resolve_parsed-IsTrusted endpoint (parse_url endpoint)) [
    | inl default_ ↦ inl (ground arith)
    | inr (named, trusted) ↦ inr (endpoint, refl, ground arith, trusted)
  ]
]
