-- ===== src/Errors/Tests.antt =====
-- The classification of concrete responses.
use homebridge_myalarmcom.Common.{◌≡◌, refl, true, false, none}
use homebridge_myalarmcom.Errors.{create_api_error, api_response, two_factor}

server_error : create_api_error 503 false none ≡ api_response 503
unfolding create_api_error
server_error = refl

marked_conflict : create_api_error 409 true none ≡ two_factor
unfolding create_api_error
marked_conflict = refl
