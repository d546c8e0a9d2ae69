-- ===== src/Storage/Tests/Limits.antt =====
-- A window with room for two requests.
-- Code: packages/storage/src/operations.ts (`consumeRequest`).
use alpha_proof.Base.{ℕ, ◌+◌, ◌≡◌, ◌++◌, refl, List, [], ◌∷◌}
use alpha_proof.Storage.Requests.{
  RequestWindow, RequestPolicy, RequestCall, consume_request, admitted,
}
use alpha_proof.Storage.Requests.Bounded.{admitted-least}

abbrev policy : RequestPolicy
policy = record { request_window_seconds = 60; requests_per_window = 3 }

abbrev window : RequestWindow
window = record { client_hash = 7; window_start = 100; request_count = 1; rejected_count = 0 }

abbrev request : ℕ → ℕ → RequestCall
request client time = record { client = client; at_time = time }

abbrev requests : List RequestCall
requests = request 7 110 ∷ request 8 111 ∷ request 7 120 ∷ request 7 130 ∷ request 7 159 ∷ []

room_again : admitted policy 7 (requests ++ request 7 160 ∷ []) (window ∷ []) ≡ 3
unfolding consume_request admitted
room_again = refl

admitted-least_example : admitted policy 7 requests (window ∷ []) + 1 ≡ 3
admitted-least_example = admitted-least policy 7 requests (window ∷ []) window refl refl
