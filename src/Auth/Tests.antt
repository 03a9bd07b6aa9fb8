-- ===== src/Auth/Tests.antt =====
-- Runs of the authentication (src/auth.rs).
use codex_api.Common.{◌≡◌, refl, true, [], ◌∷◌, ok}
use codex_api.Store.Plain.{scaled_decimals}
use codex_api.Config.Samples.{alice, bob, keys_validate}
use codex_api.Auth.Plain.{HeaderList, plain_headers}
use codex_api.Auth.Authenticate.{authenticate, identity}
use codex_api.Auth.Unique.{authenticate-own}

abbrev headers : HeaderList
headers = ("authorization", "Bearer sk-b") ∷ []

authenticate-own_example : authenticate headers (alice ∷ bob ∷ []) ≡ ok (identity bob)
authenticate-own_example =
    authenticate-own true (alice ∷ []) [] bob headers "Bearer sk-b" keys_validate refl refl
