-- ===== src/Api/Address.antt =====
-- src/api_client.rs: the addresses that the client gives out. A URL is the list of its code points.
use chronicle_worker.Prelude.{
  ℕ, ◌≡◌, refl, ap, ◌∙◌, String, Bool, true, false, List, ◌∷◌, ◌++◌, if◌then◌else◌,
}
use chronicle_worker.Strings.{codes}
use chronicle_worker.Strings.Search.{strip_prefix, starts_with, replace_first}
use chronicle_worker.Api.{DataApiClient}

unfoldable pub ws_base : List ℕ → List ℕ
unfolding starts_with replace_first
ws_base base =
    if starts_with (codes "https") base
    then replace_first (codes "https") (codes "wss") base
    else replace_first (codes "http") (codes "ws") base

unfoldable pub ws_url : DataApiClient → List ℕ
unfolding ws_base
ws_url client =
    ws_base (codes client.base_url)
    ++ (codes "/internal/ws?" ++ (codes "token=" ++ codes client.session_token))

unfoldable pub base_url : DataApiClient → String
base_url client = client.base_url

abbrev colon : ℕ
colon = 58

ws_base-secure : (rest : List ℕ) → ws_base (codes "https" ++ rest) ≡ codes "wss" ++ rest
unfolding ws_base starts_with replace_first strip_prefix
ws_base-secure rest = refl

ws_base-plain :
    (rest : List ℕ) → ws_base (codes "http" ++ colon ∷ rest) ≡ codes "ws" ++ colon ∷ rest
unfolding ws_base starts_with replace_first strip_prefix
ws_base-plain rest = refl

-- A scheme of the data-api, and the one of the bus in its place.
abbrev scheme : Bool → List ℕ
scheme true = codes "https"
scheme false = codes "http:"

abbrev bus_scheme : Bool → List ℕ
bus_scheme true = codes "wss"
bus_scheme false = codes "ws:"

ws_base-schemes :
    (secure : Bool) (rest : List ℕ) → ws_base (scheme secure ++ rest) ≡ bus_scheme secure ++ rest
ws_base-schemes true rest = ws_base-secure rest
ws_base-schemes false rest = ws_base-plain rest

-- The address of the bus has the scheme `wss` where the base URL starts with "https", and `ws` where
-- it starts with "http:". All behind the scheme is kept, and the path and the client's token follow.
ws_url-schemes :
    (client : DataApiClient) (secure : Bool) (rest : List ℕ)
    → codes client.base_url ≡ scheme secure ++ rest
    → ws_url client
      ≡ (bus_scheme secure ++ rest) ++ (codes "/internal/ws?token=" ++ codes client.session_token)
unfolding ws_url
ws_url-schemes client secure rest h =
    ap (λ base. base ++ (codes "/internal/ws?token=" ++ codes client.session_token))
      (ap ws_base h ∙ ws_base-schemes secure rest)
