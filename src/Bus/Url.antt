-- ===== src/Bus/Url.antt =====
-- src/ws.rs: the address of the bus as it is logged.
use chronicle_worker.Prelude.{
  ℕ, ◌≡◌, ap, sym, ◌∙◌, String, Option, none, some, List, [], ◌++◌, arith,
}
use mathlib.Core.List.{append_assoc}
use chronicle_worker.Strings.{codes}
use chronicle_worker.Strings.Search.{split_once, head_of, split_once-head, split_once-found}
use chronicle_worker.Api.{DataApiClient}
use chronicle_worker.Api.Address.{ws_url, ws_base}

abbrev redacted : List ℕ → Option (List ℕ × List ℕ) → List ℕ
redacted url (some (head, tail)) = head ++ codes "token=REDACTED"
redacted url none = url

unfoldable pub redact_token : List ℕ → List ℕ
unfolding split_once
redact_token url = redacted url (split_once (codes "token=") url)

redacted-head :
    (url : List ℕ) (found : Option (List ℕ × List ℕ)) (head : List ℕ)
    → head_of found ≡ some head
    → redacted url found ≡ head ++ codes "token=REDACTED"
redacted-head url (some (a, t)) head h = grind arith
redacted-head url none head h = grind arith

-- The rest of "token=".
abbrev oken : List ℕ
oken = codes "oken="

redact_token-found :
    (before : List ℕ)
    → (head : List ℕ) × ((token : List ℕ)
        → redact_token (before ++ (codes "token=" ++ token)) ≡ head ++ codes "token=REDACTED")
unfolding redact_token
redact_token-found before =
    let (head, e) = split_once-found 116 oken before [] in
    (
      head,
      λ token.
          redacted-head (before ++ (codes "token=" ++ token))
            (split_once (codes "token=") (before ++ (codes "token=" ++ token))) head
            (split_once-head 116 oken before token ∙ sym (split_once-head 116 oken before []) ∙ e),
    )

-- What is logged of the address of the bus does not depend on the client's token, and ends where the
-- token would be.
pub redact_token-ws_url :
    (client : DataApiClient) (token : String)
    → (redact_token (ws_url (record client { session_token = token }))
        ≡ redact_token (ws_url client))
      × ((head : List ℕ) × (redact_token (ws_url client) ≡ head ++ codes "token=REDACTED"))
unfolding ws_url
redact_token-ws_url client token =
    let path : List ℕ = codes "/internal/ws?" in
    let (head, e) = redact_token-found (ws_base (codes client.base_url) ++ path) in
    let in_url = λ (t : String).
      ap redact_token
        (sym (append_assoc (ws_base (codes client.base_url)) path (codes "token=" ++ codes t)))
      ∙ e (codes t) in
    (in_url token ∙ sym (in_url client.session_token), (head, in_url client.session_token))
