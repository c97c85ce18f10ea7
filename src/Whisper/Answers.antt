-- ===== src/Whisper/Answers.antt =====
-- src/whisper.rs: which answers of the server the pipeline may try again.
use chronicle_worker.Prelude.{
  ℕ, ◌≤◌, ◌<◌, ◌≡◌, ◌↔◌, ◌⊎◌, refl, inl, inr, Bool, true, false, ◌||◌, ◌==◌, List, [], ◌∷◌, arith,
}
use chronicle_worker.Http.{Parsed, parsed, broken}
use chronicle_worker.Api.{is_success, is_server_error}
use chronicle_worker.Whisper.Wav.{Floats, encode_wav_pcm16}
use chronicle_worker.Whisper.{
  Server, Reply, unsent, response, SendError, transient, fatal, Answer, ok, err, Transcription,
  WhisperResp, HttpWhisperClient, form, classify, read_reply, read_json, exchange, transcribe,
  confidence_of,
}

abbrev pub IsBroken : {A : Type 0} → Parsed A → Type 0
IsBroken (parsed a) = ⊥
IsBroken (broken e) = Unit

abbrev pub IsParsed : {A : Type 0} → Parsed A → Type 0
IsParsed (parsed a) = Unit
IsParsed (broken e) = ⊥

abbrev pub IsTransient : {A : Type 0} → Answer A → Type 0
IsTransient (err (transient text)) = Unit
IsTransient _ = ⊥

abbrev pub IsOk : {A : Type 0} → Answer A → Type 0
IsOk (ok a) = Unit
IsOk (err e) = ⊥

abbrev pub IsSuccess : ℕ → Type 0
IsSuccess code = (200 ≤ code) × (code < 300)

abbrev pub IsRetried : ℕ → Type 0
IsRetried code = ((500 ≤ code) × (code < 600)) ⊎ (code ≡ 408) ⊎ (code ≡ 429)

-- What may be different another time: the server or the network failed, or the body was not JSON.
abbrev pub MayPass : {Body A : Type 0} → (Body → Parsed A) → Reply Body → Type 0
MayPass json (unsent e) = (e.is_timeout ≡ true) ⊎ (e.is_connect ≡ true) ⊎ (e.is_request ≡ true)
MayPass json (response code body) = IsRetried code ⊎ (IsSuccess code × IsBroken (json body))

abbrev pub IsUsable : {Body A : Type 0} → (Body → Parsed A) → Reply Body → Type 0
IsUsable json (unsent e) = ⊥
IsUsable json (response code body) = IsSuccess code × IsParsed (json body)

abbrev retried : ℕ → Bool
retried code = is_server_error code || code == 408 || code == 429

any-cases :
    (a b c : Bool)
    → (((a ≡ true) ⊎ (b ≡ true) ⊎ (c ≡ true)) × ((a || b || c) ≡ true))
      ⊎ ((((a ≡ true) ⊎ (b ≡ true) ⊎ (c ≡ true)) → ⊥) × ((a || b || c) ≡ false))
any-cases true b c = inl (inl refl, refl)
any-cases false true c = inl (inr (inl refl), refl)
any-cases false false true = inl (inr (inr refl), refl)
any-cases false false false = inr (ground arith, refl)

retried-cases :
    (code : ℕ)
    → (IsRetried code × (retried code ≡ true)) ⊎ ((IsRetried code → ⊥) × (retried code ≡ false))
retried-cases code = ground arith

IsSuccess-cases :
    (code : ℕ)
    → (IsSuccess code × (IsRetried code → ⊥) × (is_success code ≡ true))
      ⊎ ((IsSuccess code → ⊥) × (is_success code ≡ false))
IsSuccess-cases code = ground arith

module _ (f : Floats) (server : Server f.F32) where
  classify-IsTransient :
      (e : SendError)
      → IsTransient {A = Transcription f.F32} (err (classify e))
        ↔ ((e.is_timeout ≡ true) ⊎ (e.is_connect ≡ true) ⊎ (e.is_request ≡ true))
  unfolding classify
  classify-IsTransient e = elim (any-cases e.is_timeout e.is_connect e.is_request) [
    | inl (holds, test) ↦ rw test (λ _. holds, λ _. tt)
    | inr (none_holds, test) ↦ rw test (λ h. absurd h, λ h. absurd (none_holds h))
  ]

  read_json-classes :
      (parse : Parsed (WhisperResp f.F32))
      → (IsTransient (read_json f server parse) ↔ IsBroken parse)
        × (IsOk (read_json f server parse) ↔ IsParsed parse)
  unfolding confidence_of
  read_json-classes (parsed resp) = ((λ h. h, λ h. h), (λ h. h, λ h. h))
  read_json-classes (broken e) = ((λ h. h, λ h. h), (λ h. h, λ h. h))

  read_reply-classes :
      (reply : Reply server.Body)
      → (IsTransient (read_reply f server reply) ↔ MayPass server.json reply)
        × (IsOk (read_reply f server reply) ↔ IsUsable server.json reply)
  read_reply-classes (unsent e) = (classify-IsTransient e, (λ h. h, λ h. h))
  read_reply-classes (response code body) =
      let (t, o) = read_json-classes (server.json body) in
      elim (IsSuccess-cases code) [
        | inl (good, not_retried, test) ↦ rw test (
          (
            λ h. inr (good, t.0 h),
            λ h. elim h [ inl again ↦ absurd (not_retried again) | inr (_, broke) ↦ t.1 broke ],
          ),
          (λ h. (good, o.0 h), λ h. o.1 h.1),
        )
        | inr (bad, test) ↦ elim (retried-cases code) [
          | inl (again, test') ↦
              rw (test, test') ((λ _. inl again, λ _. tt), (λ h. absurd h, λ h. absurd (bad h.0)))
          | inr (never, test') ↦
              rw (test, test')
                (
                  (
                    λ h. absurd h,
                    λ h. elim h [
                      | inl again ↦ absurd (never again)
                      | inr (good, _) ↦ absurd (bad good)
                    ],
                  ),
                  (λ h. absurd h, λ h. absurd (bad h.0)),
                )
        ]
      ]

  abbrev pub Classes : Reply server.Body → Answer (Transcription f.F32) → Type 0
  Classes reply answer =
      (IsTransient answer ↔ MayPass server.json reply) × (IsOk answer ↔ IsUsable server.json reply)

  exchange-Classes :
      (c : HttpWhisperClient f.F32) (wav : List ℕ) (mime : Parsed (Unit {0})) (w : server.World)
      → mime ≡ parsed tt
      → ((exchange f server c wav mime w).1 ≡ (server.post c.endpoint (form f server c wav) w).1)
        × Classes
            (server.post c.endpoint (form f server c wav) w).0
            (exchange f server c wav mime w).0
  exchange-Classes c wav (parsed u) w h =
      (refl, read_reply-classes (server.post c.endpoint (form f server c wav) w).0)
  exchange-Classes c wav (broken e) w h = ground arith

  -- For audio that is not empty, and where reqwest takes the MIME type, `transcribe` posts one form
  -- and its answer follows from the reply: an error is transient if and only if the request timed
  -- out, did not connect or was not sent, or the status is 5xx, 408 or 429, or it is 2xx with a
  -- body that does not decode; and there is a transcription if and only if the status is 2xx and
  -- the body decodes. For empty audio it posts nothing and the error is fatal.
  pub transcribe-Classes :
      (c : HttpWhisperClient f.F32) (a : f.F32) (audio : List f.F32) (rate : ℕ) (w : server.World)
      → server.wav_mime ≡ parsed tt
      → (let posted =
            server.post c.endpoint (form f server c (encode_wav_pcm16 f (a ∷ audio) rate)) w in
          let run = transcribe f server c (a ∷ audio) rate w in
          (run.1 ≡ posted.1) × Classes posted.0 run.0)
        × (transcribe f server c [] rate w ≡ (err (fatal "empty audio"), w))
  unfolding transcribe
  transcribe-Classes c a audio rate w h =
      (exchange-Classes c (encode_wav_pcm16 f (a ∷ audio) rate) server.wav_mime w h, refl)
