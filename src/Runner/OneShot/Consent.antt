-- ===== src/Runner/OneShot/Consent.antt =====
-- Whose audio the one-shot runner of src/session_runner.rs asks for.
use text.Mathlib.Text.{◌==◌ as str_eq}
use text.Mathlib.TextEquality.{eq_iff}
use chronicle_worker.Prelude.{
  ℕ, ◌≡◌, refl, ap, ◌∙◌, ◌⊎◌, inl, inr, Bool-cases, String, List, [], ◌∷◌, Option, none, some, All,
  All-append,
}
use chronicle_worker.Ids.{SessionId, PseudoId}
use chronicle_worker.Exec.{ok}
use chronicle_worker.Http.{Host, Endpoint, Participant}
use chronicle_worker.Api.{Io}
use chronicle_worker.Api.Chunks.{list_participants}
use chronicle_worker.Api.Requests.{At, list_participants-Sends}
use chronicle_worker.Pipeline.{Foreign, Library}
use chronicle_worker.Runner.Wire.{CreateInputWire}
use chronicle_worker.Runner.OneShot.{consented_one, consented, collect_speaker_tracks}
use chronicle_worker.Runner.OneShot.Requests.{Audio, collect_tracks-Sends}

-- One of the participants has this pseudo id and has given the full consent.
abbrev pub Consents : List Participant → PseudoId → Type 0
Consents [] pid = ⊥
Consents (p ∷ ps) pid =
    ((p.pseudo_id ≡ some pid) × (p.consent_scope ≡ some "full")) ⊎ Consents ps pid

-- The requests that ask for the audio of somebody, or for the list of it, ask for that of somebody
-- who consents. Other requests may be any.
abbrev pub IsPermitted : List Participant → Endpoint → Type 0
IsPermitted ps (Endpoint.chunks session pid) = Consents ps pid
IsPermitted ps (Endpoint.chunk session pid seq) = Consents ps pid
IsPermitted ps Endpoint.auth = Unit
IsPermitted ps Endpoint.heartbeat = Unit
IsPermitted ps (Endpoint.sessions_by_status status) = Unit
IsPermitted ps (Endpoint.session session) = Unit
IsPermitted ps (Endpoint.participants session) = Unit
IsPermitted ps (Endpoint.resources session kind) = Unit
IsPermitted ps (Endpoint.resource kind id) = Unit

consented_one-All :
    (p : Participant) (ps : List Participant) (pid scope : Option String)
    → p.pseudo_id ≡ pid
    → p.consent_scope ≡ scope
    → All (Consents (p ∷ ps)) (consented_one pid scope)
consented_one-All p ps none none e f = tt
consented_one-All p ps none (some scope) e f = tt
consented_one-All p ps (some pid) none e f = tt
consented_one-All p ps (some pid) (some scope) e f = elim (Bool-cases (str_eq scope "full")) [
  | inl full ↦ rw (full, All) (inl (e, f ∙ ap some ((eq_iff scope "full").0 full)), tt)
  | inr part ↦ rw (part, All) tt
]

weaken :
    (p : Participant) (ps : List Participant) (pids : List PseudoId)
    → All (Consents ps) pids
    → All (Consents (p ∷ ps)) pids
weaken p ps [] h = tt
weaken p ps (pid ∷ pids) h = (inr h.0, weaken p ps pids h.1)

consented-All : (ps : List Participant) → All (Consents ps) (consented ps)
unfolding consented
consented-All [] = tt
consented-All (p ∷ ps) =
    All-append (Consents (p ∷ ps)) (consented_one p.pseudo_id p.consent_scope) (consented ps)
      (consented_one-All p ps p.pseudo_id p.consent_scope refl refl)
      (weaken p ps (consented ps) (consented-All ps))

All-Audio :
    (ps : List Participant) (session : SessionId) (pids : List PseudoId)
    → All (Consents ps) pids
    → All (Audio (IsPermitted ps) session) pids
All-Audio ps session [] h = tt
All-Audio ps session (pid ∷ pids) h = ((h.0, λ seq. h.0), All-Audio ps session pids h.1)

module _ {t : Foreign} (lib : Library t) (host : Host (CreateInputWire t))
    (ps : List Participant) where
  -- If the data-api's list of participants is `ps` and the requests so far were permitted, then
  -- collecting the tracks of a session makes permitted requests only: each request for audio, or
  -- for a list of chunks, is for a pseudo id that a participant with the full consent has.
  pub collect_speaker_tracks-IsPermitted :
      (fuel : ℕ) (session : SessionId) (s : Io host)
      → (list_participants host session s).0 ≡ ok ps
      → All (At (IsPermitted ps)) s.trace
      → All (At (IsPermitted ps)) (collect_speaker_tracks lib host fuel session s).1.trace
  unfolding collect_speaker_tracks
  collect_speaker_tracks-IsPermitted fuel session s listed h = rw listed (
      collect_tracks-Sends lib host (IsPermitted ps) tt session fuel (consented ps)
        (All-Audio ps session (consented ps) (consented-All ps))
        (list_participants host session s).1
        (list_participants-Sends host (IsPermitted ps) tt session tt s h))
