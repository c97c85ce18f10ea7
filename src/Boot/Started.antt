-- ===== src/Boot/Started.antt =====
-- src/main.rs: when the worker gets to its loop.
use chronicle_worker.Prelude.{
  ℕ, ◌≡◌, ◌↔◌, ◌<◌, ◌*◌, ◌⊎◌, refl, ap, inl, inr, false, String, List, arith, ◌==◌, Bool-cases,
}
use chronicle_worker.Error.{Result}
use chronicle_worker.Exec.{Outcome}
use chronicle_worker.Http.{Host, Parsed, parsed, broken}
use chronicle_worker.Config.{Config, resolved_shared_secret, retry_backoffs, poll_interval}
use chronicle_worker.Api.{Io, authenticate}
use chronicle_worker.Admin.{serve}
use chronicle_worker.EventLoop.{Loop}
use chronicle_worker.EventLoop.Handlers.{startup_reconcile}
use chronicle_worker.EventLoop.Steps.{start}
use chronicle_worker.Boot.{
  Boot, done, failed, waiting, panicked, of_result, of_outcome, ◌>>=◌, interval, Given, served, run,
  main,
}

done-bind :
    {A B : Type 0} (m : Boot A) (f : A → Boot B) (b : B)
    → ((m >>= f) ≡ done b) ↔ ((a : A) × (m ≡ done a) × (f a ≡ done b))
done-bind (done a) f b = (λ h. (a, refl, h), λ (a', e, h). cc)
done-bind (failed e) f b = (λ h. absurd (grind arith), λ (a', e', h). absurd (grind arith))
done-bind waiting f b = (λ h. absurd (grind arith), λ (a', e', h). absurd (grind arith))
done-bind panicked f b = (λ h. absurd (grind arith), λ (a', e', h). absurd (grind arith))

of_result-done : {A : Type 0} (r : Result A) (a : A) → (of_result r ≡ done a) ↔ (r ≡ Result.ok a)
of_result-done (Result.ok b) a = (λ h. cc, λ h. cc)
of_result-done (Result.err e) a = (λ h. absurd (grind arith), λ h. absurd (grind arith))

of_outcome-done :
    {A : Type 0} (r : Outcome A) (a : A) → (of_outcome r ≡ done a) ↔ (r ≡ Outcome.ok a)
of_outcome-done (Outcome.ok b) a = (λ h. cc, λ h. cc)
of_outcome-done (Outcome.err e) a = (λ h. absurd (grind arith), λ h. absurd (grind arith))
of_outcome-done Outcome.pending a = (λ h. absurd (grind arith), λ h. absurd (grind arith))

interval-done : (period : ℕ) (u : Unit {0}) → (interval period ≡ done u) ↔ (0 < period)
interval-done period u = elim (Bool-cases (period == 0)) [
  | inl none ↦ rw none (λ h. absurd (grind arith), λ h. absurd (ground arith))
  | inr some ↦ rw some (λ h. ground arith, λ h. refl)
]

bound-done :
    (bound : Parsed (Unit {0})) (bind : String) (u : Unit {0})
    → (of_result (serve bound bind) ≡ done u) ↔ (bound ≡ parsed tt)
unfolding serve
bound-done (parsed a) bind u = (λ h. refl, λ h. refl)
bound-done (broken e) bind u = (λ h. absurd (grind arith), λ h. absurd (grind arith))

bind-done :
    {A : Type 0} {B : Type 0} (m : Boot A) (f : A → Boot B) (a : A) (b : B)
    → m ≡ done a
    → f a ≡ done b
    → (m >>= f) ≡ done b
bind-done m f a b e h = (done-bind m f b).1 (a, e, h)

module _ {Row F32 SocketAddr : Type 0} (host : Host Row) (show : SocketAddr → String)
    (given : Given) where
  -- The admin surface is off, or its address can be bound.
  abbrev pub IsServed : Config F32 SocketAddr → Type 0
  IsServed cfg = (cfg.admin_enabled ≡ false) ⊎ (given.bound ≡ parsed tt)

  served-done :
      (cfg : Config F32 SocketAddr) (u : Unit {0})
      → (served host show given cfg ≡ done u) ↔ IsServed cfg
  served-done cfg u = elim (Bool-cases cfg.admin_enabled) [
    | inl on ↦
        let (there, back) = bound-done given.bound (show cfg.admin_bind_addr) u in
        rw on (
          λ h. inr (there h),
          λ h. elim h [ inl off ↦ absurd (grind arith) | inr bound ↦ back bound ],
        )
    | inr off ↦ rw off (λ h. inl refl, λ h. refl)
  ]

  -- What `run` needs in order to get to its loop, and the state in which it then is.
  abbrev pub IsBegun : Config F32 SocketAddr → ℕ → Io host → Loop host → Type 0
  IsBegun cfg now io s =
      (backoffs : List ℕ) × (retry_backoffs cfg ≡ Result.ok backoffs)
      × (0 < cfg.poll_interval_secs)
      × IsServed cfg
      × ((startup_reconcile host (start host io now backoffs)).1 ≡ s)

  run-done :
      (cfg : Config F32 SocketAddr) (now : ℕ) (io : Io host) (s : Loop host)
      → (run host show given cfg now io ≡ done s) ↔ IsBegun cfg now io s
  unfolding run poll_interval
  run-done cfg now io s =
      let period = cfg.poll_interval_secs * 1000 in
      let begin = λ (backoffs : List ℕ). (startup_reconcile host (start host io now backoffs)).1 in
      let admin =
        λ (backoffs : List ℕ). served host show given cfg >>= λ _. done (begin backoffs) in
      let timer = λ (backoffs : List ℕ). interval period >>= λ _. admin backoffs in
      (
        λ h.
            let (backoffs, a, h1) = (done-bind (of_result (retry_backoffs cfg)) timer s).0 h in
            let (u, b, h2) = (done-bind (interval period) (λ _. admin backoffs) s).0 h1 in
            let (v, c, h3) =
              (done-bind (served host show given cfg) (λ _. done (begin backoffs)) s).0 h2 in
            (
              backoffs,
              (of_result-done (retry_backoffs cfg) backoffs).0 a,
              omega (arith, (interval-done period u).0 b),
              (served-done cfg v).0 c,
              cc,
            ),
        λ (backoffs, a, b, c, h).
            bind-done (of_result (retry_backoffs cfg)) timer backoffs s
              ((of_result-done (retry_backoffs cfg) backoffs).1 a)
              (bind-done (interval period) (λ _. admin backoffs) tt s
                ((interval-done period tt).1 (omega arith))
                (bind-done (served host show given cfg) (λ _. done (begin backoffs)) tt s
                  ((served-done cfg tt).1 c) (ap done h))),
      )

  -- `main` gets to its loop in the state `s` if and only if a secret is set, the handshake gives a
  -- client with it, the schedule of retries can be read, the poll interval is not zero, and the admin
  -- surface is off or can be bound; and `s` is then the state after the reconciliation at the start,
  -- from an empty map, with that client and that schedule.
  pub main-done :
      (cfg : Config F32 SocketAddr) (now : ℕ) (w : host.World) (s : Loop host)
      → (main host show given cfg now w ≡ done s) ↔ (
          (secret : String) × (io : Io host) × (resolved_shared_secret cfg ≡ Result.ok secret)
          × ((authenticate host given.http cfg.data_api_url secret "chronicle-worker" w).0
              ≡ Outcome.ok io)
          × IsBegun cfg now io s)
  unfolding main
  main-done cfg now w s =
      let shake = λ (secret : String).
        (authenticate host given.http cfg.data_api_url secret "chronicle-worker" w).0 in
      let run_on = λ (io : Io host). run host show given cfg now io in
      let after = λ (secret : String). of_outcome (shake secret) >>= run_on in
      (
        λ h.
            let (secret, a, h1) =
              (done-bind (of_result (resolved_shared_secret cfg)) after s).0 h in
            let (io, b, h2) = (done-bind (of_outcome (shake secret)) run_on s).0 h1 in
            (
              secret,
              io,
              (of_result-done (resolved_shared_secret cfg) secret).0 a,
              (of_outcome-done (shake secret) io).0 b,
              (run-done cfg now io s).0 h2,
            ),
        λ (secret, io, a, b, h).
            bind-done (of_result (resolved_shared_secret cfg)) after secret s
              ((of_result-done (resolved_shared_secret cfg) secret).1 a)
              (bind-done (of_outcome (shake secret)) run_on io s
                ((of_outcome-done (shake secret) io).1 b) ((run-done cfg now io s).1 h)),
      )
