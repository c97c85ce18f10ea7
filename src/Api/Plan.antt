-- ===== src/Api/Plan.antt =====
-- Calls that carry out a plan: a fixed list of requests and waits, made one after the other until one
-- of them fails.
use chronicle_worker.Prelude.{
  ◌≡◌, refl, sym, ap, ◌∙◌, inl, inr, ℕ, String, Bool, true, false, Bool-cases, some, List, [], ◌∷◌,
  ◌++◌, arith, leb, ◌&&◌, if◌then◌else◌,
}
use mathlib.Core.Path.{subst}
use chronicle_worker.Exec.{Outcome, ok, err, pending, Exec, pure, resume, ◌>>=◌, ◌>>◌}
use chronicle_worker.Http.{Method, Endpoint, Payload, Request, Reply, failed, response, Host}
use chronicle_worker.Api.{
  DataApiClient, Action, sent, waited, Io, Response, Call, receive, authorized, sleep, check_ok,
}

-- The actions of a list, each put in front of the trace.
abbrev pub onto {ℓ} : {A : Type ℓ} → List A → List A → List A
onto [] trace = trace
onto (a ∷ rest) trace = onto rest (a ∷ trace)

pub onto-append {ℓ} :
    {A : Type ℓ} (xs ys trace : List A) → onto (xs ++ ys) trace ≡ onto ys (onto xs trace)
onto-append [] ys trace = refl
onto-append (x ∷ xs) ys trace = onto-append xs ys (x ∷ trace)

-- The call has come back.
abbrev pub Returned : {A : Type 0} → Outcome A → Type 0
Returned (ok a) = Unit
Returned (err e) = Unit
Returned pending = ⊥

abbrev pub is_ok : {A : Type 0} → Outcome A → Bool
is_ok (ok a) = true
is_ok (err e) = false
is_ok pending = false

-- An answer with a status from 200 to 299.
abbrev pub good : {Body : Type 0} → Reply Body → Bool
good (failed e) = false
good (response code body) = leb 200 code && leb code 299

module _ {Row : Type 0} (host : Host Row) where
  -- What carries out a plan: its requests and waits in turn, up to the first request whose answer is
  -- not good. The first component tells whether all answers were good.
  abbrev pub carry_out : List (Action Row) → Io host → Bool × Io host
  carry_out [] s = (true, s)
  carry_out (waited ms ∷ plan) s = carry_out plan (record s { trace = waited ms ∷ s.trace })
  carry_out (sent q ∷ plan) s =
      let (reply, world) = host.send q s.world in
      let t = record s { world = world; trace = sent q ∷ s.trace } in
      let later = carry_out plan t in if good reply then later else (false, t)

  abbrev pub and_then : Bool × Io host → List (Action Row) → Bool × Io host
  and_then (b, t) plan = let later = carry_out plan t in if b then later else (false, t)

  carry_out-append :
      (p q : List (Action Row)) (s : Io host) → carry_out (p ++ q) s ≡ and_then (carry_out p s) q
  carry_out-append [] q s = refl
  carry_out-append (waited ms ∷ p) q s =
      carry_out-append p q (record s { trace = waited ms ∷ s.trace })
  carry_out-append (sent r ∷ p) q s =
      let (reply, world) = host.send r s.world in
      elim (Bool-cases (good reply)) [
        | inl e ↦ rw e (carry_out-append p q (record s { world = world; trace = sent r ∷ s.trace }))
        | inr e ↦ rw e refl
      ]

module _ {Row : Type 0} {host : Host Row} {A : Type 0} where
  -- From `s`, with outcome `r`, the state `s'` is that in which carrying out the plan ends, and the
  -- client is kept. The call succeeds just if all answers were good and so is what comes after them,
  -- as `last` tells.
  pub record Stops (last : Bool) (plan : List (Action Row)) (s : Io host) (r : Outcome A)
      (s' : Io host) : Type 0 where
    pub same_client : s'.client ≡ s.client
    pub passed : Bool
    pub carried : carry_out host plan s ≡ (passed, s')
    pub succeeds : is_ok r ≡ (passed && last)
    pub returned : Returned r

module _ {Row : Type 0} {host : Host Row} {S : Type 0} (io : S → Io host) where
  -- The call, on a state that holds the network's, carries out the plan; that depends on the token
  -- that the requests bear.
  abbrev pub Follows : {A : Type 0} → (String → List (Action Row)) → Exec S A → Type 0
  Follows plan m =
      (s : S) → Stops true (plan (io s).client.session_token) (io s) (m s).0 (io (m s).1)

  pub Follows-pure : {A : Type 0} (a : A) → Follows (λ token. []) (pure a)
  Follows-pure a s = record {
    same_client = refl;
    passed = true;
    carried = refl;
    succeeds = refl;
    returned = tt;
  }

  pub Follows-eq :
      {A : Type 0} (p q : String → List (Action Row)) (m : Exec S A)
      → ((token : String) → p token ≡ q token)
      → Follows p m
      → Follows q m
  Follows-eq p q m e f s =
      subst (λ l. Stops true l (io s) (m s).0 (io (m s).1)) (e (io s).client.session_token) (f s)

  -- The plan of two calls is the first one's and then the second one's.
  pub Stops-then :
      {A B : Type 0} (last : Bool) (p q : List (Action Row)) (s t : Io host) (r : Outcome A)
      → Stops true p s r t
      → (n : Exec S B) (u : S) → io u ≡ t
      → Stops last q t (n u).0 (io (n u).1)
      → (let (r', u') = resume r (λ _. n) u in Stops last (p ++ q) s r' (io u'))
  Stops-then last p q s t (ok a) c n u e d =
      let all : c.passed ≡ true = ground (arith, c.succeeds) in
      record {
        same_client = d.same_client ∙ c.same_client;
        passed = d.passed;
        carried =
            carry_out-append host p q s
            ∙ ap (λ x. and_then host x q) (c.carried ∙ ap (λ b. (b, t)) all)
            ∙ d.carried;
        succeeds = d.succeeds;
        returned = d.returned;
      }
  Stops-then last p q s t (err x) c n u e d =
      let bad : c.passed ≡ false = ground (arith, c.succeeds) in
      record {
        same_client = ap (λ (i : Io host). i.client) e ∙ c.same_client;
        passed = false;
        carried =
            carry_out-append host p q s
            ∙ ap (λ x. and_then host x q) (c.carried ∙ ap (λ b. (b, t)) bad)
            ∙ ap (λ i. (false, i)) (sym e);
        succeeds = refl;
        returned = tt;
      }
  Stops-then last p q s t pending c n u e d = absurd c.returned

  pub Follows-then :
      {A B : Type 0} (p q : String → List (Action Row)) (m : Exec S A) (n : Exec S B)
      → Follows p m
      → Follows q n
      → Follows (λ token. p token ++ q token) (m >> n)
  Follows-then p q m n fm fn s =
      let c = fm s in
      Stops-then true _ _ (io s) (io (m s).1) (m s).0 c n (m s).1 refl (
        subst
          (λ (x : DataApiClient).
            Stops true (q x.session_token) (io (m s).1) (n (m s).1).0 (io (n (m s).1).1))
          c.same_client (fn (m s).1))

module _ {Row : Type 0} (host : Host Row) where
  abbrev pub here : Io host → Io host
  here s = s

  abbrev pub request : Method → Endpoint → Payload Row → String → List (Action Row)
  request method endpoint payload token =
      sent (record { method = method; endpoint = endpoint; bearer = some token; payload = payload })
      ∷ []

  pub Follows-sleep : (ms : ℕ) → Follows here (λ token. waited ms ∷ []) (sleep host ms)
  Follows-sleep ms s = record {
    same_client = refl;
    passed = true;
    carried = refl;
    succeeds = refl;
    returned = tt;
  }

  -- What follows the answer leaves the state alone, returns, and succeeds on a good one.
  abbrev pub IsQuiet : {A : Type 0} → (Response host → Call host A) → Type 0
  IsQuiet {A} k =
      (resp : Response host) (s : Io host)
      → ((k resp s).1 ≡ s)
        × Returned (k resp s).0
        × (is_ok (k resp s).0 ≡ (leb 200 resp.code && leb resp.code 299))

  received :
      {A : Type 0} (reply : Reply host.Body) (k : Response host → Call host A) (t : Io host)
      → IsQuiet k
      → (let (r, u) = (receive host reply >>= k) t in (u ≡ t) × Returned r × (is_ok r ≡ good reply))
  received (failed x) k t q = (refl, tt, refl)
  received (response code body) k t q = q (record { code = code; body = body }) t

  pair_of : (b : Bool) (t : Io host) → and_then host (b, t) [] ≡ (b, t)
  pair_of true t = refl
  pair_of false t = refl

  and_true : (b : Bool) → b ≡ (b && true)
  and_true true = refl
  and_true false = refl

  -- One request, and a handling of the answer that makes no other.
  pub Follows-request :
      {A : Type 0} (method : Method) (endpoint : Endpoint) (payload : Payload Row)
      (k : Response host → Call host A)
      → IsQuiet k
      → Follows here
          (request method endpoint payload)
          (authorized host method endpoint payload >>= k)
  Follows-request method endpoint payload k q s =
      let r : Request Row = record {
        method = method;
        endpoint = endpoint;
        bearer = some s.client.session_token;
        payload = payload;
      } in
      let (reply, world) = host.send r s.world in
      let t = record s { world = world; trace = sent r ∷ s.trace } in
      let (same, back, fine) = received reply k t q in
      record {
        same_client = ap (λ (i : Io host). i.client) same;
        passed = good reply;
        carried = pair_of (good reply) t ∙ ap (λ i. (good reply, i)) (sym same);
        succeeds = fine ∙ and_true (good reply);
        returned = back;
      }

  pub check_then-IsQuiet : {A : Type 0} (a : A) → IsQuiet (λ resp. check_ok host resp >> pure a)
  unfolding check_ok
  check_then-IsQuiet a resp s = ground arith
