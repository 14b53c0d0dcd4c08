-- ===== src/Alerts/Delivery.antt =====
-- What `send_webhook` and `deliver_event` do to the state, and when they succeed.
use net_auto_ops.Base.{
  ℕ, zero, suc, ◌+◌, ◌*◌, ◌-◌, ◌≤◌, ◌<◌, ◌≡◌, refl, ◌∙◌, ◌⊎◌, inl, inr, List, ◌∷◌, ◌++◌, arith,
  lt→ltb, ltb_irrefl,
}
use mathlib.Core.Path.{subst}
use net_auto_ops.Base.Text.{Text, text, decimal}
use net_auto_ops.Events.{EventPayload}
use net_auto_ops.Exec.{Exn, webhook_delivery, Result, ok, raised, pure}
use net_auto_ops.External.{Env, Post, PostOutcome}
use net_auto_ops.World.{World, Action}
use net_auto_ops.Alerts.Answers.{
  IsTransient, IsAccepted, IsFinal, classify-retry, classify-delivered, classify-rejected,
}
use net_auto_ops.Alerts.Webhook.{
  Verdict, delivered, rejected, retry, classify, back_off, sleep, conclude, attempts,
}

-- The last `raise` of `send_webhook`.
abbrev pub exhausted : ℕ → Exn
exhausted max_attempts =
    webhook_delivery
      (text "Webhook delivery failed after " ++ decimal max_attempts ++ text " attempts")

-- `k` more copies of a POST in the log.
pub more_posts : Post → ℕ → List Post → List Post
more_posts post zero log = log
more_posts post (suc k) log = more_posts post k (post ∷ log)

-- The pauses between `k` attempts, the first of which is `attempt`: after each but the last one.
pub pauses : ℕ → ℕ → ℕ → List ℕ → List ℕ
pauses backoff attempt zero log = log
pauses backoff attempt (suc zero) log = log
pauses backoff attempt (suc (suc k)) log =
    pauses backoff (attempt + 1) (suc k) (backoff * attempt ∷ log)

-- The state after `k` POSTs, the first of which is `attempt`.
unfoldable pub after_tries : ℕ → Post → ℕ → ℕ → World → World
after_tries backoff post attempt k w = record w {
  post_count = w.post_count + k;
  posts = more_posts post k w.posts;
  sleeps = pauses backoff attempt k w.sleeps;
}

after_tries-zero :
    (backoff : ℕ) (post : Post) (attempt : ℕ) (w : World) → w ≡ after_tries backoff post attempt 0 w
unfolding after_tries more_posts pauses
after_tries-zero backoff post attempt w = ground arith

after_tries-one :
    (backoff : ℕ) (post : Post) (attempt : ℕ) (w : World)
    → record w { post_count = w.post_count + 1; posts = post ∷ w.posts }
      ≡ after_tries backoff post attempt 1 w
unfolding after_tries more_posts pauses
after_tries-one backoff post attempt w = ground arith

after_tries-suc :
    (backoff : ℕ) (post : Post) (attempt k : ℕ) (w : World)
    → 0 < k
    → after_tries backoff post (attempt + 1) k (record w {
      post_count = w.post_count + 1;
      posts = post ∷ w.posts;
      sleeps = backoff * attempt ∷ w.sleeps;
    })
      ≡ after_tries backoff post attempt (suc k) w
unfolding after_tries more_posts pauses
after_tries-suc backoff post attempt zero w h = absurd (omega arith)
after_tries-suc backoff post attempt (suc k) w h = ground arith

-- A fact at every index below a bound, from the one at 0 and those above.
from_head :
    (P : ℕ → Type 0) (start k : ℕ)
    → P start
    → ((i : ℕ) → i < k → P (start + 1 + i))
    → (i : ℕ) → i < suc k
    → P (start + i)
from_head P start k p h zero b = subst P (omega arith) p
from_head P start k p h (suc i) b = subst P (omega arith) (h i (omega arith))

back_off-more :
    (env : Env) (max_attempts attempt : ℕ)
    → attempt < max_attempts
    → back_off env max_attempts attempt
      ≡ sleep (env.settings.n8n_webhook_retry_backoff_seconds * attempt)
unfolding back_off
back_off-more env max_attempts attempt h = rw (lt→ltb attempt max_attempts h)

back_off-last : (env : Env) (attempt : ℕ) → back_off env attempt attempt ≡ pure tt
unfolding back_off
back_off-last env attempt = rw (ltb_irrefl attempt)

module _ (env : Env) (url : Text) (payload : EventPayload) where
  abbrev pub the_post : Post
  the_post = record { url = url; payload = payload; timeout = env.settings.n8n_webhook_timeout }

  -- The answer to the n-th POST.
  abbrev pub answer : ℕ → PostOutcome
  answer n = env.answer_post n the_post

  abbrev verdict : ℕ → Verdict
  verdict n = classify (answer n)

  abbrev posted : World → World
  posted w = record w { post_count = w.post_count + 1; posts = the_post ∷ w.posts }

  -- Why a run of `k` POSTs from the `start`-th on ends with the result `r`, when `left` of
  -- `max_attempts` were allowed.
  abbrev pub Ends : ℕ → ℕ → ℕ → ℕ → Result (Unit {0}) → Type 0
  Ends max_attempts left start k r =
      ((r ≡ ok tt) × (0 < k) × IsAccepted (answer (start + (k - 1))))
      ⊎ ((e : Exn) × (r ≡ raised e) × (0 < k) × IsFinal (answer (start + (k - 1))) e)
      ⊎ ((r ≡ raised (exhausted max_attempts))
          × (k ≡ left)
          × ((i : ℕ) → i < left → IsTransient (answer (start + i))))

  pub record Run (max_attempts attempt left : ℕ) (w : World) (out : Result (Unit {0}) × World)
      : Type 0 where
    pub tries : ℕ
    pub bounded : tries ≤ left
    pub started : 0 < left → 0 < tries
    pub state :
        out.1 ≡ after_tries env.settings.n8n_webhook_retry_backoff_seconds the_post attempt tries w
    pub retried : (i : ℕ) → suc i < tries → IsTransient (answer (w.post_count + i))
    pub result : Ends max_attempts left w.post_count tries out.0

  Ends-suc :
      (max_attempts left start k : ℕ) (r : Result (Unit {0}))
      → IsTransient (answer start)
      → 0 < k
      → Ends max_attempts left (start + 1) k r
      → Ends max_attempts (suc left) start (suc k) r
  Ends-suc max_attempts left start k r e pos (inl (p, _, d)) =
      inl (p, omega arith, subst (λ n. IsAccepted (answer n)) (omega arith) d)
  Ends-suc max_attempts left start k r e pos (inr (inl (x, p, _, d))) =
      inr (inl (x, p, omega arith, subst (λ n. IsFinal (answer n) x) (omega arith) d))
  Ends-suc max_attempts left start k r e pos (inr (inr (p, q, all))) =
      inr (inr (p, omega arith, from_head (λ n. IsTransient (answer n)) start left e all))

  Run-suc :
      (max_attempts attempt left : ℕ) (w : World) (out : Result (Unit {0}) × World)
      → IsTransient (answer w.post_count)
      → 0 < left
      → Run max_attempts
          (attempt + 1)
          left
          (record w {
            post_count = w.post_count + 1;
            posts = the_post ∷ w.posts;
            sleeps = env.settings.n8n_webhook_retry_backoff_seconds * attempt ∷ w.sleeps;
          })
          out
      → Run max_attempts attempt (suc left) w out
  Run-suc max_attempts attempt left w out e pos run = record {
    tries = suc run.tries;
    bounded = omega (arith, run.bounded);
    started = λ h. omega arith;
    state = run.state ∙ after_tries-suc _ the_post attempt run.tries w (run.started pos);
    retried = λ i h.
        from_head (λ n. IsTransient (answer n)) w.post_count (run.tries - 1) e
          (λ j b. run.retried j (omega arith)) i (omega arith);
    result = Ends-suc max_attempts left w.post_count run.tries out.0 e (run.started pos) run.result;
  }

  -- What follows an attempt, from what follows a retry.
  conclude-Run :
      (max_attempts attempt left : ℕ) (w : World) (again : Action (Unit {0})) (v : Verdict)
      → verdict w.post_count ≡ v
      → (v ≡ retry → Run max_attempts attempt (suc left) w (again (posted w)))
      → Run max_attempts attempt (suc left) w (conclude again v (posted w))
  unfolding conclude
  conclude-Run max_attempts attempt left w again delivered e go = record {
    tries = 1;
    bounded = omega arith;
    started = λ h. omega arith;
    state = after_tries-one _ the_post attempt w;
    retried = λ i h. absurd (omega arith);
    result = inl (
      refl,
      omega arith,
      subst (λ n. IsAccepted (answer n)) (omega arith) (classify-delivered (answer w.post_count) e),
    );
  }
  conclude-Run max_attempts attempt left w again (rejected x) e go = record {
    tries = 1;
    bounded = omega arith;
    started = λ h. omega arith;
    state = after_tries-one _ the_post attempt w;
    retried = λ i h. absurd (omega arith);
    result = inr (
        inl (
          x,
          refl,
          omega arith,
          subst (λ n. IsFinal (answer n) x) (omega arith)
              (classify-rejected (answer w.post_count) x e),
        ));
  }
  conclude-Run max_attempts attempt left w again retry e go = go refl

  pub attempts-Run :
      (max_attempts attempt left : ℕ) (w : World)
      → attempt + left ≡ max_attempts + 1
      → Run max_attempts attempt left w (attempts env url payload max_attempts attempt left w)
  unfolding attempts sleep
  attempts-Run max_attempts attempt zero w h = record {
    tries = 0;
    bounded = omega arith;
    started = λ h. h;
    state = after_tries-zero _ _ attempt w;
    retried = λ i h. absurd (omega arith);
    result = inr (inr (refl, refl, λ i h. absurd (omega arith)));
  }
  attempts-Run max_attempts attempt (suc zero) w h =
      conclude-Run max_attempts attempt 0 w _ (verdict w.post_count) refl (λ e.
        let same : max_attempts ≡ attempt = omega arith in
        rw (same, back_off-last env attempt)
          (record {
            tries = 1;
            bounded = omega arith;
            started = λ h. omega arith;
            state = after_tries-one _ the_post attempt w;
            retried = λ i h. absurd (omega arith);
            result = inr (
                inr (
                  refl,
                  refl,
                  from_head (λ n. IsTransient (answer n)) w.post_count 0 (classify-retry _ e)
                      (λ i b. absurd (omega arith)),
                ));
          }))
  attempts-Run max_attempts attempt (suc (suc left)) w h =
      conclude-Run max_attempts attempt (suc left) w _ (verdict w.post_count) refl (λ e.
        rw (back_off-more env max_attempts attempt (omega arith)) (
          Run-suc max_attempts attempt (suc left) w _ (classify-retry _ e) (omega arith)
            (attempts-Run max_attempts (attempt + 1) (suc left) _ (omega arith))))
