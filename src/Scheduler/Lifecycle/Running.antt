-- ===== src/Scheduler/Lifecycle/Running.antt =====
-- At most one scheduler runs, with three jobs.
use net_auto_ops.Base.{
  ◌≡◌, ◌≢◌, refl, sym, ap, ◌∙◌, ◌↔◌, ◌⊎◌, inl, inr, Bool, true, false, Option, none, some, List,
  All, In, Bool-cases, if◌then◌else◌,
}
use net_auto_ops.Base.Text.{Text, text, text_eq, text_eq_iff}
use net_auto_ops.Config.{Settings}
use net_auto_ops.Scheduler.Lifecycle.{
  run_scheduled_health_checks, run_scheduled_backups, run_scheduled_interface_checks, Job, Library,
  Lifecycle, not_started, interval_job, health_check_job_id, backup_job_id, interface_check_job_id,
  is_running, shut_down, push, new_scheduler, start_scheduler, stop_scheduler,
}

-- What APScheduler documents of these operations. Jobs that are added before the start are pending,
-- and the start takes them over; it may list them in another order. Nothing is said of a job whose
-- id is in use: `replace_existing` holds from the start on only.
pub record IsScheduler {S : Type 0} (lib : Library S) : Type 0 where
  pub start-running : (s : S) → lib.running (lib.start s) ≡ true
  pub shutdown-running : (wait : Bool) (s : S) → lib.running (lib.shutdown wait s) ≡ false
  pub new-running : (timezone : Text) → lib.running (lib.background_scheduler timezone) ≡ false
  pub add_job-running : (job : Job) (s : S) → lib.running (lib.add_job job s) ≡ lib.running s
  pub jobs-new :
      (timezone : Text) (job : Job) → In job (lib.get_jobs (lib.background_scheduler timezone)) → ⊥
  -- a job of a new id is added
  pub jobs-add_job :
      (job : Job) (s : S) (x : Job)
      → ((y : Job) → In y (lib.get_jobs s) → y.id ≢ job.id)
      → In x (lib.get_jobs (lib.add_job job s)) ↔ ((x ≡ job) ⊎ In x (lib.get_jobs s))
  -- a start keeps pending jobs of different ids
  pub jobs-start :
      (s : S) (x : Job)
      → lib.running s ≡ false
      → ((y : Job) → In y (lib.get_jobs s) → y.replace_existing ≡ true)
      → ((y z : Job) → In y (lib.get_jobs s) → In z (lib.get_jobs s) → y.id ≡ z.id → y ≡ z)
      → In x (lib.get_jobs (lib.start s)) ↔ In x (lib.get_jobs s)

health-ne-backup : health_check_job_id ≢ backup_job_id
unfolding text text_eq health_check_job_id backup_job_id
health-ne-backup h = let e : false ≡ true = (text_eq_iff _ _).1 h in cc

health-ne-check : health_check_job_id ≢ interface_check_job_id
unfolding text text_eq health_check_job_id interface_check_job_id
health-ne-check h = let e : false ≡ true = (text_eq_iff _ _).1 h in cc

backup-ne-check : backup_job_id ≢ interface_check_job_id
unfolding text text_eq backup_job_id interface_check_job_id
backup-ne-check h = let e : false ≡ true = (text_eq_iff _ _).1 h in cc

-- What holds of both branches.
branch :
    {A : Type 0} {x y : A} (P : A → Type 0) (b : Bool)
    → (b ≡ true → P x)
    → (b ≡ false → P y)
    → P (if b then x else y)
branch P true f g = f refl
branch P false f g = g refl

module _ {S : Type 0} (lib : Library S) (settings : Settings) where
  -- A sequence of calls takes one state to another.
  pub data Steps : Lifecycle S → Lifecycle S → Type 0 where
    done : (s : Lifecycle S) → Steps s s
    started : {s t : Lifecycle S} → Steps s t → Steps s (start_scheduler lib settings t).1
    stopped : {s t : Lifecycle S} → Steps s t → Steps s (stop_scheduler lib t)

  -- The three jobs, with the intervals of the settings.
  abbrev pub IsConfigured : Job → Type 0
  IsConfigured job =
      (job
        ≡ interval_job run_scheduled_interface_checks settings.interface_check_interval_minutes
            interface_check_job_id)
      ⊎ (job ≡ interval_job run_scheduled_backups settings.backup_interval_minutes backup_job_id)
      ⊎ (job
          ≡ interval_job run_scheduled_health_checks settings.health_check_interval_minutes
              health_check_job_id)

  -- The scheduler runs, with exactly these jobs.
  pub record Runs (s : S) : Type 0 where
    pub is_running : lib.running s ≡ true
    pub jobs : (job : Job) → In job (lib.get_jobs s) ↔ IsConfigured job

  abbrev pub RunsIfAny : Option S → Type 0
  RunsIfAny none = Unit
  RunsIfAny (some s) = Runs s

  pub record IsSingle (state : Lifecycle S) : Type 0 where
    pub current : RunsIfAny state.scheduler
    pub others : All (λ s. lib.running s ≡ false) state.past

  module _ (laws : IsScheduler lib) where
    -- The jobs one after the other.
    abbrev health_job : Job
    health_job =
        interval_job run_scheduled_health_checks settings.health_check_interval_minutes
          health_check_job_id

    abbrev backup_job : Job
    backup_job = interval_job run_scheduled_backups settings.backup_interval_minutes backup_job_id

    abbrev check_job : Job
    check_job =
        interval_job run_scheduled_interface_checks settings.interface_check_interval_minutes
          interface_check_job_id

    abbrev with_health_job : S
    with_health_job = lib.add_job health_job (lib.background_scheduler (text "UTC"))

    abbrev with_backup_job : S
    with_backup_job = lib.add_job backup_job with_health_job

    abbrev with_check_job : S
    with_check_job = lib.add_job check_job with_backup_job

    with_health_job-jobs : (x : Job) → In x (lib.get_jobs with_health_job) ↔ (x ≡ health_job)
    with_health_job-jobs x =
        let none_yet = laws.jobs-new (text "UTC") in
        let (to, from) = laws.jobs-add_job health_job _ x (λ y h. absurd (none_yet y h)) in
        ((λ h. elim (to h) [ inl e ↦ e | inr m ↦ absurd (none_yet x m) ]), λ e. from (inl e))

    with_backup_job-jobs :
        (x : Job) → In x (lib.get_jobs with_backup_job) ↔ ((x ≡ backup_job) ⊎ (x ≡ health_job))
    unfolding interval_job
    with_backup_job-jobs x =
        let before = with_health_job-jobs in
        let (to, from) =
          laws.jobs-add_job backup_job with_health_job x
            (λ y h same. health-ne-backup (sym (ap (λ j. j.id) ((before y).0 h)) ∙ same)) in
        (
          (λ h. elim (to h) [ inl e ↦ inl e | inr m ↦ inr ((before x).0 m) ]),
          λ h. elim h [ inl e ↦ from (inl e) | inr e ↦ from (inr ((before x).1 e)) ],
        )

    with_check_job-jobs : (x : Job) → In x (lib.get_jobs with_check_job) ↔ IsConfigured x
    unfolding interval_job
    with_check_job-jobs x =
        let before = with_backup_job-jobs in
        let (to, from) = laws.jobs-add_job check_job with_backup_job x (λ y h same.
          elim ((before y).0 h) [
            | inl e ↦ backup-ne-check (sym (ap (λ j. j.id) e) ∙ same)
            | inr e ↦ health-ne-check (sym (ap (λ j. j.id) e) ∙ same)
          ]) in
        (
          (λ h. elim (to h) [ inl e ↦ inl e | inr m ↦ inr ((before x).0 m) ]),
          λ h. elim h [ inl e ↦ from (inl e) | inr e ↦ from (inr ((before x).1 e)) ],
        )

    IsConfigured-replaces : (x : Job) → IsConfigured x → x.replace_existing ≡ true
    unfolding interval_job
    IsConfigured-replaces x (inl e) = ap (λ j. j.replace_existing) e
    IsConfigured-replaces x (inr (inl e)) = ap (λ j. j.replace_existing) e
    IsConfigured-replaces x (inr (inr e)) = ap (λ j. j.replace_existing) e

    -- Of jobs with different ids, those with the same id are the same.
    same_id : (x y a b : Job) → x ≡ a → y ≡ b → a.id ≢ b.id → x.id ≡ y.id → x ≡ y
    same_id x y a b e f n h = absurd (n (sym (ap (λ j. j.id) e) ∙ h ∙ ap (λ j. j.id) f))

    IsConfigured-id : (x y : Job) → IsConfigured x → IsConfigured y → x.id ≡ y.id → x ≡ y
    unfolding interval_job
    IsConfigured-id x y (inl e) (inl f) h = e ∙ sym f
    IsConfigured-id x y (inr (inl e)) (inr (inl f)) h = e ∙ sym f
    IsConfigured-id x y (inr (inr e)) (inr (inr f)) h = e ∙ sym f
    IsConfigured-id x y (inl e) (inr (inl f)) h =
        same_id x y check_job backup_job e f (λ q. backup-ne-check (sym q)) h
    IsConfigured-id x y (inl e) (inr (inr f)) h =
        same_id x y check_job health_job e f (λ q. health-ne-check (sym q)) h
    IsConfigured-id x y (inr (inl e)) (inl f) h =
        same_id x y backup_job check_job e f backup-ne-check h
    IsConfigured-id x y (inr (inl e)) (inr (inr f)) h =
        same_id x y backup_job health_job e f (λ q. health-ne-backup (sym q)) h
    IsConfigured-id x y (inr (inr e)) (inl f) h =
        same_id x y health_job check_job e f health-ne-check h
    IsConfigured-id x y (inr (inr e)) (inr (inl f)) h =
        same_id x y health_job backup_job e f health-ne-backup h

    with_check_job-running : lib.running with_check_job ≡ false
    with_check_job-running =
        laws.add_job-running check_job _
        ∙ laws.add_job-running backup_job _
        ∙ laws.add_job-running health_job _
        ∙ laws.new-running (text "UTC")

    new_scheduler-jobs :
        (job : Job) → In job (lib.get_jobs (new_scheduler lib settings)) ↔ IsConfigured job
    unfolding new_scheduler
    new_scheduler-jobs x =
        let added = with_check_job-jobs in
        let (to, from) =
          laws.jobs-start with_check_job x with_check_job-running
            (λ y h. IsConfigured-replaces y ((added y).0 h))
            (λ y z h k. IsConfigured-id y z ((added y).0 h) ((added z).0 k)) in
        ((λ h. (added x).0 (to h)), λ h. from ((added x).1 h))

    new_scheduler-running : lib.running (new_scheduler lib settings) ≡ true
    unfolding new_scheduler
    new_scheduler-running = laws.start-running _

    new_scheduler-Runs : Runs (new_scheduler lib settings)
    new_scheduler-Runs = record { is_running = new_scheduler-running; jobs = new_scheduler-jobs }

    push-All :
        (s : Option S) (past : List S)
        → is_running lib s ≡ false
        → All (λ s. lib.running s ≡ false) past
        → All (λ s. lib.running s ≡ false) (push s past)
    push-All none past h k = k
    push-All (some s) past h k = (h, k)

    shut_down-running : (s : Option S) → is_running lib (shut_down lib s) ≡ false
    shut_down-running none = refl
    shut_down-running (some s) = elim (Bool-cases (lib.running s)) [
      | inl r ↦ rw (r, if◌then◌else◌) (laws.shutdown-running false s)
      | inr r ↦ rw (r, if◌then◌else◌) r
    ]

    start_scheduler-IsSingle :
        (state : Lifecycle S) → IsSingle state → IsSingle (start_scheduler lib settings state).1
    unfolding start_scheduler
    start_scheduler-IsSingle state single =
        branch (λ (r : Option S × Lifecycle S). IsSingle r.1) settings.scheduler_enabled
          (λ on.
            branch (λ (r : Option S × Lifecycle S). IsSingle r.1) (is_running lib state.scheduler)
              (λ r. single)
              (λ r. record {
                current = new_scheduler-Runs;
                others = push-All state.scheduler state.past r single.others;
              }))
          (λ off. single)

    stop_scheduler-IsSingle :
        (state : Lifecycle S) → IsSingle state → IsSingle (stop_scheduler lib state)
    unfolding stop_scheduler
    stop_scheduler-IsSingle state single = record {
      current = tt;
      others =
          push-All (shut_down lib state.scheduler) state.past (shut_down-running state.scheduler)
            single.others;
    }

    -- Under what APScheduler documents, and after any sequence of starts and stops of the application
    -- from its state at the import, the module's scheduler, if there is one, runs with exactly the
    -- three jobs, at the intervals of the settings, and every scheduler before it is stopped: no job
    -- is scheduled twice.
    pub Steps-IsSingle : (state : Lifecycle S) → Steps not_started state → IsSingle state
    Steps-IsSingle state (done s) = record { current = tt; others = tt }
    Steps-IsSingle state (started steps) = start_scheduler-IsSingle _ (Steps-IsSingle _ steps)
    Steps-IsSingle state (stopped steps) = stop_scheduler-IsSingle _ (Steps-IsSingle _ steps)
