-- ===== src/Server/Auditing.antt =====
-- The audit logger neither loses nor reorders what it accepts (internal/server/audit.go).
use mathlib.Core.List.{append_assoc, append-nil}
use hearsay.Base.{
  suc, ◌<◌, ◌≤◌, ◌≡◌, refl, sym, ap, ◌∙◌, Bool, true, false, not, ◌&&◌, List, [], ◌∷◌, ◌++◌, length,
  length-append, leb, ltb, arith, ◌⊎◌, inl, inr, Bool-cases, if◌then◌else◌, any-append,
}
use hearsay.Base.Int.{ℤ, ◌≤ℤ◌, leb_ℤ, eq_ℤ, Time}
use hearsay.Base.Text.{Text, text_eq, text_eq_refl, codes}
use hearsay.Provider.{AuditEvent}
use hearsay.Memory.{Provider, append_audit}
use hearsay.Server.Audit.{
  Logger, Entry, should_log, event_of, enqueue, log, flush, batched, receive, tick, audit_off,
  audit_coordination, audit_security, audit_full, batch_size, capacity, is_one_of,
  coordination_events, security_events,
}

coordination_is_security :
    (event_type : Text)
    → is_one_of coordination_events event_type ≡ true
    → is_one_of security_events event_type ≡ true
coordination_is_security event_type h =
    rw
      (
        any-append (λ u. text_eq event_type u) coordination_events
            (codes "auth_failure" ∷ codes "rate_limit" ∷ []),
        h,
      )
      refl

-- `ShouldLog` at the level that the integers `low` and `high` stand for, with its two lists.
by_level : (level : ℤ) (sec coord : Bool) → Bool
by_level level sec coord =
    if leb_ℤ audit_full level
    then true
    else if leb_ℤ audit_security level
    then sec
    else if leb_ℤ audit_coordination level
    then coord
    else false

by_level-monotone :
    (low high : ℤ) (sec coord : Bool)
    → low ≤ℤ high
    → (coord ≡ true → sec ≡ true)
    → by_level low sec coord ≡ true
    → by_level high sec coord ≡ true
unfolding by_level
by_level-monotone low high sec coord h f e = ground arith

-- A higher level audits whatever a lower level does.
pub should_log-monotone :
    (low high : ℤ) (event_type : Text)
    → low ≤ℤ high
    → should_log low event_type ≡ true
    → should_log high event_type ≡ true
unfolding should_log by_level
should_log-monotone low high event_type h e =
    by_level-monotone low high (is_one_of security_events event_type)
      (is_one_of coordination_events event_type) h (coordination_is_security event_type) e

Queue-cases :
    (q : List AuditEvent)
    → (q ≡ []) ⊎ ((ev : AuditEvent) × ((rest : List AuditEvent) × (q ≡ ev ∷ rest)))
Queue-cases [] = inl refl
Queue-cases (ev ∷ rest) = inr (ev, (rest, refl))

move : (s b q x : List AuditEvent) → s ++ (b ++ (q ++ x)) ≡ (s ++ (b ++ q)) ++ x
move s b q x =
    ap (λ (r : List AuditEvent). s ++ r) (sym (append_assoc b q x))
    ∙ sym (append_assoc s (b ++ q) x)

room : (q : List AuditEvent) → ltb (length q) capacity ≡ true → suc (length q) ≤ capacity
room q e = ground arith

short : (q : List AuditEvent) → leb batch_size (length q) ≡ false → length q < batch_size
short q e = ground arith

-- What happens to a logger: a call of `Log`, and the two cases of its worker.
pub data Step : Type 0 where
  logged : Time → Entry → Step
  received ticked : Step

module _ {Payload : Type 0} (marshal : List (Text × Text) → Text) where
  abbrev pub append_to : Text → List AuditEvent → Provider Payload → Provider Payload
  append_to ns events p = (append_audit ns events p).1

  abbrev pub step : Step → Logger (Provider Payload) → Logger (Provider Payload)
  step (logged now e) l = log marshal now e l
  step received l = receive append_to l
  step ticked l = tick append_to l

  -- The events in the provider, in the worker's batch and in the channel, oldest first.
  abbrev pub trail : Logger (Provider Payload) → List AuditEvent
  trail l = l.store.audit_events l.namespace ++ (l.batch ++ l.queue)

  flush-trail : (l : Logger (Provider Payload)) → trail (flush append_to l) ≡ trail l
  unfolding flush append_audit
  flush-trail l =
      rw (text_eq_refl l.namespace)
        (append_assoc (l.store.audit_events l.namespace) l.batch l.queue)

  -- The accepted events so far, in order.
  abbrev pub accepts : Time → Entry → Logger (Provider Payload) → Bool
  accepts now e l =
      not (eq_ℤ l.level audit_off)
      && should_log l.level e.event_type
      && ltb (length l.queue) capacity

  abbrev pub accepted : Step → Logger (Provider Payload) → List AuditEvent
  accepted (logged now e) l =
      if accepts now e l then event_of marshal now l.level l.namespace e ∷ [] else []
  accepted received l = []
  accepted ticked l = []

  log-trail :
      (now : Time) (e : Entry) (l : Logger (Provider Payload))
      → trail (log marshal now e l) ≡ trail l ++ accepted (logged now e) l
  unfolding log
  log-trail now e l = elim (Bool-cases (eq_ℤ l.level audit_off)) [
    | inl a ↦ rw a (sym (append-nil (trail l)))
    | inr a ↦ rw a (elim (Bool-cases (should_log l.level e.event_type)) [
      | inr b ↦ rw b (sym (append-nil (trail l)))
      | inl b ↦ rw b (elim (Bool-cases (ltb (length l.queue) capacity)) [
        | inl c ↦ rw c (
            move (l.store.audit_events l.namespace) l.batch l.queue
              (event_of marshal now l.level l.namespace e ∷ []))
        | inr c ↦ rw c (sym (append-nil (trail l)))
      ])
    ])
  ]

  batched-trail : (l : Logger (Provider Payload)) → trail (batched append_to l) ≡ trail l
  batched-trail l = elim (Bool-cases (leb batch_size (length l.batch))) [
    | inl e ↦ rw e (flush-trail l)
    | inr e ↦ rw e refl
  ]

  receive-trail : (l : Logger (Provider Payload)) → trail (receive append_to l) ≡ trail l
  unfolding receive
  receive-trail l = elim (Queue-cases l.queue) [
    | inl e ↦ rw e refl
    | inr (ev, (rest, e)) ↦ rw e (
        batched-trail (record l { queue = rest; batch = l.batch ++ (ev ∷ []) })
        ∙ ap (λ (q : List AuditEvent). l.store.audit_events l.namespace ++ q)
            (append_assoc l.batch (ev ∷ []) rest))
  ]

  tick-trail : (l : Logger (Provider Payload)) → trail (tick append_to l) ≡ trail l
  unfolding tick
  tick-trail l = elim (Queue-cases l.batch) [
    | inl e ↦ rw e refl
    | inr (ev, (rest, e)) ↦ rw e (flush-trail (record l { batch = ev ∷ rest }))
  ]

  step-trail :
      (s : Step) (l : Logger (Provider Payload)) → trail (step s l) ≡ trail l ++ accepted s l
  step-trail (logged now e) l = log-trail now e l
  step-trail received l = receive-trail l ∙ sym (append-nil (trail l))
  step-trail ticked l = tick-trail l ∙ sym (append-nil (trail l))

  abbrev pub run : List Step → Logger (Provider Payload) → Logger (Provider Payload)
  run [] l = l
  run (s ∷ steps) l = run steps (step s l)

  -- The events that the run puts into the channel.
  abbrev pub all_accepted : List Step → Logger (Provider Payload) → List AuditEvent
  all_accepted [] l = []
  all_accepted (s ∷ steps) l = accepted s l ++ all_accepted steps (step s l)

  -- Whatever calls, receipts and ticks come in whatever order, the events in the provider, in the
  -- batch and in the channel are, in order, those that were there before and those that the
  -- channel accepted: none is lost, doubled or moved.
  pub audit_in_order :
      (steps : List Step) (l : Logger (Provider Payload))
      → trail (run steps l) ≡ trail l ++ all_accepted steps l
  audit_in_order [] l = sym (append-nil (trail l))
  audit_in_order (s ∷ steps) l =
      audit_in_order steps (step s l)
      ∙ rw (step-trail s l) (append_assoc (trail l) (accepted s l) (all_accepted steps (step s l)))

  -- The worker holds fewer events than a batch, and the channel no more than its capacity.
  pub record IsBounded (l : Logger (Provider Payload)) : Type 0 where
    pub batch : length l.batch < batch_size
    pub queue : length l.queue ≤ capacity

  enqueue-IsBounded :
      (ev : AuditEvent) (l : Logger (Provider Payload))
      → IsBounded l
      → IsBounded (enqueue marshal ev l)
  enqueue-IsBounded ev l h = elim (Bool-cases (ltb (length l.queue) capacity)) [
    | inl e ↦ rw e (record {
      batch = h.batch;
      queue = omega (arith, length-append l.queue (ev ∷ []), room l.queue e);
    })
    | inr e ↦ rw e h
  ]

  log-IsBounded :
      (now : Time) (e : Entry) (l : Logger (Provider Payload))
      → IsBounded l
      → IsBounded (log marshal now e l)
  unfolding log
  log-IsBounded now e l h = elim (Bool-cases (eq_ℤ l.level audit_off)) [
    | inl a ↦ rw a h
    | inr a ↦ rw a (elim (Bool-cases (should_log l.level e.event_type)) [
      | inl b ↦ rw b (enqueue-IsBounded (event_of marshal now l.level l.namespace e) l h)
      | inr b ↦ rw b h
    ])
  ]

  batched-IsBounded :
      (l : Logger (Provider Payload)) → length l.queue ≤ capacity → IsBounded (batched append_to l)
  unfolding flush
  batched-IsBounded l h = elim (Bool-cases (leb batch_size (length l.batch))) [
    | inl e ↦ rw e (record { batch = omega arith; queue = h })
    | inr e ↦ rw e (record { batch = short l.batch e; queue = h })
  ]

  step-IsBounded : (s : Step) (l : Logger (Provider Payload)) → IsBounded l → IsBounded (step s l)
  unfolding log receive tick flush
  step-IsBounded (logged now e) l h = log-IsBounded now e l h
  step-IsBounded received l h = elim (Queue-cases l.queue) [
    | inl e ↦ rw e (record { batch = h.batch; queue = omega arith })
    | inr (ev, (rest, e)) ↦ rw e (
        batched-IsBounded (record l { queue = rest; batch = l.batch ++ (ev ∷ []) })
          (omega (arith, ap (λ (q : List AuditEvent). length q) e, h.queue)))
  ]
  step-IsBounded ticked l h = elim (Queue-cases l.batch) [
    | inl e ↦ rw e (record { batch = omega arith; queue = h.queue })
    | inr (ev, (rest, e)) ↦ rw e (record { batch = omega arith; queue = h.queue })
  ]

  -- A logger that holds less than a batch, and a channel within its capacity, stay so: the worker
  -- flushes every batch of 32, and a full channel takes no event.
  pub run-IsBounded :
      (steps : List Step) (l : Logger (Provider Payload)) → IsBounded l → IsBounded (run steps l)
  run-IsBounded [] l h = h
  run-IsBounded (s ∷ steps) l h = run-IsBounded steps (step s l) (step-IsBounded s l h)
