-- ===== src/Memory/Sending.antt =====
-- What `GetMailbox` returns after `SendMessage`, in words that do not use the provider's own tests
-- (internal/memory/memory.go). The sorting is any function on lists of messages.
use mathlib.Core.Bool.{false≢true}
use mathlib.Core.List.{append-nil}
use hearsay.Base.{
  ◌≡◌, refl, sym, ◌∙◌, ◌≢◌, ◌⊎◌, inl, inr, Bool, true, false, List, [], ◌∷◌, ◌++◌, filter,
  filter-append, Bool-cases, arith,
}
use hearsay.Base.Int.{pos, Time, ◌+ℤ◌, ◌≤ℤ◌, zero_time}
use hearsay.Base.Text.{Text, codes, text_eq_iff, text_eq_refl}
use hearsay.Provider.{MailboxMessage, mailbox_to_broadcast, ok}
use hearsay.Memory.{Provider}
use hearsay.Memory.Mailbox.{send_message, with_times, is_delivered, get_mailbox}
use hearsay.Memory.Delivery.{everything}

-- The message that is stored: a time of creation that is not set is the time of the call, an expiry
-- that is not set is 300 seconds after the creation, and all else is as it was sent.
pub record IsFilledIn (now : Time) (msg m : MailboxMessage) : Type 0 where
  pub created_given : msg.created_at ≢ zero_time → m.created_at ≡ msg.created_at
  pub created_now : msg.created_at ≡ zero_time → m.created_at ≡ now
  pub expiry_given : msg.expires_at ≢ zero_time → m.expires_at ≡ msg.expires_at
  pub expiry_default : msg.expires_at ≡ zero_time → m.expires_at ≡ m.created_at +ℤ pos 300000000000
  pub same : m ≡ record msg { created_at = m.created_at; expires_at = m.expires_at }

-- A message is not archived, not expired, for the agent or for all, and, where only unread ones are
-- asked for, not read.
pub record IsFor (later : Time) (agent : Text) (unread : Bool) (m : MailboxMessage) : Type 0 where
  pub kept : m.archived ≡ false
  pub alive : later ≤ℤ m.expires_at
  pub addressed : (m.to ≡ agent) ⊎ (m.to ≡ codes "broadcast")
  pub new : unread ≡ true → m.read ≡ false

-- `ys` is what is left of `xs`, in order, of the elements with a property.
pub data Left {A : Type 0} (P : A → Type 0) : List A → List A → Type 0 where
  all_seen : Left P [] []
  stays : {x : A} {xs ys : List A} → P x → Left P xs ys → Left P (x ∷ xs) (x ∷ ys)
  goes : {x : A} {xs ys : List A} → (¬ P x) → Left P xs ys → Left P (x ∷ xs) ys

with_times-IsFilledIn :
    (now : Time) (msg : MailboxMessage) → IsFilledIn now msg (with_times now msg)
unfolding with_times
with_times-IsFilledIn now msg = record {
  created_given = λ h. ground arith;
  created_now = λ h. ground arith;
  expiry_given = λ h. ground arith;
  expiry_default = λ h. ground arith;
  same = refl;
}

IsFor-of_delivered :
    (later : Time) (agent : Text) (unread : Bool) (m : MailboxMessage)
    → is_delivered later agent (everything unread) m ≡ true
    → IsFor later agent unread m
unfolding is_delivered
IsFor-of_delivered later agent unread m h = record {
  kept = ground arith;
  alive = ground arith;
  addressed = ground (arith, text_eq_iff m.to agent, text_eq_iff m.to mailbox_to_broadcast);
  new = λ e. ground arith;
}

delivered_of_IsFor :
    (later : Time) (agent : Text) (unread : Bool) (m : MailboxMessage)
    → IsFor later agent unread m
    → is_delivered later agent (everything unread) m ≡ true
unfolding is_delivered
delivered_of_IsFor later agent unread m h = ground (
  arith,
  h.kept,
  h.alive,
  h.addressed,
  h.new,
  text_eq_iff m.to agent,
  text_eq_iff m.to mailbox_to_broadcast,
)

not_delivered :
    (later : Time) (agent : Text) (unread : Bool) (m : MailboxMessage)
    → (¬ IsFor later agent unread m)
    → is_delivered later agent (everything unread) m ≡ false
not_delivered later agent unread m h =
    elim (Bool-cases (is_delivered later agent (everything unread) m)) [
      | inl e ↦ absurd (h (IsFor-of_delivered later agent unread m e))
      | inr e ↦ e
    ]

filter-Left :
    (later : Time) (agent : Text) (unread : Bool) (msgs : List MailboxMessage)
    → Left
        (IsFor later agent unread)
        msgs
        (filter (is_delivered later agent (everything unread)) msgs)
filter-Left later agent unread [] = all_seen
filter-Left later agent unread (m ∷ msgs) =
    let rest = filter-Left later agent unread msgs in
    elim (Bool-cases (is_delivered later agent (everything unread) m)) [
      | inl e ↦ rw e (stays (IsFor-of_delivered later agent unread m e) rest)
      | inr e ↦
          rw e (goes (λ d. false≢true (sym e ∙ delivered_of_IsFor later agent unread m d)) rest)
    ]

module _ {Payload : Type 0} (sort_latest : List MailboxMessage → List MailboxMessage) where
  -- A query without a limit sorts the messages of the namespace that are for the agent, each as
  -- often as it is stored: those not archived, not expired, sent to the agent or to all, and not
  -- read if only unread ones are asked for. After a message is sent, it sorts these and, behind
  -- them and once, the message, if that is for the agent as it was stored: with the time of the
  -- call and 300 seconds more where its times were not set, and unchanged in all else.
  pub sent_then_listed :
      (now later : Time) (ns agent : Text) (unread : Bool) (msg : MailboxMessage)
      (p : Provider Payload)
      → let look = get_mailbox sort_latest later ns agent (everything unread) in
        let after = (send_message now ns msg p).1 in
        (m : MailboxMessage) × (old : List MailboxMessage) × IsFilledIn now msg m
        × Left (IsFor later agent unread) (p.mailbox_messages ns) old
        × (look p ≡ ok (sort_latest old))
        × (IsFor later agent unread m → look after ≡ ok (sort_latest (old ++ (m ∷ []))))
        × ((¬ IsFor later agent unread m) → look after ≡ ok (sort_latest old))
  unfolding get_mailbox send_message
  sent_then_listed now later ns agent unread msg p =
      let test = is_delivered later agent (everything unread) in
      let m = with_times now msg in
      let stored = p.mailbox_messages ns in
      (
        m,
        filter test stored,
        with_times-IsFilledIn now msg,
        filter-Left later agent unread stored,
        refl,
        λ d.
            rw
              (
                text_eq_refl ns,
                filter-append test stored (m ∷ []),
                delivered_of_IsFor later agent unread m d,
              )
              refl,
        λ d.
            rw
              (
                text_eq_refl ns,
                filter-append test stored (m ∷ []),
                not_delivered later agent unread m d,
                append-nil (filter test stored),
              )
              refl,
      )
