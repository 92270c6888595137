-- ===== src/Memory/Delivery.antt =====
-- What happens to a mailbox message between its sending and its reading (internal/memory/memory.go).
-- The sorting is any function that keeps the elements of a list.
use hearsay.Base.{
  ◌≡◌, refl, sym, ap, ◌⊎◌, inl, inr, ◌↔◌, Bool, true, false, List, [], ◌∷◌, In, In-append,
  In-append_left, In-append_right, In-of_In-filter, In-filter_of_In, filter,
}
use hearsay.Base.Int.{pos, Time}
use hearsay.Base.Text.{Text, text_eq_refl}
use hearsay.Provider.{MailboxMessage, MailboxQueryOpts, Result, ok, err}
use hearsay.Memory.{Provider}
use hearsay.Memory.Mailbox.{send_message, with_times, is_delivered, get_mailbox}

-- The options of a query without a limit.
abbrev pub everything : Bool → MailboxQueryOpts
everything unread = record { unread = unread; include_claims = false; limit = pos 0 }

messages_of : Result (List MailboxMessage) → List MailboxMessage
messages_of (ok ms) = ms
messages_of (err e) = []

ok_inj :
    {xs ys : List MailboxMessage} → Path (Result (List MailboxMessage)) (ok xs) (ok ys) → xs ≡ ys
unfolding messages_of
ok_inj h = ap messages_of h

module _ {Payload : Type 0} (sort_latest : List MailboxMessage → List MailboxMessage)
    (keeps : (ms : List MailboxMessage) (m : MailboxMessage)
      → In m (sort_latest ms) ↔ In m ms) where
  -- `m` is among what a query without a limit returns.
  abbrev pub Delivered : Time → Text → Text → Bool → Provider Payload → MailboxMessage → Type 0
  Delivered now ns agent unread p m =
      (ms : List MailboxMessage) × ((get_mailbox sort_latest now ns agent (everything unread) p
          ≡ ok ms)
        × In m ms)

  listed_iff :
      (now : Time) (ns agent : Text) (unread : Bool) (p : Provider Payload) (m : MailboxMessage)
      → In m (
          sort_latest (filter (is_delivered now agent (everything unread)) (p.mailbox_messages ns)))
        ↔ (In m (p.mailbox_messages ns) × (is_delivered now agent (everything unread) m ≡ true))
  listed_iff now ns agent unread p m =
      let test = is_delivered now agent (everything unread) in
      let all = p.mailbox_messages ns in
      let (to, from) = keeps (filter test all) m in
      (λ i. In-of_In-filter test m all (to i), λ (i, d). from (In-filter_of_In test m all i d))

  -- A query of the mailbox of an agent without a limit returns exactly the messages in the
  -- namespace that are delivered to the agent at that time.
  pub Delivered-iff :
      (now : Time) (ns agent : Text) (unread : Bool) (p : Provider Payload) (m : MailboxMessage)
      → Delivered now ns agent unread p m
        ↔ (In m (p.mailbox_messages ns) × (is_delivered now agent (everything unread) m ≡ true))
  unfolding get_mailbox
  Delivered-iff now ns agent unread p m = (
    λ (ms, (e, i)). (listed_iff now ns agent unread p m).0 (rw (sym (ok_inj e)) at i),
    λ h. (
      sort_latest (filter (is_delivered now agent (everything unread)) (p.mailbox_messages ns)),
      (refl, (listed_iff now ns agent unread p m).1 h),
    ),
  )

  -- What a query finds after a message was sent, in the words of the provider.
  pub sent-Delivered_iff :
      (now later : Time) (ns agent : Text) (unread : Bool) (msg : MailboxMessage)
      (p : Provider Payload) (m : MailboxMessage)
      → Delivered later ns agent unread (send_message now ns msg p).1 m ↔ (
          Delivered later ns agent unread p m
          ⊎ ((m ≡ with_times now msg) × (is_delivered later agent (everything unread) m ≡ true)))
  unfolding send_message
  sent-Delivered_iff now later ns agent unread msg p m =
      let (to, from) = Delivered-iff later ns agent unread (send_message now ns msg p).1 m in
      let (to', from') = Delivered-iff later ns agent unread p m in
      (
        λ h.
            let (i, d) = to h in
            elim (In-append m (p.mailbox_messages ns) (with_times now msg ∷ [])
              (rw (text_eq_refl ns) at i)) [
                | inl old ↦ inl (from' (old, d))
                | inr (inl q) ↦ inr (q, d)
                | inr (inr none_left) ↦ absurd none_left
              ],
        λ h. elim h [
          | inl old ↦
              let (i, d) = to' old in
              from (
                rw (text_eq_refl ns)
                    (In-append_left m (p.mailbox_messages ns) (with_times now msg ∷ []) i),
                d,
              )
          | inr (q, d) ↦ from (
            rw (text_eq_refl ns)
                (In-append_right m (p.mailbox_messages ns) (with_times now msg ∷ []) (inl q)),
            d,
          )
        ],
      )
