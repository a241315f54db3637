-- ===== src/Indexer/Repository/Replay.antt =====
-- What the events of a queue leave in the table of tickets.
use etf.Base.{
  ◌≡◌, ◌≢◌, ◌↔◌, ◌∙◌, refl, sym, ap, subst, Bool, true, false, Option, none, some, List, [], ◌∷◌,
  ◌++◌, filter, All, Bool-cases, inl, inr, arith, if◌then◌else◌,
}
use etf.Base.Results.{Result, ok, err}
use etf.Base.Text.{eq_iff}
use etf.Base.Table.{find, upserted, find-upsert}
use etf.Indexer.{LogKey, TicketKey, ForwardTicketEvent, ForwardTicket, Store, same_log, same_ticket}
use etf.Indexer.Repository.{
  is_indexed, ticket_create, ticket_update, is_request, apply_forward_event, with_forward_event,
}
use etf.Indexer.Tick.{after, write, stored, each}

pub same_ticket_iff : (a b : TicketKey) → (same_ticket a b ≡ true) ↔ (a ≡ b)
same_ticket_iff a b = ground (arith, eq_iff a.queue_address b.queue_address)

pub same_log_iff : (a b : LogKey) → (same_log a b ≡ true) ↔ (a ≡ b)
same_log_iff a b = ground (arith, eq_iff a.tx_hash b.tx_hash)

-- One event on the row of its ticket.
abbrev pub row_after : ForwardTicketEvent → Option ForwardTicket → Option ForwardTicket
row_after e o = some (upserted (ticket_create e) (ticket_update e) o)

-- The events of one ticket, on its row.
abbrev pub replay : List ForwardTicketEvent → Option ForwardTicket → Option ForwardTicket
replay [] o = o
replay (e ∷ es) o = replay es (row_after e o)

abbrev pub of_ticket : TicketKey → List ForwardTicketEvent → List ForwardTicketEvent
of_ticket k = filter (λ e. same_ticket e.ticket k)

pub replay-append :
    (es fs : List ForwardTicketEvent) (o : Option ForwardTicket)
    → replay (es ++ fs) o ≡ replay fs (replay es o)
replay-append [] fs o = refl
replay-append (e ∷ es) fs o = replay-append es fs (row_after e o)

-- The events that write the whole row make what was before them void.
abbrev any_request : List ForwardTicketEvent → Bool
any_request [] = false
any_request (e ∷ es) = if is_request e.kind then true else any_request es

request_row :
    (e : ForwardTicketEvent) (o p : Option ForwardTicket)
    → is_request e.kind ≡ true
    → row_after e o ≡ row_after e p
request_row e none none r = refl
request_row e none (some t) r = rw r refl
request_row e (some t) none r = rw r refl
request_row e (some t) (some u) r = rw r refl

replay_request :
    (es : List ForwardTicketEvent) (o p : Option ForwardTicket)
    → any_request es ≡ true
    → replay es o ≡ replay es p
replay_request [] o p h = cc
replay_request (e ∷ es) o p h = elim (Bool-cases (is_request e.kind)) [
  | inl r ↦ ap (replay es) (request_row e o p r)
  | inr r ↦
      replay_request es (row_after e o) (row_after e p)
        (subst (λ b. (if b then true else any_request es) ≡ true) r h)
]

-- What an event that is no request writes.
abbrev settlement : ForwardTicketEvent → ForwardTicket → ForwardTicket
settlement e t = record t {
  status = (ticket_create e).status;
  remaining = (ticket_create e).remaining;
  cutoff_ms = e.cutoff_ms;
}

abbrev settled_by : List ForwardTicketEvent → ForwardTicket → ForwardTicket
settled_by [] t = t
settled_by (e ∷ es) t = settled_by es (settlement e t)

true-ne-false : ◌≢◌ {A = Bool} true false
true-ne-false h = cc

no_later :
    (e : ForwardTicketEvent) (es : List ForwardTicketEvent)
    → any_request (e ∷ es) ≡ false
    → any_request es ≡ false
no_later e es h = ground arith

replay_settled :
    (es : List ForwardTicketEvent) (t : ForwardTicket)
    → any_request es ≡ false
    → replay es (some t) ≡ some (settled_by es t)
replay_settled [] t h = refl
replay_settled (e ∷ es) t h = elim (Bool-cases (is_request e.kind)) [
  | inl r ↦ absurd (true-ne-false (sym (ap (λ b. if b then true else any_request es) r) ∙ h))
  | inr r ↦
      ap (λ b. replay es (some (if b then ticket_create e else settlement e t))) r
      ∙ replay_settled es (settlement e t)
          (sym (ap (λ b. if b then true else any_request es) r) ∙ h)
]

settled_twice :
    (e : ForwardTicketEvent) (es ds : List ForwardTicketEvent) (t : ForwardTicket)
    → settled_by (e ∷ es) (settled_by ds t) ≡ settled_by (e ∷ es) t
settled_twice e es [] t = refl
settled_twice e es (d ∷ ds) t = settled_twice e es ds (settlement d t)

settled_again :
    (e : ForwardTicketEvent) (es : List ForwardTicketEvent) (o : Option ForwardTicket)
    → any_request (e ∷ es) ≡ false
    → replay (e ∷ es) (replay (e ∷ es) o) ≡ replay (e ∷ es) o
settled_again e es (some t) r =
    let once = replay_settled (e ∷ es) t r in
    ap (replay (e ∷ es)) once
    ∙ replay_settled (e ∷ es) (settled_by (e ∷ es) t) r
    ∙ ap some (settled_twice e es (e ∷ es) t)
    ∙ sym once
settled_again e es none r =
    let t = ticket_create e in
    let later : any_request es ≡ false = no_later e es r in
    let once : replay es (some t) ≡ some (settled_by (e ∷ es) t) = replay_settled es t later in
    ap (replay (e ∷ es)) once
    ∙ replay_settled (e ∷ es) (settled_by (e ∷ es) t) r
    ∙ ap some (settled_twice e es (e ∷ es) t)
    ∙ sym once

-- To replay the same events again changes nothing.
pub replay_twice :
    (es : List ForwardTicketEvent) (o : Option ForwardTicket)
    → replay es (replay es o) ≡ replay es o
replay_twice [] o = refl
replay_twice (e ∷ es) o = elim (Bool-cases (any_request (e ∷ es))) [
  | inl r ↦ replay_request (e ∷ es) (replay (e ∷ es) o) o r
  | inr r ↦ settled_again e es o r
]

-- The ticket of an event has had it, and no other ticket is changed.
with_forward_event-find :
    (e : ForwardTicketEvent) (s : Store) (k : TicketKey)
    → find same_ticket (with_forward_event e s).forward_tickets k ≡ (
        if same_ticket e.ticket k
        then row_after e (find same_ticket s.forward_tickets k)
        else find same_ticket s.forward_tickets k)
with_forward_event-find e s k =
    let row : Option ForwardTicket → Option ForwardTicket = row_after e in
    find-upsert same_ticket same_ticket_iff e.ticket k (ticket_create e) (ticket_update e)
      s.forward_tickets
    ∙ elim (Bool-cases (same_ticket e.ticket k)) [
      | inl h ↦
          let eq : e.ticket ≡ k = (same_ticket_iff e.ticket k).0 h in
          rw h (ap (λ j. row_after e (find same_ticket s.forward_tickets j)) eq)
      | inr h ↦ rw h refl
    ]

apply_forward_event_ok :
    (e : ForwardTicketEvent) (s : Store)
    → is_indexed s e.vault_address ≡ true
    → write (apply_forward_event e) s ≡ (with_forward_event e s, ok tt)
unfolding apply_forward_event write
apply_forward_event_ok e s h =
    ap
      (λ b.
        stored s (if b then ok (with_forward_event e s) else err "Foreign key constraint violated"))
      h

abbrev pub AreIndexed : Store → List ForwardTicketEvent → Type 0
AreIndexed s = All (λ (e : ForwardTicketEvent). is_indexed s e.vault_address ≡ true)

of_ticket-cons :
    (k : TicketKey) (e : ForwardTicketEvent) (es : List ForwardTicketEvent)
    (o : Option ForwardTicket)
    → replay (of_ticket k es) (if same_ticket e.ticket k then row_after e o else o)
      ≡ replay (of_ticket k (e ∷ es)) o
of_ticket-cons k e es o = elim (Bool-cases (same_ticket e.ticket k)) [
  | inl h ↦ rw h refl
  | inr h ↦ rw h refl
]

-- The events of indexed vaults: they are all written, and each ticket has had its own.
pub each_tickets :
    (es : List ForwardTicketEvent) (s : Store)
    → AreIndexed s es
    → ((each apply_forward_event es s).1 ≡ ok tt)
      × ((each apply_forward_event es s).0.baskets ≡ s.baskets)
      × ((k : TicketKey)
          → find same_ticket (each apply_forward_event es s).0.forward_tickets k
            ≡ replay (of_ticket k es) (find same_ticket s.forward_tickets k))
unfolding each
each_tickets [] s h = (refl, refl, (λ k. refl))
each_tickets (e ∷ es) s h =
    let t = with_forward_event e s in
    let step : each apply_forward_event (e ∷ es) s ≡ each apply_forward_event es t =
      ap (λ r. after r (λ u. each apply_forward_event es)) (apply_forward_event_ok e s h.0) in
    let rest = each_tickets es t h.1 in
    (
      ap (λ r. r.1) step ∙ rest.0,
      ap (λ r. r.0.baskets) step ∙ rest.1,
      (λ k.
          ap (λ (r : Store × Result (Unit {0})). find same_ticket r.0.forward_tickets k) step
          ∙ rest.2 k
          ∙ ap (replay (of_ticket k es)) (with_forward_event-find e s k)
          ∙ of_ticket-cons k e es (find same_ticket s.forward_tickets k)),
    )
