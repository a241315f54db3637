-- ===== src/Indexer/Reader/Events.antt =====
-- What a tick makes of the logs of a queue.
use mathlib.Core.List.{map-append}
use etf.Base.{
  ℕ, ◌+◌, length, ◌≡◌, ◌∙◌, refl, sym, ap, subst, String, true, false, some, List, [], ◌∷◌, ◌++◌,
  map, filter, Bool-cases, inl, inr, ◌==◌, ◌&&◌,
}
use etf.Base.Results.{Result, ok}
use etf.Base.Text.{str_eq, eq_refl}
use etf.Indexer.{ForwardEventKind, TicketKey, ForwardTicketEvent, Store, same_ticket}
use etf.Base.Table.{find}
use etf.Indexer.Repository.{is_indexed, apply_forward_event}
use etf.Indexer.Repository.Replay.{of_ticket, replay, AreIndexed, each_tickets}
use etf.Indexer.Tick.{ChainLogReader, after, each, index_queue, ret, ◌>>◌}
use etf.Indexer.Reader.{
  ForwardArgs, ForwardLog, QueueReader, id_of, forward_event_at, events_from, events_of_kind,
  get_forward_queue_logs,
}
use etf.Indexer.Reader.Order.{rank, has_rank, by_rank, InOrder, is_of, is_of-by_rank}

-- The chain of a range, as the reader is answered: the logs of a kind are those of the chain, and the
-- times of its blocks are known.
pub record IsAnswered (reader : QueueReader) (chain : List ForwardLog) (ms : ℕ → ℕ) : Type 0 where
  pub logs : (k : ForwardEventKind) → reader.logs k ≡ ok (filter (has_rank (rank k)) chain)
  pub times : (block : ℕ) → reader.block_ms block ≡ ok (ms block)

module _ (reader : QueueReader) (queue vault : String) (ms : ℕ → ℕ) where
  -- The event of a log.
  abbrev pub event : ForwardLog → ForwardTicketEvent
  event log = forward_event_at reader queue vault log (ms log.block_number) log.args

  events_from_lem :
      (chain logs : List ForwardLog)
      → IsAnswered reader chain ms
      → events_from reader queue vault logs ≡ ok (map event logs)
  unfolding events_from
  events_from_lem chain [] h = refl
  events_from_lem chain (log ∷ logs) h =
      simp (h.times log.block_number, events_from_lem chain logs h) refl

  events_of_kind_lem :
      (chain : List ForwardLog) (k : ForwardEventKind)
      → IsAnswered reader chain ms
      → events_of_kind reader queue vault k ≡ ok (map event (filter (has_rank (rank k)) chain))
  unfolding events_of_kind
  events_of_kind_lem chain k h =
      simp (h.logs k, events_from_lem chain (filter (has_rank (rank k)) chain) h) refl

  pub get_forward_queue_logs_lem :
      (chain : List ForwardLog)
      → IsAnswered reader chain ms
      → get_forward_queue_logs reader queue vault ≡ ok (map event (by_rank chain))
  unfolding get_forward_queue_logs
  get_forward_queue_logs_lem chain h =
      let f : ℕ → List ForwardLog = λ n. filter (has_rank n) chain in
      let run : get_forward_queue_logs reader queue vault
          ≡ ok (
              map event (f 0)
              ++ (map event (f 1) ++ (map event (f 2) ++ (map event (f 3) ++ map event (f 4))))) =
        simp
          (
            events_of_kind_lem chain ForwardEventKind.create_requested h,
            events_of_kind_lem chain ForwardEventKind.redeem_requested h,
            events_of_kind_lem chain ForwardEventKind.partial_fill h,
            events_of_kind_lem chain ForwardEventKind.settled h,
            events_of_kind_lem chain ForwardEventKind.cancelled h,
          )
          refl in
      run ∙ ap ok (simp (map-append) refl)

  event-ticket :
      (log : ForwardLog) (ts : ℕ) (args : ForwardArgs)
      → (forward_event_at reader queue vault log ts args).ticket
        ≡ record { queue_address = queue; ticket_id = id_of log.args }
  event-ticket log ts (ForwardArgs.create_requested id owner cash cutoff) = refl
  event-ticket log ts (ForwardArgs.redeem_requested id owner shares cutoff) = refl
  event-ticket log ts (ForwardArgs.partial_fill id filled remaining) = refl
  event-ticket log ts (ForwardArgs.settled id) = refl
  event-ticket log ts (ForwardArgs.cancelled id) = refl

  same_event :
      (k : TicketKey) (log : ForwardLog)
      → same_ticket (event log).ticket k
        ≡ (str_eq queue k.queue_address && (id_of log.args == k.ticket_id))
  same_event k log = ap (λ t. same_ticket t k) (event-ticket log (ms log.block_number) log.args)

  of_ticket-event :
      (id : ℕ) (logs : List ForwardLog)
      → of_ticket (record { queue_address = queue; ticket_id = id }) (map event logs)
        ≡ map event (filter (is_of id) logs)
  of_ticket-event id [] = refl
  of_ticket-event id (log ∷ logs) =
      let k : TicketKey = record { queue_address = queue; ticket_id = id } in
      let same : same_ticket (event log).ticket k ≡ (id_of log.args == id) =
        same_event k log ∙ ap (λ b. b && (id_of log.args == id)) (eq_refl queue) in
      elim (Bool-cases (id_of log.args == id)) [
        | inl e ↦
            rw (same, e)
              (ap (λ (es : List ForwardTicketEvent). event log ∷ es) (of_ticket-event id logs))
        | inr e ↦ rw (same, e) (of_ticket-event id logs)
      ]

  pub event-of_other :
      (k : TicketKey) (logs : List ForwardLog)
      → str_eq queue k.queue_address ≡ false
      → of_ticket k (map event logs) ≡ []
  event-of_other k [] h = refl
  event-of_other k (log ∷ logs) h =
      let same : same_ticket (event log).ticket k ≡ false =
        same_event k log ∙ ap (λ b. b && (id_of log.args == k.ticket_id)) h in
      rw same (event-of_other k logs h)

event-vault :
    (reader : QueueReader) (queue vault : String) (log : ForwardLog) (ts : ℕ) (args : ForwardArgs)
    → (forward_event_at reader queue vault log ts args).vault_address ≡ vault
event-vault reader queue vault log ts (ForwardArgs.create_requested id owner cash cutoff) = refl
event-vault reader queue vault log ts (ForwardArgs.redeem_requested id owner shares cutoff) = refl
event-vault reader queue vault log ts (ForwardArgs.partial_fill id filled remaining) = refl
event-vault reader queue vault log ts (ForwardArgs.settled id) = refl
event-vault reader queue vault log ts (ForwardArgs.cancelled id) = refl

event-AreIndexed :
    (reader : QueueReader) (queue vault : String) (ms : ℕ → ℕ) (s : Store)
    → is_indexed s vault ≡ true
    → (logs : List ForwardLog) → AreIndexed s (map (event reader queue vault ms) logs)
event-AreIndexed reader queue vault ms s h [] = tt
event-AreIndexed reader queue vault ms s h (log ∷ logs) = (
  ap (is_indexed s) (event-vault reader queue vault log (ms log.block_number) log.args) ∙ h,
  event-AreIndexed reader queue vault ms s h logs,
)

-- A part of a tick on a queue whose reader is the one of the chain.
abbrev pub IsReadBy : ChainLogReader → QueueReader → String → String → ℕ → ℕ → Type 0
IsReadBy chain_reader reader queue vault from to =
    chain_reader.forward_queue_logs queue vault from to ≡ get_forward_queue_logs reader queue vault

-- A tick on the queue of an indexed vault, when the reader answers: it returns, and each ticket's row is
-- what it was before with the ticket's events of the range made one by one in the chain's order, although
-- the reader fetches and writes one kind of events after another. For that the chain must have, of each
-- ticket, the request before the fills and the end last. The tickets of other queues stay.
pub index_queue_lem :
    (chain_reader : ChainLogReader) (reader : QueueReader) (queue vault : String) (from to n : ℕ)
    (chain : List ForwardLog) (ms : ℕ → ℕ) (s : Store)
    → IsReadBy chain_reader reader queue vault from to
    → IsAnswered reader chain ms
    → ((id : ℕ) → InOrder (filter (is_of id) chain))
    → is_indexed s vault ≡ true
    → let r = index_queue chain_reader queue (some vault) from to n s in
      ((m : ℕ) × (r.1 ≡ ok m))
      × ((id : ℕ)
          → find same_ticket r.0.forward_tickets (record { queue_address = queue; ticket_id = id })
            ≡ replay (map (event reader queue vault ms) (filter (is_of id) chain)) (
                find same_ticket s.forward_tickets
                  (record { queue_address = queue; ticket_id = id })))
      × ((k : TicketKey)
          → str_eq queue k.queue_address ≡ false
          → find same_ticket r.0.forward_tickets k ≡ find same_ticket s.forward_tickets k)
unfolding index_queue
index_queue_lem chain_reader reader queue vault from to n chain ms s read answered ordered indexed =
    let ev = event reader queue vault ms in
    let es = map ev (by_rank chain) in
    let w = each_tickets es s (event-AreIndexed reader queue vault ms s indexed (by_rank chain)) in
    let t = (each apply_forward_event es s).0 in
    let run : index_queue chain_reader queue (some vault) from to n s ≡ (t, ok (n + length es)) =
      ap
        (λ a.
          after (s, a)
            (λ (fs : List ForwardTicketEvent). each apply_forward_event fs >> ret (n + length fs)))
        (read ∙ get_forward_queue_logs_lem reader queue vault ms chain answered)
      ∙ ap (λ (a : Result (Unit {0})). after (t, a) (λ u. ret (n + length es))) w.0 in
    let P : Store × Result ℕ → Type 0 = λ r.
      ((m : ℕ) × (r.1 ≡ ok m))
      × ((id : ℕ)
          → find same_ticket r.0.forward_tickets (record { queue_address = queue; ticket_id = id })
            ≡ replay (map ev (filter (is_of id) chain)) (
                find same_ticket s.forward_tickets
                  (record { queue_address = queue; ticket_id = id })))
      × ((k : TicketKey)
          → str_eq queue k.queue_address ≡ false
          → find same_ticket r.0.forward_tickets k ≡ find same_ticket s.forward_tickets k) in
    subst P (sym run) (
      (n + length es, refl),
      (λ id.
          let k : TicketKey = record { queue_address = queue; ticket_id = id } in
          let o = find same_ticket s.forward_tickets k in
          w.2 k
          ∙ ap (λ fs. replay fs o)
              (of_ticket-event reader queue vault ms id (by_rank chain)
                ∙ ap (map ev) (is_of-by_rank id chain (ordered id)))),
      (λ k other.
          w.2 k
          ∙ ap (λ fs. replay fs (find same_ticket s.forward_tickets k))
              (event-of_other reader queue vault ms k (by_rank chain) other)),
    )
