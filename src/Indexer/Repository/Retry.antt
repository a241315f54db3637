-- ===== src/Indexer/Repository/Retry.antt =====
-- A retry of a tick leaves the tickets as one tick would have.
use etf.Base.{◌≡◌, ◌∙◌, sym, ap, subst, String, true, List, ◌++◌, All}
use etf.Base.Results.{ok}
use etf.Base.Table.{Table, find}
use etf.Indexer.{TicketKey, ForwardTicketEvent, Basket, Store, same_ticket}
use etf.Indexer.Repository.{is_listed, apply_forward_event}
use etf.Indexer.Tick.{each}
use etf.Indexer.Repository.Replay.{
  AreIndexed, of_ticket, replay, replay-append, replay_twice, each_tickets,
}

-- A tick that stopped after some events of a queue is made up for: `done` is what it had written. The
-- range that is read again may have grown, and its events come in another order, but of each ticket they
-- begin with those already written. Then all are written, and every ticket's row is as if none had been
-- written before.
pub forward_retry :
    (done events : List ForwardTicketEvent) (s : Store)
    → AreIndexed s done
    → AreIndexed s events
    → ((k : TicketKey)
        → (rest : List ForwardTicketEvent) × (of_ticket k events ≡ of_ticket k done ++ rest))
    → let stopped = (each apply_forward_event done s).0 in
      ((each apply_forward_event events stopped).1 ≡ ok tt)
      × ((k : TicketKey)
          → find same_ticket (each apply_forward_event events stopped).0.forward_tickets k
            ≡ find same_ticket (each apply_forward_event events s).0.forward_tickets k)
forward_retry done events s before all begins =
    let first = each_tickets done s before in
    let stopped = (each apply_forward_event done s).0 in
    let indexed : AreIndexed stopped events =
      subst
        (λ (b : Table String Basket).
          All (λ (e : ForwardTicketEvent). is_listed b e.vault_address ≡ true) events)
        (sym first.1) all in
    let again = each_tickets events stopped indexed in
    let once = each_tickets events s all in
    (
      again.0,
      (λ k.
          let o = find same_ticket s.forward_tickets k in
          let rest = (begins k).0 in
          let d = of_ticket k done in
          again.2 k
          ∙ ap (replay (of_ticket k events)) (first.2 k)
          ∙ ap (λ es. replay es (replay d o)) (begins k).1
          ∙ replay-append d rest (replay d o)
          ∙ ap (replay rest) (replay_twice d o)
          ∙ sym (replay-append d rest o)
          ∙ ap (λ es. replay es o) (sym (begins k).1)
          ∙ sym (once.2 k)),
    )
