-- ===== src/Indexer/Examples.antt =====
-- Ticks of the indexer over a small chain.
use etf.Base.{
  ℕ, ◌≡◌, ◌≢◌, ◌↔◌, ◌⊎◌, refl, String, true, false, none, some, List, [], ◌∷◌, ◌++◌, map, filter,
  min, ◌+◌, ◌*◌, arith, ◌==◌, Bool-cases, inl, inr,
}
use etf.Base.Results.{ok}
use etf.Base.Text.{str_eq}
use etf.Base.Table.{find}
use etf.Tx.Mint.{VaultType}
use etf.Indexer.{
  LogKey, KeeperPayoutEvent, ForwardEventKind, TicketKey, ForwardTicketEvent, Basket,
  RegistryConstituentsUpdate, ConstituentKey, Store, same_ticket, same_constituent,
}
use etf.Indexer.Repository.{
  replace_registry_constituents, apply_forward_event, vaults_of, set_checkpoint,
  get_registry_vaults_needing_genesis,
}
use etf.Indexer.Repository.Replay.{replay, of_ticket}
use etf.Indexer.Repository.Retry.{forward_retry}
use etf.Indexer.Repository.Recipe.{replace_registry_constituents_lem, quantity_or}
use etf.Indexer.Reader.{ForwardArgs, ForwardLog, QueueReader, get_forward_queue_logs}
use etf.Indexer.Reader.Order.{InOrder, rank, has_rank, is_of}
use etf.Indexer.Reader.Events.{event, index_queue_lem}
use etf.Indexer.Tick.{
  ChainLogReader, index_queue, each, write, index_baskets, tick, tick_at, index_range,
  index_rebalance_vaults, index_lifecycle, index_registry_vaults, index_recipes, index_updates,
  index_waiting_vaults, index_genesis, index_all_vaults, index_accounts, index_queues,
  index_activity,
}
use etf.Indexer.Tick.Checkpoint.{IsTick, tick_checkpoint}
use etf.Indexer.Tick.CatchUp.{Ticks, none_yet, one_more, ticks_catch_up}
use etf.Indexer.Tick.Listed.{Answers}
use etf.Indexer.Tick.Answered.{ArePaid}
use etf.Indexer.Tick.Returns.{tick_returns_iff}

abbrev key : String → ℕ → LogKey
key tx n = record { tx_hash = tx; log_index = n }

abbrev ticket_key : String → ℕ → TicketKey
ticket_key queue id = record { queue_address = queue; ticket_id = id }

abbrev basket : VaultType → Basket
basket v = record {
  unit_size = 10;
  name = "Ten";
  symbol = "TEN";
  vault_type = v;
  manager = none;
  manager_fee_bps = none;
  platform_fee_bps = none;
  keeper_bps = none;
  keeper_escrow = none;
  recipe_commitment = none;
}

-- One vault, with two tokens.
abbrev tables : VaultType → Store
tables v = record {
  baskets = ("0xVa", basket v) ∷ [];
  constituents =
      (record { vault_address = "0xVa"; token = "0xa" }, 1)
      ∷ (record { vault_address = "0xVa"; token = "0xb" }, 2)
      ∷ [];
  rebalance_events = [];
  target_changes = [];
  keeper_payouts = [];
  forward_tickets = [];
  forward_events = [];
  activity_events = [];
  genesis_recipes = [];
  checkpoint = some 5;
}

-- Two tickets: the first is filled in part and settled, the second is cancelled.
abbrev chain : List ForwardLog
chain =
    record {
      log = key "0x1" 0;
      block_number = 6;
      args = ForwardArgs.create_requested 1 "0xacc" 100 9;
    }
    ∷ record { log = key "0x2" 0; block_number = 7; args = ForwardArgs.partial_fill 1 60 40 }
    ∷ record {
      log = key "0x2" 1;
      block_number = 7;
      args = ForwardArgs.redeem_requested 2 "0xbcc" 5 9;
    }
    ∷ record { log = key "0x3" 0; block_number = 8; args = ForwardArgs.settled 1 }
    ∷ record { log = key "0x4" 0; block_number = 9; args = ForwardArgs.cancelled 2 }
    ∷ []

abbrev queue_reader : QueueReader
queue_reader = record {
  logs = λ k. ok (filter (has_rank (rank k)) chain);
  block_ms = λ b. ok (b * 1_000);
  cutoff_of = λ id. ok 9;
}

both : (id : ℕ) → (1 == id) ≡ true → (2 == id) ≡ false
both id e = ground arith

chain_ordered : (id : ℕ) → InOrder (filter (is_of id) chain)
chain_ordered id = elim (Bool-cases (1 == id)) [
  | inl e ↦
      rw (e, both id e) ((((omega arith), ((omega arith), tt)), (((omega arith), tt), (tt, tt))))
  | inr e ↦ elim (Bool-cases (2 == id)) [
    | inl f ↦ rw (e, f) (((omega arith), tt), (tt, tt))
    | inr f ↦ rw (e, f) tt
  ]
]

-- A chain on which nothing else happens.
abbrev quiet : ChainLogReader
quiet = record {
  is_ready = true;
  head_block = ok 20_000;
  basket_created = λ from to. ok [];
  managed_basket_created = λ from to. ok [];
  committed_basket_created = λ from to. ok [];
  rebalance_basket_created = λ from to. ok [];
  registry_index_created = λ from to. ok [];
  vault_lifecycle_logs = λ vaults from to. ok ([], []);
  registry_recipe_logs = λ vaults from to. ok [];
  registry_genesis = λ vault. ok [];
  keeper_payout_logs = λ from to. ok [];
  forward_queue_logs = λ queue vault from to. get_forward_queue_logs queue_reader queue vault;
  vault_activity_logs = λ vaults from to. ok [];
}

index_queue_lem_example :
    let r = index_queue quiet "0xQ" (some "0xVa") 6 9_006 0 (tables VaultType.registry) in
    ((m : ℕ) × (r.1 ≡ ok m))
    × ((id : ℕ)
        → find same_ticket r.0.forward_tickets (ticket_key "0xQ" id)
          ≡ replay
              (map (event queue_reader "0xQ" "0xVa" (λ b. b * 1_000)) (filter (is_of id) chain))
              none)
    × ((k : TicketKey)
        → str_eq "0xQ" k.queue_address ≡ false
        → find same_ticket r.0.forward_tickets k ≡ none)
unfolding find
index_queue_lem_example =
    index_queue_lem quiet queue_reader "0xQ" "0xVa" 6 9_006 0 chain (λ b. b * 1_000)
      (tables VaultType.registry) refl (record { logs = λ k. refl; times = λ b. refl })
      chain_ordered refl

tick_checkpoint_example :
    IsTick quiet 0 (tables VaultType.registry) (tick quiet 0 [] (tables VaultType.registry))
tick_checkpoint_example = tick_checkpoint quiet 0 [] (tables VaultType.registry)

-- Three ticks, the last of which reaches the head.
caught_up : (t : Store) × Ticks quiet 0 [] 3 (tables VaultType.registry) t
unfolding tick tick_at index_range index_baskets index_rebalance_vaults index_lifecycle
    index_registry_vaults index_recipes index_updates index_waiting_vaults index_genesis
    index_all_vaults index_accounts index_queues index_activity each write set_checkpoint vaults_of
    get_registry_vaults_needing_genesis
caught_up = (_, one_more refl (one_more refl (one_more refl none_yet)))

ticks_catch_up_example : caught_up.0.checkpoint ≡ some (min 20_000 (5 + 3 * 9_001))
ticks_catch_up_example =
    ticks_catch_up quiet 0 [] 20_000 5 3 (tables VaultType.registry) caught_up.0 refl refl refl
      (omega arith) caught_up.1

abbrev request : ForwardTicketEvent
request = record {
  log = key "0x1" 0;
  ticket = ticket_key "0xQ" 1;
  vault_address = "0xVa";
  kind = ForwardEventKind.create_requested;
  owner = "0xacc";
  amount = 100;
  remaining = 100;
  cutoff_ms = 9_000;
  block_number = 6;
  timestamp_ms = 6_000;
  payload = [];
}

abbrev fill : ForwardTicketEvent
fill = record request {
  log = key "0x2" 0;
  kind = ForwardEventKind.partial_fill;
  owner = "";
  amount = 0;
  remaining = 40;
}

begins_lem :
    (k : TicketKey)
    → (rest : List ForwardTicketEvent) × (of_ticket k (request ∷ fill ∷ [])
        ≡ of_ticket k (request ∷ []) ++ rest)
begins_lem k = elim (Bool-cases (same_ticket request.ticket k)) [
  | inl e ↦ (fill ∷ [], rw e refl)
  | inr e ↦ ([], rw e refl)
]

forward_retry_example :
    let s = tables VaultType.registry in
    let stopped = (each apply_forward_event (request ∷ []) s).0 in
    ((each apply_forward_event (request ∷ fill ∷ []) stopped).1 ≡ ok tt)
    × ((k : TicketKey)
        → find same_ticket
            (each apply_forward_event (request ∷ fill ∷ []) stopped).0.forward_tickets
            k
          ≡ find same_ticket (each apply_forward_event (request ∷ fill ∷ []) s).0.forward_tickets k)
unfolding find
forward_retry_example =
    forward_retry (request ∷ []) (request ∷ fill ∷ []) (tables VaultType.registry) (refl, tt)
      (refl, (refl, tt)) begins_lem

abbrev recipe : RegistryConstituentsUpdate
recipe = record {
  vault_address = "0xVa";
  constituents =
      record { token = "0xb"; unit_qty = 7 } ∷ record { token = "0xc"; unit_qty = 3 } ∷ [];
}

replace_registry_constituents_lem_example :
    (t : Store) × (replace_registry_constituents recipe (tables VaultType.registry) ≡ ok t)
    × ((token : String)
        → find same_constituent t.constituents (record { vault_address = "0xVa"; token = token })
          ≡ quantity_or none recipe.constituents token)
    × ((k : ConstituentKey)
        → k.vault_address ≢ "0xVa"
        → find same_constituent t.constituents k
          ≡ find same_constituent (tables VaultType.registry).constituents k)
unfolding find
replace_registry_constituents_lem_example =
    replace_registry_constituents_lem recipe (tables VaultType.registry) refl

-- A keeper is paid for a vault of another deployment.
abbrev stray : KeeperPayoutEvent
stray = record {
  log = key "0x9" 0;
  vault_address = "0xOther";
  to = "0xkee";
  amount = 4;
  block_number = 6;
  timestamp_ms = 6_000;
}

abbrev paying : ChainLogReader
paying = record quiet {
  keeper_payout_logs = λ from to. ok (stray ∷ []);
  forward_queue_logs = λ queue vault from to. ok [];
}

abbrev paying_answers : Answers paying 6 9_006
paying_answers = record {
  lifecycle = λ vaults. (([], []), (refl, (tt, tt)));
  recipes = λ vaults. ([], (refl, tt));
  genesis = λ vault. ([], refl);
  payouts = (stray ∷ [], refl);
  tickets = λ queue vault. ([], (refl, tt));
  activity = λ vaults. ([], refl);
}

tick_returns_iff_example :
    let baskets = (index_baskets paying 6 9_006 (tables VaultType.rebalance)).0.baskets in
    ((n : ℕ) × ((tick paying 0 [] (tables VaultType.rebalance)).1 ≡ ok n))
    ↔ ((vaults_of VaultType.rebalance baskets ≡ []) ⊎ ArePaid paying 6 9_006 paying_answers baskets)
tick_returns_iff_example =
    tick_returns_iff paying 0 [] 20_000 6 9_006 (tables VaultType.rebalance) refl refl refl
      (omega arith) refl
      (record {
        basic = ([], refl);
        managed = ([], refl);
        committed = ([], refl);
        rebalance = ([], refl);
        registry = ([], refl);
      })
      paying_answers
