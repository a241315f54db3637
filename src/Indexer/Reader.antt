-- ===== src/Indexer/Reader.antt =====
-- ViemChainLogReader of indexer.service.ts: how logs become events. `getLogs` and the reads of contracts
-- are viem's, and are arguments. A log's arguments are decoded; a number is what a `bigint` holds.
pub mod Order
pub mod Events
use etf.Base.{
  ℕ, ◌+◌, ◌*◌, ◌^◌, String, Bool, true, false, Option, none, some, List, [], ◌∷◌, ◌++◌, map, any,
  ltb, if◌then◌else◌,
}
use etf.Base.Results.{Result, ok, err, ◌>>=◌, or_else}
use etf.Base.Text.{str_eq, to_lower, show_nat}
use etf.Base.Dict.{Dict, get, put}
use etf.Tx.Mint.{Constituent}
use etf.Indexer.{
  RegistryConstituentsUpdate, LogKey, ForwardEventKind, TicketKey, ForwardTicketEvent,
}

-- The arguments of a queue's event.
pub data ForwardArgs : Type 0 where
  create_requested : ℕ → String → ℕ → ℕ → ForwardArgs
  redeem_requested : ℕ → String → ℕ → ℕ → ForwardArgs
  partial_fill : ℕ → ℕ → ℕ → ForwardArgs
  settled : ℕ → ForwardArgs
  cancelled : ℕ → ForwardArgs

pub record ForwardLog : Type 0 where
  pub log : LogKey
  pub block_number : ℕ
  pub args : ForwardArgs

-- `logs` is the queue's logs of one event in the range, `block_ms` the time of a block, and `cutoff_of`
-- the fourth field of a ticket.
pub record QueueReader : Type 0 where
  pub logs : ForwardEventKind → Result (List ForwardLog)
  pub block_ms : ℕ → Result ℕ
  pub cutoff_of : ℕ → Result ℕ

abbrev pub id_of : ForwardArgs → ℕ
id_of (create_requested id owner cash cutoff) = id
id_of (redeem_requested id owner shares cutoff) = id
id_of (partial_fill id filled remaining) = id
id_of (settled id) = id
id_of (cancelled id) = id

abbrev pub kind_of : ForwardArgs → ForwardEventKind
kind_of (create_requested id owner cash cutoff) = ForwardEventKind.create_requested
kind_of (redeem_requested id owner shares cutoff) = ForwardEventKind.redeem_requested
kind_of (partial_fill id filled remaining) = ForwardEventKind.partial_fill
kind_of (settled id) = ForwardEventKind.settled
kind_of (cancelled id) = ForwardEventKind.cancelled

module _ (reader : QueueReader) (queue vault : String) where
  unfoldable pub forward_cutoff_ms : ℕ → ℕ
  forward_cutoff_ms id = or_else (do cutoff ← reader.cutoff_of id; ok (cutoff * 1_000)) 0

  -- What the five kinds of events share.
  abbrev pub event_of :
      ForwardLog → ℕ → String → ℕ → ℕ → ℕ → List (String × String) → ForwardTicketEvent
  event_of log ts owner amount remaining cutoff_ms payload = record {
    log = log.log;
    ticket = record { queue_address = queue; ticket_id = id_of log.args };
    vault_address = vault;
    kind = kind_of log.args;
    owner = owner;
    amount = amount;
    remaining = remaining;
    cutoff_ms = cutoff_ms;
    block_number = log.block_number;
    timestamp_ms = ts;
    payload = payload;
  }

  abbrev pub request_payload : ℕ → ℕ → List (String × String)
  request_payload amount cutoff = ("amount", show_nat amount) ∷ ("cutoff", show_nat cutoff) ∷ []

  abbrev pub forward_event_at : ForwardLog → ℕ → ForwardArgs → ForwardTicketEvent
  forward_event_at log ts (create_requested id owner cash cutoff) =
      event_of log ts owner cash cash (cutoff * 1_000) (request_payload cash cutoff)
  forward_event_at log ts (redeem_requested id owner shares cutoff) =
      event_of log ts owner shares shares (cutoff * 1_000) (request_payload shares cutoff)
  forward_event_at log ts (partial_fill id filled remaining) =
      event_of log ts "" 0 remaining (forward_cutoff_ms id)
        (("filledCash", show_nat filled) ∷ ("remainingCash", show_nat remaining) ∷ [])
  forward_event_at log ts (settled id) = event_of log ts "" 0 0 ts []
  forward_event_at log ts (cancelled id) = event_of log ts "" 0 0 ts []

  unfoldable pub events_from : List ForwardLog → Result (List ForwardTicketEvent)
  events_from [] = ok []
  events_from (log ∷ logs) = do
    ts ← reader.block_ms log.block_number
    rest ← events_from logs
    ok (forward_event_at log ts log.args ∷ rest)

  unfoldable pub events_of_kind : ForwardEventKind → Result (List ForwardTicketEvent)
  events_of_kind kind = do logs ← reader.logs kind; events_from logs

  -- The five kinds of logs, one after another.
  unfoldable pub get_forward_queue_logs : Result (List ForwardTicketEvent)
  get_forward_queue_logs = do
    creates ← events_of_kind ForwardEventKind.create_requested
    redeems ← events_of_kind ForwardEventKind.redeem_requested
    fills ← events_of_kind ForwardEventKind.partial_fill
    settles ← events_of_kind ForwardEventKind.settled
    cancels ← events_of_kind ForwardEventKind.cancelled
    ok (creates ++ (redeems ++ (fills ++ (settles ++ cancels))))

-- A `RootScheduled` log of a vault, whose address is spelled as the chain spells it.
pub record RecipeLog : Type 0 where
  pub address : String
  pub block_number : ℕ
  pub log_index : ℕ
  pub tokens : List String
  pub unit_qty : List ℕ

-- `tokens.map((token, i) => …)` of lists of one length, as the contract emits them.
abbrev pub recipe_of : List String → List ℕ → List Constituent
recipe_of [] qs = []
recipe_of (t ∷ ts) [] = []
recipe_of (t ∷ ts) (q ∷ qs) = record { token = t; unit_qty = q } ∷ recipe_of ts qs

-- The order of a log: `(blockNumber << 32n) + BigInt(logIndex)`.
abbrev pub ord_of : RecipeLog → ℕ
ord_of log = log.block_number * 2 ^ 32 + log.log_index

pub record Latest : Type 0 where
  pub ord : ℕ
  pub update : RegistryConstituentsUpdate

abbrev pub is_newer : ℕ → Option Latest → Bool
is_newer ord none = true
is_newer ord (some prev) = ltb prev.ord ord

-- One log of the loop: the latest recipe of each vault so far, under its address in lower case.
unfoldable pub keep_latest : Dict String → RecipeLog → Dict Latest → Dict Latest
keep_latest cases log latest =
    let key = to_lower log.address in
    elim (get cases key) [
      | none ↦ latest
      | some vault ↦
          if is_newer (ord_of log) (get latest key)
          then put latest key (record {
            ord = ord_of log;
            update = record {
              vault_address = vault;
              constituents = recipe_of log.tokens log.unit_qty;
            };
          })
          else latest
    ]

unfoldable pub latest_of : Dict String → List RecipeLog → Dict Latest → Dict Latest
latest_of cases [] latest = latest
latest_of cases (log ∷ logs) latest = latest_of cases logs (keep_latest cases log latest)

-- `cases` is `byCase` of the addresses that the tick asks for.
unfoldable pub get_registry_recipe_logs :
    Dict String → Result (List RecipeLog) → Result (List RegistryConstituentsUpdate)
unfolding latest_of keep_latest
get_registry_recipe_logs cases answer = do
  logs ← answer
  ok (map (λ (e : String × Latest). e.1.update) (latest_of cases logs []))

-- The reads of a bootstrapped vault: `held` is `heldTokens`, `holdings` the multicall of `holdingsOf`, in
-- which `none` is a read that failed.
abbrev pub backed : List String → List (Option ℕ) → List Constituent
backed [] qs = []
backed (t ∷ ts) [] = []
backed (t ∷ ts) (none ∷ qs) = backed ts qs
backed (t ∷ ts) (some q ∷ qs) = record { token = t; unit_qty = q } ∷ backed ts qs

abbrev pub multicall_of : List String → Result (List (Option ℕ)) → List Constituent
multicall_of held (err e) = []
multicall_of held (ok qs) = backed held qs

unfoldable pub read_registry_genesis :
    Result (List String) → (List String → Result (List (Option ℕ))) → List Constituent
read_registry_genesis (err e) holdings = []
read_registry_genesis (ok []) holdings = []
read_registry_genesis (ok (t ∷ ts)) holdings = multicall_of (t ∷ ts) (holdings (t ∷ ts))
