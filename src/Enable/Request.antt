-- ===== src/Enable/Request.antt =====
-- api/forward-enable.service.ts, forward-enable-auth.service.ts and forward-enable.controller.ts: a request
-- to enable cash settlement. `BigInt` of a text, the hash of the parameters and the recovery of a signer
-- are arguments, as the reads of the chain are.
use etf.Base.{
  ℕ, String, Bool, true, false, ◌&&◌, Option, none, some, List, [], ◌∷◌, ◌++◌, any, leb,
  if◌then◌else◌,
}
use etf.Base.Results.{Result, ok, err, ◌>>=◌}
use etf.Base.Text.{◌<>◌, str_eq, to_lower}
use etf.Base.Table.{Table, find, upsert}
use etf.Enable.{EnableParams, validate_enable_params}
use etf.Enable.Handler.{EnableStatus, QueueConfig}

-- The message that the manager signs; the name and the version of its domain are constants.
pub record EnableMessage : Type 0 where
  pub chain_id : ℕ
  pub vault : String
  pub params_hash : String
  pub nonce : ℕ
  pub expiry : ℕ

pub record Signed : Type 0 where
  pub nonce : String
  pub expiry : ℕ
  pub signature : String

pub record EnableRequest : Type 0 where
  pub vault : String
  pub params : EnableParams
  pub sig : Signed

pub record ConfigRow : Type 0 where
  pub config : QueueConfig
  pub requested_by : String
  pub params : EnableParams

-- The rows of the queues, the nonces that are used, each with its vault, and the jobs that were sent.
pub record EnableStore : Type 0 where
  pub rows : Table String ConfigRow
  pub nonces : List (String × String)
  pub jobs : List String

pub record AuthServices : Type 0 where
  pub now_sec : ℕ
  pub chain_id : ℕ
  pub big_int : String → Result ℕ
  pub params_hash_of : EnableParams → Result String
  pub recover : EnableMessage → String → Result String
  pub manager : String → Result String
  pub send : String → Result (Unit {0})

-- The classes of errors that the service and its authentication throw, and any other error.
pub data EnableError : Type 0 where
  bad_param conflict auth other : String → EnableError

abbrev pub same_nonce : String → String → String × String → Bool
same_nonce vault nonce (v, n) = str_eq v vault && str_eq n nonce

abbrev pub is_nonce_used : EnableStore → String → String → Bool
is_nonce_used s vault nonce = any (same_nonce vault nonce) s.nonces

-- The nonce was looked up just before, so that its row is new.
abbrev pub mark_nonce_used : String → String → EnableStore → EnableStore
mark_nonce_used vault nonce s = record s { nonces = (vault, nonce) ∷ s.nonces }

-- What is recovered of a signature on the request's message.
abbrev pub signer_of : AuthServices → EnableRequest → Result String
signer_of svc r = do
  hash ← svc.params_hash_of r.params
  nonce ← svc.big_int r.sig.nonce
  svc.recover
      (record {
        chain_id = svc.chain_id;
        vault = r.vault;
        params_hash = hash;
        nonce = nonce;
        expiry = r.sig.expiry;
      })
      r.sig.signature

-- A verification's result, and an error's class.
pub data Verified : Type 0 where
  by : EnableStore → String → Verified
  failed : EnableError → Verified

abbrev pub checked : EnableStore → EnableRequest → Result String → Result String → Verified
checked s r (err e) manager = failed (other e)
checked s r (ok recovered) (err e) = failed (other e)
checked s r (ok recovered) (ok manager) =
    if str_eq (to_lower recovered) (to_lower manager)
    then by (mark_nonce_used r.vault r.sig.nonce s) manager
    else failed (auth "signer is not the vault manager")

unfoldable pub verify : AuthServices → EnableStore → EnableRequest → Verified
verify svc s r =
    if leb r.sig.expiry svc.now_sec
    then failed (auth "request expired")
    else if is_nonce_used s r.vault r.sig.nonce
    then failed (auth "nonce already used")
    else checked s r (signer_of svc r) (svc.manager r.vault)

abbrev pub is_busy : EnableStatus → Bool
is_busy EnableStatus.live = true
is_busy EnableStatus.wiring = true
is_busy EnableStatus.pending = false
is_busy EnableStatus.failed = false

abbrev pub status_name : EnableStatus → String
status_name EnableStatus.live = "Live"
status_name EnableStatus.wiring = "Wiring"
status_name EnableStatus.pending = "Pending"
status_name EnableStatus.failed = "Failed"

-- `upsertForwardQueueConfig`
abbrev pub created_row : EnableRequest → String → ConfigRow
created_row r manager = record {
  config = record {
    status = EnableStatus.pending;
    queue_address = none;
    step = none;
    error = none;
    tx_hashes = [];
  };
  requested_by = manager;
  params = r.params;
}

abbrev pub updated_row : EnableRequest → String → ConfigRow → ConfigRow
updated_row r manager row = record {
  config = record row.config { status = EnableStatus.pending; step = none; error = none };
  requested_by = manager;
  params = r.params;
}

abbrev pub with_row : EnableRequest → String → EnableStore → EnableStore
with_row r manager s = record s {
  rows = upsert str_eq r.vault (created_row r manager) (updated_row r manager) s.rows;
}

-- The tables after a request, and how it ends: none is `{ status: "pending" }`.
abbrev pub sent : EnableStore → String → Result (Unit {0}) → EnableStore × Option EnableError
sent s vault (err e) = (s, some (other e))
sent s vault (ok u) = (record s { jobs = s.jobs ++ (vault ∷ []) }, none)

abbrev pub after_verify :
    AuthServices → EnableStore → EnableRequest → Verified → EnableStore × Option EnableError
after_verify svc s r (failed e) = (s, some e)
after_verify svc s r (by s' manager) = sent (with_row r manager s') r.vault (svc.send r.vault)

abbrev pub busy_status : Option ConfigRow → Option EnableStatus
busy_status none = none
busy_status (some row) = if is_busy row.config.status then some row.config.status else none

abbrev pub unless_busy :
    Option EnableStatus
    → EnableStore
    → EnableStore × Option EnableError
    → EnableStore × Option EnableError
unless_busy none s rest = rest
unless_busy (some status) s rest = (s, some (conflict ("already " <> status_name status)))

abbrev pub unless_bad :
    Option String
    → EnableStore
    → EnableStore × Option EnableError
    → EnableStore × Option EnableError
unless_bad none s rest = rest
unless_bad (some field) s rest = (s, some (bad_param ("param out of bounds: " <> field)))

unfoldable pub enable :
    AuthServices → EnableStore → EnableRequest → EnableStore × Option EnableError
unfolding verify
enable svc s r = unless_bad (validate_enable_params r.params) s (
    unless_busy (busy_status (find str_eq s.rows r.vault)) s
      (after_verify svc s r (verify svc s r)))

-- `status`: the row as the response spells it.
pub record EnableView : Type 0 where
  pub status : String
  pub step : Option String
  pub queue_address : Option String
  pub error : Option String

abbrev pub viewed : Option ConfigRow → EnableView
viewed none = record { status = "none"; step = none; queue_address = none; error = none }
viewed (some row) = record {
  status = to_lower (status_name row.config.status);
  step = row.config.step;
  queue_address = row.config.queue_address;
  error = row.config.error;
}

unfoldable pub status : EnableStore → String → EnableView
status s vault = viewed (find str_eq s.rows vault)

-- The exception that the controller turns an error into.
pub data HttpException : Type 0 where
  bad_request conflicting unauthorized internal : String → HttpException

abbrev pub http_of : EnableError → HttpException
http_of (bad_param m) = bad_request m
http_of (conflict m) = conflicting m
http_of (auth m) = unauthorized m
http_of (other m) = internal m
