-- ===== src/Enable/Examples.antt =====
-- Enabling cash settlement for one vault: the deployment works and a later call fails.
use etf.Base.{refl, List, All, ◌≢◌, ◌≡◌, ◌⊎◌, ◌↔◌, String, true, false, none, some, [], ◌∷◌}
use etf.Base.Int.{pos}
use etf.Base.Results.{ok, err}
use etf.Enable.{EnableParams, IsInBounds, int, validate_enable_params, validate_enable_params_iff}
use etf.Enable.Handler.{EnableStatus, QueueConfig, EnableServices, enable_run}
use etf.Enable.Ends.{HasEnded, HasFailed, enable_run_ends}
use etf.Enable.{first_bad}
use etf.Base.Text.{to_lower}
use etf.Base.Table.{find}
use etf.Enable.Request.{
  EnableRequest, ConfigRow, EnableStore, AuthServices, EnableError, is_nonce_used, verify, enable,
}
use etf.Enable.Accepts.{IsHandled, enable_handles}
use etf.Enable.Nonces.{run_all, nonce_spent}
use etf.Enable.Again.{HasQueue, enable_again}
use etf.Enable.Jobs.{Step, job, run_steps}
use etf.Enable.Keeps.{IsBound, IsAbout}
use etf.Enable.Resume.{IsFirstRun, enable_run_keeps_queue}

abbrev params : EnableParams
params = record {
  min_prints = int (pos 2);
  twap_window_sec = int (pos 600);
  twap_band_bps = int (pos 100);
  peg_band_bps = int (pos 100);
  peg_max_age_sec = int (pos 3_600);
  cutoff_delay_sec = int (pos 600);
  spread_bps = int (pos 0);
  capacity_bps = int (pos 10_000);
  keeper_tip = some (pos 1_000);
  keeper_bps = int (pos 0);
}

validate_enable_params_iff_example : (validate_enable_params params ≡ none) ↔ IsInBounds params
validate_enable_params_iff_example = validate_enable_params_iff params

abbrev services : EnableServices
services = record {
  required = ("FairValueNAV", some "0xfa1") ∷ ("USDG", some "0x05d") ∷ [];
  router = ok "0x40";
  peg_feed = ok "0x9e";
  owner = some "0x0e";
  is_registry = true;
  registry_tokens = ok ("0xa" ∷ []);
  registry_fee_token = ok "0x05d";
  managed_tokens = err "not managed";
  ensure_sources = λ t. ok none;
  deploy_queue = ok "0x9";
  lost_queue = none;
  landed = λ e. true;
  set_gate_params = λ q. ok "0x1";
  set_g1_refs = λ q. err "reverted";
  set_keeper_tip = λ q. ok "0x3";
  set_spread_bps = λ q. ok "0x4";
  set_capacity = λ q. ok "0x5";
  set_cutoff_delay = λ q. ok "0x6";
  ensure_executor = λ q. ok none;
  ensure_settler = λ q. ok none;
  set_keeper_bps = ok "0x7";
  keeper_bps = 0;
  refresh = ok tt;
}

abbrev fresh : QueueConfig
fresh = record {
  status = EnableStatus.pending;
  queue_address = none;
  step = none;
  error = none;
  tx_hashes = [];
}

enable_run_keeps_queue_example :
    ((q : String) → fresh.queue_address ≡ some q → IsBound false q (enable_run services fresh))
    × (fresh.queue_address ≡ none → IsFirstRun services (enable_run services fresh))
enable_run_keeps_queue_example = enable_run_keeps_queue services fresh

-- The same vault when every call is answered.
abbrev working : EnableServices
working = record services { set_g1_refs = λ q. ok "0x2" }

enable_run_ends_example :
    HasEnded working fresh.queue_address (enable_run working fresh)
    ⊎ HasFailed working (enable_run working fresh)
enable_run_ends_example = enable_run_ends working fresh

abbrev auth_services : AuthServices
auth_services = record {
  now_sec = 1_000;
  chain_id = 7;
  big_int = λ text. ok 5;
  params_hash_of = λ p. ok "0x4a5";
  recover = λ message signature. ok "0xBoss";
  manager = λ vault. ok "0xboss";
  send = λ vault. ok tt;
}

abbrev request : EnableRequest
request = record {
  vault = "0xv";
  params = params;
  sig = record { nonce = "5"; expiry = 2_000; signature = "0x51" };
}

-- An earlier job deployed the queue and failed.
abbrev failed_row : ConfigRow
failed_row = record {
  config = record fresh { status = EnableStatus.failed; queue_address = some "0x9" };
  requested_by = "0xboss";
  params = params;
}

abbrev tables : EnableStore
tables = record { rows = ("0xv", failed_row) ∷ []; nonces = []; jobs = [] }

enable_handles_example :
    IsHandled auth_services tables request (enable auth_services tables request)
enable_handles_example = enable_handles auth_services tables request

accepted : (enable auth_services tables request).1 ≡ none
unfolding enable verify validate_enable_params first_bad find to_lower
accepted = refl

nonce_spent_example :
    ((between : List (AuthServices × EnableRequest)) (later : AuthServices) (again : EnableRequest)
      → again.vault ≡ "0xv"
      → again.sig.nonce ≡ "5"
      → let t = run_all between (enable auth_services tables request).0 in
        (e : EnableError) × (enable later t again ≡ (t, some e)))
    × ((vault nonce : String)
        → ((vault ≢ "0xv") ⊎ (nonce ≢ "5"))
        → is_nonce_used (enable auth_services tables request).0 vault nonce
          ≡ is_nonce_used tables vault nonce)
nonce_spent_example = nonce_spent auth_services tables request accepted

-- The vault is asked for again, and its job runs twice.
abbrev again_steps : List Step
again_steps = Step.request auth_services request ∷ job services "0xv" ∷ job working "0xv" ∷ []

enable_again_example :
    HasQueue "0xv" "0x9" (run_steps "0xv" again_steps tables).0
    × All (IsAbout false "0x9") (run_steps "0xv" again_steps tables).1
unfolding find
enable_again_example = enable_again "0xv" "0x9" again_steps tables (failed_row, (refl, refl))
