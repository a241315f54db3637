-- ===== src/Tx/Approvals.antt =====
-- approvals.ts: the approvals that a plan needs before its call.
pub mod Cover
use etf.Base.{
  ℕ, String, Bool, true, false, Option, none, some, List, [], ◌∷◌, map, ltb, if◌then◌else◌,
}
use etf.Base.Dict.{Dict, get}
use etf.Base.Results.{Result, ok, err, ◌>>=◌}
use etf.Base.Text.{◌<>◌, to_lower, prefix}
use etf.Tx.{Arg, Call, StepKind, BuiltStep, TokenMeta, Need, ApprovalDeps}
use etf.Tx.Summaries.{approve_summary}

-- A read that did not succeed counts as nothing.
abbrev pub or_zero : Option ℕ → ℕ
or_zero none = 0
or_zero (some n) = n

-- `needs.filter`: the needs above the allowance at their place.
unfoldable pub under : List (Option ℕ) → List Need → List Need
under allowances [] = []
under [] (n ∷ needs) = let rest = under [] needs in if ltb 0 n.amount then n ∷ rest else rest
under (r ∷ allowances) (n ∷ needs) =
    let rest = under allowances needs in if ltb (or_zero r) n.amount then n ∷ rest else rest

-- The symbol and the decimals of a token, or their defaults.
abbrev pub meta_or : Option TokenMeta → String → TokenMeta
meta_or none token = record { symbol = prefix 6 token; decimals = 18 }
meta_or (some m) token = m

abbrev pub approve_step : Dict TokenMeta → String → String → Need → BuiltStep
approve_step metas spender spender_label u =
    let m = meta_or (get metas (to_lower u.token)) u.token in
    record {
      kind = StepKind.approve;
      to = u.token;
      data_ = record {
        abi = "erc20";
        function_name = "approve";
        args = Arg.addr spender ∷ Arg.uint u.amount ∷ [];
      };
      value = "0";
      contract_name = m.symbol;
      label = "Approve " <> m.symbol;
      summary = approve_summary u.amount m.decimals m.symbol spender_label;
      needs_prior_approval = none;
    }

-- The metadata is read only when some need is not covered.
unfoldable pub approve_steps : ApprovalDeps → String → String → List Need → Result (List BuiltStep)
approve_steps deps spender spender_label [] = ok []
approve_steps deps spender spender_label (u ∷ us) = do
  metas ← deps.get_many (map (λ (n : Need). n.token) (u ∷ us))
  ok (map (approve_step metas spender spender_label) (u ∷ us))

unfoldable pub build_approval_steps :
    ApprovalDeps → String → String → List Need → String → Result (List BuiltStep)
unfolding under approve_steps
build_approval_steps deps account spender [] spender_label = ok []
build_approval_steps deps account spender (n ∷ needs) spender_label = do
  allowances ← deps.allowances account spender (map (λ (u : Need). u.token) (n ∷ needs))
  approve_steps deps spender spender_label (under allowances (n ∷ needs))
