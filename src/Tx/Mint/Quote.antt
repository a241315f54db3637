-- ===== src/Tx/Mint/Quote.antt =====
-- actions/mint.ts: the quote of a mint.
use etf.Base.{
  ℕ, ◌+◌, ◌*◌, ◌/◌, ◌^◌, String, Bool, true, false, Option, none, some, List, [], ◌∷◌, map, ltb,
}
use etf.Base.Dict.{Dict, get}
use etf.Base.Results.{Result, ok, ◌>>=◌}
use etf.Base.Text.{to_lower}
use etf.Tx.{TokenMeta, Need}
use etf.Tx.Approvals.{or_zero, meta_or}
use etf.Tx.Mint.{MintDeps, load_basket, compute_deposits, create_arg_for, read_flat_create_fee}

pub record QuoteDeposit : Type 0 where
  pub token : String
  pub symbol : String
  pub amount : ℕ
  pub value_usd : ℕ

pub record MintQuote : Type 0 where
  pub units_out : ℕ
  pub deposits : List QuoteDeposit
  pub est_total_usd : ℕ
  pub gated : Bool
  pub reason : String
  pub fee : Option QuoteDeposit

abbrev pub quote_deposit : Dict TokenMeta → (String → Option ℕ) → Need → QuoteDeposit
quote_deposit metas latest_price d =
    let m = meta_or (get metas (to_lower d.token)) d.token in
    record {
      token = d.token;
      symbol = m.symbol;
      amount = d.amount;
      value_usd = d.amount * or_zero (latest_price d.token) / 10 ^ m.decimals;
    }

-- `reduce` of the values from 0.
unfoldable pub sum_values : ℕ → List QuoteDeposit → ℕ
sum_values acc [] = acc
sum_values acc (d ∷ ds) = sum_values (acc + d.value_usd) ds

abbrev pub quoted_fee : Dict TokenMeta → Need → QuoteDeposit
quoted_fee metas fee =
    let m = meta_or (get metas (to_lower fee.token)) fee.token in
    record {
      token = fee.token;
      symbol = m.symbol;
      amount = fee.amount;
      value_usd = fee.amount * 10 ^ 18 / 10 ^ m.decimals;
    }

unfoldable pub quote_fee : MintDeps → Need → Result (Option QuoteDeposit)
quote_fee deps fee = elim (ltb 0 fee.amount) [
  | false ↦ ok none
  | true ↦ do metas ← deps.approvals.get_many (fee.token ∷ []); ok (some (quoted_fee metas fee))
]

unfoldable pub quote_mint : MintDeps → String → ℕ → Result MintQuote
unfolding compute_deposits create_arg_for read_flat_create_fee quote_fee sum_values
quote_mint deps vault units = do
  b ← load_basket deps vault
  deposits ← compute_deposits deps b units
  metas ← deps.approvals.get_many (map (λ (d : Need). d.token) deposits)
  fee ← quote_fee deps (read_flat_create_fee deps vault b.vault_type)
  ok (record {
    units_out = create_arg_for b units;
    deposits = map (quote_deposit metas deps.latest_price) deposits;
    est_total_usd = sum_values 0 (map (quote_deposit metas deps.latest_price) deposits);
    gated = false;
    reason = "none";
    fee = fee;
  })
