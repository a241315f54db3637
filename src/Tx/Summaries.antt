-- ===== src/Tx/Summaries.antt =====
-- summaries.ts
use etf.Base.{ℕ, ◌*◌, ◌/◌, ◌%◌, ◌^◌, String, ltb, ◌==◌, if◌then◌else◌}
use etf.Base.Text.{◌<>◌, show_nat}

-- `toString().padStart(2, "0").replace(/0+$/, "")` of a number of hundredths, which is below 100.
unfoldable pub hundredths : ℕ → String
hundredths n =
    if n == 0
    then ""
    else if n % 10 == 0
    then show_nat (n / 10)
    else if ltb n 10
    then "0" <> show_nat n
    else show_nat n

unfoldable pub format_token_amount : ℕ → ℕ → String → String
unfolding hundredths
format_token_amount amount decimals symbol =
    let base = 10 ^ decimals in
    let whole = amount / base in
    let frac = amount % base in
    let frac_str = if frac == 0 then "" else "." <> hundredths (frac * 100 / base) in
    show_nat whole <> (frac_str <> (" " <> symbol))

unfoldable pub approve_summary : ℕ → ℕ → String → String → String
approve_summary amount decimals symbol spender_label =
    "Approve " <> (spender_label <> (" to pull " <> format_token_amount amount decimals symbol))

unfoldable pub mint_summary : ℕ → String → String
mint_summary units basket_symbol =
    "Mint " <> (format_token_amount units 18 basket_symbol <> " (in-kind)")
