-- ===== src/Enable/Again.antt =====
-- A vault whose row has a queue, through any further requests and jobs.
use etf.Base.{
  ◌≡◌, ◌≢◌, ◌∙◌, refl, sym, ap, subst, String, true, false, Option, none, some, List, [], ◌∷◌, All,
  All-append, Bool-cases, inl, inr, if◌then◌else◌,
}
use etf.Base.Results.{Result, ok, err}
use etf.Base.Text.{str_eq, eq_iff}
use etf.Base.Table.{find, find-upsert, upserted}
use etf.Enable.Handler.{EnableServices, Event}
use etf.Enable.Keeps.{IsAbout}
use etf.Enable.Resume.{enable_run_keeps_queue}
use etf.Enable.Request.{
  EnableRequest, ConfigRow, EnableStore, AuthServices, EnableError, mark_nonce_used, with_row,
  created_row, updated_row, sent, enable,
}
use etf.Enable.Accepts.{enable_handles}
use etf.Enable.Jobs.{with_config, run_on, run_job, Step, request, job, run_steps}

-- The vault's row names the queue.
abbrev pub HasQueue : String → String → EnableStore → Type 0
HasQueue vault q s =
    (row : ConfigRow) × ((find str_eq s.rows vault ≡ some row)
      × (row.config.queue_address ≡ some q))

sent-rows :
    (s : EnableStore) (vault : String) (a : Result (Unit {0})) → (sent s vault a).0.rows ≡ s.rows
sent-rows s vault (ok u) = refl
sent-rows s vault (err e) = refl

with_row-HasQueue :
    (r : EnableRequest) (m vault q : String) (s : EnableStore)
    → HasQueue vault q s
    → HasQueue vault q (with_row r m s)
with_row-HasQueue r m vault q s (row, (h, e)) =
    let look = find-upsert str_eq eq_iff r.vault vault (created_row r m) (updated_row r m) s.rows in
    elim (Bool-cases (str_eq r.vault vault)) [
      | inl y ↦
          let here : find str_eq s.rows r.vault ≡ some row =
            ap (find str_eq s.rows) ((eq_iff r.vault vault).0 y) ∙ h in
          (
            updated_row r m row,
            (
              look
                  ∙ ap
                      (λ b.
                        if b
                        then some (
                            upserted (created_row r m) (updated_row r m)
                              (find str_eq s.rows r.vault))
                        else find str_eq s.rows vault)
                      y
                  ∙ ap (λ o. some (upserted (created_row r m) (updated_row r m) o)) here,
              e,
            ),
          )
      | inr n ↦ (
        row,
        (
          look
              ∙ ap
                  (λ b.
                    if b
                    then some
                        (upserted (created_row r m) (updated_row r m) (find str_eq s.rows r.vault))
                    else find str_eq s.rows vault)
                  n
              ∙ h,
          e,
        ),
      )
    ]

rows-HasQueue :
    (vault q : String) (s t : EnableStore)
    → t.rows ≡ s.rows
    → HasQueue vault q s
    → HasQueue vault q t
rows-HasQueue vault q s t same (row, (h, e)) =
    (row, (ap (λ rows. find str_eq rows vault) same ∙ h, e))

request-HasQueue :
    (svc : AuthServices) (r : EnableRequest) (vault q : String) (s : EnableStore)
    → HasQueue vault q s
    → HasQueue vault q (enable svc s r).0
request-HasQueue svc r vault q s h = elim (enable_handles svc s r) [
  | inl (e, (same, n)) ↦
      subst (λ (o : EnableStore × Option EnableError). HasQueue vault q o.0) (sym same) h
  | inr (m, (v, same)) ↦
      let t = with_row r m (mark_nonce_used r.vault r.sig.nonce s) in
      let kept = with_row-HasQueue r m vault q (mark_nonce_used r.vault r.sig.nonce s) h in
      subst (λ (o : EnableStore × Option EnableError). HasQueue vault q o.0) (sym same)
        (rows-HasQueue vault q t (sent t r.vault (svc.send r.vault)).0
          (sent-rows t r.vault (svc.send r.vault)) kept)
]

-- The row of the vault after a job of a vault that has a row.
run_on-find :
    (svc : EnableServices) (k vault : String) (s : EnableStore) (row : ConfigRow)
    → find str_eq (run_on svc k s (some row)).0.rows vault ≡ (
        if str_eq k vault
        then some (
            upserted
              (with_config svc row)
              (λ (r : ConfigRow). with_config svc row)
              (find str_eq s.rows k))
        else find str_eq s.rows vault)
run_on-find svc k vault s row =
    find-upsert str_eq eq_iff k vault (with_config svc row) (λ r. with_config svc row) s.rows

true≢false : true ≢ false
true≢false e = cc

-- A job of another vault leaves the row.
other_job :
    (svc : EnableServices) (k vault q : String) (s : EnableStore) (o : Option ConfigRow)
    → str_eq k vault ≡ false
    → HasQueue vault q s
    → HasQueue vault q (run_on svc k s o).0
other_job svc k vault q s none n h = h
other_job svc k vault q s (some other) n (row, (h, e)) = (
  row,
  (
    run_on-find svc k vault s other
        ∙ ap
            (λ b.
              if b
              then some (
                  upserted (with_config svc other) (λ (r : ConfigRow). with_config svc other)
                    (find str_eq s.rows k))
              else find str_eq s.rows vault)
            n
        ∙ h,
    e,
  ),
)

-- A job keeps the queue of a vault, and if it is the vault's job, it deploys none and wires that one.
job-HasQueue :
    (svc : EnableServices) (k vault q : String) (s : EnableStore)
    → HasQueue vault q s
    → HasQueue vault q (run_job svc k s).0
      × (str_eq k vault ≡ true → All (IsAbout false q) (run_job svc k s).1)
unfolding run_job
job-HasQueue svc k vault q s (row, (h, e)) = elim (Bool-cases (str_eq k vault)) [
  | inl y ↦
      let at : find str_eq s.rows k ≡ some row =
        ap (find str_eq s.rows) ((eq_iff k vault).0 y) ∙ h in
      let bound = (enable_run_keeps_queue svc row.config).0 q e in
      let run : run_job svc k s ≡ run_on svc k s (some row) = ap (run_on svc k s) at in
      let look =
        run_on-find svc k vault s row
        ∙ ap
            (λ b.
              if b
              then some (
                  upserted (with_config svc row) (λ (r : ConfigRow). with_config svc row)
                    (find str_eq s.rows k))
              else find str_eq s.rows vault)
            y
        ∙ ap (λ o. some (upserted (with_config svc row) (λ (r : ConfigRow). with_config svc row) o))
            at in
      subst
        (λ (o : EnableStore × List Event).
          HasQueue vault q o.0 × (str_eq k vault ≡ true → All (IsAbout false q) o.1))
        (sym run) ((with_config svc row, (look, bound.0)), (λ z. bound.1))
  | inr n ↦ (
    other_job svc k vault q s (find str_eq s.rows k) n (row, (h, e)),
    (λ y. absurd (true≢false (sym y ∙ n))),
  )
]

-- Once a vault's row has a queue, no further request or job gives the vault another. Whatever requests are
-- handled and whatever jobs run, in any order, one after another and whichever of their calls fail, the
-- row has that queue at the end, and the jobs of the vault deployed none and wired that one only. A vault
-- is the text of its address here, so that another spelling of it is another vault.
pub enable_again :
    (vault q : String) (steps : List Step) (s : EnableStore)
    → HasQueue vault q s
    → HasQueue vault q (run_steps vault steps s).0
      × All (IsAbout false q) (run_steps vault steps s).1
unfolding run_steps
enable_again vault q [] s h = (h, tt)
enable_again vault q (request svc r ∷ steps) s h =
    enable_again vault q steps (enable svc s r).0 (request-HasQueue svc r vault q s h)
enable_again vault q (job svc k ∷ steps) s h =
    let (kept, about) = job-HasQueue svc k vault q s h in
    let (end, later) = enable_again vault q steps (run_job svc k s).0 kept in
    let log = (run_steps vault steps (run_job svc k s).0).1 in
    (
      end,
      elim (Bool-cases (str_eq k vault)) [
        | inl y ↦ rw y (All-append (IsAbout false q) (run_job svc k s).1 log (about y) later)
        | inr n ↦ rw n later
      ],
    )
