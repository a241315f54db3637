-- ===== src/Enable/Accepts.antt =====
-- Which requests are accepted, and what a request changes.
use etf.Base.{
  ℕ, ◌<◌, ◌≡◌, ◌≢◌, ◌⊎◌, ◌↔◌, ◌∙◌, refl, sym, ap, subst, arith, String, true, false, Option, none,
  some, leb, Bool-cases, inl, inr, if◌then◌else◌,
}
use etf.Base.Results.{Result, ok, err}
use etf.Base.Text.{str_eq, eq_iff, to_lower}
use etf.Base.Table.{find}
use etf.Enable.{validate_enable_params, validate_enable_params_iff, IsInBounds}
use etf.Enable.Handler.{EnableStatus}
use etf.Enable.Request.{
  EnableRequest, ConfigRow, EnableStore, AuthServices, EnableError, Verified, by, failed,
  is_nonce_used, mark_nonce_used, signer_of, checked, verify, is_busy, busy_status, with_row, sent,
  after_verify, unless_busy, unless_bad, enable,
}

-- The tests that a request has to pass before anything is written; `manager` is the vault's.
pub record IsVerified (svc : AuthServices) (s : EnableStore) (r : EnableRequest) (manager : String)
    : Type 0 where
  pub bounds : IsInBounds r.params
  pub idle :
      (row : ConfigRow)
      → find str_eq s.rows r.vault ≡ some row
      → (row.config.status ≢ EnableStatus.live) × (row.config.status ≢ EnableStatus.wiring)
  pub fresh : svc.now_sec < r.sig.expiry
  pub unused : is_nonce_used s r.vault r.sig.nonce ≡ false
  pub managed : svc.manager r.vault ≡ ok manager
  pub signed :
      (signer : String) × ((signer_of svc r ≡ ok signer) × (to_lower signer ≡ to_lower manager))

not_busy :
    (st : EnableStatus)
    → (is_busy st ≡ false) ↔ ((st ≢ EnableStatus.live) × (st ≢ EnableStatus.wiring))
not_busy EnableStatus.pending = ((λ h. ((λ e. cc), (λ e. cc))), (λ h. refl))
not_busy EnableStatus.failed = ((λ h. ((λ e. cc), (λ e. cc))), (λ h. refl))
not_busy EnableStatus.live = ((λ h. cc), (λ h. absurd (h.0 refl)))
not_busy EnableStatus.wiring = ((λ h. cc), (λ h. absurd (h.1 refl)))

abbrev row_or : ConfigRow → Option ConfigRow → ConfigRow
row_or d none = d
row_or d (some row) = row

idle_iff :
    (o : Option ConfigRow)
    → (busy_status o ≡ none) ↔ (
        (row : ConfigRow)
        → o ≡ some row
        → (row.config.status ≢ EnableStatus.live) × (row.config.status ≢ EnableStatus.wiring))
idle_iff none = ((λ h row e. cc), (λ h. refl))
idle_iff (some x) = elim (Bool-cases (is_busy x.config.status)) [
  | inl e ↦ (
    (λ h.
        let b : some x.config.status ≡ none =
          sym (ap (λ c. if c then some x.config.status else none) e) ∙ h in
        cc),
    (λ h. let f = (not_busy x.config.status).1 (h x refl) in cc),
  )
  | inr e ↦ (
    (λ h row k.
        let same : x ≡ row = ap (row_or x) k in
        subst
          (λ (y : ConfigRow).
            (y.config.status ≢ EnableStatus.live) × (y.config.status ≢ EnableStatus.wiring))
          same ((not_busy x.config.status).0 e)),
    (λ h. ap (λ c. if c then some x.config.status else none) e),
  )
]

-- The verification accepts for a manager.
abbrev IsSignedBy : AuthServices → EnableStore → EnableRequest → String → Type 0
IsSignedBy svc s r m =
    (svc.now_sec < r.sig.expiry)
    × ((is_nonce_used s r.vault r.sig.nonce ≡ false)
        × ((svc.manager r.vault ≡ ok m)
            × ((signer : String) × ((signer_of svc r ≡ ok signer)
                  × (to_lower signer ≡ to_lower m)))))

-- It fails, or accepts for the manager and marks the nonce.
abbrev VerifiedAs : AuthServices → EnableStore → EnableRequest → Verified → Type 0
VerifiedAs svc s r (failed e) = (m : String) → IsSignedBy svc s r m → ⊥
VerifiedAs svc s r (by s' m) = (s' ≡ mark_nonce_used r.vault r.sig.nonce s) × IsSignedBy svc s r m

text_or : Result String → String
text_or (ok a) = a
text_or (err e) = ""

checked_lem :
    (svc : AuthServices) (s : EnableStore) (r : EnableRequest) (signer manager : Result String)
    → svc.now_sec < r.sig.expiry
    → is_nonce_used s r.vault r.sig.nonce ≡ false
    → signer_of svc r ≡ signer
    → svc.manager r.vault ≡ manager
    → VerifiedAs svc s r (checked s r signer manager)
unfolding text_or
checked_lem svc s r (err e) manager fresh unused x y = λ m h. let k = h.1.1.1.1.0 in cc
checked_lem svc s r (ok a) (err e) fresh unused x y = λ m h. let k = h.1.1.0 in cc
checked_lem svc s r (ok a) (ok b) fresh unused x y =
    elim (Bool-cases (str_eq (to_lower a) (to_lower b))) [
      | inl e ↦ rw e (refl, (fresh, (unused, (y, (a, (x, (eq_iff _ _).0 e))))))
      | inr e ↦ rw e (λ m h.
          let signed = h.1.1.1 in
          let a_is : a ≡ signed.0 = ap text_or (sym x ∙ signed.1.0) in
          let b_is : b ≡ m = ap text_or (sym y ∙ h.1.1.0) in
          let same =
            (eq_iff (to_lower a) (to_lower b)).1
              (ap to_lower a_is ∙ signed.1.1 ∙ ap to_lower (sym b_is)) in
          cc)
    ]

late : (a b : ℕ) → leb a b ≡ true → b < a → ⊥
late a b h k = ground arith

early : (a b : ℕ) → leb a b ≡ false → b < a
early a b h = ground arith

verify_lem :
    (svc : AuthServices) (s : EnableStore) (r : EnableRequest) → VerifiedAs svc s r (verify svc s r)
unfolding verify
verify_lem svc s r = elim (Bool-cases (leb r.sig.expiry svc.now_sec)) [
  | inl e ↦ rw e (λ m h. late r.sig.expiry svc.now_sec e h.0)
  | inr e ↦ rw e (elim (Bool-cases (is_nonce_used s r.vault r.sig.nonce)) [
    | inl f ↦ rw f (λ m h. let g = h.1.0 in cc)
    | inr f ↦ rw f (
        checked_lem svc s r (signer_of svc r) (svc.manager r.vault)
          (early r.sig.expiry svc.now_sec e) f refl refl)
  ])
]

-- A request is refused and changes nothing, or is verified and is written and sent.
abbrev pub IsHandled :
    AuthServices → EnableStore → EnableRequest → EnableStore × Option EnableError → Type 0
IsHandled svc s r out =
    ((e : EnableError) × ((out ≡ (s, some e)) × ((m : String) → IsVerified svc s r m → ⊥)))
    ⊎ ((m : String) × (IsVerified svc s r m
          × (out
              ≡ sent (with_row r m (mark_nonce_used r.vault r.sig.nonce s)) r.vault
                  (svc.send r.vault))))

handled_lem :
    (svc : AuthServices) (s : EnableStore) (r : EnableRequest) (bad : Option String)
    (busy : Option EnableStatus) (v : Verified)
    → validate_enable_params r.params ≡ bad
    → busy_status (find str_eq s.rows r.vault) ≡ busy
    → VerifiedAs svc s r v
    → IsHandled svc s r (unless_bad bad s (unless_busy busy s (after_verify svc s r v)))
handled_lem svc s r (some field) busy v x y h =
    inl (_, (refl, (λ m k. let z = (validate_enable_params_iff r.params).1 k.bounds in cc)))
handled_lem svc s r none (some st) v x y h =
    inl (_, (refl, (λ m k. let z = (idle_iff (find str_eq s.rows r.vault)).1 k.idle in cc)))
handled_lem svc s r none none (failed e) x y h =
    inl (e, (refl, (λ m k. h m (k.fresh, (k.unused, (k.managed, k.signed))))))
handled_lem svc s r none none (by s' m) x y h = inr (
  m,
  (
    record {
      bounds = (validate_enable_params_iff r.params).0 x;
      idle = (idle_iff (find str_eq s.rows r.vault)).0 y;
      fresh = h.1.0;
      unused = h.1.1.0;
      managed = h.1.1.1.0;
      signed = h.1.1.1.1;
    },
    ap (λ t. sent (with_row r m t) r.vault (svc.send r.vault)) h.0,
  ),
)

-- A request is refused, whatever is wrong with it, and then nothing has changed; or it passes every test
-- there is: its parameters are in bounds, no queue of the vault is wired or live, it has not expired, its
-- nonce was not used for the vault, and it is signed by the vault's manager. Only then the nonce is marked,
-- the vault's row is pending, and the job is sent; a job that cannot be sent leaves the nonce marked and
-- the row pending.
pub enable_handles :
    (svc : AuthServices) (s : EnableStore) (r : EnableRequest) → IsHandled svc s r (enable svc s r)
unfolding enable
enable_handles svc s r =
    handled_lem svc s r (validate_enable_params r.params) (busy_status (find str_eq s.rows r.vault))
      (verify svc s r) refl refl (verify_lem svc s r)
