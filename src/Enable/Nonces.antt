-- ===== src/Enable/Nonces.antt =====
-- A signed request is accepted once.
use etf.Base.{
  ◌≡◌, ◌≢◌, ◌⊎◌, ◌∙◌, refl, sym, ap, arith, String, Bool, true, false, ◌&&◌, ◌||◌, Option, none,
  some, List, [], ◌∷◌, any, inl, inr,
}
use etf.Base.Results.{Result, ok, err}
use etf.Base.Text.{str_eq, eq_refl, differs}
use etf.Enable.Request.{
  EnableRequest, EnableStore, AuthServices, EnableError, same_nonce, is_nonce_used, mark_nonce_used,
  with_row, sent, enable,
}
use etf.Enable.Accepts.{enable_handles}

-- Requests one after another, each with what the services answer then.
unfoldable pub run_all : List (AuthServices × EnableRequest) → EnableStore → EnableStore
run_all [] s = s
run_all ((svc, r) ∷ rs) s = run_all rs (enable svc s r).0

sent-nonces :
    (s : EnableStore) (vault : String) (a : Result (Unit {0}))
    → (sent s vault a).0.nonces ≡ s.nonces
sent-nonces s vault (ok u) = refl
sent-nonces s vault (err e) = refl

-- The nonces after a request are the same, or one more: the request's.
nonces_lem :
    (svc : AuthServices) (s : EnableStore) (r : EnableRequest)
    → ((enable svc s r).0.nonces ≡ s.nonces)
      ⊎ ((enable svc s r).0.nonces ≡ (r.vault, r.sig.nonce) ∷ s.nonces)
nonces_lem svc s r = elim (enable_handles svc s r) [
  | inl (e, (same, n)) ↦ inl (ap (λ (o : EnableStore × Option EnableError). o.0.nonces) same)
  | inr (m, (v, same)) ↦ inr (
      ap (λ (o : EnableStore × Option EnableError). o.0.nonces) same
      ∙ sent-nonces (with_row r m (mark_nonce_used r.vault r.sig.nonce s)) r.vault
          (svc.send r.vault))
]

or_true : (a b : Bool) → b ≡ true → (a || b) ≡ true
or_true a b h = ground arith

-- A nonce that is used stays used.
used_stays :
    (svc : AuthServices) (s : EnableStore) (r : EnableRequest) (vault nonce : String)
    → is_nonce_used s vault nonce ≡ true
    → is_nonce_used (enable svc s r).0 vault nonce ≡ true
used_stays svc s r vault nonce h = elim (nonces_lem svc s r) [
  | inl e ↦ ap (any (same_nonce vault nonce)) e ∙ h
  | inr e ↦
      ap (any (same_nonce vault nonce)) e
      ∙ or_true (same_nonce vault nonce (r.vault, r.sig.nonce)) (is_nonce_used s vault nonce) h
]

run_stays :
    (rs : List (AuthServices × EnableRequest)) (s : EnableStore) (vault nonce : String)
    → is_nonce_used s vault nonce ≡ true
    → is_nonce_used (run_all rs s) vault nonce ≡ true
unfolding run_all
run_stays [] s vault nonce h = h
run_stays ((svc, r) ∷ rs) s vault nonce h =
    run_stays rs (enable svc s r).0 vault nonce (used_stays svc s r vault nonce h)

marked :
    (s : EnableStore) (r : EnableRequest)
    → is_nonce_used (mark_nonce_used r.vault r.sig.nonce s) r.vault r.sig.nonce ≡ true
marked s r =
    ap (λ b. (b && str_eq r.sig.nonce r.sig.nonce) || is_nonce_used s r.vault r.sig.nonce)
      (eq_refl r.vault)
    ∙ ap (λ b. b || is_nonce_used s r.vault r.sig.nonce) (eq_refl r.sig.nonce)

accepted_marks :
    (svc : AuthServices) (s : EnableStore) (r : EnableRequest)
    → (enable svc s r).1 ≡ none
    → is_nonce_used (enable svc s r).0 r.vault r.sig.nonce ≡ true
accepted_marks svc s r h = elim (enable_handles svc s r) [
  | inl (e, (same, n)) ↦
      let k : some e ≡ none = sym (ap (λ (o : EnableStore × Option EnableError). o.1) same) ∙ h in
      cc
  | inr (m, (v, same)) ↦
      ap (λ (o : EnableStore × Option EnableError). is_nonce_used o.0 r.vault r.sig.nonce) same
      ∙ ap (any (same_nonce r.vault r.sig.nonce)) (
          sent-nonces (with_row r m (mark_nonce_used r.vault r.sig.nonce s)) r.vault
            (svc.send r.vault))
      ∙ marked s r
]

-- A request with a used nonce is refused.
refused :
    (svc : AuthServices) (s : EnableStore) (r : EnableRequest)
    → is_nonce_used s r.vault r.sig.nonce ≡ true
    → (e : EnableError) × (enable svc s r ≡ (s, some e))
refused svc s r h = elim (enable_handles svc s r) [
  | inl (e, (same, n)) ↦ (e, same)
  | inr (m, (v, same)) ↦ let k = v.unused in cc
]

other_spelling : (a b v n : String) → ((v ≢ a) ⊎ (n ≢ b)) → (same_nonce v n (a, b)) ≡ false
other_spelling a b v n (inl h) = ap (λ c. c && str_eq b n) (differs a v (λ e. h (sym e)))
other_spelling a b v n (inr h) =
    ap (λ c. str_eq a v && c) (differs b n (λ e. h (sym e))) ∙ and_false (str_eq a v)
  where
    and_false : (c : Bool) → (c && false) ≡ false
    and_false true = refl
    and_false false = refl

-- Once a request is accepted, no request with the same vault and nonce is, whatever it asks for, whoever
-- signed it, and whatever requests came between: it is refused and changes nothing. This is by the texts:
-- a nonce or a vault that is spelled otherwise is as used as it was.
pub nonce_spent :
    (svc : AuthServices) (s : EnableStore) (r : EnableRequest)
    → (enable svc s r).1 ≡ none
    → ((between : List (AuthServices × EnableRequest)) (later : AuthServices)
          (again : EnableRequest)
        → again.vault ≡ r.vault
        → again.sig.nonce ≡ r.sig.nonce
        → let t = run_all between (enable svc s r).0 in
          (e : EnableError) × (enable later t again ≡ (t, some e)))
      × ((vault nonce : String)
          → ((vault ≢ r.vault) ⊎ (nonce ≢ r.sig.nonce))
          → is_nonce_used (enable svc s r).0 vault nonce ≡ is_nonce_used s vault nonce)
nonce_spent svc s r accepted = (
  (λ between later again v n.
      let t = run_all between (enable svc s r).0 in
      refused later t again (
        ap (λ x. is_nonce_used t x again.sig.nonce) v
        ∙ ap (is_nonce_used t r.vault) n
        ∙ run_stays between (enable svc s r).0 r.vault r.sig.nonce
            (accepted_marks svc s r accepted))),
  (λ vault nonce other. elim (nonces_lem svc s r) [
    | inl e ↦ ap (any (same_nonce vault nonce)) e
    | inr e ↦
        ap (any (same_nonce vault nonce)) e
        ∙ ap (λ b. b || is_nonce_used s vault nonce)
            (other_spelling r.vault r.sig.nonce vault nonce other)
  ]),
)
