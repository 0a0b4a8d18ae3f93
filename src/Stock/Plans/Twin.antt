-- ===== src/Stock/Plans/Twin.antt =====
-- The stock plan store of internal/tools/stock_adjustment_tools.go and the batch store of
-- internal/batch/store.go are one store, written twice.
use Prim.Native.Char.{code}
use inventree_mcp.Prelude.{
  ℕ, suc, String, Option, none, some, [], ◌∷◌, ◌&&◌, ◌==◌, eq_iff, ◌≡◌, refl, ap, arith, length, ℤ,
  negsuc, eq_int, eq_int_iff, pos, Result, ok, err, Result-cases, inl, inr,
}
use inventree_mcp.GoMap.{Assoc, get, delete, put, retain}
use inventree_mcp.Batch.Store
use inventree_mcp.Batch.Store.{Entry, Store, Digestible, authorizes, unexpired, supersede}
use inventree_mcp.Stock.Plans
use inventree_mcp.Stock.Plans.{
  other, Planned, Confirmation, PlanStore, replace, confirms, current, confirmation, issue_plan,
  consume_plan, issue_plan_locked, consume_plan_locked,
}

-- A text for the action and the item that tells them apart.
pub record KeyText : Type 0 where
  pub text : String → ℤ → String
  pub tells : (a b : String) (i j : ℤ) → text a i ≡ text b j → (a ≡ b) × (i ≡ j)

abbrev head_code : String → ℕ
head_code String.[] = 0
head_code (String.◌∷◌ c s) = code c

-- `n` digits `1`, a stop, and the rest
abbrev digits : ℕ → String → String
digits ℕ.zero s = String.◌∷◌ "." s
digits (suc n) s = String.◌∷◌ "1" (digits n s)

digits-injective : (m n : ℕ) (s t : String) → digits m s ≡ digits n t → (m ≡ n) × (s ≡ t)
digits-injective ℕ.zero ℕ.zero s t h = (refl, cc)
digits-injective ℕ.zero (suc n) s t h = absurd (omega (arith, ap head_code h))
digits-injective (suc m) ℕ.zero s t h = absurd (omega (arith, ap head_code h))
digits-injective (suc m) (suc n) s t h = let r = digits-injective m n s t (cc) in (ap suc r.0, r.1)

abbrev written_key : String → ℤ → String
written_key a (pos n) = String.◌∷◌ "+" (digits n a)
written_key a (negsuc n) = String.◌∷◌ "-" (digits n a)

pub written_key_tells :
    (a b : String) (i j : ℤ) → written_key a i ≡ written_key b j → (a ≡ b) × (i ≡ j)
written_key_tells a b (pos m) (pos n) h = let r = digits-injective m n a b (cc) in (r.1, ap pos r.0)
written_key_tells a b (negsuc m) (negsuc n) h =
    let r = digits-injective m n a b (cc) in (r.1, ap negsuc r.0)
written_key_tells a b (pos m) (negsuc n) h = absurd (omega (arith, ap head_code h))
written_key_tells a b (negsuc m) (pos n) h = absurd (omega (arith, ap head_code h))

abbrev pub plain_key : KeyText
plain_key = record { text = written_key; tells = written_key_tells }

module _ (k : KeyText) where
  abbrev pub entry_of : Confirmation → Entry
  entry_of c = record {
    digest = c.digest;
    principal = c.principal;
    supersede_key = k.text c.action c.stock_item_id;
    expires_at = c.expires_at;
  }

  abbrev pub entries_of : Assoc Confirmation → Assoc Entry
  entries_of [] = []
  entries_of ((t, c) ∷ m) = (t, entry_of c) ∷ entries_of m

  abbrev pub option_of : Option Confirmation → Option Entry
  option_of none = none
  option_of (some c) = some (entry_of c)

  get-entries_of :
      (t : String) (m : Assoc Confirmation) → get t (entries_of m) ≡ option_of (get t m)
  unfolding get
  get-entries_of t [] = refl
  get-entries_of t ((j, c) ∷ m) = ground (arith, get-entries_of t m)

  length-entries_of : (m : Assoc Confirmation) → length (entries_of m) ≡ length m
  length-entries_of [] = refl
  length-entries_of (x ∷ m) = ap suc (length-entries_of m)

  retain-entries_of :
      (now : ℕ) (m : Assoc Confirmation)
      → retain (unexpired now) (entries_of m) ≡ entries_of (retain (current now) m)
  unfolding retain
  retain-entries_of now [] = refl
  retain-entries_of now ((j, c) ∷ m) = ground (arith, retain-entries_of now m)

  delete-entries_of :
      (t : String) (m : Assoc Confirmation) → delete t (entries_of m) ≡ entries_of (delete t m)
  unfolding delete
  delete-entries_of t [] = refl
  delete-entries_of t ((j, c) ∷ m) = ground (arith, delete-entries_of t m)

  -- one test of two fields is the test of the key
  key_test : (a b : String) (i j : ℤ) → (k.text a i == k.text b j) ≡ (a == b && eq_int i j)
  key_test a b i j =
      ground (arith, k.tells a b i j, eq_iff (k.text a i) (k.text b j), eq_iff a b, eq_int_iff i j)

  supersede-entries_of :
      (p a : String) (i : ℤ) (m : Assoc Confirmation)
      → supersede p (k.text a i) (entries_of m)
        ≡ (entries_of (replace p a i m).0, (replace p a i m).1)
  unfolding supersede replace
  supersede-entries_of p a i [] = refl
  supersede-entries_of p a i ((t, c) ∷ m) =
      ground (arith, supersede-entries_of p a i m, key_test c.action a c.stock_item_id i)

  confirms_twin :
      (now : ℕ) (digest principal action : String) (id : ℤ) (o : Option Confirmation)
      → authorizes now digest principal (k.text action id) (option_of o)
        ≡ confirms now digest principal action id o
  confirms_twin now digest principal action id none = refl
  confirms_twin now digest principal action id (some c) =
      rw (key_test c.action action c.stock_item_id id) (ground arith)

  abbrev error_of : Plans.Error → Store.Error
  error_of Plans.capacity = Store.capacity
  error_of (other e) = Store.upstream e

  abbrev pub answer_of : Result Plans.Error String → Result Store.Error String
  answer_of (ok t) = ok t
  answer_of (err e) = err (error_of e)

  abbrev pub upstream_of : Result String String → Result Store.Error String
  upstream_of (ok t) = ok t
  upstream_of (err e) = err (Store.upstream e)

  abbrev pub plan_digest : {P : Type 0} → Planned P → Digestible P
  plan_digest p = record { digest = λ plan. upstream_of (p.hash plan) }

  module _ {P C : Type 0} ⦃p : Planned P⦄ where
    abbrev pub twin : PlanStore C → Store P C (Unit {0})
    twin s = record {
      entries = entries_of s.entries;
      opts = record {
        id_generator = tt;
        principal = s.principal;
        supersede_key = λ plan. k.text (p.action plan) (p.stock_item_id plan);
        lifetime = pos 300000000000;
        max_entries = s.max_entries;
        max_entries_per_principal = s.max_entries_per_principal;
      };
    }

    locked_issue :
        (s : PlanStore C) (now : ℕ) (principal action : String) (id : ℤ) (digest token : String)
        → Store.issue_locked (twin s) now principal (k.text action id) digest token ≡ (
          answer_of (issue_plan_locked s now principal action id digest token).0,
          twin (issue_plan_locked s now principal action id digest token).1,
        )
    unfolding issue_plan_locked Plans.delete_expired Store.issue_locked Store.delete_expired_locked
        put
    locked_issue s now principal action id digest token =
        let kept = (replace principal action id (retain (current now) s.entries)).0 in
        rw
          (
            retain-entries_of now s.entries,
            supersede-entries_of principal action id (retain (current now) s.entries),
          )
          (ground (arith, length-entries_of kept, delete-entries_of token kept))

    locked_consume :
        (s : PlanStore C) (now : ℕ) (principal action : String) (id : ℤ) (digest token : String)
        → Store.consume_locked (twin s) now principal (k.text action id) digest token ≡ (
          (consume_plan_locked s now principal action id digest token).0,
          twin (consume_plan_locked s now principal action id digest token).1,
        )
    unfolding consume_plan_locked Plans.delete_expired Store.consume_locked
        Store.delete_expired_locked
    locked_consume s now principal action id digest token =
        let swept = retain (current now) s.entries in
        let same = confirms_twin now digest principal action id (get token swept) in
        rw (retain-entries_of now s.entries, get-entries_of token swept, same)
          (ground (arith, delete-entries_of token swept))

    -- `issue` of the stock plan store answers what `Issue` of the batch store answers, and leaves the store
    -- that corresponds, when the batch store's supersede key is any text that tells the actions and items
    -- apart and its lifetime and limits are those of the stock plan store.
    pub issue_plan-issue :
        (s : PlanStore C) (ctx : C) (now : ℕ) (draw : Result String String) (plan : P)
        → Store.issue ⦃d = plan_digest p⦄ (twin s) ctx now (upstream_of draw) plan
          ≡ (answer_of (issue_plan s ctx now draw plan).0, twin (issue_plan s ctx now draw plan).1)
    unfolding issue_plan Store.issue
    issue_plan-issue s ctx now draw plan = elim (Result-cases (p.hash plan)) [
      | inr (e, h) ↦ rw (Store.issue, issue_plan, h) refl
      | inl (digest, h) ↦ elim (Result-cases draw) [
        | inr (e, h') ↦ rw (Store.issue, issue_plan, h, h') refl
        | inl (token, h') ↦
            rw (Store.issue, issue_plan, h, h')
              (locked_issue s now (s.principal ctx) (p.action plan) (p.stock_item_id plan) digest
                token)
      ]
    ]

    -- `consume` of the stock plan store accepts what `Consume` of the batch store accepts, and leaves the
    -- store that corresponds, under the same conditions.
    pub consume_plan-consume :
        (s : PlanStore C) (ctx : C) (token : String) (now : ℕ) (plan : P)
        → Store.consume ⦃d = plan_digest p⦄ (twin s) ctx token now plan
          ≡ ((consume_plan s ctx token now plan).0, twin (consume_plan s ctx token now plan).1)
    unfolding consume_plan Store.consume
    consume_plan-consume s ctx token now plan = elim (Result-cases (p.hash plan)) [
      | inr (e, h) ↦ rw (Store.consume, consume_plan, h) refl
      | inl (digest, h) ↦
          rw (Store.consume, consume_plan, h)
            (locked_consume s now (s.principal ctx) (p.action plan) (p.stock_item_id plan) digest
              token)
    ]
