-- ===== src/Store/Emergency.antt =====
-- internal/store/postgres/ops.go and audit.go: the operator's emergency controls.
use bruiser_gateway.Prelude.{
  ℕ, ◌+◌, none, ◌&&◌, ◌||◌, List, [], ◌∷◌, if◌then◌else◌, leb, take, Text, text, text_eq, is_empty,
  ℤ, pos, select_where, delete_where, count_where,
}
use bruiser_gateway.Lease.{Execution, is_live, ok, err}
use bruiser_gateway.Store.{Db, AuditType, emergency_drain, emergency_revoke, insert_audit}
use bruiser_gateway.Store.Promote.{or_limit}
use bruiser_gateway.Store.Mutate.{revoke}

-- The audit event of writeAdminAction, its attributes left out; without a merchant there is none, and
-- the caller answers ErrInvalidInput. An empty request id stands for that of the AdminAudit.
unfoldable pub admin_action : Text → AuditType → Text → Text → Text → Text → Db → Db
admin_action m typ reason role actor request_id db =
    if is_empty m
    then db
    else insert_audit
        (record {
          typ = typ;
          merchant_id = m;
          customer_id = [];
          principal = record { type = role; id = actor };
          domain_key = [];
          execution_id = [];
          rule_name = [];
          reason = reason;
          request_id = request_id;
          fence = none;
        })
        db

unfoldable pub drain_waiters : Text → Text → Text → Text → Db → Db × ℕ
drain_waiters m role actor request_id db =
    let n = count_where (λ w. text_eq w.merchant_id m) db.waiters in
    let db' = record db { waiters = delete_where (λ w. text_eq w.merchant_id m) db.waiters } in
    (admin_action m emergency_drain (text "waiters") role actor request_id db', n)

-- order by granted_at desc.
unfoldable pub insert_newest : Execution → List Execution → List Execution
insert_newest e [] = e ∷ []
insert_newest e (f ∷ fs) =
    if leb f.granted_at e.granted_at then e ∷ f ∷ fs else f ∷ insert_newest e fs

unfoldable pub newest_first : List Execution → List Execution
newest_first [] = []
newest_first (e ∷ es) = insert_newest e (newest_first es)

unfoldable pub list_active : ℕ → Text → Text → ℤ → Db → List Execution
list_active now m customer_id limit db = take (or_limit limit 50) (
    newest_first (
      select_where
        (λ e.
          text_eq e.merchant_id m
          && is_live now e
          && (is_empty customer_id || text_eq e.customer_id customer_id))
        db.executions))

-- The loop of RevokeActive: a lease that cannot be revoked is passed over.
unfoldable pub revoke_each : ℕ → Text → Text → Text → List Execution → ℕ → Db → Db × ℕ
revoke_each now m request_id reason [] n db = (db, n)
revoke_each now m request_id reason (e ∷ es) n db =
    elim (revoke now m e.id [] request_id reason db) [
      | ok (db', _) ↦ revoke_each now m request_id reason es (n + 1) db'
      | err _ ↦ revoke_each now m request_id reason es n db
    ]

unfoldable pub revoke_active : ℕ → Text → Text → Text → Text → Text → Db → Db × ℕ
revoke_active now m request_id reason₀ role actor db =
    let reason = if is_empty reason₀ then text "emergency" else reason₀ in
    let (db', n) = revoke_each now m request_id reason (list_active now m [] (pos 10000) db) 0 db in
    (admin_action m emergency_revoke reason role actor request_id db', n)
