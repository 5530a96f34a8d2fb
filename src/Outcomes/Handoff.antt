-- ===== src/Outcomes/Handoff.antt =====
-- A handoff that succeeds: internal/store/postgres/handoff.go.
use bruiser_gateway.Prelude.{
  ℕ, suc, ◌≤◌, ◌≡◌, ◌⊎◌, Bool, true, false, some, arith, Text, text_eq, is_empty, if◌then◌else◌,
  subst, ◌&&◌, List, [], ◌∷◌, ◌++◌, text_eq_iff, text_eq_refl, any_where, update_where,
  delete_where, select_row, refl, sym, ◌∙◌, ap, inl, inr, Bool-cases,
}
use bruiser_gateway.Lease.{
  precedence_denied, Mode, preempt, cooperative, inferred, other_mode, Principal, HandoffRequest,
  HandoffResult, ok, err, Result, Execution, is_live, active, handed_off,
}
use bruiser_gateway.Lease.Precedence.{same_principal, can_preempt_ranked}
use bruiser_gateway.Store.{Db, Session, session, holder_matches, has_id, insert_execution}
use bruiser_gateway.Store.Mutate.{caller_of}
use bruiser_gateway.Store.Handoff.{
  is_ok, resolve_mode, cooperative_to, preempt_to, succ_execution, succ_session, hand_off, handoff,
}
use bruiser_gateway.Ledger.{fence_of}
use bruiser_gateway.Ledger.Fences.{bump_fence-fence_of}
use bruiser_gateway.Refinement.Acquire.{has_id_self}
use bruiser_gateway.Refinement.Grants.{bump_fence_ok, insert_execution_ok}
use bruiser_gateway.Refinement.Mutate.{load_active_for_update_ok}
use bruiser_gateway.Outcomes.Stored.{
  stored, stored-keys, select_row-update_where, select_row-kept, select_row-new, select_row-prefix,
  any_where-found, delete_where-update_where, delete_where-append, delete_where-none,
  delete_where-swap, Holder, holder_matches-Holder,
}
use bruiser_gateway.Refinement.Handoff.{transfer_steps, hand_over_steps, handoff_steps, with_ttl}

is_ok-eq : (r : Result (Unit {0})) → is_ok r ≡ true → r ≡ ok tt
unfolding is_ok
is_ok-eq (ok tt) h = refl
is_ok-eq (err e) h = absurd (ground arith)

taken :
    (to₀ caller holder : Principal) (order : List Text) (mode : Mode) (to : Principal)
    → (if can_preempt_ranked caller holder order
        then preempt_to to₀ caller
        else err precedence_denied)
      ≡ ok (mode, to)
    → ((mode ≡ cooperative) × (false ≡ true) × (to ≡ to₀))
      ⊎ ((mode ≡ preempt)
          × (can_preempt_ranked caller holder order ≡ true)
          × (same_principal to caller ≡ true))
unfolding preempt_to
taken to₀ caller holder order mode to h =
    elim (Bool-cases (can_preempt_ranked caller holder order)) [
      | inr no_higher ↦ absurd (ground arith)
      | inl higher ↦
          let target = if is_empty to₀.type then caller else to₀ in
          elim (Bool-cases (same_principal target caller)) [
            | inr differs ↦ absurd (ground arith)
            | inl same ↦ inr (ground arith, higher, ground arith)
          ]
    ]

-- What the mode in force says of the caller and of the successor.
resolved :
    (asked : Mode) (holds : Bool) (to₀ caller holder : Principal) (order : List Text) (mode : Mode)
    (to : Principal)
    → resolve_mode asked holds to₀ caller holder order ≡ ok (mode, to)
    → ((mode ≡ cooperative) × (holds ≡ true) × (to ≡ to₀))
      ⊎ ((mode ≡ preempt)
          × (can_preempt_ranked caller holder order ≡ true)
          × (same_principal to caller ≡ true))
unfolding resolve_mode cooperative_to preempt_to
resolved cooperative true to₀ caller holder order mode to h = ground arith
resolved cooperative false to₀ caller holder order mode to h = absurd (ground arith)
resolved other_mode true to₀ caller holder order mode to h = absurd (ground arith)
resolved other_mode false to₀ caller holder order mode to h = absurd (ground arith)
resolved preempt true to₀ caller holder order mode to h = ground arith
resolved inferred true to₀ caller holder order mode to h = ground arith
resolved preempt false to₀ caller holder order mode to h = taken to₀ caller holder order mode to h
resolved inferred false to₀ caller holder order mode to h = taken to₀ caller holder order mode to h

-- What the two statements leave in the table: the old row ended, the new row, and the others.
pub record Passed (old pred succ : Execution) (s t : Db) : Type 0 where
  pub unused : any_where (has_id succ.id) s.executions ≡ false
  pub ended : stored old.merchant_id old.id t ≡ some pred
  pub granted : stored succ.merchant_id succ.id t ≡ some succ
  pub others :
      delete_where (has_id succ.id) (delete_where (has_id old.id) t.executions)
      ≡ delete_where (has_id old.id) s.executions

hand_off-keeps :
    (now : ℕ) (x m y : Text) (r : Execution)
    → ((text_eq (hand_off now x r).merchant_id m && has_id y (hand_off now x r))
        ≡ (text_eq r.merchant_id m && has_id y r))
      × (has_id y (hand_off now x r) ≡ has_id y r)
unfolding hand_off has_id
hand_off-keeps now x m y r = (refl, refl)

clash :
    (old succ : Execution) (s : Db)
    → any_where (has_id succ.id) s.executions ≡ false
    → stored old.merchant_id old.id s ≡ some old
    → has_id old.id succ ≡ true
    → ⊥
unfolding has_id
clash old succ s unused row hit =
    let back : text_eq old.id succ.id ≡ true =
      ground (arith, text_eq_iff succ.id old.id, text_eq_refl old.id) in
    let used =
      any_where-found
        (λ (r : Execution). text_eq r.merchant_id old.merchant_id && text_eq r.id old.id)
        (λ (r : Execution). text_eq r.id succ.id) s.executions old row back in
    ground (arith, used)

hand_off-state : (now : ℕ) (x : Text) (e : Execution) → (hand_off now x e).state ≡ handed_off
unfolding hand_off
hand_off-state now x e = refl

fence_of-domains : (m k : Text) (s t : Db) → s.domains ≡ t.domains → fence_of m k s ≡ fence_of m k t
unfolding fence_of
fence_of-domains m k s t h = rw h refl

transfer-Passed :
    (now : ℕ) (old succ : Execution) (s t : Db)
    → any_where (has_id succ.id) s.executions ≡ false
    → stored old.merchant_id old.id s ≡ some old
    → t.executions ≡ update_where (has_id old.id) (hand_off now succ.id) (s.executions ++ succ ∷ [])
    → Passed old (hand_off now succ.id old) succ s t
transfer-Passed now old succ s t unused row after =
    let p = has_id old.id in
    let f = hand_off now succ.id in
    let es = s.executions ++ succ ∷ [] in
    let q = λ (m x : Text) (r : Execution). text_eq r.merchant_id m && has_id x r in
    let apart : p succ ≡ false = elim (Bool-cases (p succ)) [
      | inr other ↦ other
      | inl hit ↦ absurd (clash old succ s unused row hit)
    ] in
    let same = λ (m x : Text) (r : Execution). (hand_off-keeps now succ.id m x r).0 in
    record {
      unused = unused;
      ended =
          ap (select_row (q old.merchant_id old.id)) after
          ∙ select_row-update_where (q old.merchant_id old.id) p f es old
              (same old.merchant_id old.id)
              (select_row-prefix (q old.merchant_id old.id) s.executions old succ row)
              (has_id_self old);
      granted =
          ap (select_row (q succ.merchant_id succ.id)) after
          ∙ select_row-kept (q succ.merchant_id succ.id) p f es succ (same succ.merchant_id succ.id)
              (select_row-new (q succ.merchant_id succ.id) (has_id succ.id) s.executions succ
                (λ r h. ground arith) unused
                (ground (arith, has_id_self succ, text_eq_refl succ.merchant_id)))
              apart;
      others =
          ap (λ rows. delete_where (has_id succ.id) (delete_where p rows)) after
          ∙ ap (delete_where (has_id succ.id)) (
              delete_where-update_where p p f es (λ r h. h)
                (λ r. (hand_off-keeps now succ.id old.merchant_id old.id r).1))
          ∙ delete_where-swap (has_id succ.id) p es
          ∙ ap (delete_where p) (
              delete_where-append (has_id succ.id) s.executions succ (has_id_self succ)
              ∙ delete_where-none (has_id succ.id) s.executions unused);
    }

transfer_steps-Passed :
    (now : ℕ) (m x : Text) (old succ : Execution) (s t u v : Db)
    → stored m x s ≡ some old
    → u.executions ≡ s.executions
    → insert_execution succ u ≡ ok v
    → t.executions ≡ update_where (has_id old.id) (hand_off now succ.id) v.executions
    → Passed old (hand_off now succ.id old) succ s t
transfer_steps-Passed now m x old succ s t u v row same ins after =
    let (merchant, id) = stored-keys m x s old row in
    let (unused, grown) = insert_execution_ok succ u ins in
    transfer-Passed now old succ s t (rw same at unused)
      (subst (λ y. stored old.merchant_id y s ≡ some old) (sym id)
        (subst (λ y. stored y x s ≡ some old) (sym merchant) row))
      (after
        ∙ ap (update_where (has_id old.id) (hand_off now succ.id))
            (ap (λ (d : Db). d.executions) grown ∙ ap (λ rows. rows ++ succ ∷ []) same))

-- A handoff. It ends one lease on record under the request's merchant and id, live at the time and of the caller's customer, in favour of a successor of another principal, with the domain's next fence, the predecessor's domain, customer and maximal lifetime, and an end within that; and either the caller's session is the lease's or of its holder, and the successor is whom it names, or the caller outranks the holder and the successor is the caller's own principal. Afterwards the old row is on record as handed off, the successor's as active under an id that was not used, the rows of other ids are as before, and the domain's fence is the successor's.
pub handoff-successor :
    (now : ℕ) (fresh fresh_session : Text) (req : HandoffRequest) (s t : Db) (r : HandoffResult)
    → handoff now fresh fresh_session req s ≡ ok (t, r)
    → (c : Session) × (old : Execution) × (session req.session_id s ≡ some c)
      × (stored req.merchant_id req.execution_id s ≡ some old)
      × (is_live now old ≡ true)
      × (text_eq old.customer_id c.customer_id ≡ true)
      × (r.predecessor ≡ hand_off now fresh old)
      × (r.predecessor.state ≡ handed_off)
      × (r.successor.id ≡ fresh)
      × (r.successor.state ≡ active)
      × (r.successor.fence ≡ suc (fence_of old.merchant_id old.domain_key s))
      × (r.successor.domain_key ≡ old.domain_key)
      × (r.successor.customer_id ≡ old.customer_id)
      × (r.successor.max_lifetime_at ≡ old.max_lifetime_at)
      × (r.successor.expires_at ≤ old.max_lifetime_at)
      × (same_principal r.successor.principal old.principal ≡ false)
      × ((Holder old req.session_id s × (r.successor.principal ≡ req.to))
          ⊎ ((can_preempt_ranked (caller_of c) old.principal req.precedence ≡ true)
              × (same_principal r.successor.principal (caller_of c) ≡ true)))
      × Passed old r.predecessor r.successor s t
      × (fence_of old.merchant_id old.domain_key t ≡ r.successor.fence)
handoff-successor now fresh fresh_session req s t r h =
    let (c, old, found, loaded, same, h₁) = handoff_steps now fresh fresh_session req s t r h in
    let (row, live) = load_active_for_update_ok now req.merchant_id req.execution_id s old loaded in
    let (mode, to, mode_eq, differs, h₂) =
      hand_over_steps now fresh fresh_session (with_ttl req) (caller_of c) old s t r h₁ in
    let (f, u, v, b, ins, after, domains, _, succ_eq, pred_eq) =
      transfer_steps now fresh fresh_session (with_ttl req) mode to old s t r h₂ in
    let (bumped, grown) = bump_fence-fence_of now old.merchant_id old.domain_key s b in
    let succ =
      succ_execution now fresh (succ_session mode req.session_id fresh_session) to
        (with_ttl req).ttl f old in
    let passed =
      transfer_steps-Passed now req.merchant_id req.execution_id old succ s t u v row
        (bump_fence_ok now old.merchant_id old.domain_key s b).0 ins after in
    unfold succ_execution in
    (
      c,
      old,
      found,
      row,
      live,
      same,
      pred_eq,
      ap (λ (q : Execution). q.state) pred_eq ∙ hand_off-state now fresh old,
      ap (λ (q : Execution). q.id) succ_eq,
      ap (λ (q : Execution). q.state) succ_eq,
      ap (λ (q : Execution). q.fence) succ_eq ∙ grown,
      ap (λ (q : Execution). q.domain_key) succ_eq,
      ap (λ (q : Execution). q.customer_id) succ_eq,
      ap (λ (q : Execution). q.max_lifetime_at) succ_eq,
      subst (λ (q : Execution). q.expires_at ≤ old.max_lifetime_at) (sym succ_eq) (omega arith),
      ap (λ (q : Execution). same_principal q.principal old.principal) succ_eq ∙ differs,
      elim (resolved req.mode (is_ok (holder_matches old req.session_id s)) req.to (caller_of c)
          old.principal req.precedence mode to mode_eq) [
            | inl (_, holds, to_eq) ↦ inl (
              holder_matches-Holder old req.session_id s (is_ok-eq _ holds),
              ap (λ (q : Execution). q.principal) succ_eq ∙ to_eq,
            )
            | inr (_, higher, to_eq) ↦ inr (
              higher,
              ap (λ (q : Execution). same_principal q.principal (caller_of c)) succ_eq ∙ to_eq,
            )
          ],
      subst (λ p. Passed old p r.successor s t) (sym pred_eq)
          (subst (λ q. Passed old (hand_off now fresh old) q s t) (sym succ_eq) passed),
      fence_of-domains old.merchant_id old.domain_key t u
            (domains ∙ ap (λ (d : Db). d.domains) (insert_execution_ok succ u ins).1)
          ∙ bumped
          ∙ sym (ap (λ (q : Execution). q.fence) succ_eq),
    )
