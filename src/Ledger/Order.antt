-- ===== src/Ledger/Order.antt =====
-- Each move keeps the fences of a domain distinct and at or below the domain's own, which grows.
use bruiser_gateway.Prelude.{
  ℕ, ◌≤◌, ◌≡◌, refl, sym, subst, Bool, List, [], ◌∷◌, ◌++◌, arith, Text, count_where, update_where,
  count_where_mono, count_where-update_keep,
}
use bruiser_gateway.Lease.{Execution, ok}
use bruiser_gateway.Store.{Db, has_id, bump_fence}
use bruiser_gateway.Ledger.{
  fence_of, SameLease, Move, keep, open_domain, grant, extend, finish, expire, replace,
}
use bruiser_gateway.Ledger.Fences.{
  above, carries, SameLease-above, SameLease-carries, new_row_above, new_row_carries,
  bump_fence_mono, fence_of-append-le,
}

pub record IsOrdered (s : Db) : Type 0 where
  pub below_fence : (m k : Text) → count_where (above m k (fence_of m k s)) s.executions ≡ 0
  pub distinct_fences : (m k : Text) (f : ℕ) → count_where (carries m k f) s.executions ≤ 1

pub fence_of_domains :
    (m k : Text) (s t : Db) → t.domains ≡ s.domains → fence_of m k t ≡ fence_of m k s
unfolding fence_of
fence_of_domains m k s t e = rw e

-- No move lowers the fence of a domain.
pub Move-fence_of-le :
    {cap : Text → Text → ℕ} {now : ℕ} {s t : Db}
    → Move cap now s t
    → (m k : Text) → fence_of m k s ≤ fence_of m k t
Move-fence_of-le {s = s} {t = t} (keep _ d) m k = omega (arith, fence_of_domains m k s t d)
Move-fence_of-le {s = s} {t = t} (open_domain d _ _ _ eq) m k = fence_of-append-le m k s t d eq
Move-fence_of-le {now = now} {s = s} {t = t} (grant e u _ _ _ b _ eq) m k =
    omega (arith, fence_of_domains m k u t eq, bump_fence_mono now _ _ s b m k)
Move-fence_of-le {s = s} {t = t} (extend _ _ _ _ _ _ _ d) m k =
    omega (arith, fence_of_domains m k s t d)
Move-fence_of-le {s = s} {t = t} (finish _ _ _ _ _ _ _ d) m k =
    omega (arith, fence_of_domains m k s t d)
Move-fence_of-le {s = s} {t = t} (expire _ _ _ _ _ d) m k =
    omega (arith, fence_of_domains m k s t d)
Move-fence_of-le {now = now} {s = s} {t = t} (replace e u _ _ _ _ b _ _ _ eq) m k =
    omega (arith, fence_of_domains m k u t eq, bump_fence_mono now _ _ s b m k)

-- The promises for rows `es` under the fences of `s`.
record Ordered (s : Db) (es : List Execution) : Type 0 where
  below : (m k : Text) → count_where (above m k (fence_of m k s)) es ≡ 0
  distinct : (m k : Text) (f : ℕ) → count_where (carries m k f) es ≤ 1

update-Ordered :
    (s : Db) (q : Execution → Bool) (g : Execution → Execution) (es : List Execution)
    → ((r : Execution) → SameLease r (g r))
    → Ordered s es
    → Ordered s (update_where q g es)
update-Ordered s q g es same v = record {
  below = λ m k.
      rw (count_where-update_keep _ q g es (λ r. SameLease-above m k (fence_of m k s) (same r)))
        (v.below m k);
  distinct = λ m k f.
      rw (count_where-update_keep _ q g es (λ r. SameLease-carries m k f (same r)))
        (v.distinct m k f);
}

grown-Ordered :
    (s t : Db) (es : List Execution)
    → ((m k : Text) → fence_of m k s ≤ fence_of m k t)
    → Ordered s es
    → Ordered t es
grown-Ordered s t es grows v = record {
  below = λ m k. omega (
    arith,
    v.below m k,
    count_where_mono (above m k (fence_of m k t)) (above m k (fence_of m k s)) es
        (λ r p. ground (arith, grows m k)),
  );
  distinct = v.distinct;
}

new-Ordered :
    (now : ℕ) (e : Execution) (s u : Db)
    → bump_fence now e.merchant_id e.domain_key s ≡ ok (e.fence, u)
    → Ordered s s.executions
    → Ordered u (s.executions ++ e ∷ [])
new-Ordered now e s u b v = record {
  below = λ m k. new_row_above now e s u b m k (v.below m k);
  distinct = λ m k f. new_row_carries now e s u b m k f (v.below m k) (v.distinct m k f);
}

of_equations :
    (u t : Db) (es : List Execution)
    → Ordered u es
    → t.executions ≡ es
    → t.domains ≡ u.domains
    → IsOrdered t
of_equations u t es v e d = record {
  below_fence = λ m k.
      subst (λ rows. count_where (above m k (fence_of m k t)) rows ≡ 0) (sym e)
        (subst (λ f. count_where (above m k f) es ≡ 0) (sym (fence_of_domains m k u t d))
          (v.below m k));
  distinct_fences =
      λ m k f. subst (λ rows. count_where (carries m k f) rows ≤ 1) (sym e) (v.distinct m k f);
}

pub Move-IsOrdered :
    {cap : Text → Text → ℕ} {now : ℕ} {s t : Db} → Move cap now s t → IsOrdered s → IsOrdered t
Move-IsOrdered {cap} {now} {s} {t} move v = go move
  where
    old : Ordered s s.executions
    old = record { below = v.below_fence; distinct = v.distinct_fences }

    go : Move cap now s t → IsOrdered t
    go (keep e d) = of_equations s t _ old e d
    go (open_domain d z new e eq) =
        of_equations t t _ (grown-Ordered s t _ (Move-fence_of-le move) old) e refl
    go (grant e u _ _ _ b eq d) = of_equations u t _ (new-Ordered now e s u b old) eq d
    go (extend x q g _ _ same eq d) =
        of_equations s t _ (update-Ordered s q g _ (λ r. (same r).same) old) eq d
    go (finish x q g _ _ same eq d) =
        of_equations s t _ (update-Ordered s q g _ (λ r. (same r).same) old) eq d
    go (expire x g _ same eq d) =
        of_equations s t _ (update-Ordered s _ g _ (λ r. (same r).same) old) eq d
    go (replace e u x g _ _ b _ same eq d) =
        of_equations u t _
          (update-Ordered u (has_id x) g _ (λ r. (same r).same) (new-Ordered now e s u b old)) eq d
