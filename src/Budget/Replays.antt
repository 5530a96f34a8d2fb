-- ===== src/Budget/Replays.antt =====
-- A key is claimed once.
use bruiser_gateway.Prelude.{
  ℕ, ◌≤◌, ◌≡◌, arith, Bool, true, false, List, [], ◌∷◌, ◌++◌, if◌then◌else◌, ltb, Text,
  text_eq_refl, is_empty, ℤ, pos, lebℤ, delete_where, any_where,
}
use bruiser_gateway.Store.{milliseconds, plus_ms}
use bruiser_gateway.Budget.{ReplayRow, same_key, claimed, replayed, ten_minutes, claim_replay}

any_where-kept :
    (p q : ReplayRow → Bool) (rows : List ReplayRow) (row : ReplayRow)
    → p row ≡ true
    → q row ≡ false
    → any_where p (delete_where q (rows ++ row ∷ [])) ≡ true
unfolding any_where delete_where
any_where-kept p q [] row h k = ground arith
any_where-kept p q (r ∷ rs) row h k = ground (arith, any_where-kept p q rs row h k)

-- A key is claimed once. After a claim of a key that is not empty has succeeded at `now`, a second claim of it fails and changes no row but what has run out, at each time up to the end of the window: the given one, or ten minutes where it is not positive.
pub claim_replay-once :
    (now later : ℕ) (m key kind kind' : Text) (window window' : ℤ) (s t : List ReplayRow)
    → is_empty key ≡ false
    → claim_replay now m key kind window s ≡ (t, claimed)
    → later ≤ plus_ms now (milliseconds (if lebℤ window (pos 0) then pos ten_minutes else window))
    → claim_replay later m key kind' window' t
      ≡ (delete_where (λ r. ltb r.expires_at later) t, replayed)
unfolding claim_replay same_key
claim_replay-once now later m key kind kind' window window' s t full first inside =
    let term = if lebℤ window (pos 0) then pos ten_minutes else window in
    let kept = delete_where (λ r. ltb r.expires_at now) s in
    let row : ReplayRow = record {
      merchant_id = m;
      replay_key = key;
      kind = kind;
      expires_at = plus_ms now (milliseconds term);
    } in
    let grown : t ≡ kept ++ row ∷ [] = ground arith in
    let there =
      any_where-kept (same_key m key) (λ r. ltb r.expires_at later) kept row
        (rw (text_eq_refl m, text_eq_refl key)) (ground arith) in
    ground (arith, grown, there)
