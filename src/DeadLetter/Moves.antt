-- ===== src/DeadLetter/Moves.antt =====
-- The page of pending entries that scanAndMoveToDLQ of internal/service/service.go goes through.
use Prim.Native.String.{String}
use deepiri_sugar_glider.Base.{
  ℕ, suc, ◌+◌, ◌≤◌, ◌≡◌, refl, sym, subst, arith, Bool, true, false, not, ◌||◌, ◌&&◌, List, [], ◌∷◌,
  length, if◌then◌else◌, inl, inr, Bool-cases, GoError, Result, ok, err,
}
use deepiri_sugar_glider.Base.Int.{ℤ, pos, ltb_ℤ, leb_ℤ}
use deepiri_sugar_glider.Config.Dlq.{StreamDlqPolicy}
use deepiri_sugar_glider.Redis.{Redis, Pending}
use deepiri_sugar_glider.Service.{Sidecar}
use deepiri_sugar_glider.DeadLetter.{
  is_due, move_one, count_move, move_pending_entry_to_dlq, scan_page,
}

-- What a policy asks of an entry: tried often enough, and idle for long enough if the policy says how long.
unfoldable pub meets : StreamDlqPolicy → Pending → Bool
meets policy p =
    leb_ℤ policy.max_retries p.retry_count
    && (leb_ℤ policy.min_idle (pos 0) || leb_ℤ policy.min_idle p.idle)

is_due-meets : (policy : StreamDlqPolicy) (p : Pending) → is_due policy p ≡ meets policy p
unfolding is_due meets
is_due-meets policy p = due_of policy.max_retries policy.min_idle p.retry_count p.idle
  where
    due_of :
        (retries idle tried rested : ℤ)
        → (not (ltb_ℤ tried retries) && not (ltb_ℤ (pos 0) idle && ltb_ℤ rested idle))
          ≡ (leb_ℤ retries tried && (leb_ℤ idle (pos 0) || leb_ℤ idle rested))
    due_of retries idle tried rested = ground arith

-- The entries of a page that the policy moves.
unfoldable pub due : StreamDlqPolicy → List Pending → List Pending
unfolding meets
due policy [] = []
due policy (p ∷ page) = let rest = due policy page in if meets policy p then p ∷ rest else rest

module _ {W : Type 0} (r : Redis W) where
  unfoldable pub move_each :
      StreamDlqPolicy → String → String → Sidecar W → List Pending → Sidecar W
  unfolding move_one
  move_each policy stream group s [] = s
  move_each policy stream group s (p ∷ page) =
      move_each policy stream group (move_one r policy stream group s p) page

  -- How many entries the two counters of a scan know of.
  abbrev tried : Sidecar W → ℕ
  tried s = s.collector.dlq_moved + s.collector.errors_total

  count_move-tried :
      (s : Sidecar W) (x : W × Result GoError Bool) → tried (count_move r s x) ≤ suc (tried s)
  unfolding count_move
  count_move-tried s (w, err e) = omega arith
  count_move-tried s (w, ok true) = omega arith
  count_move-tried s (w, ok false) = omega arith

  move_each-tried :
      (policy : StreamDlqPolicy) (stream group : String) (page : List Pending) (s : Sidecar W)
      → tried (move_each policy stream group s page) ≤ tried s + length page
  unfolding move_each move_one
  move_each-tried policy stream group [] s = omega arith
  move_each-tried policy stream group (p ∷ page) s =
      let t = move_one r policy stream group s p in
      omega (
        arith,
        move_each-tried policy stream group page t,
        count_move-tried s
            (move_pending_entry_to_dlq r s.cfg s.world stream group p policy.dlq_stream),
      )

  scan_page-each :
      (policy : StreamDlqPolicy) (stream group : String) (page : List Pending) (s : Sidecar W)
      → scan_page r policy stream group s page ≡ move_each policy stream group s (due policy page)
  unfolding scan_page move_each due
  scan_page-each policy stream group [] s = refl
  scan_page-each policy stream group (p ∷ page) s = elim (Bool-cases (meets policy p)) [
    | inl e ↦
        rw (is_due-meets policy p, e)
          (scan_page-each policy stream group page (move_one r policy stream group s p))
    | inr e ↦ rw (is_due-meets policy p, e) (scan_page-each policy stream group page s)
  ]

  -- A page is scanned as if only the entries were on it that have been tried as often as the policy says and
  -- have been idle for as long, which are moved one after the other; each of them is counted at most once,
  -- as moved or as an error.
  pub scan_page-due :
      (policy : StreamDlqPolicy) (stream group : String) (page : List Pending) (s : Sidecar W)
      → let t = scan_page r policy stream group s page in
        (t ≡ move_each policy stream group s (due policy page))
        × (t.collector.dlq_moved + t.collector.errors_total
            ≤ s.collector.dlq_moved + s.collector.errors_total + length (due policy page))
  scan_page-due policy stream group page s =
      let e = scan_page-each policy stream group page s in
      (
        e,
        subst (λ t. tried t ≤ tried s + length (due policy page)) (sym e)
            (move_each-tried policy stream group (due policy page) s),
      )
