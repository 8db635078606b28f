-- ===== src/Queue/Flying.antt =====
-- What listeners were notified with and have not been polled for.
use unsend.Queue
use unsend.Base.{
  refl, none, some, Bool, List, ℕ, Option, ◌∷◌, ◌++◌, to_list, ◌≡◌, ◌≤◌, ◌+◌, arith, Option-cases,
  if◌then◌else◌, [], suc, Bool-cases, ◌==◌, ap, zero, true, inl, ◌∙◌, false, inr,
}
use unsend.Queue.{
  delivered, quota, Notice, Waiter, Queue, find_notice, to_notices, poll_result, erase_notice,
  without_notice, lost_by,
}
use unsend.Queue.Occurs.{one_if}
use unsend.Queue.Polled.{poll-none, poll_result-find-some, poll-some, notices-listen}
use unsend.Queue.Split.{drop-none, poll_result-some, drop-some}

module _ {T : Type 0} (p : T → Bool) where
  -- How many items of a list `p` picks.
  abbrev pub hits : List T → ℕ
  hits [] = 0
  hits (x ∷ xs) = one_if (p x) + hits xs

  -- How many of the items that listeners were notified with.
  abbrev pub flying : List (Notice (Option T)) → ℕ
  flying [] = 0
  flying (x ∷ xs) = hits (to_list x.tag) + flying xs

  pub hits-append : (xs ys : List T) → hits (xs ++ ys) ≡ hits xs + hits ys
  hits-append [] ys = omega arith
  hits-append (x ∷ xs) ys = omega (arith, hits-append xs ys)

  pub flying-append : (xs ys : List (Notice (Option T))) → flying (xs ++ ys) ≡ flying xs + flying ys
  flying-append [] ys = omega arith
  flying-append (x ∷ xs) ys = omega (arith, flying-append xs ys)

  pub flying-erase :
      (a : ℕ) (xs : List (Notice (Option T))) (x : Notice (Option T))
      → find_notice a xs ≡ some x
      → hits (to_list x.tag) + flying (erase_notice a xs) ≡ flying xs
  flying-erase a [] x e = absurd (ground arith)
  flying-erase a (y ∷ ys) x e = elim (Bool-cases (a == y.id)) [
    | inl h ↦ ground arith
    | inr h ↦ ground (arith, flying-erase a ys x)
  ]

  pub flying-none :
      (k : ℕ) (extra : Bool) (ws : List Waiter) → flying (to_notices k extra (λ _. none) ws) ≡ 0
  flying-none zero extra ws = refl
  flying-none (suc k) extra [] = refl
  flying-none (suc k) extra (w ∷ ws) = omega (arith, flying-none k extra ws)

  -- At most one listener is notified.
  pub flying-one :
      (k : ℕ) (extra : Bool) (f : ℕ → Option T) (ws : List Waiter)
      → k ≤ 1
      → flying (to_notices k extra f ws) ≡ (if delivered k ws == 0 then 0 else hits (to_list (f 0)))
  unfolding delivered
  flying-one zero extra f ws l = refl
  flying-one (suc zero) extra f [] l = refl
  flying-one (suc zero) extra f (w ∷ ws) l = omega arith
  flying-one (suc (suc k)) extra f ws l = absurd (omega arith)

  pub flying-notify :
      (count : ℕ) (extra : Bool) (f : ℕ → Option T) (q : Queue (Option T))
      → flying (Queue.notify count extra f q).notices
        ≡ flying q.notices + flying (to_notices (quota count extra q) extra f q.waiters)
  unfolding Queue.notify
  flying-notify count extra f q =
      flying-append q.notices (to_notices (quota count extra q) extra f q.waiters)

  pub quota-bound : (extra : Bool) (q : Queue (Option T)) → quota 1 extra q ≤ 1
  unfolding quota
  quota-bound true q = omega arith
  quota-bound false q = omega arith

  pub flying-notify-one :
      (extra : Bool) (f : ℕ → Option T) (q : Queue (Option T))
      → flying (Queue.notify 1 extra f q).notices
        ≡ flying q.notices
          + (if delivered (quota 1 extra q) q.waiters == 0 then 0 else hits (to_list (f 0)))
  flying-notify-one extra f q =
      flying-notify 1 extra f q
      ∙ ap (λ n. flying q.notices + n)
          (flying-one (quota 1 extra q) extra f q.waiters (quota-bound extra q))

  pub flying-drop :
      (a : ℕ) (q : Queue (Option T))
      → flying (Queue.drop a q).notices + hits (lost_by a q) ≡ flying q.notices
  unfolding lost_by
  flying-drop a q = elim (Option-cases (find_notice a q.notices)) [
    | inl e ↦ rw (e, lost_by) (rw (drop-none a q e) (omega arith))
    | inr (x, e) ↦
        rw (e, lost_by)
          (rw (drop-some a q x e, flying-notify-one x.extra (λ _. x.tag) (without_notice a q))
            (ground (arith, flying-erase a q.notices x e)))
  ]

  pub flying-poll-none :
      (a v : ℕ) (q : Queue (Option T))
      → poll_result a q ≡ none
      → flying (Queue.poll a v q).notices ≡ flying q.notices
  flying-poll-none a v q e = rw (poll-none a v q e) (ap flying (notices-listen a q))

  pub flying-poll-some :
      (a v : ℕ) (q : Queue (Option T)) (r : Option T)
      → poll_result a q ≡ some r
      → hits (to_list r) + flying (Queue.poll a v q).notices ≡ flying q.notices
  flying-poll-some a v q r e =
      let (x, h) = poll_result-find-some a q r e in
      let (m, _, _) = poll-some a v q r e in
      rw m (ground (arith, flying-erase a q.notices x h, e, poll_result-some a q x h))
