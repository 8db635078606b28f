-- ===== src/Queue/Front.antt =====
-- One listener that was notified, in front of those that wait.
use unsend.Queue
use unsend.Base.{refl, some, List, ◌≡◌, ℕ, false, [], arith, ◌∷◌, ==_iff, ◌∙◌, ap}
use unsend.Queue.{Waiter, Queue, find_notice, in_waiters}
use unsend.Queue.Split.{poll_result-some, drop-none, erase_waiter-out, drop-some}
use unsend.Queue.Polled.{poll-some}

abbrev pub unnoticed : {T : Type 0} → List Waiter → Queue T
unnoticed ws = record { notices = []; waiters = ws }

module _ {T : Type 0} (x : Waiter) (t : T) (ws : List Waiter) where
  abbrev pub front : Queue T
  front = record { notices = record { id = x.id; tag = t; extra = false } ∷ []; waiters = ws }

  pub front-find :
      find_notice x.id front.notices ≡ some (record { id = x.id; tag = t; extra = false })
  front-find = ground (arith, ==_iff x.id x.id)

  pub front-result : Queue.poll_result x.id front ≡ some t
  front-result =
      poll_result-some x.id front (record { id = x.id; tag = t; extra = false }) front-find

  pub without_notice-front : Queue.without_notice x.id front ≡ unnoticed ws
  without_notice-front = ground (arith, ==_iff x.id x.id)

  -- A notification that is not wanted goes to the listener behind.
  pub drop-front : Queue.drop x.id front ≡ Queue.notify 1 false (λ _. t) (unnoticed ws)
  drop-front =
      drop-some x.id front (record { id = x.id; tag = t; extra = false }) front-find
      ∙ ap (Queue.notify 1 false (λ _. t)) without_notice-front

  pub front-poll : (v : ℕ) → Queue.poll x.id v front ≡ record { notices = []; waiters = ws }
  front-poll v =
      let (p, _, _) = poll-some x.id v front t front-result in p ∙ ground (arith, ==_iff x.id x.id)

module _ {T : Type 0} (x : Waiter) (ws : List Waiter) where
  pub drop-unnoticed :
      in_waiters x.id ws ≡ false → Queue.drop {T = T} x.id (unnoticed ws) ≡ unnoticed ws
  drop-unnoticed d =
      drop-none x.id (unnoticed ws) refl
      ∙ ap (λ us. record { notices = []; waiters = us }) (erase_waiter-out x.id ws d)
