-- ===== src/Channel/Fifo.antt =====
-- The channel of src/channel.rs as a queue of items, for one receiver that awaits.
use unsend.Queue
use unsend.Base.{
  sym, ap₂, refl, none, some, [], ◌∷◌, ap, List, ℕ, ◌≡◌, ◌≢◌, ◌∙◌, Bool, true, false, arith, suc,
  ◌++◌, Option, length, ◌+◌, to_list,
}
use unsend.Queue.{Queue, Notice, poll_result}
use unsend.Queue.Alone.{only, poll-empty, poll-only}
use unsend.Queue.Front.{front-result}
use unsend.Channel.{
  Channel, recv, recv_turn, recv_try, poll_waiting, drop_waiting, RecvFuture, at_start, at_await,
  returned, Recv, item, channel_closed, not_yet,
}
use unsend.Channel.Waking.{recv-item}
use unsend.Channel.Alone.{told_of, told_of-drop}
use unsend.Channel.Use.{got}

abbrev pub awaits : RecvFuture → Bool
awaits at_start = false
awaits at_await = true
awaits returned = false

module _ {T : Type 0} where
  abbrev pub in_flight : List (Notice (Option T)) → List T
  in_flight [] = []
  in_flight (n ∷ ns) = to_list n.tag ++ in_flight ns

  -- What the receiver has still to get, the item that it was notified with first.
  abbrev pub contents : Channel T → List T
  contents s = in_flight s.event.notices ++ s.queued

  -- What a queue with these items says to whom asks for the next one.
  abbrev pub answer : List T → Bool → Recv T
  answer (t ∷ ts) c = item t
  answer [] true = channel_closed
  answer [] false = not_yet

  pub contents_at :
      (s : Channel T) (q : Queue (Option T)) (xs : List T)
      → s.event ≡ q
      → s.queued ≡ xs
      → contents s ≡ in_flight q.notices ++ xs
  contents_at s q xs e n = ap₂ (λ p ys. in_flight p.notices ++ ys) e n

pub drop-empty : (a : ℕ) {X : Type 0} (q : Queue X) → q ≡ Queue.empty → Queue.drop a q ≡ Queue.empty
unfolding Queue.drop
drop-empty a q e = ap (Queue.drop a) e

module _ {T : Type 0} (a : ℕ) where
  -- Where the future at the address `a` and the channel stand with each other.
  pub data Shape (f : RecvFuture) (s : Channel T) : Type 0 where
    rests : awaits f ≡ false → s.event ≡ Queue.empty → Shape f s
    parks :
        (v : ℕ) → f ≡ at_await → s.event ≡ only a v → s.queued ≡ [] → s.closed ≡ false → Shape f s
    told : (t : T) → f ≡ at_await → s.event ≡ told_of a (some t) → Shape f s
    ended : f ≡ at_await → s.event ≡ told_of a none → s.queued ≡ [] → s.closed ≡ true → Shape f s

  -- A poll answers as the queue of items does, which gives that item away.
  abbrev pub Answers : Channel T → Recv T × RecvFuture × Channel T → Type 0
  Answers s (r, f, u) =
      (r ≡ answer (contents s) s.closed) × (contents s ≡ got r ++ contents u) × Shape f u

  recv-told :
      (v : ℕ) (t : T) (s : Channel T)
      → s.event ≡ told_of a (some t)
      → Answers s (recv a v at_await s)
  unfolding drop_waiting poll_waiting
  recv-told v t s e =
      let cs = contents_at s (told_of a (some t)) s.queued e refl in
      let u = drop_waiting a (poll_waiting a v s) in
      let d = ap (λ q. Queue.drop a (Queue.poll a v q)) e ∙ told_of-drop a v (some t) in
      rw
        (recv-item a v s t
          (ap (poll_result a) e ∙ front-result (record { id = a; waker = none }) (some t) []))
        (
          sym (ap (λ xs. answer xs s.closed) cs),
          cs ∙ ap (λ xs. t ∷ xs) (sym (contents_at u Queue.empty s.queued d refl)),
          rests refl d,
        )

  recv_turn-none :
      (n v : ℕ) (s : Channel T)
      → poll_result a s.event ≡ none
      → recv_turn false (suc n) a v s ≡ (not_yet, poll_waiting a v s)
  unfolding recv_turn
  recv_turn-none n v s e = rw (e, recv_turn) refl

  recv_turn-told :
      (n v : ℕ) (s : Channel T)
      → poll_result a s.event ≡ some none
      → s.queued ≡ []
      → s.closed ≡ true
      → recv_turn false (suc (suc n)) a v s ≡ (channel_closed, drop_waiting a (poll_waiting a v s))
  unfolding recv_turn recv_try poll_waiting
  recv_turn-told n v s e q c = rw (e, recv_turn) (rw (q, c, recv_try) refl)

  -- The top of the loop.
  recv_turn-top :
      (xs : List T) (c : Bool) (n v : ℕ) (s : Channel T)
      → s.queued ≡ xs
      → s.closed ≡ c
      → recv_turn true (suc n) a v s ≡ recv_try xs c a s (recv_turn false n a v s)
  unfolding recv_turn
  recv_turn-top xs c n v s i j = ap₂ (λ ys b. recv_try ys b a s (recv_turn false n a v s)) i j

  abbrev rounds : Channel T → ℕ
  rounds s = suc (length s.event.notices + length s.event.notices)

  recv-parked :
      (v w : ℕ) (s : Channel T)
      → s.event ≡ only a w
      → s.queued ≡ []
      → s.closed ≡ false
      → Answers s (recv a v at_await s)
  unfolding recv poll_waiting poll_result
  recv-parked v w s e n c =
      let cs = contents_at s (only a w) [] e n in
      let d = ap (Queue.poll a v) e ∙ poll-only a w v in
      rw
        (recv_turn-none (suc (length s.event.notices + length s.event.notices)) v s
          (ap (poll_result a) e))
        (
          sym (ap₂ answer cs c),
          cs ∙ sym (contents_at (poll_waiting a v s) (only a v) [] d n),
          parks v refl d n c,
        )

  recv-ended :
      (v : ℕ) (s : Channel T)
      → s.event ≡ told_of a none
      → s.queued ≡ []
      → s.closed ≡ true
      → Answers s (recv a v at_await s)
  unfolding recv poll_waiting drop_waiting
  recv-ended v s e n c =
      let cs = contents_at s (told_of a none) [] e n in
      let u = drop_waiting a (poll_waiting a v s) in
      let d = ap (λ q. Queue.drop a (Queue.poll a v q)) e ∙ told_of-drop a v none in
      rw
        (recv_turn-told (length s.event.notices + length s.event.notices) v s
          (ap (poll_result a) e ∙ front-result (record { id = a; waker = none }) none []) n c)
        (sym (ap₂ answer cs c), cs ∙ sym (contents_at u Queue.empty [] d n), rests refl d)

  recv-rested :
      (xs : List T) (c : Bool) (v : ℕ) (s : Channel T)
      → s.event ≡ Queue.empty
      → s.queued ≡ xs
      → s.closed ≡ c
      → Answers s (recv a v at_start s)
  unfolding recv drop_waiting poll_waiting poll_result
  recv-rested [] true v s e n c =
      let cs = contents_at s Queue.empty [] e n in
      let d = drop-empty a s.event e in
      rw (recv_turn-top [] true (rounds s) v s n c) (
        sym (ap₂ answer cs c),
        cs ∙ sym (contents_at (drop_waiting a s) Queue.empty [] d n),
        rests refl d,
      )
  recv-rested [] false v s e n c =
      let cs = contents_at s Queue.empty [] e n in
      let d = ap (Queue.poll a v) e ∙ poll-empty a v in
      rw
        (
          recv_turn-top [] false (rounds s) v s n c,
          recv_turn-none (length s.event.notices + length s.event.notices) v s
              (ap (poll_result a) e),
        )
        (
          sym (ap₂ answer cs c),
          cs ∙ sym (contents_at (poll_waiting a v s) (only a v) [] d n),
          parks v refl d n c,
        )
  recv-rested (t ∷ ts) b v s e n c =
      let u = drop_waiting a (record s { queued = ts }) in
      let cs = contents_at s Queue.empty (t ∷ ts) e n in
      let d = drop-empty a s.event e in
      rw (recv_turn-top (t ∷ ts) b (rounds s) v s n c) (
        sym (ap₂ answer cs c),
        cs ∙ ap (λ xs. t ∷ xs) (sym (contents_at u Queue.empty ts d refl)),
        rests refl d,
      )

  -- A poll of a `recv` future that has not returned.
  pub recv-Answers :
      (f : RecvFuture) (v : ℕ) (s : Channel T) → f ≢ returned → Shape f s → Answers s (recv a v f s)
  recv-Answers at_start v s n (rests h e) = recv-rested s.queued s.closed v s e refl refl
  recv-Answers at_start v s n (parks w h e q c) = absurd (ground (arith, ap awaits h))
  recv-Answers at_start v s n (told t h e) = absurd (ground (arith, ap awaits h))
  recv-Answers at_start v s n (ended h e q c) = absurd (ground (arith, ap awaits h))
  recv-Answers at_await v s n (rests h e) = absurd (ground (arith, h))
  recv-Answers at_await v s n (parks w h e q c) = recv-parked v w s e q c
  recv-Answers at_await v s n (told t h e) = recv-told v t s e
  recv-Answers at_await v s n (ended h e q c) = recv-ended v s e q c
  recv-Answers returned v s n _ = absurd (n refl)
