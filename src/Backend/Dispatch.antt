-- ===== src/Backend/Dispatch.antt =====
-- src/core/sipbackend/EventDispatch.h and EventDispatch.cpp: events queued for the main thread, each
-- under the epoch it was posted in. The queue is Qt's; what is modelled is what stands in it, oldest
-- first, and the test that each lambda makes when it runs. The epoch is a 64-bit counter.
use compact_phone.Base.{
  ℕ, ◌+◌, ◌%◌, ◌≤◌, ◌<◌, ◌≡◌, refl, ap, ◌∙◌, List, [], ◌∷◌, ◌++◌, arith, ◌==◌, if◌then◌else◌,
}
use compact_phone.Base.Lists.{All, All-append}
use Prim.Native.Nat.{◌^◌}

pub record EventDispatch (E : Type 0) : Type 0 where
  pub epoch : ℕ
  pub queue : List (ℕ × E)

module _ {E : Type 0} where
  unfoldable pub empty : EventDispatch E
  empty = record { epoch = 0; queue = [] }

  unfoldable pub post : E → EventDispatch E → EventDispatch E
  post e d = record d { queue = d.queue ++ (d.epoch, e) ∷ [] }

  -- `fetch_add` on a `std::atomic<std::uint64_t>`
  unfoldable pub invalidate : EventDispatch E → EventDispatch E
  invalidate d = record d { epoch = (d.epoch + 1) % 2 ^ 64 }

  -- The queued lambdas run, in order: those of another epoch do nothing.
  unfoldable pub deliver : ℕ → List (ℕ × E) → List E
  deliver epoch [] = []
  deliver epoch ((posted, e) ∷ q) =
      let rest = deliver epoch q in if posted == epoch then e ∷ rest else rest

  -- The event loop empties the queue.
  unfoldable pub drain : EventDispatch E → List E × EventDispatch E
  drain d = (deliver d.epoch d.queue, record d { queue = [] })

pub data Op (E : Type 0) : Type 0 where
  posts : E → Op E
  invalidates : Op E

module _ {E : Type 0} where
  unfoldable pub run : List (Op E) → EventDispatch E → EventDispatch E
  run [] d = d
  run (Op.posts e ∷ ops) d = run ops (post e d)
  run (Op.invalidates ∷ ops) d = run ops (invalidate d)

  -- The contract: a queue that an invalidation empties.
  abbrev pub replay : List (Op E) → List E → List E
  replay [] q = q
  replay (Op.posts e ∷ ops) q = replay ops (q ++ e ∷ [])
  replay (Op.invalidates ∷ ops) q = replay ops []

  abbrev pub invalidations : List (Op E) → ℕ
  invalidations [] = 0
  invalidations (Op.posts e ∷ ops) = invalidations ops
  invalidations (Op.invalidates ∷ ops) = invalidations ops + 1

  -- No lambda is of a later epoch.
  abbrev pub IsBounded : EventDispatch E → Type 0
  IsBounded d = All (λ (x : ℕ × E). x.0 ≤ d.epoch) d.queue

  deliver-append : (n : ℕ) (p q : List (ℕ × E)) → deliver n (p ++ q) ≡ deliver n p ++ deliver n q
  unfolding deliver
  deliver-append n [] q = refl
  deliver-append n ((posted, e) ∷ p) q = ground (arith, deliver-append n p q)

  deliver-later :
      (n k : ℕ) (q : List (ℕ × E)) → All (λ (x : ℕ × E). x.0 ≤ n) q → n < k → deliver k q ≡ []
  unfolding deliver
  deliver-later n k [] h lt = refl
  deliver-later n k ((posted, e) ∷ q) h lt = ground (arith, deliver-later n k q h.1 lt)

  All-later :
      (n k : ℕ) (q : List (ℕ × E))
      → All (λ (x : ℕ × E). x.0 ≤ n) q
      → n < k
      → All (λ (x : ℕ × E). x.0 ≤ k) q
  All-later n k [] h lt = tt
  All-later n k (x ∷ q) h lt = (omega arith, All-later n k q h.1 lt)

  drain-post : (e : E) (d : EventDispatch E) → (drain (post e d)).0 ≡ (drain d).0 ++ e ∷ []
  unfolding drain post
  drain-post e d =
      deliver-append d.epoch d.queue ((d.epoch, e) ∷ [])
      ∙ ap (◌++◌ (deliver d.epoch d.queue)) (deliver_now d.epoch)
    where
      deliver_now : (n : ℕ) → deliver n ((n, e) ∷ []) ≡ e ∷ []
      deliver_now n = unfold deliver in ground arith

  post-IsBounded : (e : E) (d : EventDispatch E) → IsBounded d → IsBounded (post e d)
  unfolding post
  post-IsBounded e d h =
      All-append (λ (x : ℕ × E). x.0 ≤ d.epoch) d.queue ((d.epoch, e) ∷ []) h (omega arith, tt)

  invalidate-epoch :
      (d : EventDispatch E) → d.epoch + 1 < 2 ^ 64 → (invalidate d).epoch ≡ d.epoch + 1
  unfolding invalidate
  invalidate-epoch d lt = omega arith

  invalidate-IsBounded :
      (d : EventDispatch E) → IsBounded d → d.epoch + 1 < 2 ^ 64 → IsBounded (invalidate d)
  unfolding invalidate
  invalidate-IsBounded d h lt = All-later d.epoch _ d.queue h (omega arith)

  drain-invalidate :
      (d : EventDispatch E) → IsBounded d → d.epoch + 1 < 2 ^ 64 → (drain (invalidate d)).0 ≡ []
  unfolding drain invalidate
  drain-invalidate d h lt = deliver-later d.epoch _ d.queue h (omega arith)

  post_lt :
      (e : E) (d : EventDispatch E) (n : ℕ) → d.epoch + n < 2 ^ 64 → (post e d).epoch + n < 2 ^ 64
  unfolding post
  post_lt e d n lt = lt

  -- From a dispatcher with no lambda of a later epoch, and with so few invalidations ahead that the epoch
  -- and their number add up to less than 2 ^ 64 (so that it does not wrap around), any sequence of posts and invalidations leaves just those events to be delivered that were posted
  -- after the last invalidation, in the order of posting.
  pub drain_replays :
      (ops : List (Op E)) (d : EventDispatch E)
      → IsBounded d
      → d.epoch + invalidations ops < 2 ^ 64
      → (drain (run ops d)).0 ≡ replay ops (drain d).0
  unfolding run
  drain_replays [] d h lt = refl
  drain_replays (Op.posts e ∷ ops) d h lt =
      drain_replays ops (post e d) (post-IsBounded e d h) (post_lt e d (invalidations ops) lt)
      ∙ ap (replay ops) (drain-post e d)
  drain_replays (Op.invalidates ∷ ops) d h lt =
      drain_replays ops (invalidate d) (invalidate-IsBounded d h (omega arith))
        (omega (arith, invalidate-epoch d (omega arith)))
      ∙ ap (replay ops) (drain-invalidate d h (omega arith))
