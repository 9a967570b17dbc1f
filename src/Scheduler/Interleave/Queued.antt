-- ===== src/Scheduler/Interleave/Queued.antt =====
-- How a change of the queues changes the weight of the tasks in them.
use tythread.Base.{ℕ, ◌+◌, ◌<◌, ◌≡◌, sym, ap, ◌∙◌, ◌≢◌, arith, [], ◌∷◌, ◌++◌, Ptr}
use tythread.Scheduler.{World}
use tythread.Scheduler.Shared.{OthersKeep}
use tythread.Scheduler.Steal.{tasks_of}
use tythread.Sum.{total, total-one, total-two}
use tythread.Scheduler.Sum.{weight, weight-++, weight-one}

-- The weight of the tasks in the first n queues.
abbrev pub queued : ℕ → (Ptr → ℕ) → World → ℕ
queued n g w = total n (λ k. weight g (tasks_of k w))

module _ {n : ℕ} (w w' : World) (me : ℕ) (below : me < n) where
  pub queued-push :
      (g : Ptr → ℕ) (p : Ptr)
      → OthersKeep n me w w'
      → tasks_of me w' ≡ tasks_of me w ++ p ∷ []
      → queued n g w' ≡ queued n g w + g p
  queued-push g p others e =
      let one =
        total-one n me (λ k. weight g (tasks_of k w')) (λ k. weight g (tasks_of k w)) below
          (λ k b ne. ap (weight g) (others k b ne)) in
      let more = ap (weight g) e ∙ weight-++ g (tasks_of me w) (p ∷ []) in
      omega (arith, one, more, weight-one g p)

  pub queued-pop :
      (g : Ptr → ℕ) (p : Ptr)
      → OthersKeep n me w w'
      → tasks_of me w ≡ p ∷ tasks_of me w'
      → queued n g w ≡ queued n g w' + g p
  unfolding weight
  queued-pop g p others e =
      let one =
        total-one n me (λ k. weight g (tasks_of k w')) (λ k. weight g (tasks_of k w)) below
          (λ k b ne. ap (weight g) (others k b ne)) in
      omega (arith, one, ap (weight g) e)

  pub queued-move :
      (g : Ptr → ℕ) (i : ℕ)
      → i < n
      → i ≢ me
      → tasks_of me w ≡ []
      → tasks_of i w ≡ tasks_of me w' ++ tasks_of i w'
      → ((k : ℕ) → k < n → k ≢ me → k ≢ i → tasks_of k w' ≡ tasks_of k w)
      → queued n g w' ≡ queued n g w
  unfolding weight
  queued-move g i b ne bare order others =
      let split = ap (weight g) order ∙ weight-++ g (tasks_of me w') (tasks_of i w') in
      total-two n me i (λ k. weight g (tasks_of k w')) (λ k. weight g (tasks_of k w)) below b
        (λ e. ne (sym e)) (omega (arith, split, ap (weight g) bare))
        (λ k c off other. ap (weight g) (others k c off other))
