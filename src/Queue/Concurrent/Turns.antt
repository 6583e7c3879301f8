-- ===== src/Queue/Concurrent/Turns.antt =====
-- Any interleaving of the two sides of nuhal_all/src/queue.c.
use nuhal.Common.{
  ℕ, ◌≡◌, sym, ◌∙◌, ap, List, [], ◌∷◌, ◌++◌, length, append_assoc, Returns, Returns-ok,
}
use nuhal.Queue.Fifo.{Item}
use nuhal.Queue.Refinement.{contents}
use nuhal.Queue.Concurrent.{
  System, Turn, produce, consume, push_step, pop_step, take_turn, run_turns,
}
use nuhal.Queue.Concurrent.Invariant.{IsConsistent}
use nuhal.Queue.Concurrent.Push.{push_step-PushKeeps}
use nuhal.Queue.Concurrent.Pop.{pop_step-PopKeeps}

-- A turn's item, if it has one, is as large as the queue's items.
abbrev IsSized : ℕ → Turn → Type 0
IsSized size (produce item) = length item ≡ size
IsSized size consume = Unit

abbrev pub AreSized : ℕ → List Turn → Type 0
AreSized size [] = Unit
AreSized size (t ∷ ts) = IsSized size t × AreSized size ts

module _ {k size : ℕ} where
  take_turn-IsConsistent :
      (s : System) (t : Turn)
      → IsSized size t
      → IsConsistent k size s
      → Returns (take_turn s t) (IsConsistent k size)
  unfolding take_turn
  take_turn-IsConsistent s (produce item) exact c =
      let ((q, p, done), e, (v, sized, push, pop, grown)) =
        Returns-ok (push_step s.queue s.producer item) _ (
          push_step-PushKeeps c.valid s.consumer c.pop s.producer item (exact ∙ sym c.sized)
            c.push) in
      rw e (record {
        valid = v;
        sized = sized ∙ c.sized;
        push = push;
        pop = pop;
        fifo =
            ap (λ (t : List Item). t ++ done) c.fifo
            ∙ (append_assoc s.received (contents s.queue) done
                ∙ ap (λ (t : List Item). s.received ++ t) (sym grown));
      })
  take_turn-IsConsistent s consume exact c =
      let ((q, r, done), e, (v, sized, push, pop, shrunk)) =
        Returns-ok (pop_step s.queue s.consumer) _
          (pop_step-PopKeeps c.valid s.producer c.push s.consumer c.pop) in
      rw e (record {
        valid = v;
        sized = sized ∙ c.sized;
        push = push;
        pop = pop;
        fifo =
            c.fifo
            ∙ (ap (λ (t : List Item). s.received ++ t) shrunk
                ∙ sym (append_assoc s.received done (contents q)));
      })

  -- However the steps of queue_push_nonblock and queue_pop_nonblock interleave, each touching
  -- memory of the other side once, from a consistent state and with items of the queue's size: no
  -- access is undefined, and after every such schedule the state is consistent, so that the items
  -- whose push has returned true are those popped, in the same order and whole, and then those in
  -- the queue.
  pub run_turns-IsConsistent :
      (s : System) (turns : List Turn)
      → AreSized size turns
      → IsConsistent k size s
      → Returns (run_turns s turns) (IsConsistent k size)
  unfolding run_turns
  run_turns-IsConsistent s [] sized c = c
  run_turns-IsConsistent s (t ∷ ts) (one, rest) c =
      let (s', e, c') = Returns-ok (take_turn s t) _ (take_turn-IsConsistent s t one c) in
      rw e (run_turns-IsConsistent s' ts rest c')
