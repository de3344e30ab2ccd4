-- ===== src/Queue/Order.antt =====
-- The order of the elements in core/util/Queue.h.
use kovri.Common.{
  ℕ, zero, suc, ◌<◌, ◌≡◌, refl, ap, sym, ◌∙◌, List, [], ◌∷◌, ◌++◌, append-nil, append_assoc, arith,
  length,
}
use kovri.Queue.{Queue, push_all, put_all, get_non_thread_safe, get, process_messages}

module _ {ℓ} {A : Type ℓ} where
  push_all-append : (vec queue : List A) → push_all vec queue ≡ queue ++ vec
  unfolding push_all
  push_all-append [] queue = sym (append-nil queue)
  push_all-append (e ∷ vec) queue =
      push_all-append vec (queue ++ (e ∷ [])) ∙ append_assoc queue (e ∷ []) vec

  queue-put_all : (vec : List A) (q : Queue A) → (put_all vec q).queue ≡ q.queue ++ vec
  unfolding put_all
  queue-put_all [] q = sym (append-nil q.queue)
  queue-put_all (e ∷ vec) q = push_all-append (e ∷ vec) q.queue

  process_messages-all :
      (fuel n : ℕ) (es : List A)
      → length es < fuel
      → process_messages fuel (record { queue = es; notifications = n })
        ≡ (es, record { queue = []; notifications = n })
  unfolding process_messages get get_non_thread_safe
  process_messages-all zero n es h = absurd (omega arith)
  process_messages-all (suc fuel) n [] h = refl
  process_messages-all (suc fuel) n (e ∷ es) h =
      rw (process_messages-all fuel n es (omega arith)) refl

  -- With a round more than messages, the loop processes the messages that were there and then the
  -- vector that was put, in their order, and leaves the queue empty.
  pub process_messages-put_all :
      (fuel : ℕ) (vec : List A) (q : Queue A)
      → length (q.queue ++ vec) < fuel
      → process_messages fuel (put_all vec q)
        ≡ (q.queue ++ vec, record (put_all vec q) { queue = [] })
  process_messages-put_all fuel vec q h =
      ap
        (λ (es : List A).
          process_messages fuel
            (record { queue = es; notifications = (put_all vec q).notifications }))
        (queue-put_all vec q)
      ∙ process_messages-all fuel (put_all vec q).notifications (q.queue ++ vec) h
