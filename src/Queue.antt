-- ===== src/Queue.antt =====
-- core/util/Queue.h: the queue between threads. Each operation holds the mutex, so that it is one step
-- on the elements; `notifications` counts the wake-ups.
pub mod Order
mod Examples
use kovri.Common.{
  ℕ, zero, suc, ◌+◌, List, [], ◌∷◌, ◌++◌, Option, none, some, Bool, true, false, length,
}

pub record Queue {ℓ} (A : Type ℓ) : Type ℓ where
  pub queue : List A
  pub notifications : ℕ

module _ {ℓ} {A : Type ℓ} where
  pub put : A → Queue A → Queue A
  put e q = record q { queue = q.queue ++ (e ∷ []); notifications = q.notifications + 1 }

  -- The loop of `push` over a vector.
  pub push_all : List A → List A → List A
  push_all [] queue = queue
  push_all (e ∷ vec) queue = push_all vec (queue ++ (e ∷ []))

  -- Nothing, not even a wake-up, for an empty vector.
  pub put_all : List A → Queue A → Queue A
  unfolding push_all
  put_all [] q = q
  put_all (e ∷ vec) q = record q {
    queue = push_all (e ∷ vec) q.queue;
    notifications = q.notifications + 1;
  }

  abbrev front : List A → Option A
  front [] = none
  front (e ∷ _) = some e

  abbrev pop : List A → List A
  pop [] = []
  pop (_ ∷ es) = es

  -- `GetNonThreadSafe`, with whether it only looks.
  pub get_non_thread_safe : Bool → Queue A → Option A × Queue A
  get_non_thread_safe true q = (front q.queue, q)
  get_non_thread_safe false q = (front q.queue, record q { queue = pop q.queue })

  pub get : Queue A → Option A × Queue A
  unfolding get_non_thread_safe
  get q = get_non_thread_safe false q

  pub peek : Queue A → Option A × Queue A
  unfolding get_non_thread_safe
  peek q = get_non_thread_safe true q

  -- `GetNext` and `GetNextWithTimeout`: `wait` is what the other threads do to the queue while the
  -- mutex is released.
  pub get_next : (Queue A → Queue A) → Queue A → Option A × Queue A
  unfolding get
  get_next wait q = elim (get q).0 [ none ↦ get (wait (get q).1) | some e ↦ get q ]

  abbrev pub is_empty : Queue A → Bool
  is_empty q = elim q.queue [ [] ↦ true | _ ∷ _ ↦ false ]

  abbrev pub get_size : Queue A → ℕ
  get_size q = length q.queue

  abbrev pub wake_up : Queue A → Queue A
  wake_up q = record q { notifications = q.notifications + 1 }

  -- The inner loop of `MsgQueue::Run`: the messages that are processed, in their order. A round takes
  -- one, so that one round more than messages is enough. No message is a null pointer.
  pub process_messages : ℕ → Queue A → List A × Queue A
  unfolding get
  process_messages zero q = ([], q)
  process_messages (suc fuel) q =
      let (msgs, q') = process_messages fuel (get q).1 in
      elim (get q).0 [ none ↦ ([], q) | some msg ↦ (msg ∷ msgs, q') ]
