-- ===== src/Queue/Examples.antt =====
-- A queue of core/util/Queue.h with two elements, as test data.
use kovri.Common.{ℕ, ◌≡◌, [], ◌∷◌, arith}
use kovri.Queue.{Queue, put_all, process_messages}
use kovri.Queue.Order.{process_messages-put_all}

abbrev two_elements : Queue ℕ
two_elements = record { queue = 4 ∷ 5 ∷ []; notifications = 2 }

process_messages-put_all_example :
    process_messages 5 (put_all (6 ∷ 7 ∷ []) two_elements)
    ≡ (4 ∷ 5 ∷ 6 ∷ 7 ∷ [], record (put_all (6 ∷ 7 ∷ []) two_elements) { queue = [] })
process_messages-put_all_example =
    process_messages-put_all 5 (6 ∷ 7 ∷ []) two_elements (omega arith)
