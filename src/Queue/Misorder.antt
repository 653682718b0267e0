-- ===== src/Queue/Misorder.antt =====
-- Where queue_remove of my_queue.c leaves a queue out of order.
use my_libs.Base.{ℕ, ◌+◌, ◌-◌, ◌/◌, ◌<◌, ◌≡◌, true, some, arith}
use my_libs.Base.Int.{is_neg}
use my_libs.Queue.{Queue, compared, queue_remove}
use my_libs.Queue.Order.{at}
use my_libs.Queue.Valid.{HasRoom, IsHeap}
use my_libs.Queue.Remove.{moved, runs, stays, moved_misordered}

-- queue_remove only sifts down: at an index of a queue in order that is neither the top nor the last
-- and has no child left, if the last element comes before the parent of that index, the pointer at
-- the index is returned and the queue is out of order afterwards.
pub queue_remove_misorders :
    (q : Queue) (idx : ℕ)
    → HasRoom q
    → IsHeap q
    → 0 < idx
    → idx + 1 < q.elements
    → (q.elements - 1) / 2 < idx + 1
    → is_neg (compared q (at q.root q.elements) (at q.root ((idx + 1) / 2))) ≡ true
    → (q' : Queue) × (queue_remove q idx ≡ some (at q.root (idx + 1), q')) × ¬ IsHeap q'
queue_remove_misorders q idx f heap top inner leaf before =
    let inside : idx < q.elements = omega arith in
    (
      moved q idx f inside,
      runs q idx f inside (moved q idx f inside) (stays q idx f inside leaf),
      moved_misordered q idx f inside (omega arith) inner before,
    )
