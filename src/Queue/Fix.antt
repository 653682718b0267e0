-- ===== src/Queue/Fix.antt =====
-- queue_fix and queue_replaced of my_queue.c, and what is on top.
use my_libs.Base.{ℕ, zero, suc, ◌/◌, ◌<◌, ◌≤◌, ◌≡◌, refl, ◌∙◌, ap, some, arith}
use my_libs.Queue.{Queue, compared, fix_from, queue_fix}
use my_libs.Queue.Lifecycle.{queue_top}
use my_libs.Queue.Order.{Le, at, IsHeapFrom, occ, root_least}
use my_libs.Queue.Hole.{get-at}
use my_libs.Queue.Valid.{
  IsOrdering, HasRoom, IsValid, count, compared-IsOrder, holding, order-holding, holding-IsOrdering,
  downheap_lem,
}

-- What the loop of queue_fix leaves.
record Repaired (q q' : Queue) : Type 0 where
  valid : IsValid q'
  frame : q' ≡ record q { root = q'.root }
  kept : (p : ℕ) → occ p q.elements q'.root ≡ occ p q.elements q.root

fix_from_lem :
    (i : ℕ) (q : Queue)
    → IsOrdering q
    → HasRoom q
    → i ≤ q.elements
    → IsHeapFrom (compared q) (suc i) q.elements q.root
    → (q' : Queue) × (fix_from i q ≡ some q') × Repaired q q'
unfolding fix_from
fix_from_lem zero q o f h heap = (
  q,
  refl,
  record { valid = record { ordering = o; fits = f; heap = heap }; frame = refl; kept = λ p. refl },
)
fix_from_lem (suc i) q o f h heap =
    let (q1, run, d) =
      downheap_lem q (suc i) (suc i) o (omega arith) (omega arith) (omega (arith, f.within, f.room))
        (omega (arith, f.within, f.room)) (λ c h1 hn hlo ni nj. heap c h1 hn (omega arith))
        (λ h1 hl. absurd (omega arith)) (λ c h1 hn e g gl. absurd (omega arith)) in
    let s : Queue = holding q q1.root q.elements in
    let (q2, run2, r) =
      fix_from_lem i s (holding-IsOrdering q q1.root q.elements o)
        (record { within = f.within; room = omega (arith, d.size, f.room); word = f.word })
        (omega arith) (order-holding q q1.root q1.root q.elements (suc i) q.elements d.order) in
    (
      q2,
      ground (arith, run, d.frame),
      record { valid = r.valid; frame = r.frame; kept = λ p. r.kept p ∙ d.kept p },
    )

-- queue_fix of a queue with room for its elements, in whatever order, whose callback is a total
-- order that never returns INT_MIN, accesses nothing outside
-- `root` and comes to an end. The queue is valid afterwards, with the same number of elements and
-- each pointer as often as before.
pub queue_fix_lem :
    (q : Queue)
    → IsOrdering q
    → HasRoom q
    → (q' : Queue) × (queue_fix q ≡ some q')
      × IsValid q'
      × (q'.elements ≡ q.elements)
      × ((p : ℕ) → count p q' ≡ count p q)
unfolding queue_fix
queue_fix_lem q o f =
    let (q', run, r) =
      fix_from_lem (q.elements / 2) q o f (omega arith) (λ c h1 hn hlo. absurd (omega arith)) in
    let same_count : q'.elements ≡ q.elements = ap (λ (k : Queue). k.elements) r.frame in
    (q', run, r.valid, same_count, λ p. ap (λ n. occ p n q'.root) same_count ∙ r.kept p)

-- queue_top of a valid queue that is not empty is a pointer of the queue before which none comes.
pub queue_top_lem :
    (q : Queue)
    → IsValid q
    → 0 < q.elements
    → (queue_top q ≡ some (at q.root 1))
      × ((i : ℕ) → 1 ≤ i → i ≤ q.elements → Le (compared q) (at q.root 1) (at q.root i))
unfolding queue_top
queue_top_lem q v h = (
  get-at q.root 1 (omega (arith, v.fits.within, v.fits.room)),
  λ i h1 hn.
      root_least (compared q) (compared-IsOrder q v.ordering) q.elements q.root i v.heap h1 hn,
)
