-- ===== src/Queue/Insert.antt =====
-- queue_insert of my_queue.c.
use my_libs.Base.{
  ℕ, ◌+◌, ◌/◌, ◌<◌, ◌≤◌, ◌≡◌, refl, some, List, arith, length, set, get_or-set, length-set,
}
use my_libs.Queue.{Queue, compared, sift_up, queue_insert}
use my_libs.Queue.Order.{at, occ, same, occ-set, occ-last, occ-set_zero}
use my_libs.Queue.Hole.{put-set}
use my_libs.Queue.Up.{Rising, sift_up_lem}
use my_libs.Queue.Valid.{IsValid, holding-IsValid, count, compared-IsOrder}

module _ (q : Queue) (e : ℕ) (v : IsValid q) (free : q.elements < q.max_elements) where
  open v.fits use {within, room, word}

  with_sentinel : List ℕ
  with_sentinel = set q.root 0 e

  at-with_sentinel : (c : ℕ) → 1 ≤ c → at with_sentinel c ≡ at q.root c
  unfolding with_sentinel
  at-with_sentinel c h = ground (arith, get_or-set q.root 0 c e 0 (omega (arith, room)))

  length-with_sentinel : length with_sentinel ≡ length q.root
  unfolding with_sentinel
  length-with_sentinel = length-set q.root 0 e

  occ-with_sentinel : (p : ℕ) → occ p q.elements with_sentinel ≡ count p q
  unfolding with_sentinel
  occ-with_sentinel p = occ-set_zero p q.elements q.root e (omega (arith, room))

  rising :
      Rising
        (compared q)
        (compared-IsOrder q v.ordering)
        (q.elements + 1)
        with_sentinel
        (q.elements + 1)
        e
  rising = record {
    one = omega arith;
    inside = omega arith;
    room = omega (arith, length-with_sentinel, room, within);
    sentinel =
        unfold with_sentinel in ground (arith, get_or-set q.root 0 0 e 0 (omega (arith, room)));
    but = λ c h1 hn hlo ni nj.
        ground (arith, at-with_sentinel c, at-with_sentinel (c / 2), v.heap c h1 (omega arith) hlo);
    bridged = λ c h1 hn eq. absurd (omega arith);
    before = λ c h1 hn eq. absurd (omega arith);
  }

  runs :
      (r : List ℕ)
      → sift_up (compared q) (q.elements + 1 + 1) with_sentinel (q.elements + 1) e ≡ some r
      → queue_insert q e ≡ some (record q { root = r; elements = q.elements + 1 })
  unfolding queue_insert with_sentinel
  runs r run = ground (arith, put-set q.root 0 e (omega (arith, room)), run)

  -- queue_insert into a valid queue (in order, its callback a total order that never returns
  -- INT_MIN) that is not full accesses nothing outside `root` and comes to
  -- an end. The queue is valid afterwards, with one element more, and holds the new element once
  -- more than before and every other pointer as often as before.
  pub queue_insert_lem :
      (q' : Queue) × (queue_insert q e ≡ some q')
      × IsValid q'
      × (q'.elements ≡ q.elements + 1)
      × ((p : ℕ) → count p q' ≡ count p q + same e p)
  queue_insert_lem =
      let n = q.elements + 1 in
      let (r, run, s) =
        sift_up_lem (compared q) (compared-IsOrder q v.ordering) n (n + 1) with_sentinel n e
          (omega arith) rising in
      (
        record q { root = r; elements = n },
        runs r run,
        holding-IsValid q r n v.ordering v.fits (omega arith)
            (omega (arith, s.size, length-with_sentinel)) s.heap,
        refl,
        λ p. omega (
          arith,
          s.kept p,
          occ-set p n with_sentinel n e (omega arith) (omega arith)
              (omega (arith, length-with_sentinel, room)),
          occ-last p q.elements with_sentinel,
          occ-with_sentinel p,
        ),
      )
