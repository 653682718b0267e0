-- ===== src/Queue/Remove.antt =====
-- queue_remove of my_queue.c.
use mathlib.Core.Path.{subst}
use my_libs.Base.{
  ℕ, ◌+◌, ◌-◌, ◌/◌, ◌<◌, ◌≤◌, ◌≡◌, ◌∙◌, sym, ap, true, some, arith, length, set, get_or-set,
  length-set, ◌==◌, if◌then◌else◌, dec_lt, u32-pred, set-get_or,
}
use my_libs.Base.Int.{is_neg}
use my_libs.Queue.{Queue, compared, downheap, queue_remove}
use my_libs.Queue.Order.{Le, at, IsHeapFrom, occ, same, occ-set, occ-set_above, occ-last, le_trans}
use my_libs.Queue.Hole.{put-set, get-at, IsHeapBut, AfterParent}
use my_libs.Queue.Descend.{descend_leaf}
use my_libs.Queue.Valid.{
  IsHeap, IsValid, count, compared-IsOrder, HasRoom, holding, order-held, holding-IsOrdering,
  holding-IsValid, Downheaped, downheap_lem,
}

module _ (q : Queue) (idx : ℕ) (f : HasRoom q) (inside : idx < q.elements) where
  open f use {within, room, word}

  -- The element removed, and the last, which takes its place.
  abbrev pub element : ℕ
  element = at q.root (idx + 1)

  abbrev pub last : ℕ
  last = at q.root q.elements

  pub moved : Queue
  moved = holding q (set q.root (idx + 1) last) (q.elements - 1)

  pub at-moved : (c : ℕ) → at moved.root c ≡ (if idx + 1 == c then last else at q.root c)
  unfolding moved
  at-moved c = get_or-set q.root (idx + 1) c last 0 (omega (arith, within, room))

  pub runs :
      (q' : Queue) → downheap moved (idx + 1) ≡ some q' → queue_remove q idx ≡ some (element, q')
  unfolding queue_remove moved
  runs q' run = ground (
    arith,
    within,
    get-at q.root (idx + 1) (omega (arith, within, room)),
    get-at q.root q.elements (omega (arith, within, room)),
    put-set q.root (idx + 1) (at q.root q.elements) (omega (arith, within, room)),
    u32-pred q.elements (omega arith) (omega (arith, within, word)),
  )

  pub length-moved : length moved.root ≡ length q.root
  unfolding moved
  length-moved = length-set q.root (idx + 1) last

  -- At an index without children nothing is sifted.
  pub stays : (q.elements - 1) / 2 < idx + 1 → downheap moved (idx + 1) ≡ some moved
  unfolding downheap moved
  stays leaf =
      let root = set q.root (idx + 1) last in
      let same_size : length root ≡ length q.root = length-set q.root (idx + 1) last in
      let hi : idx + 1 < length root = omega (arith, same_size, within, room) in
      ground (
        arith,
        get-at root (idx + 1) hi,
        descend_leaf (compared moved) (q.elements - 1) (idx + 1) root (at root (idx + 1)) hi leaf,
        set-get_or root (idx + 1) 0,
      )

  -- The order is broken if the last element comes before the new parent.
  pub moved_misordered :
      1 < idx + 1
      → idx + 1 < q.elements
      → is_neg (compared q last (at q.root ((idx + 1) / 2))) ≡ true
      → ¬ IsHeap moved
  unfolding moved compared
  moved_misordered h1 hn before heap = ground (
    arith,
    heap (idx + 1) h1 (omega arith) (omega arith),
    at-moved (idx + 1),
    at-moved ((idx + 1) / 2),
  )

  -- The counts before the sift.
  count-moved : (p : ℕ) → occ p (q.elements - 1) moved.root + same element p ≡ count p q
  unfolding moved
  count-moved p =
      let n : ℕ = q.elements - 1 in
      let e : n + 1 ≡ q.elements = omega arith in
      let all : occ p (n + 1) q.root ≡ count p q = ap (λ k. occ p k q.root) e in
      let end : same (at q.root (n + 1)) p ≡ same (at q.root q.elements) p =
        ap (λ k. same (at q.root k) p) e in
      elim (dec_lt idx n) [
        | yes inner ↦ omega (
          arith,
          all,
          end,
          occ-last p n q.root,
          occ-set p n q.root (idx + 1) (at q.root q.elements) (omega arith) (omega arith)
              (omega (arith, within, room)),
        )
        | no outer ↦
            let own : idx + 1 ≡ q.elements = omega arith in
            let same_own : same (at q.root (idx + 1)) p ≡ same (at q.root q.elements) p =
              ap (λ k. same (at q.root k) p) own in
            omega (
              arith,
              all,
              end,
              same_own,
              occ-last p n q.root,
              occ-set_above p n q.root (idx + 1) (at q.root q.elements) (omega arith)
                  (omega (arith, within, room)),
            )
      ]

module _ (q : Queue) (idx : ℕ) (v : IsValid q) (inside : idx < q.elements) where
  open v.fits use {within, room}

  abbrev sinking : Queue
  sinking = moved q idx v.fits inside

  abbrev at-sinking :
      (c : ℕ) → at sinking.root c ≡ (if idx + 1 == c then at q.root q.elements else at q.root c)
  at-sinking = at-moved q idx v.fits inside

  moved-IsHeapBut : IsHeapBut (compared sinking) 1 (q.elements - 1) (idx + 1) sinking.root
  unfolding moved compared
  moved-IsHeapBut c h1 hn hlo ni nj =
      ground (arith, at-sinking c, at-sinking (c / 2), v.heap c h1 (omega arith) hlo)

  module _ (fits : AfterParent (compared q) 1 (idx + 1) q.root (at q.root q.elements)) where
    after : AfterParent (compared sinking) 1 (idx + 1) sinking.root (at sinking.root (idx + 1))
    unfolding moved compared
    after h hl = ground (arith, at-sinking (idx + 1), at-sinking ((idx + 1) / 2), fits h hl)

    bridged :
        (c : ℕ)
        → 1 < c
        → c ≤ q.elements - 1
        → c / 2 ≡ idx + 1
        → AfterParent (compared sinking) 1 (idx + 1) sinking.root (at sinking.root c)
    unfolding moved compared
    bridged c h1 hn e g gl =
        let ord = compared-IsOrder q v.ordering in
        let upper : Le (compared q) (at q.root ((idx + 1) / 2)) (at q.root (idx + 1)) =
          v.heap (idx + 1) g (omega arith) gl in
        let lower : Le (compared q) (at q.root (idx + 1)) (at q.root c) =
          subst (λ k. Le (compared q) (at q.root k) (at q.root c)) e
            (v.heap c h1 (omega arith) (omega arith)) in
        let le : Le (compared q) (at q.root ((idx + 1) / 2)) (at q.root c) =
          le_trans (compared q) ord _ (at q.root (idx + 1)) _ upper lower in
        ground (arith, at-sinking c, at-sinking ((idx + 1) / 2))

    sifted : (q' : Queue) × (downheap sinking (idx + 1) ≡ some q') × Downheaped 1 sinking q'
    unfolding moved
    sifted =
        let root = set q.root (idx + 1) (at q.root q.elements) in
        let same_size : length root ≡ length q.root =
          length-set q.root (idx + 1) (at q.root q.elements) in
        downheap_lem sinking 1 (idx + 1) (holding-IsOrdering q root (q.elements - 1) v.ordering)
          (omega arith) (omega arith) (omega (arith, same_size, within, room))
          (omega (arith, same_size, within, room)) moved-IsHeapBut after bridged

    -- What a sifted queue is, in terms of the queue before the removal.
    shape :
        (q' : Queue)
        → Downheaped 1 sinking q'
        → IsValid q'
          × (q'.elements ≡ q.elements - 1)
          × ((p : ℕ) → count p q' ≡ occ p (q.elements - 1) sinking.root)
    unfolding moved
    shape q' d =
        let n : ℕ = q.elements - 1 in
        let size : length q'.root ≡ length q.root =
          omega (arith, d.size, length-set q.root (idx + 1) (at q.root q.elements)) in
        let held : IsHeapFrom (compared q) 1 n q'.root =
          order-held q (set q.root (idx + 1) (at q.root q.elements)) q'.root n 1 n d.order in
        let less : n ≤ q.max_elements = omega (arith, within) in
        (
          subst IsValid (sym d.frame)
              (holding-IsValid q q'.root n v.ordering v.fits less size held),
          ap (λ (k : Queue). k.elements) d.frame,
          λ p. ap (λ (k : Queue). occ p k.elements q'.root) d.frame ∙ d.kept p,
        )

    -- queue_remove of an index in use of a valid queue (in order, its callback a total order that
    -- never returns INT_MIN), whose last element does not come before the
    -- parent of that index (the top has none), accesses nothing outside `root` and comes to an end.
    -- It returns the pointer at the index. The queue is valid afterwards, with one element less,
    -- and holds that pointer once less than before and every other as often as before.
    pub queue_remove_lem :
        (q' : Queue) × (queue_remove q idx ≡ some (at q.root (idx + 1), q'))
        × IsValid q'
        × (q'.elements + 1 ≡ q.elements)
        × ((p : ℕ) → count p q' + same (at q.root (idx + 1)) p ≡ count p q)
    queue_remove_lem =
        let (q', run, d) = sifted in
        let (valid, fewer, counts) = shape q' d in
        (
          q',
          runs q idx v.fits inside q' run,
          valid,
          omega (arith, fewer),
          λ p. omega (arith, counts p, count-moved q idx v.fits inside p),
        )
