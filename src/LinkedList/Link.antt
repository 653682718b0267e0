-- ===== src/LinkedList/Link.antt =====
-- The writes of my_list.c that link an iterator to its neighbours.
use my_libs.Base.{ℕ, ◌≡◌, refl, ◌∙◌, ap, some, List, [], ◌∷◌}
use my_libs.LinkedList.{
  MyList, MyListIter, Store, put, write_next, write_prev, link_on, link_back, set_head, set_tail,
}
use my_libs.LinkedList.Segment.{
  first_or, last_or, Distinct, Segment, Agrees, Segment-agree, Away-swap, put_away, put_same,
  last_nonzero,
}

-- What a write leaves: the list object, and the iterators but for some.
pub record Written (list : ℕ) (s : Store) (p : ℕ) (xs : List (ℕ × ℕ)) (q : ℕ) (l : MyList)
    (s' : Store) : Type 0 where
  pub kept : s'.my_list ≡ l
  pub linked : Segment list s'.iter p xs q
  pub same : Agrees s'.iter s.iter xs

-- The last iterator is linked to another address.
pub write_last :
    (list : ℕ) (s : Store) (p : ℕ) (x : ℕ × ℕ) (xs : List (ℕ × ℕ)) (q v : ℕ)
    → Distinct (x ∷ xs)
    → Segment list s.iter p (x ∷ xs) q
    → (s' : Store) × (write_next s (last_or x.0 xs) v ≡ some s')
      × Written list s p (x ∷ xs) v s.my_list s'
unfolding write_next
write_last list s p x [] q v h ((f, e), g) =
    let i : MyListIter = record { item_data = x.1; list = list; next = v; prev = p; foreach = f } in
    (
      record s { iter = put s.iter x.0 (some i) },
      rw e refl,
      record {
        kept = refl;
        linked = ((f, put_same s.iter x.0 (some i)), tt);
        same = λ b away. put_away s.iter x.0 0 (some i) b (away.0, away.1, tt);
      },
    )
write_last list s p x (y ∷ xs) q v (e0, a, h) ((f, e), g) =
    let (s', ran, w) = write_last list s x.0 y xs q v h g in
    (
      s',
      ran,
      record {
        kept = w.kept;
        linked = ((f, w.same x.0 a ∙ e), w.linked);
        same = λ b away. w.same b away.2;
      },
    )

-- `link_on` at the end of the list so far.
pub link_on_lem :
    (list : ℕ) (s : Store) (xs : List (ℕ × ℕ)) (q v : ℕ)
    → Distinct xs
    → s.my_list.head ≡ first_or xs q
    → Segment list s.iter 0 xs q
    → (s' : Store) × (link_on s (last_or 0 xs) v ≡ some s')
      × Written list s 0 xs v (record s.my_list { head = first_or xs v }) s'
unfolding link_on
link_on_lem list s [] q v d h g =
    (set_head s v, refl, record { kept = refl; linked = tt; same = λ b away. refl })
link_on_lem list s (x ∷ xs) q v d h g =
    let (s', ran, w) = write_last list s 0 x xs q v d g in
    (
      s',
      rw (last_nonzero x xs d) ran,
      record {
        kept = w.kept ∙ ap (λ a. record s.my_list { head = a }) h;
        linked = w.linked;
        same = w.same;
      },
    )

-- `link_back` at the beginning of the rest of the list.
pub link_back_lem :
    (list : ℕ) (s : Store) (p v : ℕ) (xs : List (ℕ × ℕ))
    → Distinct xs
    → s.my_list.tail ≡ last_or p xs
    → Segment list s.iter p xs 0
    → (s' : Store) × (link_back s (first_or xs 0) v ≡ some s')
      × Written list s v xs 0 (record s.my_list { tail = last_or v xs }) s'
unfolding link_back write_prev
link_back_lem list s p v [] d h g =
    (set_tail s v, refl, record { kept = refl; linked = tt; same = λ b away. refl })
link_back_lem list s p v (x ∷ xs) (e0, a, d) h ((f, e), g) =
    let i : MyListIter = record {
      item_data = x.1;
      list = list;
      next = first_or xs 0;
      prev = v;
      foreach = f;
    } in
    (
      record s { iter = put s.iter x.0 (some i) },
      rw (e0, e) refl,
      record {
        kept = ap (λ t. record s.my_list { tail = t }) h;
        linked = (
          (f, put_same s.iter x.0 (some i)),
          Segment-agree list (put s.iter x.0 (some i)) s.iter x.0 xs ((x.0, 0) ∷ []) 0
              (put_away s.iter x.0 0 (some i)) (Away-swap x.0 0 xs a) g,
        );
        same = λ b away. put_away s.iter x.0 0 (some i) b (away.0, away.1, tt);
      },
    )
