-- ===== src/LinkedList/Release.antt =====
-- my_list_uninit of my_list.c.
use mathlib.Core.Path.{subst}
use my_libs.Base.{
  ℕ, zero, suc, ◌≤◌, ◌≡◌, refl, ◌∙◌, sym, true, Option, none, some, List, [], ◌∷◌, ◌++◌, arith,
  length, ltb,
}
use my_libs.LinkedList.{MyListIter, Store, put}
use my_libs.LinkedList.Loops.{release_from, my_list_uninit}
use my_libs.LinkedList.Segment.{Distinct, Segment, Holds, Agrees, put_away, put_same}
use my_libs.LinkedList.Grow.{put_fresh}

-- The addresses of the iterators.
abbrev pub addresses : List (ℕ × ℕ) → List ℕ
addresses [] = []
addresses (x ∷ xs) = x.0 ∷ addresses xs

-- None of them is left.
abbrev pub Freed : (ℕ → Option MyListIter) → List (ℕ × ℕ) → Type 0
Freed iter [] = Unit {0}
Freed iter (x ∷ xs) = (iter x.0 ≡ none) × Freed iter xs

record Released (s : Store) (xs : List (ℕ × ℕ)) (s' : Store) : Type 0 where
  pub freed : Freed s'.iter xs
  pub same : Agrees s'.iter s.iter xs

release_from_lem :
    (list : ℕ) (s : Store) (p : ℕ) (x : ℕ × ℕ) (xs : List (ℕ × ℕ)) (fuel : ℕ)
    → Distinct (x ∷ xs)
    → Segment list s.iter p (x ∷ xs) 0
    → length (x ∷ xs) ≤ fuel
    → (s' : Store) × (release_from fuel x.0 s ≡ some (addresses (x ∷ xs), s'))
      × Released s (x ∷ xs) s'
unfolding release_from
release_from_lem list s p x xs zero h g w = absurd (omega arith)
release_from_lem list s p x [] (suc fuel) h ((f, e), g) w = (
  record s { iter = put s.iter x.0 none },
  rw e refl,
  record {
    freed = (put_same s.iter x.0 none, tt);
    same = λ b away. put_away s.iter x.0 0 none b (away.0, away.1, tt);
  },
)
release_from_lem list s p x (y ∷ xs) (suc fuel) (e0, away_x, h) ((f, e), g) w =
    let s1 : Store = record s { iter = put s.iter x.0 none } in
    let y0 = h.0 in
    let (s', ran, done) =
      release_from_lem list s1 x.0 y xs fuel h
        (put_fresh list s.iter x.0 none x.0 (y ∷ xs) 0 away_x g) (omega (arith, w)) in
    (
      s',
      rw (e, y0, ran) refl,
      record {
        freed = (done.same x.0 away_x ∙ put_same s.iter x.0 none, done.freed);
        same = λ b away. done.same b away.2 ∙ put_away s.iter x.0 0 none b (away.0, away.1, tt);
      },
    )

-- my_list_uninit ends without a fault, after one round for each iterator. It frees each of them
-- exactly once, in order, and then the list object; none of them is left.
pub my_list_uninit_lem :
    (fuel list : ℕ) (s : Store) (xs : List (ℕ × ℕ))
    → Holds list s xs
    → length xs ≤ fuel
    → (s' : Store) × (my_list_uninit fuel list s ≡ some (addresses xs ++ list ∷ [], s'))
      × Freed s'.iter xs
unfolding my_list_uninit
my_list_uninit_lem fuel list s [] h w =
    let there = h.there in let empty = h.counted in (s, rw (there, empty) refl, tt)
my_list_uninit_lem fuel list s (x ∷ xs) h w =
    let there = h.there in
    let some_left : ltb 0 s.my_list.length ≡ true = ground (arith, h.counted) in
    let (s', ran, done) = release_from_lem list s 0 x xs fuel h.distinct h.linked w in
    let ran' =
      subst (λ n. release_from fuel n s ≡ some (addresses (x ∷ xs), s')) (sym h.head) ran in
    (s', rw (there, some_left, ran') refl, done.freed)
