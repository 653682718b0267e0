-- ===== src/LinkedList/Search.antt =====
-- The functions of my_list.c that look for an iterator.
use mathlib.Core.Path.{subst}
use my_libs.Base.{
  ℕ, zero, suc, ◌<◌, ◌≡◌, ◌⊎◌, inl, inr, refl, sym, ap, Bool, true, false, Option, none, some, List,
  [], ◌∷◌, ◌++◌, ◌==◌, arith, length, Bool-cases,
}
use my_libs.Base.Int.{ℤ, pos, negsuc}
use my_libs.LinkedList.{MyListIter, Store}
use my_libs.LinkedList.Loops.{find_from, my_list_lookup, my_list_delete}
use my_libs.LinkedList.Segment.{first_or, Distinct, Segment, Holds, split_lem}
use my_libs.LinkedList.Shrink.{my_list_iter_delete_lem}

-- The loop passes each of them.
abbrev pub Passed : (ℕ → Bool) → List (ℕ × ℕ) → Type 0
Passed stop [] = Unit {0}
Passed stop (x ∷ xs) = (stop x.1 ≡ false) × Passed stop xs

-- Where the loop stops: at the first iterator whose data ends it, or at NULL when none does.
abbrev pub Stops : (ℕ → Bool) → List (ℕ × ℕ) → Option ℕ → Type 0
Stops stop xs r =
    ((r ≡ some 0) × Passed stop xs)
    ⊎ ((ys : List (ℕ × ℕ)) × (b : ℕ) × (d : ℕ) × (zs : List (ℕ × ℕ)) × (xs ≡ ys ++ (b, d) ∷ zs)
        × (r ≡ some b)
        × (stop d ≡ true)
        × Passed stop ys)

find_from_lem :
    (stop : ℕ → Bool) (list : ℕ) (s : Store) (p : ℕ) (xs : List (ℕ × ℕ)) (fuel : ℕ)
    → Distinct xs
    → Segment list s.iter p xs 0
    → length xs < fuel
    → Stops stop xs (find_from stop s fuel (first_or xs 0))
unfolding find_from
find_from_lem stop list s p xs zero h g w = absurd (omega arith)
find_from_lem stop list s p [] (suc fuel) h g w = inl (refl, tt)
find_from_lem stop list s p (x ∷ xs) (suc fuel) (nonzero, away, h) ((f, e), g) w =
    elim (Bool-cases (stop x.1)) [
      | inl here ↦ inr ([], x.0, x.1, xs, refl, rw (nonzero, e, here) refl, here, tt)
      | inr past ↦ elim (find_from_lem stop list s x.0 xs fuel h g (omega (arith, w))) [
        | inl (ran, passed) ↦ inl (rw (nonzero, e, past) ran, (past, passed))
        | inr (ys, b, d, zs, same, ran, here, passed) ↦ inr (
          x ∷ ys,
          b,
          d,
          zs,
          ap (λ l. x ∷ l) same,
          rw (nonzero, e, past) ran,
          here,
          (past, passed),
        )
      ]
    ]

pub find_head :
    (stop : ℕ → Bool) (list : ℕ) (s : Store) (xs : List (ℕ × ℕ)) (fuel : ℕ)
    → Holds list s xs
    → length xs < fuel
    → Stops stop xs (find_from stop s fuel s.my_list.head)
find_head stop list s xs fuel h w =
    subst (λ n. Stops stop xs (find_from stop s fuel n)) (sym h.head)
      (find_from_lem stop list s 0 xs fuel h.distinct h.linked w)

-- my_list_lookup ends after at most as many steps as there are iterators, and returns the first
-- iterator with the data, or NULL when there is none.
pub my_list_lookup_lem :
    (fuel list : ℕ) (s : Store) (xs : List (ℕ × ℕ)) (d : ℕ)
    → Holds list s xs
    → length xs < fuel
    → Stops (λ e. d == e) xs (my_list_lookup fuel list s d)
unfolding my_list_lookup
my_list_lookup_lem fuel list s xs d h w =
    let there = h.there in rw there (find_head (λ e. d == e) list s xs fuel h w)

-- What my_list_delete has done: nothing, and the result is -1; or the first iterator with the data
-- is gone and the others remain, in their order, and the result is 0. If a my_list_foreach is at
-- that iterator, it remains.
abbrev pub Removed : ℕ → Store → List (ℕ × ℕ) → ℕ → ℤ × Store → Type 0
Removed list s xs d r =
    ((r ≡ (negsuc 0, s)) × Passed (λ e. d == e) xs)
    ⊎ ((ys : List (ℕ × ℕ)) × (b : ℕ) × (e : ℕ) × (zs : List (ℕ × ℕ)) × (i : MyListIter) × (xs
          ≡ ys ++ (b, e) ∷ zs)
        × ((d == e) ≡ true)
        × Passed (λ e. d == e) ys
        × (s.iter b ≡ some i)
        × (r.0 ≡ pos 0)
        × (((i.foreach == 1) ≡ true) × Holds list r.1 xs
            ⊎ ((i.foreach == 1) ≡ false) × Holds list r.1 (ys ++ zs) × (r.1.iter b ≡ none)))

-- my_list_delete ends without a fault. It returns -1 and changes nothing when no iterator has the
-- data. Otherwise it returns 0, and of the first iterator with the data: if its mark of a
-- my_list_foreach is 1, the list is as before; else it is freed, and the others remain in their
-- order.
pub my_list_delete_lem :
    (fuel list : ℕ) (s : Store) (xs : List (ℕ × ℕ)) (d : ℕ)
    → Holds list s xs
    → length xs < fuel
    → (r : ℤ × Store) × (my_list_delete fuel list s d ≡ some r) × Removed list s xs d r
unfolding my_list_delete
my_list_delete_lem fuel list s xs d h w =
    let there = h.there in
    elim (find_head (λ e. d == e) list s xs fuel h w) [
      | inl (ran, passed) ↦ ((negsuc 0, s), rw (there, ran) refl, inl (refl, passed))
      | inr (ys, b, e, zs, same, ran, here, passed) ↦
          let holds = subst (Holds list s) same h in
          let nonzero = (split_lem list s ys b e zs holds).nonzero in
          let (i, found, s', deleted, outcome) = my_list_iter_delete_lem list s ys b e zs holds in
          (
            (pos 0, s'),
            rw (there, ran, deleted, nonzero) refl,
            inr (
              ys,
              b,
              e,
              zs,
              i,
              same,
              here,
              passed,
              found,
              refl,
              elim outcome [
                | inl (marked, kept, cleared) ↦ inl (marked, subst (Holds list s') (sym same) kept)
                | inr gone ↦ inr gone
              ],
            ),
          )
    ]
