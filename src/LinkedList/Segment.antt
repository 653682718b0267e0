-- ===== src/LinkedList/Segment.antt =====
-- The iterators of a list of my_list.c, as a list of addresses and data.
use mathlib.Core.Path.{subst}
use my_libs.Base.{
  ℕ, ◌<◌, ◌^◌, ◌≡◌, refl, ◌∙◌, sym, false, Option, some, List, [], ◌∷◌, ◌++◌, ◌==◌, arith, length,
}
use my_libs.LinkedList.{MyListIter, Store, put}

abbrev pub first_or : List (ℕ × ℕ) → ℕ → ℕ
first_or [] q = q
first_or (x ∷ xs) q = x.0

abbrev pub last_or : ℕ → List (ℕ × ℕ) → ℕ
last_or p [] = p
last_or p (x ∷ xs) = last_or x.0 xs

-- No iterator has the address.
abbrev pub Away : ℕ → List (ℕ × ℕ) → Type 0
Away a [] = Unit {0}
Away a (x ∷ xs) = ((a == x.0) ≡ false) × ((x.0 == a) ≡ false) × Away a xs

-- The addresses are not NULL and all different.
abbrev pub Distinct : List (ℕ × ℕ) → Type 0
Distinct [] = Unit {0}
Distinct (x ∷ xs) = ((x.0 == 0) ≡ false) × Away x.0 xs × Distinct xs

-- The iterator at an address.
abbrev pub Cell : ℕ → (ℕ → Option MyListIter) → ℕ → ℕ × ℕ → ℕ → Type 0
Cell list iter p x q =
    (f : ℕ) × (iter x.0
      ≡ some (record { item_data = x.1; list = list; next = q; prev = p; foreach = f }))

-- Iterators linked both ways, behind `p` and before `q`.
abbrev pub Segment : ℕ → (ℕ → Option MyListIter) → ℕ → List (ℕ × ℕ) → ℕ → Type 0
Segment list iter p [] q = Unit {0}
Segment list iter p (x ∷ xs) q = Cell list iter p x (first_or xs q) × Segment list iter x.0 xs q

-- The store holds the list object with these iterators.
pub record Holds (list : ℕ) (s : Store) (xs : List (ℕ × ℕ)) : Type 0 where
  pub there : (list == 0) ≡ false
  pub head : s.my_list.head ≡ first_or xs 0
  pub tail : s.my_list.tail ≡ last_or 0 xs
  pub counted : s.my_list.length ≡ length xs
  pub word : length xs < 2 ^ 64
  pub linked : Segment list s.iter 0 xs 0
  pub distinct : Distinct xs

pub Away-append : (a : ℕ) (xs ys : List (ℕ × ℕ)) → Away a (xs ++ ys) → Away a xs × Away a ys
Away-append a [] ys h = (tt, h)
Away-append a (x ∷ xs) ys (e, d, h) = let (hx, hy) = Away-append a xs ys h in ((e, d, hx), hy)

pub Away-join : (a : ℕ) (xs ys : List (ℕ × ℕ)) → Away a xs → Away a ys → Away a (xs ++ ys)
Away-join a [] ys h k = k
Away-join a (x ∷ xs) ys (e, d, h) k = (e, d, Away-join a xs ys h k)

-- Each of the first iterators is none of the others.
abbrev pub Apart : List (ℕ × ℕ) → List (ℕ × ℕ) → Type 0
Apart [] ys = Unit {0}
Apart (x ∷ xs) ys = Away x.0 ys × Apart xs ys

pub Distinct-append :
    (xs ys : List (ℕ × ℕ)) → Distinct (xs ++ ys) → Distinct xs × Distinct ys × Apart xs ys
Distinct-append [] ys h = (tt, h, tt)
Distinct-append (x ∷ xs) ys (e, a, h) =
    let (hx, hy, apart) = Distinct-append xs ys h in
    let (ax, ay) = Away-append x.0 xs ys a in ((e, ax, hx), hy, (ay, apart))

pub Distinct-join :
    (xs ys : List (ℕ × ℕ)) → Distinct xs → Distinct ys → Apart xs ys → Distinct (xs ++ ys)
Distinct-join [] ys hx hy apart = hy
Distinct-join (x ∷ xs) ys (e, a, hx) hy (ay, apart) =
    (e, Away-join x.0 xs ys a ay, Distinct-join xs ys hx hy apart)

pub Away-swap : (a d : ℕ) (xs : List (ℕ × ℕ)) → Away a xs → Apart xs ((a, d) ∷ [])
Away-swap a d [] h = tt
Away-swap a d (x ∷ xs) (e, e', h) = ((e', e, tt), Away-swap a d xs h)

-- Other iterators than these are as before.
abbrev pub Agrees : (ℕ → Option MyListIter) → (ℕ → Option MyListIter) → List (ℕ × ℕ) → Type 0
Agrees new old ys = (b : ℕ) → Away b ys → new b ≡ old b

pub Segment-agree :
    (list : ℕ) (new old : ℕ → Option MyListIter) (p : ℕ) (xs ys : List (ℕ × ℕ)) (q : ℕ)
    → Agrees new old ys
    → Apart xs ys
    → Segment list old p xs q
    → Segment list new p xs q
Segment-agree list new old p [] ys q same apart h = tt
Segment-agree list new old p (x ∷ xs) ys q same (a, apart) ((f, e), h) =
    ((f, same x.0 a ∙ e), Segment-agree list new old x.0 xs ys q same apart h)

pub put_away :
    (iter : ℕ → Option MyListIter) (a d : ℕ) (v : Option MyListIter)
    → Agrees (put iter a v) iter ((a, d) ∷ [])
unfolding put
put_away iter a d v b (e, e', _) = rw e refl

pub put_same : (iter : ℕ → Option MyListIter) (a : ℕ) (v : Option MyListIter) → put iter a v a ≡ v
unfolding put
put_same iter a v = ground arith

pub first-append :
    (xs ys : List (ℕ × ℕ)) (q : ℕ) → first_or (xs ++ ys) q ≡ first_or xs (first_or ys q)
first-append [] ys q = refl
first-append (x ∷ xs) ys q = refl

pub last-append : (p : ℕ) (xs ys : List (ℕ × ℕ)) → last_or p (xs ++ ys) ≡ last_or (last_or p xs) ys
last-append p [] ys = refl
last-append p (x ∷ xs) ys = last-append x.0 xs ys

pub Segment-append :
    (list : ℕ) (iter : ℕ → Option MyListIter) (p : ℕ) (xs ys : List (ℕ × ℕ)) (q : ℕ)
    → Segment list iter p (xs ++ ys) q
    → Segment list iter p xs (first_or ys q) × Segment list iter (last_or p xs) ys q
Segment-append list iter p [] ys q h = (tt, h)
Segment-append list iter p (x ∷ xs) ys q (c, h) =
    let (hx, hy) = Segment-append list iter x.0 xs ys q h in
    ((subst (Cell list iter p x) (first-append xs ys q) c, hx), hy)

pub Segment-join :
    (list : ℕ) (iter : ℕ → Option MyListIter) (p : ℕ) (xs ys : List (ℕ × ℕ)) (q : ℕ)
    → Segment list iter p xs (first_or ys q)
    → Segment list iter (last_or p xs) ys q
    → Segment list iter p (xs ++ ys) q
Segment-join list iter p [] ys q hx hy = hy
Segment-join list iter p (x ∷ xs) ys q (c, hx) hy = (
  subst (Cell list iter p x) (sym (first-append xs ys q)) c,
  Segment-join list iter x.0 xs ys q hx hy,
)

pub last_nonzero :
    (x : ℕ × ℕ) (xs : List (ℕ × ℕ)) → Distinct (x ∷ xs) → (last_or x.0 xs == 0) ≡ false
last_nonzero x [] (e, a, h) = e
last_nonzero x (y ∷ xs) (e, a, h) = last_nonzero y xs h

Apart-more : (xs ys : List (ℕ × ℕ)) (y : ℕ × ℕ) → Away y.0 xs → Apart xs ys → Apart xs (y ∷ ys)
Apart-more [] ys y a h = tt
Apart-more (x ∷ xs) ys y (e, e', a) (hx, h) = ((e', e, hx), Apart-more xs ys y a h)

pub Apart-swap : (xs ys : List (ℕ × ℕ)) → Apart xs ys → Apart ys xs
Apart-swap [] ys h = none_apart ys
  where
    none_apart : (ys : List (ℕ × ℕ)) → Apart ys []
    none_apart [] = tt
    none_apart (y ∷ ys) = (tt, none_apart ys)
Apart-swap (x ∷ xs) ys (a, h) = Apart-more ys xs x a (Apart-swap xs ys h)

-- A list of iterators, taken apart at one of them.
pub record Split (list : ℕ) (s : Store) (ys : List (ℕ × ℕ)) (b d : ℕ) (zs : List (ℕ × ℕ))
    : Type 0 where
  pub front : Segment list s.iter 0 ys b
  pub cell : Cell list s.iter (last_or 0 ys) (b, d) (first_or zs 0)
  pub back : Segment list s.iter b zs 0
  pub nonzero : (b == 0) ≡ false
  pub distinct_front : Distinct ys
  pub distinct_back : Distinct zs
  pub away_front : Away b ys
  pub away_back : Away b zs
  pub apart : Apart ys zs
  pub head : s.my_list.head ≡ first_or ys b
  pub tail : s.my_list.tail ≡ last_or b zs

pub split_lem :
    (list : ℕ) (s : Store) (ys : List (ℕ × ℕ)) (b d : ℕ) (zs : List (ℕ × ℕ))
    → Holds list s (ys ++ (b, d) ∷ zs)
    → Split list s ys b d zs
split_lem list s ys b d zs h =
    let (front, cell_back) = Segment-append list s.iter 0 ys ((b, d) ∷ zs) 0 h.linked in
    let (dy, rest, apart) = Distinct-append ys ((b, d) ∷ zs) h.distinct in
    let (away', apart') = Apart-swap ys ((b, d) ∷ zs) apart in
    record {
      front = front;
      cell = cell_back.0;
      back = cell_back.1;
      nonzero = rest.0;
      distinct_front = dy;
      distinct_back = rest.2;
      away_front = away';
      away_back = rest.1;
      apart = Apart-swap zs ys apart';
      head = h.head ∙ first-append ys ((b, d) ∷ zs) 0;
      tail = h.tail ∙ last-append 0 ys ((b, d) ∷ zs);
    }
