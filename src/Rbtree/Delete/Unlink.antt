-- ===== src/Rbtree/Delete/Unlink.antt =====
-- The part of rbtree_delete of my_rbtree.c that takes an element out of the tree.
use mathlib.Core.Path.{subst}
use my_libs.Base.{
  ℕ, suc, ◌+◌, ◌≤◌, ◌≡◌, ◌⊎◌, inl, inr, refl, ◌∙◌, sym, ap, List, [], ◌∷◌, ◌++◌, arith, length,
  length-append, max,
}
use my_libs.Rbtree.{
  Colour, red, black, Tree, null_element, node, Side, to_left, to_right, Frame, join, plug,
  colour_of,
}
use my_libs.Rbtree.Walk.{inorder, append_assoc, append_nil}
use my_libs.Rbtree.Order.{before, RootBlack, colour-join}
use my_libs.Rbtree.Insert.{height, befores, behinds, inorder-plug}
use my_libs.Rbtree.Check.{Even}
use my_libs.Rbtree.Balance.{Calm, Misses, unplug-Even}
use my_libs.Rbtree.Delete.{leftmost, Unlinked, unlink}

pub height-plug : (path : List Frame) (t : Tree) → length path + height t ≤ height (plug path t)
height-plug [] t = omega arith
height-plug (f ∷ path) t = omega (arith, height-plug path (join f t), by_side f.side)
  where
    by_side : (s : Side) → height t + 1 ≤ height (join (record f { side = s }) t)
    by_side to_left = omega arith
    by_side to_right = omega arith

plug-append : (xs ys : List Frame) (t : Tree) → plug (xs ++ ys) t ≡ plug ys (plug xs t)
plug-append [] ys t = refl
plug-append (f ∷ xs) ys t = plug-append xs ys (join f t)

-- An element of that colour may be what the path leads to below a black root.
abbrev pub Topped : List Frame → Colour → Type 0
Topped [] c = c ≡ black
Topped (f ∷ path) c = RootBlack (f ∷ path)

pub topped_lem :
    (path : List Frame) (t : Tree) → colour_of (plug path t) ≡ black → Topped path (colour_of t)
topped_lem [] t b = b
topped_lem (f ∷ []) t b = sym (colour-join f t) ∙ b
topped_lem (f ∷ g ∷ path) t b = topped_lem (g ∷ path) (join f t) b

-- What the removal of an element leaves in its place: a tree with as many black elements on each
-- way down, or with one less if the element is black.
abbrev pub Half : Colour → Tree → ℕ → Type 0
Half c t h =
    ((c ≡ red) × (colour_of t ≡ black) × Even t h)
    ⊎ ((c ≡ black) × (m : ℕ) × (h ≡ suc m) × Even t m)

left-Half : (l r : Tree) (n : ℕ) (c : Colour) (k h : ℕ) → Even (node l r n c k) h → Half c l h
left-Half l r n red k h (bl, br, el, er) = inl (refl, bl, el)
left-Half l r n black k h (m, e, el, er) = inr (refl, m, e, el)

right-Half : (l r : Tree) (n : ℕ) (c : Colour) (k h : ℕ) → Even (node l r n c k) h → Half c r h
right-Half l r n red k h (bl, br, el, er) = inl (refl, br, er)
right-Half l r n black k h (m, e, el, er) = inr (refl, m, e, er)

-- `nod` has no left child, and stands in the place of the tree, below links to the left.
leftmost_lem :
    (below : List Frame) (l r : Tree) (n : ℕ) (c : Colour) (k : ℕ)
    → (plug (leftmost below l r n c k).below (
          node null_element
            (leftmost below l r n c k).right
            (leftmost below l r n c k).count
            (leftmost below l r n c k).colour
            (leftmost below l r n c k).key)
        ≡ plug below (node l r n c k))
      × (befores below ≡ [] → befores (leftmost below l r n c k).below ≡ [])
      × (length (leftmost below l r n c k).below ≤ length below + height l)
unfolding leftmost befores before
leftmost_lem below null_element r n c k = (refl, λ e. e, omega arith)
leftmost_lem below (node l' r' n' c' k') r n c k =
    let f : Frame = record { side = to_left; other = r; count = n; colour = c; key = k } in
    let (whole, lefts, short) = leftmost_lem (f ∷ below) l' r' n' c' k' in
    (whole, λ e. lefts (append_nil (befores below) ∙ e), omega (arith, short))

-- Another count and key of an element that the path passes.
module _ (f g : Frame) (same : f.colour ≡ g.colour) (other : f.other ≡ g.other) where
  Calm-recounted :
      (xs path : List Frame) (c : Colour) → Calm (xs ++ f ∷ path) c → Calm (xs ++ g ∷ path) c
  Calm-recounted [] path c (inl e) = inl (sym same ∙ e)
  Calm-recounted [] path c (inr e) = inr e
  Calm-recounted (x ∷ xs) path c h = h

  pub Misses-recounted :
      (xs path : List Frame) (h : ℕ) → Misses (xs ++ f ∷ path) h → Misses (xs ++ g ∷ path) h
  Misses-recounted [] path h (inl (r, bo, eo, calm, m)) = inl (
    sym same ∙ r,
    subst (λ o. colour_of o ≡ black) other bo,
    subst (λ o. Even o h) other eo,
    calm,
    m,
  )
  Misses-recounted [] path h (inr (b, eo, m)) =
      inr (sym same ∙ b, subst (λ o. Even o h) other eo, m)
  Misses-recounted (x ∷ xs) path h (inl (r, bo, eo, calm, m)) =
      inl (r, bo, eo, Calm-recounted xs path red calm, Misses-recounted xs path h m)
  Misses-recounted (x ∷ xs) path h (inr (b, eo, m)) =
      inr (b, eo, Misses-recounted xs path (suc h) m)

  RootBlack-recounted :
      (xs path : List Frame) → RootBlack (xs ++ f ∷ path) → RootBlack (xs ++ g ∷ path)
  RootBlack-recounted [] [] b = sym same ∙ b
  RootBlack-recounted [] (x ∷ path) b = b
  RootBlack-recounted (x ∷ []) path b = RootBlack-recounted [] path b
  RootBlack-recounted (x ∷ y ∷ xs) path b = RootBlack-recounted (y ∷ xs) path b

  Topped-recounted :
      (xs path : List Frame) (c : Colour) → Topped (xs ++ f ∷ path) c → Topped (xs ++ g ∷ path) c
  Topped-recounted [] path c b = RootBlack-recounted [] path b
  Topped-recounted (x ∷ xs) path c b = RootBlack-recounted (x ∷ xs) path b

-- What is left: the place where the element is missing, the elements, and the length of the path.
pub record Left (path : List Frame) (l r : Tree) (u : Unlinked) : Type 0 where
  pub black_count : ℕ
  pub misses : Misses u.path black_count
  pub half : Half u.remove_colour u.rest black_count
  pub topped : Topped u.path u.remove_colour
  pub order :
      inorder (plug u.path u.rest) ≡ (befores path ++ inorder l) ++ (inorder r ++ behinds path)
  pub short : length u.path ≤ length path + max (height l) (height r)

module _ (path : List Frame) (n : ℕ) (c : Colour) (k top : ℕ) where
  -- An element with two children.
  between :
      (l a b : Tree) (m : ℕ) (d : Colour) (j : ℕ)
      → colour_of (plug path (node l (node a b m d j) n c k)) ≡ black
      → Even (plug path (node l (node a b m d j) n c k)) top
      → let nod = leftmost [] a b m d j in
        let place : Frame = record {
          side = to_right;
          other = l;
          count = nod.count;
          colour = c;
          key = nod.key;
        } in
        Left path l (node a b m d j) (record {
          path = nod.below ++ place ∷ path;
          rest = nod.right;
          remove_colour = nod.colour;
        })
  unfolding befores behinds before colour_of
  between l a b m d j black_top even =
      let nod = leftmost [] a b m d j in
      let place : Frame = record {
        side = to_right;
        other = l;
        count = nod.count;
        colour = c;
        key = nod.key;
      } in
      let old : Frame = record { side = to_right; other = l; count = n; colour = c; key = k } in
      let last : Tree = node null_element nod.right nod.count nod.colour nod.key in
      let (whole, lefts, short) = leftmost_lem [] a b m d j in
      let same : plug (nod.below ++ old ∷ path) last ≡ plug path (node l (node a b m d j) n c k) =
        plug-append nod.below (old ∷ path) last ∙ ap (λ t. plug (old ∷ path) t) whole in
      let (h, misses, calm, here) =
        unplug-Even (nod.below ++ old ∷ path) last top (subst (λ t. Even t top) (sym same) even) in
      let below : (t : Tree) → inorder (plug nod.below t) ≡ inorder t ++ behinds nod.below = λ t.
        inorder-plug nod.below t ∙ ap (λ b. b ++ (inorder t ++ behinds nod.below)) (lefts refl) in
      record {
        black_count = h;
        misses = Misses-recounted old place refl refl nod.below path h misses;
        half = right-Half null_element nod.right nod.count nod.colour nod.key h here;
        topped =
            Topped-recounted old place refl refl nod.below path nod.colour
              (topped_lem (nod.below ++ old ∷ path) last (ap colour_of same ∙ black_top));
        order =
            ap inorder (plug-append nod.below (place ∷ path) nod.right)
            ∙ inorder-plug path (node l (plug nod.below nod.right) nod.count c nod.key)
            ∙ ap (λ r. befores path ++ ((inorder l ++ (nod.key, nod.count) ∷ r) ++ behinds path))
                (below nod.right)
            ∙ ap (λ r. befores path ++ ((inorder l ++ r) ++ behinds path))
                (sym (below last) ∙ ap inorder whole)
            ∙ regroup (befores path) (inorder l) (inorder (node a b m d j)) (behinds path);
        short = omega (arith, short, length-append nod.below (place ∷ path));
      }
    where
      regroup : (p l r q : List (ℕ × ℕ)) → p ++ ((l ++ r) ++ q) ≡ (p ++ l) ++ (r ++ q)
      regroup p l r q = simp (append_assoc)

  pub unlink_lem :
      (l r : Tree)
      → colour_of (plug path (node l r n c k)) ≡ black
      → Even (plug path (node l r n c k)) top
      → Left path l r (unlink path l r c)
  unfolding unlink colour_of
  unlink_lem null_element r b even =
      let (h, misses, calm, here) = unplug-Even path (node null_element r n c k) top even in
      record {
        black_count = h;
        misses = misses;
        half = right-Half null_element r n c k h here;
        topped = topped_lem path (node null_element r n c k) b;
        order =
            inorder-plug path r
            ∙ ap (λ p. p ++ (inorder r ++ behinds path)) (sym (append_nil (befores path)));
        short = omega arith;
      }
  unlink_lem (node a1 b1 m1 d1 j1) null_element b even =
      let l : Tree = node a1 b1 m1 d1 j1 in
      let (h, misses, calm, here) = unplug-Even path (node l null_element n c k) top even in
      record {
        black_count = h;
        misses = misses;
        half = left-Half l null_element n c k h here;
        topped = topped_lem path (node l null_element n c k) b;
        order = inorder-plug path l ∙ sym (append_assoc (befores path) (inorder l) (behinds path));
        short = omega arith;
      }
  unlink_lem (node a1 b1 m1 d1 j1) (node a2 b2 m2 d2 j2) b even =
      between (node a1 b1 m1 d1 j1) a2 b2 m2 d2 j2 b even
