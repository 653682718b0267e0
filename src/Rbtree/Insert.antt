-- ===== src/Rbtree/Insert.antt =====
-- rbtree_insert of my_rbtree.c.
use mathlib.Core.Path.{subst}
use my_libs.Base.{
  ℕ, ◌+◌, ◌≤◌, ◌≡◌, inl, inr, refl, ◌∙◌, sym, ap, false, List, [], ◌∷◌, ◌++◌, if◌then◌else◌, arith,
  Bool-cases, length, max,
}
use my_libs.Base.Int.{ℤ, is_neg, is_pos}
use my_libs.Rbtree.{
  black, Tree, null_element, node, to_left, to_right, Frame, join, plug, colour_of, Found,
  at_element, at_null, descend,
}
use my_libs.Rbtree.Walk.{inorder, append_assoc, append_nil}
use my_libs.Rbtree.Order.{before, behind, inorder-join, RootBlack}

-- The number of elements on the longest way down.
abbrev pub height : Tree → ℕ
height null_element = 0
height (node l r n c k) = 1 + max (height l) (height r)

-- What lies before and behind the end of a path.
unfoldable pub befores : List Frame → List (ℕ × ℕ)
befores [] = []
befores (f ∷ path) = befores path ++ before f

unfoldable pub behinds : List Frame → List (ℕ × ℕ)
behinds [] = []
behinds (f ∷ path) = behind f ++ behinds path

pub inorder-plug :
    (path : List Frame) (t : Tree)
    → inorder (plug path t) ≡ befores path ++ (inorder t ++ behinds path)
unfolding befores behinds
inorder-plug [] t = sym (append_nil (inorder t))
inorder-plug (f ∷ path) t =
    inorder-plug path (join f t)
    ∙ ap (λ l. befores path ++ (l ++ behinds path)) (inorder-join f t)
    ∙ ap (λ l. befores path ++ l) (append_assoc (before f) (inorder t ++ behind f) (behinds path))
    ∙ ap (λ l. befores path ++ (before f ++ l)) (append_assoc (inorder t) (behind f) (behinds path))
    ∙ sym (append_assoc (befores path) (before f) (inorder t ++ (behind f ++ behinds path)))

-- The root is black, on the path or at its end.
abbrev pub Blackened : List Frame → Tree → Type 0
Blackened [] t = colour_of t ≡ black
Blackened (f ∷ path) t = RootBlack (f ∷ path)

Blackened-down :
    (f : Frame) (path : List Frame) (t u : Tree)
    → f.colour ≡ colour_of t
    → Blackened path t
    → Blackened (f ∷ path) u
Blackened-down f [] t u e b = e ∙ b
Blackened-down f (g ∷ path) t u e b = b

Blackened-RootBlack : (path : List Frame) (t : Tree) → Blackened path t → RootBlack path
Blackened-RootBlack [] t b = tt
Blackened-RootBlack (f ∷ path) t b = b

module _ (compare : ℕ → ℕ → ℤ) where
  -- Where the search ends: the tree is as before, taken apart there.
  abbrev pub Ended : List Frame → Tree → ℕ → Found → Type 0
  Ended path t key (at_element p l r n c k) =
      (plug p (node l r n c k) ≡ plug path t)
      × (is_neg (compare k key) ≡ false)
      × (is_pos (compare k key) ≡ false)
      × (length p + 1 ≤ length path + height t)
  Ended path t key (at_null p) =
      (plug p null_element ≡ plug path t) × RootBlack p × (length p ≤ length path + height t)

  higher :
      (path below : List Frame) (t u : Tree) (key : ℕ) (end : Found)
      → plug below u ≡ plug path t
      → length below + height u ≤ length path + height t
      → Ended below u key end
      → Ended path t key end
  higher path below t u key (at_element p l r n c k) e h d = (d.0 ∙ e, d.1, d.2, omega (arith, d.3))
  higher path below t u key (at_null p) e h d = (d.0 ∙ e, d.1, omega (arith, d.2))

  pub descend_lem :
      (path : List Frame) (t : Tree) (key : ℕ)
      → Blackened path t
      → Ended path t key (descend compare path t key)
  unfolding descend colour_of
  descend_lem path null_element key b = (refl, Blackened-RootBlack path null_element b, omega arith)
  descend_lem path (node l r n c k) key b =
      let fr : Frame = record { side = to_right; other = l; count = n; colour = c; key = k } in
      let fl : Frame = record { side = to_left; other = r; count = n; colour = c; key = k } in
      let lower =
        descend_lem (fl ∷ path) l key (Blackened-down fl path (node l r n c k) l refl b) in
      let upper =
        descend_lem (fr ∷ path) r key (Blackened-down fr path (node l r n c k) r refl b) in
      let end_l : Found = descend compare (fl ∷ path) l key in
      let end_r : Found = descend compare (fr ∷ path) r key in
      elim (Bool-cases (is_neg (compare k key))) [
        | inl neg ↦
            subst
              (λ x. Ended path (node l r n c k) key (
                if x
                then end_r
                else if is_pos (compare k key)
                then end_l
                else at_element path l r n c k))
              (sym neg)
              (higher path (fr ∷ path) (node l r n c k) r key end_r refl (omega arith) upper)
        | inr not_neg ↦
            subst
              (λ x. Ended path (node l r n c k) key (
                if x
                then end_r
                else if is_pos (compare k key)
                then end_l
                else at_element path l r n c k))
              (sym not_neg)
              (elim (Bool-cases (is_pos (compare k key))) [
                | inl above ↦
                    subst
                      (λ x.
                        Ended path (node l r n c k) key
                          (if x then end_l else at_element path l r n c k))
                      (sym above)
                      (higher path (fl ∷ path) (node l r n c k) l key end_l refl (omega arith)
                        lower)
                | inr equal ↦
                    subst
                      (λ x.
                        Ended path (node l r n c k) key
                          (if x then end_l else at_element path l r n c k))
                      (sym equal) (refl, not_neg, equal, omega arith)
              ])
      ]
