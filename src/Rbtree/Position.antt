-- ===== src/Rbtree/Position.antt =====
-- The searches of my_rbtree.c that keep a position: rbtree_search_edge, rbtree_search_next and
-- rbtree_search_key. The caller's stack `parents` begins with the null element; its capacity is the
-- caller's concern.
pub mod Step
use my_libs.Base.{
  ℕ, ◌≡◌, Bool, true, false, Option, none, some, List, [], ◌∷◌, if◌then◌else◌, ◌>>=◌,
}
use my_libs.Base.Int.{ℤ, pos, negsuc, is_neg, is_pos}
use my_libs.Rbtree.{
  Colour, Tree, null_element, node, Side, to_left, to_right, Frame, join, same_side, Rbtree,
}

-- The element that `**last_pos` is, and those below it in the stack. The links of the search say
-- which child of the one before each is.
pub record LastPos : Type 0 where
  pub path : List Frame
  pub left : Tree
  pub right : Tree
  pub count : ℕ
  pub colour : Colour
  pub key : ℕ

-- ELEMENT_CHILD
abbrev pub element_child : Side → Tree → Tree → Tree
element_child to_left l r = l
element_child to_right l r = r

-- The way down by one link, from the element at the end of the path; `last` is the top of the
-- stack, and `none` is the null element at its bottom.
unfoldable pub edge_from : Side → List Frame → Tree → Option LastPos → Option LastPos
edge_from child_offs path null_element last = last
edge_from to_left path (node l r n c k) last =
    edge_from to_left (record { side = to_left; other = r; count = n; colour = c; key = k } ∷ path)
      l (some (record { path = path; left = l; right = r; count = n; colour = c; key = k }))
edge_from to_right path (node l r n c k) last =
    edge_from to_right
      (record { side = to_right; other = l; count = n; colour = c; key = k } ∷ path) r
      (some (record { path = path; left = l; right = r; count = n; colour = c; key = k }))

-- rbtree_search_edge: the position, whose key is the result; `none` is NULL.
unfoldable pub rbtree_search_edge : Rbtree → Side → Option LastPos
unfolding edge_from
rbtree_search_edge tree child_offs = edge_from child_offs [] tree.root none

-- The element of a frame with a child on the side taken.
abbrev pub place_of : Frame → List Frame → Tree → LastPos
place_of f path t = elim f.side [
  | to_left ↦ record {
    path = path;
    left = t;
    right = f.other;
    count = f.count;
    colour = f.colour;
    key = f.key;
  }
  | to_right ↦ record {
    path = path;
    left = f.other;
    right = t;
    count = f.count;
    colour = f.colour;
    key = f.key;
  }
]

-- The way up while `x` is the child on that side.
unfoldable pub climb_from : Side → List Frame → Tree → Option LastPos
unfolding same_side
climb_from r_offs [] x = none
climb_from r_offs (f ∷ path) x =
    let rest = climb_from r_offs path (join f x) in
    if same_side f.side r_offs then rest else some (place_of f path x)

-- The frame of an element whose child on a side is passed.
abbrev pub frame_of : Side → LastPos → Frame
frame_of s p = record {
  side = s;
  other = elim s [ to_left ↦ p.right | to_right ↦ p.left ];
  count = p.count;
  colour = p.colour;
  key = p.key;
}

-- rbtree_search_next: `none` is NULL, with the null element on top of the stack.
unfoldable pub rbtree_search_next : LastPos → Side → Side → Option LastPos
unfolding edge_from climb_from
rbtree_search_next x l_offs r_offs =
    let climbed = climb_from r_offs x.path (node x.left x.right x.count x.colour x.key) in
    elim (element_child r_offs x.left x.right) [
      | null_element ↦ climbed
      | node l r n c k ↦ edge_from l_offs (frame_of r_offs x ∷ x.path) (node l r n c k) none
    ]

pub data HaReadFunc : Type 0 where
  ha_read_key_exact : HaReadFunc
  ha_read_key_or_next : HaReadFunc
  ha_read_key_or_prev : HaReadFunc
  ha_read_after_key : HaReadFunc
  ha_read_before_key : HaReadFunc
  ha_read_prefix : HaReadFunc
  ha_read_prefix_last : HaReadFunc
  ha_read_prefix_last_or_prev : HaReadFunc
  ha_read_mbr_contain : HaReadFunc
  ha_read_mbr_intersect : HaReadFunc
  ha_read_mbr_within : HaReadFunc
  ha_read_mbr_disjoint : HaReadFunc
  ha_read_mbr_equal : HaReadFunc

-- What an equal element does: whether it is kept as the last equal one, and the new `cmp`.
pub on_equal : HaReadFunc → Option (Bool × ℤ)
on_equal ha_read_key_exact = some (true, pos 1)
on_equal ha_read_key_or_next = some (true, pos 1)
on_equal ha_read_before_key = some (true, pos 1)
on_equal ha_read_after_key = some (false, negsuc 0)
on_equal ha_read_prefix_last = some (true, negsuc 0)
on_equal ha_read_prefix_last_or_prev = some (true, negsuc 0)
on_equal _ = none

-- The variables of the search.
pub record Steps : Type 0 where
  pub last_left_step_parent : Option LastPos
  pub last_right_step_parent : Option LastPos
  pub last_equal_element : Option LastPos

or_else : Option LastPos → Option LastPos → Option LastPos
or_else none b = b
or_else (some a) b = some a

-- `*last_pos`; `none` if there is no such search.
pub choose : HaReadFunc → Steps → Option (Option LastPos)
unfolding or_else
choose ha_read_key_exact s = some s.last_equal_element
choose ha_read_prefix_last s = some s.last_equal_element
choose ha_read_key_or_next s = some (or_else s.last_equal_element s.last_left_step_parent)
choose ha_read_after_key s = some s.last_left_step_parent
choose ha_read_prefix_last_or_prev s = some (or_else s.last_equal_element s.last_right_step_parent)
choose ha_read_before_key s = some s.last_right_step_parent
choose _ s = none

module _ (compare : ℕ → ℕ → ℤ) where
  -- The loop from the element at the end of the path.
  pub key_from : HaReadFunc → ℕ → List Frame → Tree → Steps → Option Steps
  unfolding on_equal
  key_from flag key path null_element s = some s
  key_from flag key path (node l r n c k) s =
      let here : Option LastPos =
        some (record { path = path; left = l; right = r; count = n; colour = c; key = k }) in
      let fr : Frame = record { side = to_right; other = l; count = n; colour = c; key = k } in
      let fl : Frame = record { side = to_left; other = r; count = n; colour = c; key = k } in
      let cmp = compare k key in
      let to_right_of : Steps → Option Steps =
        λ s. key_from flag key (fr ∷ path) r (record s { last_right_step_parent = here }) in
      let to_left_of : Steps → Option Steps =
        λ s. key_from flag key (fl ∷ path) l (record s { last_left_step_parent = here }) in
      if is_neg cmp
      then to_right_of s
      else if is_pos cmp
      then to_left_of s
      else (on_equal flag >>= λ (keep, turn).
          let s' = if keep then record s { last_equal_element = here } else s in
          if is_neg turn then to_right_of s' else to_left_of s')

  -- rbtree_search_key: what it writes to `*last_pos`, whose key, or NULL, is the result; `none` if
  -- the result is NULL and nothing is written.
  pub rbtree_search_key : Rbtree → ℕ → HaReadFunc → Option (Option LastPos)
  unfolding key_from choose
  rbtree_search_key tree key flag =
      key_from flag key [] tree.root (record {
        last_left_step_parent = none;
        last_right_step_parent = none;
        last_equal_element = none;
      })
      >>= λ s. choose flag s
