-- ===== src/DynHash/Place.antt =====
-- The second half of my_hash_insert: a record goes to the chain of its home, through the free place.
use my_libs.Base.{
  ℕ, ◌+◌, ◌≤◌, ◌<◌, ◌≡◌, ◌≢◌, inl, inr, refl, sym, ap, ◌∙◌, arith, ◌==◌, if◌then◌else◌, ℕ_discrete,
  length, List, some, Option, ◌>>=◌, set, get_or, length-set,
}
use my_libs.DynHash.{
  MyHashLink, MyHash, no_record, put_link, put_next, movelink, my_hash_mask, my_hash_rec_mask,
  rec_hashnr,
}
use my_libs.DynHash.Chains.{Chains, upd, settled, joined, moved}
use my_libs.DynHash.Movelink.{movelink_lem}
use my_libs.DynHash.Linked.{Linked, next_of-set, item_of-set, gathered}
use my_libs.DynHash.Valid.{no_link, next_of, item_of, link_at_lem, put_link_lem, put_next_lem}
use my_libs.DynHash.Insert.{place_record}

-- The links after a record has been placed, and their records.
pub record Placed (home : ℕ → ℕ) (n : ℕ) (items : ℕ → ℕ) (result : Option (List MyHashLink))
    : Type 0 where
  pub links : List MyHashLink
  pub result_is : result ≡ some links
  pub linked : Linked home n n links
  pub items_are : (i : ℕ) → i < n → item_of links i ≡ items i

abbrev alone : ℕ → MyHashLink
alone item = record { next = no_record; item_data = item }

module _ {home : ℕ → ℕ} {n e : ℕ} {links : List MyHashLink} (t : Linked home n e links)
    (e_in : e < n) (nr_out : n ≤ no_record) where
  -- The free place is the home of the record.
  place_alone :
      (item : ℕ)
      → home item ≡ e
      → Placed home n (upd (item_of links) e item) (put_link links e (alone item))
  place_alone item own =
      let fits : e < length links = omega (arith, t.places) in
      let nexts = next_of-set links e (alone item) fits in
      let items = item_of-set links e (alone item) fits in
      record {
        links = set links e (alone item);
        result_is = put_link_lem links e (alone item) fits;
        linked =
            gathered (length-set links e (alone item) ∙ t.places)
              (settled t.chains e_in no_record nr_out)
              (λ i i_in u. ground (arith, ap home (items i))) (λ i i_in u. nexts i)
              (λ i i_in u. ground (arith, t.ends i));
        items_are = λ i i_in. items i;
      }

  -- The home of the record is the start of a chain: the record gets one of two places on it.
  pub place_behind :
      (h : ℕ) (le lh : MyHashLink)
      → h < n
      → h ≢ e
      → home (item_of links h) ≡ h
      → le.next ≡ next_of links h
      → lh.next ≡ e
      → home le.item_data ≡ h
      → home lh.item_data ≡ h
      → Linked home n n (set (set links e le) h lh)
        × ((i : ℕ)
            → i < n
            → item_of (set (set links e le) h lh) i
              ≡ upd (upd (item_of links) e le.item_data) h lh.item_data i)
  place_behind h le lh h_in h_used own le_next lh_next le_home lh_home =
      let fits : e < length links = omega (arith, t.places) in
      let same : length (set links e le) ≡ n = length-set links e le ∙ t.places in
      let fits' : h < length (set links e le) = omega (arith, same) in
      let nexts = next_of-set links e le fits in
      let items = item_of-set links e le fits in
      let nexts' = next_of-set (set links e le) h lh fits' in
      let items' = item_of-set (set links e le) h lh fits' in
      (
        gathered (length-set (set links e le) h lh ∙ same) (joined t.chains e_in h h_in h_used own)
            (λ i i_in u. ground (arith, items i, items' i, ap home (items' i), ap home (items i)))
            (λ i i_in u. ground (arith, nexts i, nexts' i, t.ends h))
            (λ i i_in u. ground (arith, t.ends i, t.ends h)),
        λ i i_in. ground (arith, items i, items' i),
      )

  -- A record at the home that belongs elsewhere gives way: the chains after that.
  abbrev pub homes_instead : ℕ → ℕ → ℕ
  homes_instead a = upd (upd (λ i. home (item_of links i)) e (home (item_of links a))) a a

  abbrev pub nexts_instead : ℕ → ℕ → ℕ → ℕ
  nexts_instead a q = upd (upd (upd (next_of links) e (next_of links a)) q e) a no_record

  -- The link before the place `a`, on the chain that starts at `start`.
  abbrev pub Before : ℕ → ℕ → Type 0
  Before a q = (q < n) × (q ≢ e) × (next_of links q ≡ a) × (q ≢ a)

  pub chains_instead :
      (a q : ℕ)
      → a < n
      → a ≢ e
      → home (item_of links a) ≢ a
      → Before a q
      → Chains n n (homes_instead a) (nexts_instead a q)
  chains_instead a q a_in a_used away b =
      settled (moved t.chains e_in a q a_in a_used away b.0 b.1 b.2) a_in no_record nr_out

  has_before :
      (a : ℕ)
      → a < n
      → a ≢ e
      → home (item_of links a) ≢ a
      → (q : ℕ) × (q < n) × (q ≢ e) × (next_of links q ≡ a)
  has_before a a_in a_used away = elim (t.chains.reached a a_in a_used) [
    | inl own ↦ absurd (away own)
    | inr q ↦ q
  ]

  -- movelink finds that link.
  pub movelink-Before :
      (links' : List MyHashLink) (a newlink : ℕ)
      → a < n
      → a ≢ e
      → home (item_of links a) ≢ a
      → n ≤ length links'
      → ((i : ℕ) → i < n → i ≢ e → i ≢ a → next_of links' i ≡ next_of links i)
      → (q : ℕ) × Before a q
        × (movelink links' a (home (item_of links a)) newlink ≡ put_next links' q newlink)
  movelink-Before links' a newlink a_in a_used away fits same =
      let (p, p_in, p_used, into) = has_before a a_in a_used away in
      let s = t.chains.step p p_in p_used (ground arith) in
      let (q, q_in, q_used, q_home, q_next, q_apart, e') =
        movelink_lem t.chains links' a newlink fits same (home (item_of links a)) p p_in p_used
          (sym s.1 ∙ ap (λ i. home (item_of links i)) into) away into in
      (q, (q_in, q_used, q_next, q_apart), e')

  place_instead :
      (a item : ℕ)
      → a < n
      → a ≢ e
      → home (item_of links a) ≢ a
      → home item ≡ a
      → let links' = set (set links e (get_or links a no_link)) a (alone item) in
        Placed home n
          (upd (upd (item_of links) e (item_of links a)) a item)
          (movelink links' a (home (item_of links a)) e)
  place_instead a item a_in a_used away own =
      let le = get_or links a no_link in
      let one = set links e le in
      let two = set one a (alone item) in
      let fits : e < length links = omega (arith, t.places) in
      let same : length one ≡ n = length-set links e le ∙ t.places in
      let fits' : a < length one = omega (arith, same) in
      let same' : length two ≡ n = length-set one a (alone item) ∙ same in
      let nexts = next_of-set links e le fits in
      let items = item_of-set links e le fits in
      let nexts' = next_of-set one a (alone item) fits' in
      let items' = item_of-set one a (alone item) fits' in
      let (q, b, e') =
        movelink-Before two a e a_in a_used away (omega (arith, same'))
          (λ i i_in u apart. ground (arith, nexts i, nexts' i)) in
      let lq : MyHashLink = record { next = e; item_data = item_of two q } in
      let fits'' : q < length two = omega (arith, same', b.0) in
      let nexts'' = next_of-set two q lq fits'' in
      let items'' = item_of-set two q lq fits'' in
      let all_items : (i : ℕ)
          → i < n
          → item_of (set two q lq) i ≡ upd (upd (item_of links) e (item_of links a)) a item i =
        λ i i_in.
          ground (arith, items'' i, items' i, items i, items' q, items q, ap (item_of two)) in
      record {
        links = set two q lq;
        result_is = e' ∙ put_next_lem two q e fits'';
        linked =
            gathered (length-set two q lq ∙ same') (chains_instead a q a_in a_used away b)
              (λ i i_in u. ground (arith, ap home (all_items i i_in)))
              (λ i i_in u. ground (arith, nexts'' i, nexts' i, nexts i, b))
              (λ i i_in u. ground (arith, t.ends i, t.ends a));
        items_are = all_items;
      }

module _ (info : MyHash) (links : List MyHashLink) (e item : ℕ) where
  abbrev grown_home : ℕ → ℕ
  grown_home x = my_hash_mask (rec_hashnr info x) info.blength (info.records + 1)

  -- What the second half does in its three cases.
  place_record-alone :
      grown_home item ≡ e → place_record info links e item ≡ put_link links e (alone item)
  unfolding place_record
  place_record-alone own = ground (arith, ap (λ i. put_link links i (alone item)) own)

  place_record_other :
      let idx = grown_home item in
      let there = get_or links idx no_link in
      let one = set links e there in
      idx ≢ e
      → idx < length links
      → e < length links
      → place_record info links e item ≡ (
          if idx == grown_home there.item_data
          then put_link one idx (record { next = e; item_data = item })
          else (put_link one idx (alone item) >>= λ two.
              movelink two idx (grown_home there.item_data) e))
  unfolding place_record my_hash_rec_mask
  place_record_other apart idx_in e_in =
      let idx = grown_home item in
      let there = get_or links idx no_link in
      ground (arith, link_at_lem links idx idx_in, put_link_lem links e there e_in)

  -- The second half of my_hash_insert puts the record onto the chain of its home.
  pub place_record_lem :
      {n : ℕ}
      → Linked grown_home n e links
      → e < n
      → n ≤ no_record
      → grown_home item < n
      → Placed grown_home n
          (upd (upd (item_of links) e (item_of links (grown_home item))) (grown_home item) item)
          (place_record info links e item)
  place_record_lem t e_in nr_out idx_in =
      let idx = grown_home item in
      let there = get_or links idx no_link in
      let one = set links e there in
      let e_fits : e < length links = omega (arith, t.places) in
      let idx_fits : idx < length links = omega (arith, t.places) in
      let idx_fits' : idx < length one = omega (arith, idx_fits, length-set links e there) in
      elim (ℕ_discrete idx e) [
        | yes same ↦
            let p = place_alone t e_in nr_out item same in
            record {
              links = p.links;
              result_is = place_record-alone same ∙ p.result_is;
              linked = p.linked;
              items_are = λ i i_in. ground (arith, p.items_are i i_in);
            }
        | no apart ↦ elim (ℕ_discrete (grown_home there.item_data) idx) [
          | yes own ↦
              let lh : MyHashLink = record { next = e; item_data = item } in
              let (linked, items) =
                place_behind t e_in nr_out idx there lh idx_in apart own refl refl own refl in
              record {
                links = set one idx lh;
                result_is = ground (
                  arith,
                  place_record_other apart idx_fits e_fits,
                  put_link_lem one idx lh idx_fits',
                );
                linked = linked;
                items_are = items;
              }
          | no away ↦
              let p = place_instead t e_in nr_out idx item idx_in apart away refl in
              record {
                links = p.links;
                result_is = ground (
                  arith,
                  place_record_other apart idx_fits e_fits,
                  put_link_lem one idx (alone item) idx_fits',
                  p.result_is,
                );
                linked = p.linked;
                items_are = p.items_are;
              }
        ]
      ]
