-- ===== src/DynHash/Tests.antt =====
-- Runs of the functions of my_dyn_hash.c on a table of numbers, each its own key and hash value.
use my_libs.Base.{
  ◌%◌, ◌≢◌, u32, ℕ, ◌+◌, ◌≡◌, ◌≢◌, ap, refl, true, false, Option, some, none, List, [], ◌∷◌, ◌>>=◌,
  if◌then◌else◌, ◌==◌, get_or, arith, ◌<◌, ◌-◌, ◌^◌, ◌⊎◌,
}
use my_libs.Base.Int.{sub_ℕ}
use my_libs.DynHash.{
  MyHashLink, MyHash, Charset, no_record, link_at, put_link, put_next, hash_calc, my_hash_key,
  my_hash_mask, rec_hashnr, my_hash_rec_mask, length_or, my_hash_calc, hashcmp, next_from,
  first_from, my_hash_first_from_hash_value, my_hash_first, my_hash_search, my_hash_next,
  movelink_from, movelink,
}
use my_libs.DynHash.Insert.{
  put_at, low_key, high_key, split_from, split_ends, split_chain, place_record, my_hash_insert,
}
use my_libs.DynHash.Valid.{IsValid, home, next_of, item_of}
use my_libs.DynHash.Check.{
  each_below, each_below-lt, are_chains, are_chains-Chains, are_ends, are_ends_lem,
}
use my_libs.DynHash.Update.{Changed, Updated, my_hash_update_lem}
use my_libs.DynHash.Remove.{linked, Deleted, my_hash_delete-IsValid}
use my_libs.DynHash.Lookup.{LookedUp, my_hash_search_lem}
use my_libs.DynHash.Search.{Along, FromHome, my_hash_first_from_hash_value_lem, my_hash_next_lem}
use my_libs.DynHash.Mask.{my_hash_mask-lt, my_hash_mask-suc}
use my_libs.DynHash.Delete.{
  find_record, unlink_record, move_last, pop_link, delete_record, my_hash_delete, other_with_key,
  relink, my_hash_update,
}

abbrev at : ℕ → ℕ → MyHashLink
at item next = record { next = next; item_data = item }

abbrev numbers : Charset
numbers = record { hash_sort = λ k n. k; strnncoll = λ a n b m. sub_ℕ a b }

abbrev table : ℕ → ℕ → List MyHashLink → MyHash
table blength records links = record {
  key_offset = 0;
  key_length = 1;
  blength = blength;
  records = records;
  is_unique = true;
  array = links;
  get_key = none;
  has_free = true;
  hash_function = λ k n. k;
}

abbrev insert_all : List ℕ → MyHash → Option (ℕ × MyHash)
unfolding my_hash_insert
insert_all [] hash = some (0, hash)
insert_all (x ∷ xs) hash =
    my_hash_insert numbers hash (some (at 77 88)) x >>= λ r. insert_all xs r.1

built :
    insert_all (5 ∷ 1 ∷ 9 ∷ 4 ∷ 6 ∷ []) (table 1 0 [])
    ≡ some (0, table 8 5 (at 1 3 ∷ at 9 0 ∷ at 6 no_record ∷ at 5 no_record ∷ at 4 no_record ∷ []))
unfolding my_hash_insert link_at put_link put_next hash_calc my_hash_key my_hash_mask rec_hashnr
    my_hash_rec_mask length_or my_hash_calc hashcmp next_from first_from
    my_hash_first_from_hash_value my_hash_first my_hash_search my_hash_next movelink_from movelink
    put_at low_key high_key split_from split_ends split_chain place_record
built = refl

-- Records on three chains, one of them with three records.
abbrev numbered : MyHash
numbered = table 8 5 (at 1 3 ∷ at 9 0 ∷ at 6 no_record ∷ at 5 no_record ∷ at 4 no_record ∷ [])

duplicate : my_hash_insert numbers numbered (some (at 77 88)) 9 ≡ some (1, numbered)
unfolding my_hash_insert link_at put_link put_next hash_calc my_hash_key my_hash_mask rec_hashnr
    my_hash_rec_mask length_or my_hash_calc hashcmp next_from first_from
    my_hash_first_from_hash_value my_hash_first my_hash_search
duplicate = refl

removed :
    my_hash_delete numbered 9
    ≡ some (0, (9 ∷ [], table 8 4 (at 4 no_record ∷ at 1 3 ∷ at 6 no_record ∷ at 5 no_record ∷ [])))
unfolding my_hash_delete delete_record u32 link_at put_link put_next hash_calc my_hash_key
    my_hash_mask rec_hashnr my_hash_rec_mask movelink_from movelink find_record unlink_record
    move_last pop_link
removed = refl

-- The key function of the table gives 9 for 6 too, whose key was 6 before.
abbrev renumbered : MyHash
renumbered = record numbered {
  get_key = some (λ item first. (if item == 6 then 9 else item, 1));
  is_unique = false;
}

updated :
    my_hash_update numbers renumbered 6 6 1
    ≡ some (
      0,
      record renumbered { array = at 1 3 ∷ at 9 2 ∷ at 6 0 ∷ at 5 no_record ∷ at 4 no_record ∷ [] },
    )
unfolding my_hash_update u32 link_at put_link put_next hash_calc my_hash_key my_hash_mask rec_hashnr
    my_hash_rec_mask length_or my_hash_calc movelink_from movelink find_record unlink_record relink
    other_with_key
updated = refl

abbrev in_numbered : List ℕ → ℕ → ℕ
in_numbered xs i = get_or xs i 0

numbered-IsValid : IsValid numbered
unfolding hash_calc my_hash_key my_hash_mask rec_hashnr are_chains are_ends each_below
numbered-IsValid = record {
  bits = 3;
  power = refl;
  narrow = omega arith;
  half = omega arith;
  room = omega arith;
  places = refl;
  ends = are_ends_lem 5 no_record (next_of numbered.array) refl;
  chains =
      are_chains-Chains 5 (home numbered) (next_of numbered.array)
        (in_numbered (1 ∷ 0 ∷ 0 ∷ 2 ∷ 0 ∷ [])) (in_numbered (1 ∷ 0 ∷ 0 ∷ 0 ∷ 0 ∷ [])) refl;
}

my_hash_delete-IsValid_example : Deleted numbered 9 (my_hash_delete numbered 9)
my_hash_delete-IsValid_example = my_hash_delete-IsValid numbered 9 numbered-IsValid (omega arith)

-- Records with the key 9 have its hash value.
nine_agrees :
    (l : MyHashLink)
    → hashcmp numbers numbered l 9 1 ≡ false
    → rec_hashnr numbered l.item_data ≡ my_hash_calc numbered 9 1
unfolding hashcmp rec_hashnr my_hash_calc hash_calc my_hash_key length_or
nine_agrees l h = ground arith

my_hash_search_lem_example :
    (x : ℕ) × (my_hash_search numbers numbered 9 1 ≡ some x) × LookedUp numbers numbered 9 1 x
my_hash_search_lem_example = my_hash_search_lem numbers numbered numbered-IsValid 9 1 nine_agrees

my_hash_next_lem_example :
    Along numbers numbered numbered-IsValid 5 1
      (next_of numbered.array 1)
      (my_hash_next numbers numbered 5 1 1)
my_hash_next_lem_example = my_hash_next_lem numbers numbered numbered-IsValid 5 1 1 (omega arith)

my_hash_mask-lt_example : my_hash_mask 13 8 5 < 5
my_hash_mask-lt_example =
    my_hash_mask-lt 13 8 5 (omega arith) (omega arith) (omega arith) (omega arith)

my_hash_mask-suc_example :
    (my_hash_mask 13 (2 ^ 3) 5 < 5)
    × ((13 % 2 ^ 3 ≢ 5) × (my_hash_mask 13 (2 ^ 3) (5 + 1) ≡ my_hash_mask 13 (2 ^ 3) 5)
        ⊎ (13 % 2 ^ 3 ≡ 5)
          × (my_hash_mask 13 (2 ^ 3) (5 + 1) ≡ 5)
          × (my_hash_mask 13 (2 ^ 3) 5 ≡ 5 - 2 ^ 2))
my_hash_mask-suc_example = my_hash_mask-suc 2 13 5 (omega arith) (omega arith) (omega arith)

only_six : (i : ℕ) → i < 5 → item_of numbered.array i ≡ 6 → i ≡ 2
unfolding each_below
only_six i i_in same =
    let each =
      each_below-lt 5 (λ k. if item_of numbered.array k == 6 then k == 2 else true) refl i i_in in
    ground (arith, each)

same_number : (x : ℕ) → x ≢ 6 → rec_hashnr numbered x ≡ rec_hashnr renumbered x
unfolding rec_hashnr hash_calc my_hash_key
same_number x other = ground arith

renumbered-Changed : Changed renumbered 6 2
unfolding rec_hashnr hash_calc my_hash_key my_hash_mask
renumbered-Changed = record {
  home_before = λ x. my_hash_mask (rec_hashnr numbered x) 8 5;
  old_home = refl;
  other_homes = λ x other. ap (λ h. my_hash_mask h 8 5) (same_number x other);
  at = 2;
  at_in = omega arith;
  at_is = refl;
  once = only_six;
  linked = linked numbered-IsValid;
  bits = 3;
  power = refl;
  narrow = omega arith;
  half = omega arith;
  room = omega arith;
}

my_hash_update_lem_example : Updated renumbered (my_hash_update numbers renumbered 6 6 1)
unfolding my_hash_calc hash_calc length_or my_hash_mask
my_hash_update_lem_example = my_hash_update_lem numbers renumbered 6 6 1 refl renumbered-Changed

my_hash_first_from_hash_value_lem_example :
    FromHome numbers numbered numbered-IsValid 5 1
      (my_hash_mask 17 8 5)
      (my_hash_first_from_hash_value numbers numbered 17 5 1)
my_hash_first_from_hash_value_lem_example =
    my_hash_first_from_hash_value_lem numbers numbered numbered-IsValid 5 1 17
