-- ===== src/DynHash/Linked.antt =====
-- A list of links whose used places lie on the chains of their homes.
use my_libs.Base.{ℕ, ◌<◌, ◌≡◌, ◌≢◌, ◌⊎◌, ap, ◌∙◌, arith, ℕ_discrete, length, List, set, get_or-set}
use my_libs.DynHash.{MyHashLink, no_record}
use my_libs.DynHash.Chains.{Chains, upd}
use my_libs.DynHash.Shrink.{chains_ext}
use my_libs.DynHash.Valid.{no_link, next_of, item_of}

-- `home` is the home of a record.
pub record Linked (home : ℕ → ℕ) (n e : ℕ) (links : List MyHashLink) : Type 0 where
  pub places : length links ≡ n
  pub ends : (i : ℕ) → i < n → i ≢ e → (next_of links i < n) ⊎ (next_of links i ≡ no_record)
  pub chains : Chains n e (λ i. home (item_of links i)) (next_of links)

module _ (links : List MyHashLink) (i : ℕ) (l : MyHashLink) (h : i < length links) where
  pub next_of-set : (j : ℕ) → next_of (set links i l) j ≡ upd (next_of links) i l.next j
  next_of-set j = elim (ℕ_discrete i j) [
    | yes same ↦ ap (λ k. k.next) (get_or-set links i j l no_link h) ∙ ground arith
    | no other ↦ ap (λ k. k.next) (get_or-set links i j l no_link h) ∙ ground arith
  ]

  pub item_of-set : (j : ℕ) → item_of (set links i l) j ≡ upd (item_of links) i l.item_data j
  item_of-set j = elim (ℕ_discrete i j) [
    | yes same ↦ ap (λ k. k.item_data) (get_or-set links i j l no_link h) ∙ ground arith
    | no other ↦ ap (λ k. k.item_data) (get_or-set links i j l no_link h) ∙ ground arith
  ]

-- From the chains by homes and links that are those of the list.
pub gathered :
    {home : ℕ → ℕ} {n e : ℕ} {links : List MyHashLink} {homes nexts : ℕ → ℕ}
    → length links ≡ n
    → Chains n e homes nexts
    → ((i : ℕ) → i < n → i ≢ e → home (item_of links i) ≡ homes i)
    → ((i : ℕ) → i < n → i ≢ e → next_of links i ≡ nexts i)
    → ((i : ℕ) → i < n → i ≢ e → (nexts i < n) ⊎ (nexts i ≡ no_record))
    → Linked home n e links
gathered {home} {n} {e} {links} {homes} {nexts} places c homes_are nexts_are ends = record {
  places = places;
  ends = λ i i_in u. ground (arith, ends i i_in u, nexts_are i i_in u);
  chains = chains_ext c homes_are nexts_are;
}
