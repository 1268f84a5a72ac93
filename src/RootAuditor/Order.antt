-- ===== src/RootAuditor/Order.antt =====
-- The verdict depends on the leaves, and not on the order in which they are listed.
use mathlib.Core.List.{Nodup-cons, mem-cons_self}
use mathlib.Core.List.{Permᴰ}
use mathlib.Core.List.Perm
use mathlib.Core.HLevel.{hedberg}
use native.Mathlib.Decide.{ℕ_discrete}
use mathlib.Core.Logic.{∥∥₁_elim}
use shade.Shared.{
  ℕ, ◌≡◌, ◌≢◌, refl, sym, subst, ◌∙◌, String, List, [], ◌∷◌, map, Mem, Nodup, Perm, arith, inl, inr,
  ◌==◌, eq_iff, ne_of_test, Bool-cases,
}
use shade.Shared.Results.{Result}
use shade.RootAuditor.{DepositLeaf, insert_leaf, sort_leaves, compare_roots}

abbrev pub indexes : List DepositLeaf → List ℕ
indexes leaves = map (λ (d : DepositLeaf). d.leaf_index) leaves

insert_leaf_comm :
    (a b : DepositLeaf) (l : List DepositLeaf)
    → a.leaf_index ≢ b.leaf_index
    → insert_leaf a (insert_leaf b l) ≡ insert_leaf b (insert_leaf a l)
unfolding insert_leaf
insert_leaf_comm a b [] h = ground arith
insert_leaf_comm a b (c ∷ l) h = ground (arith, insert_leaf_comm a b l h)

head_ne :
    (a b : DepositLeaf) (l : List DepositLeaf)
    → Nodup (indexes (a ∷ b ∷ l))
    → a.leaf_index ≢ b.leaf_index
head_ne a b l h e = (Nodup-cons.0 h).0 (subst (λ i. Mem i (indexes (b ∷ l))) (sym e) mem-cons_self)

sort_leaves-Permᴰ :
    {xs ys : List DepositLeaf} → Permᴰ xs ys → Nodup (indexes xs) → sort_leaves xs ≡ sort_leaves ys
unfolding sort_leaves
sort_leaves-Permᴰ Permᴰ.nil n = refl
sort_leaves-Permᴰ (Permᴰ.cons e p) n = cc (sort_leaves-Permᴰ p (Nodup-cons.0 n).1)
sort_leaves-Permᴰ (Permᴰ.swap {a} {b} {a'} {b'} {l} e f) n =
    cc (insert_leaf_comm a b (sort_leaves l) (head_ne a b l n))
sort_leaves-Permᴰ (Permᴰ.trans p q) n =
    sort_leaves-Permᴰ p n
    ∙ sort_leaves-Permᴰ q (Perm.nodup (Perm.map (λ (d : DepositLeaf). d.leaf_index) ∣ p ∣₁) n)

text_discrete : Discrete String
text_discrete s t = elim (Bool-cases (s == t)) [
  | inl same ↦ yes ((eq_iff s t).0 same)
  | inr apart ↦ no (ne_of_test s t apart)
]

leaves_discrete : Discrete (List DepositLeaf)
leaves_discrete = hlevel (text_discrete, ℕ_discrete)

-- Listings of the same leaves, no two of one index, get the same verdict.
pub compare_roots-Perm :
    (compute_root : List String → Result ℕ) (pool root source : String) {xs ys : List DepositLeaf}
    → Perm xs ys
    → Nodup (indexes xs)
    → compare_roots compute_root pool xs root source
      ≡ compare_roots compute_root pool ys root source
unfolding compare_roots
compare_roots-Perm compute_root pool root source {xs} {ys} p n =
    let same : sort_leaves xs ≡ sort_leaves ys =
      ∥∥₁_elim p (hedberg leaves_discrete _ _) (λ q. sort_leaves-Permᴰ q n) in
    rw same refl
