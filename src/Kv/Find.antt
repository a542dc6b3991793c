-- ===== src/Kv/Find.antt =====
-- What `kv_find` of httpd.c finds in a tree to which a header was added.
use Prim.Native.Nat.{Ordering}
use fuzz_httpd.Base.{
  ℕ, zero, suc, ◌≤◌, [], ◌∷◌, ◌≡◌, ◌≢◌, refl, ap, ◌∙◌, Option, none, some, Bytes, arith, inl, inr,
  length,
}
use fuzz_httpd.Kv.{
  by_order, case_compare, Kv, Kvtree, new_kv, add_child, kv_insert, kv_add, kv_find, kv_delete,
  purge_rounds, kv_purge,
}
use fuzz_httpd.Kv.Order.{
  case_compare_refl, case_compare-eq, case_compare-eq_symm, case_compare-lt_trans, Behind, Ordered,
  Ordering-cases,
}

-- The node of an added header: a new one, or the old node with one more child.
abbrev pub added : Bytes → Option Bytes → Option Kv → Kv
added key value none = new_kv key value
added key value (some kv) = add_child kv key value

find-Behind : (key : Bytes) (keys : Kvtree) → Behind key keys → kv_find keys key ≡ none
unfolding kv_find
find-Behind key [] l = refl
find-Behind key (kv ∷ keys) (h, l) = rw h (find-Behind key keys l)

Behind-trans :
    (a b : Bytes) (keys : Kvtree) → case_compare a b ≡ Ordering.lt → Behind b keys → Behind a keys
Behind-trans a b [] h l = tt
Behind-trans a b (kv ∷ keys) h (hk, l) =
    (case_compare-lt_trans a b kv.kv_key h hk, Behind-trans a b keys h l)

find_insert_same :
    (key j : Bytes) (value : Option Bytes) (keys : Kvtree)
    → Ordered keys
    → case_compare j key ≡ Ordering.eq
    → kv_find (kv_insert key value keys).0 j ≡ some (added key value (kv_find keys key))
unfolding kv_find kv_insert
find_insert_same key j value [] o e = rw e
find_insert_same key j value (kv ∷ keys) (behind, o) e =
    let same = case_compare-eq j key kv.kv_key e in
    elim (Ordering-cases (case_compare key kv.kv_key)) [
      | inl c ↦ rw (c, e, find-Behind key keys (Behind-trans key kv.kv_key keys c behind))
      | inr (inl c) ↦ rw (c, same, c)
      | inr (inr c) ↦ rw (c, same, c) (find_insert_same key j value keys o e)
    ]

case_compare-ne_eq :
    (key j k : Bytes)
    → case_compare j key ≢ Ordering.eq
    → case_compare key k ≡ Ordering.eq
    → case_compare j k ≢ Ordering.eq
case_compare-ne_eq key j k ne e h = ne (case_compare-eq j k key h ∙ case_compare-eq_symm key k e)

by_order_other {ℓ} : {A : Type ℓ} (o : Ordering) (x y : A) → o ≢ Ordering.eq → by_order o x y x ≡ x
by_order_other Ordering.lt x y ne = refl
by_order_other Ordering.eq x y ne = absurd (ne refl)
by_order_other Ordering.gt x y ne = refl

find_insert_other :
    (key j : Bytes) (value : Option Bytes) (keys : Kvtree)
    → case_compare j key ≢ Ordering.eq
    → kv_find (kv_insert key value keys).0 j ≡ kv_find keys j
unfolding kv_find kv_insert
find_insert_other key j value [] ne = by_order_other (case_compare j key) none _ ne
find_insert_other key j value (kv ∷ keys) ne = elim (Ordering-cases (case_compare key kv.kv_key)) [
  | inl c ↦ rw c (by_order_other (case_compare j key) _ (some (new_kv key value)) ne)
  | inr (inl c) ↦
      let other = case_compare-ne_eq key j kv.kv_key ne c in
      rw (
        c,
        by_order_other (case_compare j kv.kv_key) (kv_find keys j) (some (add_child kv key value))
            other,
        by_order_other (case_compare j kv.kv_key) (kv_find keys j) (some kv) other,
      )
  | inr (inr c) ↦ rw (c, find_insert_other key j value keys ne)
]

-- After a header was added to a tree in strict order, its key in any case finds the node that was
-- there with one more child, or else the new node; every other key finds what it found before.
pub kv_find-add :
    (keys : Kvtree) (key j : Bytes) (value : Option Bytes)
    → Ordered keys
    → kv_find (kv_add keys (some key) value).0 j
      ≡ by_order
          (case_compare j key)
          (kv_find keys j)
          (some (added key value (kv_find keys key)))
          (kv_find keys j)
unfolding kv_add
kv_find-add keys key j value o = elim (Ordering-cases (case_compare j key)) [
  | inl c ↦ rw (find_insert_other key j value keys (rw c (cc)), c)
  | inr (inl c) ↦ rw (find_insert_same key j value keys o c, c)
  | inr (inr c) ↦ rw (find_insert_other key j value keys (rw c (cc)), c)
]

delete_first : (kv : Kv) (keys : Kvtree) → kv_delete (kv ∷ keys) kv.kv_key ≡ keys
unfolding kv_delete
delete_first kv keys = rw (case_compare_refl kv.kv_key)

purge_rounds-nil : (fuel : ℕ) (keys : Kvtree) → length keys ≤ fuel → purge_rounds fuel keys ≡ []
unfolding purge_rounds
purge_rounds-nil fuel [] h = refl
purge_rounds-nil zero (kv ∷ keys) h = absurd (omega arith)
purge_rounds-nil (suc fuel) (kv ∷ keys) h =
    ap (purge_rounds fuel) (delete_first kv keys) ∙ purge_rounds-nil fuel keys (omega arith)

-- `kv_purge` ends with an empty tree.
pub kv_purge-nil : (keys : Kvtree) → kv_purge keys ≡ []
unfolding kv_purge
kv_purge-nil keys = purge_rounds-nil (length keys) keys (omega arith)
