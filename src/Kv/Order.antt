-- ===== src/Kv/Order.antt =====
-- `kv_cmp` of httpd.c is an order up to the case of letters, and `kv_add` keeps the tree in it.
use Prim.Native.Nat.{Ordering}
use fuzz_httpd.Base.{
  [], ◌∷◌, ◌≡◌, refl, sym, ap, subst, ◌∙◌, ℕ, Bool, true, if-intro, Option, none, some, Bytes, All,
  arith, inl, inr, ◌⊎◌,
}
use fuzz_httpd.Kv.{
  case_compare, Kv, Kvtree, KvRef, kv_insert, kv_add, is_eq, update_kv, update, extend, kv_extend,
}

pub case_compare_refl : (a : Bytes) → case_compare a a ≡ Ordering.eq
unfolding case_compare
case_compare_refl [] = refl
case_compare_refl (c ∷ s) = ground (arith, case_compare_refl s)

pub case_compare-gt :
    (a b : Bytes) → case_compare a b ≡ Ordering.gt → case_compare b a ≡ Ordering.lt
unfolding case_compare
case_compare-gt [] [] h = cc
case_compare-gt [] (d ∷ t) h = cc
case_compare-gt (c ∷ s) [] h = refl
case_compare-gt (c ∷ s) (d ∷ t) h = ground (arith, case_compare-gt s t)

pub case_compare-lt_trans :
    (a b c : Bytes)
    → case_compare a b ≡ Ordering.lt
    → case_compare b c ≡ Ordering.lt
    → case_compare a c ≡ Ordering.lt
unfolding case_compare
case_compare-lt_trans [] [] c h k = cc
case_compare-lt_trans [] (d ∷ t) [] h k = cc
case_compare-lt_trans [] (d ∷ t) (e ∷ u) h k = refl
case_compare-lt_trans (c ∷ s) [] u h k = cc
case_compare-lt_trans (c ∷ s) (d ∷ t) [] h k = cc
case_compare-lt_trans (c ∷ s) (d ∷ t) (e ∷ u) h k = ground (arith, case_compare-lt_trans s t u)

-- Two keys that differ in case only compare alike with every key.
pub case_compare-eq :
    (a b c : Bytes) → case_compare a b ≡ Ordering.eq → case_compare a c ≡ case_compare b c
unfolding case_compare
case_compare-eq [] [] c h = refl
case_compare-eq [] (d ∷ t) c h = cc
case_compare-eq (c ∷ s) [] u h = cc
case_compare-eq (c ∷ s) (d ∷ t) [] h = refl
case_compare-eq (c ∷ s) (d ∷ t) (e ∷ u) h = ground (arith, case_compare-eq s t u)

pub case_compare-eq_symm :
    (a b : Bytes) → case_compare a b ≡ Ordering.eq → case_compare b a ≡ Ordering.eq
case_compare-eq_symm a b h = sym (case_compare-eq a b a h) ∙ case_compare_refl a

-- All the keys of the tree lie behind `key`.
abbrev pub Behind : Bytes → Kvtree → Type 0
Behind key = All (λ kv. case_compare key kv.kv_key ≡ Ordering.lt)

-- The nodes stand in strict order, so that no two keys are the same up to case.
abbrev pub Ordered : Kvtree → Type 0
Ordered [] = Unit
Ordered (kv ∷ keys) = Behind kv.kv_key keys × Ordered keys

Behind-trans :
    (a b : Bytes) (keys : Kvtree) → case_compare a b ≡ Ordering.lt → Behind b keys → Behind a keys
Behind-trans a b [] h l = tt
Behind-trans a b (kv ∷ keys) h (hk, l) =
    (case_compare-lt_trans a b kv.kv_key h hk, Behind-trans a b keys h l)

-- To split on a comparison and keep the equation.
pub Ordering-cases : (o : Ordering) → (o ≡ Ordering.lt) ⊎ (o ≡ Ordering.eq) ⊎ (o ≡ Ordering.gt)
Ordering-cases Ordering.lt = inl refl
Ordering-cases Ordering.eq = inr (inl refl)
Ordering-cases Ordering.gt = inr (inr refl)

Behind-insert :
    (a key : Bytes) (value : Option Bytes) (keys : Kvtree)
    → case_compare a key ≡ Ordering.lt
    → Behind a keys
    → Behind a (kv_insert key value keys).0
unfolding kv_insert
Behind-insert a key value [] h l = (h, tt)
Behind-insert a key value (kv ∷ keys) h (hk, l) =
    elim (Ordering-cases (case_compare key kv.kv_key)) [
      | inl e ↦ rw e (h, (hk, l))
      | inr (inl e) ↦ rw e (hk, l)
      | inr (inr e) ↦ rw e (hk, Behind-insert a key value keys h l)
    ]

kv_insert-Ordered :
    (key : Bytes) (value : Option Bytes) (keys : Kvtree)
    → Ordered keys
    → Ordered (kv_insert key value keys).0
unfolding kv_insert
kv_insert-Ordered key value [] h = (tt, tt)
kv_insert-Ordered key value (kv ∷ keys) (behind, h) =
    elim (Ordering-cases (case_compare key kv.kv_key)) [
      | inl e ↦ rw e ((e, Behind-trans key kv.kv_key keys e behind), (behind, h))
      | inr (inl e) ↦ rw e (behind, h)
      | inr (inr e) ↦ rw e (
        Behind-insert kv.kv_key key value keys (case_compare-gt key kv.kv_key e) behind,
        kv_insert-Ordered key value keys h,
      )
    ]

-- Adding a header, a new one or one more of a key that is there, to a tree in strict order leaves
-- it in strict order.
pub kv_add-Ordered :
    (keys : Kvtree) (key value : Option Bytes) → Ordered keys → Ordered (kv_add keys key value).0
unfolding kv_add
kv_add-Ordered keys none value h = h
kv_add-Ordered keys (some key) value h = kv_insert-Ordered key value keys h

update_kv_key :
    (kv : Kv) (child : Option ℕ) (keep : Bool) (f : Option Bytes → Option Bytes)
    → (update_kv kv child keep f).kv_key ≡ kv.kv_key
update_kv_key kv none keep f = refl
update_kv_key kv (some i) keep f = refl

Behind_kv :
    (key : Bytes) (kv : Kv) (child : Option ℕ) (keep : Bool) (f : Option Bytes → Option Bytes)
    → case_compare key kv.kv_key ≡ Ordering.lt
    → case_compare key (update_kv kv child keep f).kv_key ≡ Ordering.lt
Behind_kv key kv child keep f h = ap (case_compare key) (update_kv_key kv child keep f) ∙ h

Behind-update :
    (key : Bytes) (keys : Kvtree) (ref : KvRef) (keep : Bool) (f : Option Bytes → Option Bytes)
    → Behind key keys
    → Behind key (update keys ref keep f)
unfolding update
Behind-update key [] ref keep f h = tt
Behind-update key (kv ∷ keys) ref keep f (hk, h) =
    if-intro (Behind key) (is_eq (case_compare ref.node kv.kv_key)) _ _
      (λ _. (Behind_kv key kv ref.child keep f hk, h))
      (λ _. (hk, Behind-update key keys ref keep f h))

update-Ordered :
    (keys : Kvtree) (ref : KvRef) (keep : Bool) (f : Option Bytes → Option Bytes)
    → Ordered keys
    → Ordered (update keys ref keep f)
unfolding update
update-Ordered [] ref keep f h = tt
update-Ordered (kv ∷ keys) ref keep f (hk, h) =
    if-intro Ordered (is_eq (case_compare ref.node kv.kv_key)) _ _
      (λ _. (subst (λ k. Behind k keys) (sym (update_kv_key kv ref.child keep f)) hk, h))
      (λ _. (Behind-update kv.kv_key keys ref keep f hk, update-Ordered keys ref keep f h))

-- To extend the value of a header leaves a tree in strict order in strict order.
pub kv_extend-Ordered :
    (keys : Kvtree) (kv : Option KvRef) (value : Bytes)
    → Ordered keys
    → Ordered (kv_extend keys kv value).0
unfolding kv_extend
kv_extend-Ordered keys none value h = h
kv_extend-Ordered keys (some kv) value h = update-Ordered keys kv true (extend value) h
