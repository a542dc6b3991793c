-- ===== src/Kv.antt =====
-- The header store of usr.sbin/httpd/httpd.c: `kv_add`, `kv_set`, `kv_setkey`, `kv_delete`,
-- `kv_extend`, `kv_purge`, `kv_free`, `kv_find` and `kv_cmp`. The red-black tree of sys/tree.h is a
-- list of its nodes in order, the children of a node a list; a pointer into the tree is the key of
-- its node and, for a child, its place among the children. Allocation is assumed to succeed.
pub mod Find
pub mod Order
use Prim.Native.Nat.{Ordering, compare}
use fuzz_httpd.Base.{
  ℕ, zero, suc, ◌+◌, Bool, true, false, List, [], ◌∷◌, ◌++◌, ◌≡◌, refl, Option, none, some, Bytes,
  codes, to_lower, length, get_elem?, set, ◌==◌, if◌then◌else◌,
}

-- the three ways a comparison can go
abbrev pub by_order {ℓ} : {A : Type ℓ} → Ordering → A → A → A → A
by_order Ordering.lt x y z = x
by_order Ordering.eq x y z = y
by_order Ordering.gt x y z = z

-- `strcasecmp`, as the sign of its result
unfoldable pub case_compare : Bytes → Bytes → Ordering
unfolding to_lower
case_compare [] [] = Ordering.eq
case_compare [] (d ∷ t) = Ordering.lt
case_compare (c ∷ s) [] = Ordering.gt
case_compare (c ∷ s) (d ∷ t) = elim (compare (to_lower c) (to_lower d)) [
  | Ordering.lt ↦ Ordering.lt
  | Ordering.eq ↦ case_compare s t
  | Ordering.gt ↦ Ordering.gt
]

-- A child: its own key and value. The value is NULL until it is set.
pub record Child : Type 0 where
  pub child_key : Bytes
  pub child_value : Option Bytes

pub record Kv : Type 0 where
  pub kv_key : Bytes
  pub kv_value : Option Bytes
  pub kv_children : List Child

abbrev pub Kvtree : Type 0
Kvtree = List Kv

-- `struct kv *` into a tree
pub record KvRef : Type 0 where
  pub node : Bytes
  pub child : Option ℕ

abbrev pub kv_cmp : Kv → Kv → Ordering
kv_cmp a b = case_compare a.kv_key b.kv_key

abbrev pub new_kv : Bytes → Option Bytes → Kv
new_kv key value = record { kv_key = key; kv_value = value; kv_children = [] }

abbrev pub add_child : Kv → Bytes → Option Bytes → Kv
add_child old key value = record old {
  kv_children = old.kv_children ++ record { child_key = key; child_value = value } ∷ [];
}

-- `RB_INSERT`, and the insertion at the tail of the children of the node that is already there
unfoldable pub kv_insert : Bytes → Option Bytes → Kvtree → Kvtree × KvRef
kv_insert key value [] = (new_kv key value ∷ [], record { node = key; child = none })
kv_insert key value (kv ∷ keys) =
    let rest = kv_insert key value keys in
    by_order (case_compare key kv.kv_key)
      (new_kv key value ∷ kv ∷ keys, record { node = key; child = none })
      (
        add_child kv key value ∷ keys,
        record { node = kv.kv_key; child = some (length kv.kv_children) },
      )
      (kv ∷ rest.0, rest.1)

-- `none` stands for NULL, for the key and for the result.
unfoldable pub kv_add : Kvtree → Option Bytes → Option Bytes → Kvtree × Option KvRef
unfolding kv_insert
kv_add keys none value = (keys, none)
kv_add keys (some key) value = let (keys', kv) = kv_insert key value keys in (keys', some kv)

-- `RB_FIND`
unfoldable pub kv_find : Kvtree → Bytes → Option Kv
kv_find [] key = none
kv_find (kv ∷ keys) key =
    let rest = kv_find keys key in by_order (case_compare key kv.kv_key) rest (some kv) rest

abbrev pub is_eq : Ordering → Bool
is_eq Ordering.eq = true
is_eq _ = false

-- The value, and the children, of the entry that a pointer means.
abbrev pub update_child : List Child → ℕ → (Option Bytes → Option Bytes) → List Child
update_child [] i f = []
update_child (c ∷ cs) zero f = record c { child_value = f c.child_value } ∷ cs
update_child (c ∷ cs) (suc i) f = c ∷ update_child cs i f

-- A node's children are kept or removed, as `keep` says; a child has none.
abbrev pub update_kv : Kv → Option ℕ → Bool → (Option Bytes → Option Bytes) → Kv
update_kv kv none keep f = record kv {
  kv_value = f kv.kv_value;
  kv_children = (if keep then kv.kv_children else []);
}
update_kv kv (some i) keep f = record kv { kv_children = update_child kv.kv_children i f }

unfoldable pub update : Kvtree → KvRef → Bool → (Option Bytes → Option Bytes) → Kvtree
update [] ref keep f = []
update (kv ∷ keys) ref keep f =
    if is_eq (case_compare ref.node kv.kv_key)
    then update_kv kv ref.child keep f ∷ keys
    else kv ∷ update keys ref keep f

-- `vasprintf` made the value.
unfoldable pub kv_set : Kvtree → KvRef → Bytes → Kvtree
unfolding update
kv_set keys kv value = update keys kv false (λ _. some value)

-- The key of an entry that is in no tree.
unfoldable pub kv_setkey : Kv → Bytes → Kv
kv_setkey kv key = record kv { kv_key = key }

abbrev pub extend : Bytes → Option Bytes → Option Bytes
extend value none = some value
extend value (some old) = some (old ++ value)

unfoldable pub kv_extend : Kvtree → Option KvRef → Bytes → Kvtree × Option KvRef
unfolding update
kv_extend keys none value = (keys, none)
kv_extend keys (some kv) value = (update keys kv true (extend value), some kv)

-- `RB_REMOVE` and the removal of the children
unfoldable pub kv_delete : Kvtree → Bytes → Kvtree
kv_delete [] key = []
kv_delete (kv ∷ keys) key =
    if is_eq (case_compare key kv.kv_key) then keys else kv ∷ kv_delete keys key

-- While there is a least node it is deleted; a round for each node is enough.
unfoldable pub purge_rounds : ℕ → Kvtree → Kvtree
unfolding kv_delete
purge_rounds fuel [] = []
purge_rounds zero (kv ∷ keys) = kv ∷ keys
purge_rounds (suc fuel) (kv ∷ keys) = purge_rounds fuel (kv_delete (kv ∷ keys) kv.kv_key)

unfoldable pub kv_purge : Kvtree → Kvtree
unfolding purge_rounds
kv_purge keys = purge_rounds (length keys) keys
